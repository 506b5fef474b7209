-- ===== src/Initiative/Authority.antt =====
-- The integration lane of internal/domain/initiative.go: which member may apply candidates to the
-- integration target, and in which worktree.
pub mod Laws
use comis_dev_crew.Base.{
  Bool, true, false, not, ◌&&◌, ◌||◌, List, [], ◌∷◌, Option, none, some, if◌then◌else◌, any,
  is_empty, ◌>>◌, refuse, when, ok,
}
use comis_dev_crew.Text.{Text, text_eq, ascii}
use comis_dev_crew.Field.{Checked, invalid}
use comis_dev_crew.Initiative.{DevelopmentInitiative}

unfoldable pub authorize_integration_write : DevelopmentInitiative → Text → Checked
authorize_integration_write initiative task_handle = do
  refuse (is_empty initiative.integration_owner_task) (
      invalid "integrationOwnerTask"
        "this initiative records no integration owner, so no task may integrate")
  refuse (not (text_eq task_handle initiative.integration_owner_task))
      (invalid "integrationOwnerTask" "only the recorded integration owner may apply candidates")
  ok tt

-- An entry of the map from tasks to worktree paths.
pub record HeldWorktree : Type 0 where
  pub task : Text
  pub path : Text

-- `own, held := worktreeByTask[taskHandle]`
unfoldable pub worktree_of : Text → List HeldWorktree → Option Text
worktree_of task_handle [] = none
worktree_of task_handle (held ∷ more) =
    let rest = worktree_of task_handle more in
    if text_eq held.task task_handle then some held.path else rest

-- The loop over the other entries: it returns the same error at whichever entry it stops.
unfoldable pub is_shared : Text → Text → List HeldWorktree → Bool
is_shared task_handle own worktrees =
    any (λ held. not (text_eq held.task task_handle) && text_eq held.path own) worktrees

unfoldable pub check_worktree : Text → List HeldWorktree → Option Text → Checked
check_worktree task_handle worktrees none =
    refuse true (invalid "integrationWorktree" "the integration owner holds no worktree of its own")
check_worktree task_handle worktrees (some own) = do
  refuse (is_empty own)
      (invalid "integrationWorktree" "the integration owner holds no worktree of its own")
  refuse (is_shared task_handle own worktrees) (
      invalid "integrationWorktree"
        "the integration worktree must not be shared with a component task")
  ok tt

unfoldable pub authorize_integration_worktree :
    DevelopmentInitiative → Text → List HeldWorktree → Checked
authorize_integration_worktree initiative task_handle worktrees = do
  authorize_integration_write initiative task_handle
  check_worktree task_handle worktrees (worktree_of task_handle worktrees)

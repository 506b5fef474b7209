-- ===== src/Initiative/Authority/Laws.antt =====
-- Lemmas on AuthorizeIntegrationWrite and AuthorizeIntegrationWorktree of
-- internal/domain/initiative.go.
use comis_dev_crew.Base.{
  ◌≡◌, ◌≢◌, refl, false, not, ◌&&◌, List, [], ◌∷◌, Option, none, some, arith, In, >>-eq-ok, ok,
  any-eq-false,
}
use comis_dev_crew.Text.{Text, text_eq}
use comis_dev_crew.Text.Laws.{text_eq_sound, text_eq_iff}
use comis_dev_crew.Initiative.{DevelopmentInitiative}
use comis_dev_crew.Initiative.Authority.{
  authorize_integration_write, authorize_integration_worktree, HeldWorktree, worktree_of, is_shared,
  check_worktree,
}

writer_is_owner :
    (initiative : DevelopmentInitiative) (task : Text)
    → authorize_integration_write initiative task ≡ ok tt
    → task ≡ initiative.integration_owner_task
unfolding authorize_integration_write
writer_is_owner initiative task h =
    text_eq_sound task initiative.integration_owner_task (ground arith)

checked_worktree_unshared :
    (task_handle : Text) (worktrees : List HeldWorktree) (found : Option Text)
    → check_worktree task_handle worktrees found ≡ ok tt
    → (own : Text) × (found ≡ some own) × (own ≢ []) × (is_shared task_handle own worktrees ≡ false)
unfolding check_worktree
checked_worktree_unshared t ws none h = cc
checked_worktree_unshared t ws (some []) h = cc
checked_worktree_unshared t ws (some (c ∷ cs)) h = (c ∷ cs, refl, (λ e. cc), ground arith)

-- Where the worktree is authorized, the task is the recorded owner, it holds a worktree with a
-- path, and every entry with that path is an entry of the task itself.
pub integration_worktree_unshared :
    (initiative : DevelopmentInitiative) (task_handle : Text) (worktrees : List HeldWorktree)
    → authorize_integration_worktree initiative task_handle worktrees ≡ ok tt
    → (own : Text) × (worktree_of task_handle worktrees ≡ some own)
      × (own ≢ [])
      × (task_handle ≡ initiative.integration_owner_task)
      × ((held : HeldWorktree) → In held worktrees → held.path ≡ own → held.task ≡ task_handle)
unfolding authorize_integration_worktree is_shared
integration_worktree_unshared initiative t ws h =
    let (write, check) =
      >>-eq-ok (authorize_integration_write initiative t) (check_worktree t ws (worktree_of t ws))
        h in
    let (own, found, full, alone) = checked_worktree_unshared t ws (worktree_of t ws) check in
    (
      own,
      found,
      full,
      writer_is_owner initiative t write,
      λ held m path.
          let other =
            any-eq-false
              (λ (held : HeldWorktree). not (text_eq held.task t) && text_eq held.path own) ws held
              alone m in
          text_eq_sound held.task t (ground (arith, other, (text_eq_iff held.path own).1 path)),
    )

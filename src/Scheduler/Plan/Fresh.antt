-- ===== src/Scheduler/Plan/Fresh.antt =====
-- The decisions of scheduleOneInitiative of internal/application/initiative_scheduler.go, before a
-- reason is given.
use mathlib.Core.Path.{subst}
use comis_dev_crew.Base.{
  some-injective, ◌≡◌, refl, sym, ap, ◌∙◌, inl, inr, false, List, [], ◌∷◌, ◌++◌, Option, none, some,
  In, In-cons, In-append, ok, refuse, require, >>-eq-ok, >>=-eq-ok, ok-injective,
}
use comis_dev_crew.Text.{Text, text_eq, member}
use comis_dev_crew.Task.{Task}
use comis_dev_crew.Initiative.{InitiativeComponent}
use comis_dev_crew.Scheduler.{InitiativeTaskSchedule}
use comis_dev_crew.Scheduler.Launch.{task_of}
use comis_dev_crew.Scheduler.Plan.{Members, member_decision, handles_loop, component_loop}

-- A new decision: not launchable, and in the state of its task.
pub record IsFresh (tasks : List Task) (decision : InitiativeTaskSchedule) : Type 0 where
  pub unmarked : decision.launchable ≡ false
  pub follows :
      (task : Task) → task_of decision.task_handle tasks ≡ some task → decision.state ≡ task.state

module _ (tasks : List Task) where
  abbrev pub AreFresh : List InitiativeTaskSchedule → Type 0
  AreFresh decisions =
      (decision : InitiativeTaskSchedule) → In decision decisions → IsFresh tasks decision

  member_decision-IsFresh :
      (handle repository : Text) (found : Option Task) (decision : InitiativeTaskSchedule)
      → task_of handle tasks ≡ found
      → member_decision handle repository found ≡ ok decision
      → IsFresh tasks decision
  unfolding member_decision
  member_decision-IsFresh handle repository none decision e h = cc
  member_decision-IsFresh handle repository (some task) decision e h =
      let (same_repository, made) =
        >>-eq-ok (require (text_eq task.repository_id repository) _) _ h in
      subst (IsFresh tasks) (ok-injective made) (record {
        unmarked = refl;
        follows = λ other e'. ap (λ (t : Task). t.state) (some-injective (sym e ∙ e'));
      })

  handles_loop-AreFresh :
      (repository : Text) (handles : List Text) (members after : Members)
      → AreFresh members.decisions
      → handles_loop tasks repository handles members ≡ ok after
      → AreFresh after.decisions
  unfolding handles_loop
  handles_loop-AreFresh repository [] members after fresh h =
      subst (λ (m : Members). AreFresh m.decisions) (ok-injective h) fresh
  handles_loop-AreFresh repository (handle ∷ handles) members after fresh h =
      let (a, h1) = >>-eq-ok (refuse (member handle members.owned) _) _ h in
      let (decision, made, h2) =
        >>=-eq-ok (member_decision handle repository (task_of handle tasks)) _ h1 in
      handles_loop-AreFresh repository handles
        (record {
          owned = handle ∷ members.owned;
          decisions = members.decisions ++ (decision ∷ []);
        })
        after
        (λ d m. elim (In-append members.decisions (decision ∷ []) m) [
          | inl old ↦ fresh d old
          | inr new ↦ elim (In-cons new) [
            | inl same ↦ rw same (
                member_decision-IsFresh handle repository (task_of handle tasks) decision refl made)
            | inr k ↦ elim k [ ]
          ]
        ])
        h2

  pub component_loop-AreFresh :
      (components : List InitiativeComponent) (members after : Members)
      → AreFresh members.decisions
      → component_loop tasks components members ≡ ok after
      → AreFresh after.decisions
  unfolding component_loop
  component_loop-AreFresh [] members after fresh h =
      subst (λ (m : Members). AreFresh m.decisions) (ok-injective h) fresh
  component_loop-AreFresh (component ∷ components) members after fresh h =
      let (middle, made, h1) =
        >>=-eq-ok (handles_loop tasks component.repository_id component.task_handles members) _ h in
      component_loop-AreFresh components middle after
        (handles_loop-AreFresh component.repository_id component.task_handles members middle fresh
          made)
        h1

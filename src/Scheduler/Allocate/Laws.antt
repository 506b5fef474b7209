-- ===== src/Scheduler/Allocate/Laws.antt =====
-- The counters during allocateInitiativeCandidates of
-- internal/application/initiative_scheduler.go.
use mathlib.Core.Path.{subst}
use comis_dev_crew.Base.{
  ℕ, zero, suc, ◌+◌, ◌≤◌, ◌≡◌, refl, ◌∙◌, ◌⊎◌, inl, inr, true, List, [], ◌∷◌, Option, none, some,
  arith, ℤ, pos, negsuc, int_less, Bool-cases,
}
use comis_dev_crew.Text.{Text, text_eq}
use comis_dev_crew.Text.Laws.{text_eq_sound}
use comis_dev_crew.Scheduler.{
  InitiativeSchedule, InitiativeSchedulingLimits, SchedulingUsage, consume, count_one,
  profile_limit,
}
use comis_dev_crew.Scheduler.Allocate.{
  SchedulingCandidate, scheduling_capacity_available, Allocation, offer, Lane, candidate_of_round,
  offer_if, allocate_round, maximum_round, run_rounds, lanes_of, allocate_initiative_candidates,
}

-- A count is at most a limit.
abbrev pub AtMost : ℕ → ℤ → Type 0
AtMost n (pos m) = n ≤ m
AtMost n (negsuc m) = ⊥

-- A counter stays as it is, or ends at most at its limit.
abbrev pub IsKept : ℕ → ℕ → ℤ → Type 0
IsKept before after limit = (after ≡ before) ⊎ AtMost after limit

-- All counters of the usage.
pub record AreKept (limits : InitiativeSchedulingLimits) (before after : SchedulingUsage)
    : Type 0 where
  pub host : IsKept before.host after.host limits.max_concurrent_tasks
  pub repositories :
      (key : Text)
      → IsKept
          (before.repositories key)
          (after.repositories key)
          limits.max_concurrent_tasks_per_repository
  pub profiles :
      (key : Text)
      → IsKept
          (before.profiles key)
          (after.profiles key)
          (profile_limit limits.worker_profile_limits key)

IsKept-trans : (a b c : ℕ) (limit : ℤ) → IsKept a b limit → IsKept b c limit → IsKept a c limit
IsKept-trans a b c limit ab (inr at_most) = inr at_most
IsKept-trans a b c limit (inl same) (inl same') = inl (same' ∙ same)
IsKept-trans a b c limit (inr at_most) (inl same') = inr (rw same' at_most)

less-AtMost : (n : ℕ) (limit : ℤ) → int_less (pos n) limit ≡ true → AtMost (n + 1) limit
less-AtMost n (pos m) h = ground arith
less-AtMost n (negsuc m) h = cc

module _ (limits : InitiativeSchedulingLimits) where
  AreKept-refl : (usage : SchedulingUsage) → AreKept limits usage usage
  AreKept-refl usage = record {
    host = inl refl;
    repositories = λ key. inl refl;
    profiles = λ key. inl refl;
  }

  AreKept-trans :
      (a b c : SchedulingUsage) → AreKept limits a b → AreKept limits b c → AreKept limits a c
  AreKept-trans a b c ab bc = record {
    host = IsKept-trans a.host b.host c.host limits.max_concurrent_tasks ab.host bc.host;
    repositories = λ key.
        IsKept-trans (a.repositories key) (b.repositories key) (c.repositories key)
          limits.max_concurrent_tasks_per_repository (ab.repositories key) (bc.repositories key);
    profiles = λ key.
        IsKept-trans (a.profiles key) (b.profiles key) (c.profiles key)
          (profile_limit limits.worker_profile_limits key) (ab.profiles key) (bc.profiles key);
  }

  count_one-IsKept :
      (key other : Text) (counts : Text → ℕ) (limit : Text → ℤ)
      → int_less (pos (counts key)) (limit key) ≡ true
      → IsKept (counts other) (count_one key counts other) (limit other)
  unfolding count_one
  count_one-IsKept key other counts limit room = elim (Bool-cases (text_eq key other)) [
    | inl same ↦
        rw (same, count_one)
          (subst (λ k. IsKept (counts k) (counts k + 1) (limit k)) (text_eq_sound key other same)
            (inr (less-AtMost (counts key) (limit key) room)))
    | inr different ↦ rw (different, count_one) (inl refl)
  ]

  offer-AreKept :
      (candidate : SchedulingCandidate) (allocation : Allocation)
      → AreKept limits allocation.usage (offer limits candidate allocation).usage
  unfolding offer consume scheduling_capacity_available
  offer-AreKept candidate allocation =
      let task = candidate.task in
      let usage = allocation.usage in
      elim (Bool-cases (scheduling_capacity_available task limits usage)) [
        | inr full ↦ rw (full, offer) (AreKept-refl usage)
        | inl room ↦
            rw (room, offer)
              (record {
                host = inr (less-AtMost usage.host limits.max_concurrent_tasks (ground arith));
                repositories = λ key.
                    count_one-IsKept task.repository_id key usage.repositories
                      (λ k. limits.max_concurrent_tasks_per_repository) (ground arith);
                profiles = λ key.
                    count_one-IsKept task.worker_profile_id key usage.profiles
                      (λ k. profile_limit limits.worker_profile_limits k) (ground arith);
              })
      ]

  offer_if-AreKept :
      (found : Option SchedulingCandidate) (allocation : Allocation)
      → AreKept limits allocation.usage (offer_if limits found allocation).usage
  offer_if-AreKept none allocation = AreKept-refl allocation.usage
  offer_if-AreKept (some candidate) allocation = offer-AreKept candidate allocation

  round-AreKept :
      (round : ℕ) (lanes : List Lane) (allocation : Allocation)
      → AreKept limits allocation.usage (allocate_round limits round lanes allocation).usage
  unfolding allocate_round
  round-AreKept round [] allocation = AreKept-refl allocation.usage
  round-AreKept round (lane ∷ lanes) allocation =
      let found = candidate_of_round lane round in
      AreKept-trans allocation.usage (offer_if limits found allocation).usage
        (allocate_round limits round lanes (offer_if limits found allocation)).usage
        (offer_if-AreKept found allocation)
        (round-AreKept round lanes (offer_if limits found allocation))

  rounds-AreKept :
      (lanes : List Lane) (round count : ℕ) (allocation : Allocation)
      → AreKept limits allocation.usage (run_rounds limits lanes round count allocation).usage
  unfolding run_rounds
  rounds-AreKept lanes round zero allocation = AreKept-refl allocation.usage
  rounds-AreKept lanes round (suc count) allocation =
      let after = allocate_round limits round lanes allocation in
      AreKept-trans allocation.usage after.usage
        (run_rounds limits lanes (round + 1) count after).usage
        (round-AreKept round lanes allocation) (rounds-AreKept lanes (round + 1) count after)

  -- Whatever the candidates and the usage before, after the allocation the counter of the host, of
  -- every repository and of every worker profile is what it was, or at most its limit.
  pub allocation-AreKept :
      (schedules : List InitiativeSchedule) (candidates : List (List SchedulingCandidate))
      (usage : SchedulingUsage)
      → AreKept limits usage
          (allocate_initiative_candidates schedules candidates limits usage).usage
  unfolding allocate_initiative_candidates
  allocation-AreKept schedules candidates usage =
      let lanes = lanes_of schedules candidates in
      rounds-AreKept lanes 0 (maximum_round lanes) (record { schedules = schedules; usage = usage })

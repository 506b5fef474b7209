-- ===== src/Landed/Laws.antt =====
-- The three routes of internal/domain/landed_proof.go as an independent description.
use mathlib.Core.Path.{subst}
use comis_dev_crew.Base.{
  ◌≡◌, ◌≢◌, refl, ◌⊎◌, inl, inr, true, false, ◌&&◌, List, [], ◌∷◌, Option, none, some, arith, is_ok,
  Bool-cases, is_empty,
}
use comis_dev_crew.Text.{Text}
use comis_dev_crew.Field.{validate_revision, revision_pattern}
use comis_dev_crew.Landed.{
  LandedRoute, MergedPullRequest, LandedEvidence, prove_landed, carries_head,
}

-- The evidence that each route needs, whatever the other routes say.
pub data Proves (evidence : LandedEvidence) : LandedRoute → Type 0 where
  by_ref : (evidence.reachable_from_remote_refs ≢ []) → Proves evidence LandedRoute.remote_tracking
  by_merge :
      (pull : MergedPullRequest)
      → evidence.forge_truth_available ≡ true
      → evidence.merged_pull_request_by_head_branch ≡ some pull
      → pull.merged ≡ true
      → (pull.head_revision_matches ≡ true) ⊎ (pull.merge_commit_contains_head ≡ true)
      → Proves evidence LandedRoute.merged_pull_request
  by_containment :
      evidence.forge_truth_available ≡ true
      → evidence.default_branch_up_to_date ≡ true
      → evidence.default_branch_contains_head ≡ true
      → revision_pattern evidence.default_branch_head ≡ true
      → Proves evidence LandedRoute.default_branch_containment

carried :
    (o : Option MergedPullRequest)
    → carries_head o ≡ true
    → (pull : MergedPullRequest) × (o ≡ some pull)
      × (pull.merged ≡ true)
      × ((pull.head_revision_matches ≡ true) ⊎ (pull.merge_commit_contains_head ≡ true))
carried none h = cc
carried (some pull) h = (pull, refl, ground arith, ground arith)

not_empty : (ts : List Text) → is_empty ts ≡ false → ts ≢ []
not_empty [] h e = cc
not_empty (t ∷ ts) h e = cc

-- A positive verdict names a route whose evidence is there, for an exact work head.
pub landed_route-Proves :
    (evidence : LandedEvidence)
    → (prove_landed evidence).landed ≡ true
    → (revision_pattern evidence.work_head ≡ true) × Proves evidence (prove_landed evidence).route
unfolding prove_landed validate_revision
landed_route-Proves evidence h = elim (Bool-cases (revision_pattern evidence.work_head)) [
  | inr bad ↦ cc (rw bad at h)
  | inl w ↦ (
    w,
    elim (Bool-cases (is_empty evidence.reachable_from_remote_refs)) [
      | inr refs ↦
          subst (Proves evidence) (rw (w, refs))
            (Proves.by_ref (not_empty evidence.reachable_from_remote_refs refs))
      | inl no_refs ↦ elim (Bool-cases evidence.forge_truth_available) [
        | inr closed ↦ cc (rw (w, no_refs, closed) at h)
        | inl forge ↦ elim (Bool-cases (carries_head evidence.merged_pull_request_by_head_branch)) [
          | inl merge ↦
              let (pull, found, merged, head) =
                carried evidence.merged_pull_request_by_head_branch merge in
              subst (Proves evidence) (rw (w, no_refs, forge, merge))
                (Proves.by_merge pull forge found merged head)
          | inr no_merge ↦ contained w no_refs forge no_merge
        ]
      ]
    ],
  )
]
  where
    contained :
        revision_pattern evidence.work_head ≡ true
        → is_empty evidence.reachable_from_remote_refs ≡ true
        → evidence.forge_truth_available ≡ true
        → carries_head evidence.merged_pull_request_by_head_branch ≡ false
        → Proves evidence (prove_landed evidence).route
    contained w no_refs forge no_merge =
        elim (Bool-cases (
          evidence.default_branch_up_to_date
          && evidence.default_branch_contains_head
          && is_ok (validate_revision evidence.default_branch_head))) [
            | inr nothing ↦ cc (rw (w, no_refs, forge, no_merge, nothing) at h)
            | inl branch ↦ subst (Proves evidence) (rw (w, no_refs, forge, no_merge, branch)) (
                Proves.by_containment forge (ground (arith, branch)) (ground (arith, branch))
                  (ground (arith, branch)))
          ]

-- Work with an exact head for which some route has its evidence is proved landed.
some_route_lands :
    (evidence : LandedEvidence) (route : LandedRoute)
    → revision_pattern evidence.work_head ≡ true
    → Proves evidence route
    → (prove_landed evidence).landed ≡ true
unfolding prove_landed validate_revision
some_route_lands evidence route w (Proves.by_ref e) = ground arith
some_route_lands evidence route w (Proves.by_merge pull f e m r) = ground arith
some_route_lands evidence route w (Proves.by_containment f u c r) = ground arith

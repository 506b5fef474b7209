-- ===== src/Landed.antt =====
-- The landed proof of internal/domain/landed_proof.go.
pub mod Laws
use comis_dev_crew.Base.{
  ℕ, Bool, true, false, not, ◌&&◌, ◌||◌, List, [], ◌∷◌, Option, none, some, String, is_empty, is_ok,
  ℤ, if◌then◌else◌,
}
use comis_dev_crew.Text.{Text}
use comis_dev_crew.Field.{validate_revision}

pub data LandedRoute : Type 0 where
  no_route remote_tracking merged_pull_request default_branch_containment : LandedRoute

pub record MergedPullRequest : Type 0 where
  pub number : ℤ
  pub merged : Bool
  pub merge_commit_contains_head : Bool
  pub head_revision_matches : Bool

pub record LandedEvidence : Type 0 where
  pub work_head : Text
  pub forge_truth_available : Bool
  pub reachable_from_remote_refs : List Text
  pub recorded_pull_request : ℤ
  pub merged_pull_request_by_head_branch : Option MergedPullRequest
  pub default_branch_head : Text
  pub default_branch_up_to_date : Bool
  pub default_branch_contains_head : Bool

pub record LandedProof : Type 0 where
  pub landed : Bool
  pub route : LandedRoute
  pub evidence_gap : String

abbrev landed_by : LandedRoute → LandedProof
landed_by r = record { landed = true; route = r; evidence_gap = "" }

abbrev not_landed : String → LandedProof
not_landed gap = record { landed = false; route = LandedRoute.no_route; evidence_gap = gap }

abbrev pub carries_head : Option MergedPullRequest → Bool
carries_head none = false
carries_head (some pull) =
    pull.merged && (pull.head_revision_matches || pull.merge_commit_contains_head)

abbrev gap_without_pull_request : LandedEvidence → String
gap_without_pull_request evidence =
    if evidence.default_branch_contains_head && not evidence.default_branch_up_to_date
    then "the default branch contains the head but was not refreshed, so containment is a claim about an old snapshot"
    else "no authenticated remote ref reaches this head, no merged pull request was found for its head branch, and the default branch does not contain it"

abbrev gap_of_pull_request : LandedEvidence → Option MergedPullRequest → String
gap_of_pull_request evidence none = gap_without_pull_request evidence
gap_of_pull_request evidence (some pull) =
    if not pull.merged
    then "the pull request for this head branch is not merged"
    else "the merged pull request neither records nor contains this head"

unfoldable pub landed_gap : LandedEvidence → String
landed_gap evidence = gap_of_pull_request evidence evidence.merged_pull_request_by_head_branch

unfoldable pub prove_landed : LandedEvidence → LandedProof
unfolding landed_gap
prove_landed evidence =
    if not (is_ok (validate_revision evidence.work_head))
    then not_landed "no exact work head to prove anything about"
    else if not (is_empty evidence.reachable_from_remote_refs)
    then landed_by LandedRoute.remote_tracking
    else if not evidence.forge_truth_available
    then not_landed "forge truth was unavailable, so merge and containment could not be checked"
    else if carries_head evidence.merged_pull_request_by_head_branch
    then landed_by LandedRoute.merged_pull_request
    else if evidence.default_branch_up_to_date
        && evidence.default_branch_contains_head
        && is_ok (validate_revision evidence.default_branch_head)
    then landed_by LandedRoute.default_branch_containment
    else not_landed (landed_gap evidence)

-- ===== src/Cleanup/Proof/Laws.antt =====
-- What validateCleanupProof of internal/store/sqlite/cleanup_safety.go proves.
use comis_dev_crew.Base.{
  ◌≡◌, ◌⊎◌, inl, inr, true, false, not, ◌&&◌, Bool-cases, ok, if◌then◌else◌, is_empty, arith,
  >>-eq-ok, require-eq-ok, &&-eq-true,
}
use comis_dev_crew.Text.{text_eq}
use comis_dev_crew.Cleanup.{
  TaskCleanupRecord, WorkspaceSnapshot, PullRequestDeliveryTruth, is_clean,
}
use comis_dev_crew.Cleanup.Proof.{
  validate_cleanup_proof, validate_delivery_proof, snapshot_of_record, truth_matches, is_no_truth,
}

-- The delivery that a proof rests on.
abbrev pub DeliveryRoute : TaskCleanupRecord → PullRequestDeliveryTruth → Type 0
DeliveryRoute row truth =
    ((is_empty row.pull_request_id ≡ true) × (is_empty row.report_artifact_hash ≡ false))
    ⊎ ((is_empty row.pull_request_id ≡ false) × (truth_matches row truth ≡ true))

-- The snapshot is of the record and, unless the work is discarded, clean at the recorded head with
-- a
-- sealed report or a matching pull request.
pub record IsProved (row : TaskCleanupRecord) (snapshot : WorkspaceSnapshot)
    (truth : PullRequestDeliveryTruth) : Type 0 where
  pub of_record : snapshot_of_record row snapshot ≡ true
  pub settled :
      (row.discard ≡ true)
      ⊎ ((text_eq snapshot.head_revision row.head_revision ≡ true)
          × (is_clean snapshot.cleanliness ≡ true))
  pub delivery : (row.discard ≡ true) ⊎ DeliveryRoute row truth

abbrev CleanHead : TaskCleanupRecord → WorkspaceSnapshot → Type 0
CleanHead row snapshot =
    (text_eq snapshot.head_revision row.head_revision ≡ true)
    × (is_clean snapshot.cleanliness ≡ true)

delivery_route :
    (row : TaskCleanupRecord) (truth : PullRequestDeliveryTruth)
    → (if is_empty row.pull_request_id
        then not (is_empty row.report_artifact_hash) && is_no_truth truth
        else truth_matches row truth)
      ≡ true
    → DeliveryRoute row truth
delivery_route row truth h = elim (Bool-cases (is_empty row.pull_request_id)) [
  | inl unrecorded ↦ inl (unrecorded, ground arith)
  | inr recorded ↦ inr (recorded, ground arith)
]

validate_delivery_proof-route :
    (row : TaskCleanupRecord) (snapshot : WorkspaceSnapshot) (truth : PullRequestDeliveryTruth)
    → validate_delivery_proof row snapshot truth ≡ ok tt
    → (row.discard ≡ true) ⊎ (CleanHead row snapshot × DeliveryRoute row truth)
unfolding validate_delivery_proof
validate_delivery_proof-route row snapshot truth h = elim (Bool-cases row.discard) [
  | inl discards ↦ inl discards
  | inr delivers ↦
      let (head, last) = >>-eq-ok _ _ (rw delivers at h) in
      inr
        (&&-eq-true _ _ (require-eq-ok _ _ head), delivery_route row truth (require-eq-ok _ _ last))
]

pub validate_cleanup_proof-IsProved :
    (row : TaskCleanupRecord) (snapshot : WorkspaceSnapshot) (truth : PullRequestDeliveryTruth)
    → validate_cleanup_proof row snapshot truth ≡ ok tt
    → IsProved row snapshot truth
unfolding validate_cleanup_proof
validate_cleanup_proof-IsProved row snapshot truth h =
    let (of_record, rest) = >>-eq-ok _ _ h in
    elim (validate_delivery_proof-route row snapshot truth rest) [
      | inl discards ↦ record {
        of_record = require-eq-ok _ _ of_record;
        settled = inl discards;
        delivery = inl discards;
      }
      | inr (head, route) ↦ record {
        of_record = require-eq-ok _ _ of_record;
        settled = inr head;
        delivery = inr route;
      }
    ]

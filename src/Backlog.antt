-- ===== src/Backlog.antt =====
-- The backlog of internal/domain/backlog.go: durable requests that have not become work.
pub mod Laws
use comis_dev_crew.Base.{
  ℕ, Bool, true, false, not, ◌&&◌, ◌||◌, List, [], ◌∷◌, Result, ok, err, ◌>>◌, refuse, require,
  is_empty, length, ltb, is_number, ℤ, Time, before, String,
}
use comis_dev_crew.Text.{Text, text_eq, member}
use comis_dev_crew.Text.Utf8.{valid_utf8}
use comis_dev_crew.Field.{
  ValidationError, invalid, Checked, validate_opaque_id, validate_repository_id,
  validate_authority_reference,
}
use comis_dev_crew.Lifecycle.{TaskShape, valid_shape}

abbrev max_requested_outcome_bytes : ℕ
max_requested_outcome_bytes = 8192

pub data BacklogPriority : Type 0 where
  low normal high : BacklogPriority
  other : Text → BacklogPriority

unfoldable pub valid_priority : BacklogPriority → Bool
valid_priority (BacklogPriority.other t) = false
valid_priority _ = true

pub data BacklogReadiness : Type 0 where
  needs_refinement ready promoted dropped : BacklogReadiness
  other : Text → BacklogReadiness

unfoldable pub valid_readiness : BacklogReadiness → Bool
valid_readiness (BacklogReadiness.other t) = false
valid_readiness _ = true

abbrev pub is_ready : BacklogReadiness → Bool
is_ready BacklogReadiness.ready = true
is_ready _ = false

pub record BacklogItem : Type 0 where
  pub schema_version : ℤ
  pub handle : Text
  pub repository_id : Text
  pub shape : TaskShape
  pub requested_outcome : Text
  pub depends_on : List Text
  pub priority : BacklogPriority
  pub readiness : BacklogReadiness
  pub source_conversation_ref : Text
  pub created_at : Time
  pub updated_at : Time

-- The loop over the dependencies, with those that it has seen.
unfoldable pub dependency_loop : Text → List Text → List Text → Checked
dependency_loop handle seen [] = ok tt
dependency_loop handle seen (dependency ∷ rest) =
    let later = dependency_loop handle (dependency ∷ seen) rest in
    do
      validate_opaque_id "dependsOn" dependency
      refuse (text_eq dependency handle) (invalid "dependsOn" "an item cannot depend on itself")
      refuse (member dependency seen) (invalid "dependsOn" "dependencies must be unique")
      later

unfoldable pub validate_backlog_item : BacklogItem → Checked
validate_backlog_item item = do
  require (is_number item.schema_version 1) (invalid "schemaVersion" "must equal 1")
  validate_opaque_id "backlogHandle" item.handle
  validate_repository_id item.repository_id
  require (valid_shape item.shape) (invalid "shape" "must be a closed task shape")
  require (valid_priority item.priority) (invalid "priority" "must be a closed priority")
  require (valid_readiness item.readiness) (invalid "readiness" "must be a closed readiness")
  refuse
      (is_empty item.requested_outcome
        || (ltb max_requested_outcome_bytes (length item.requested_outcome)
            || not (valid_utf8 item.requested_outcome)))
      (invalid "requestedOutcome" "must be bounded valid text")
  validate_authority_reference "sourceConversationRef" item.source_conversation_ref
  refuse (ltb 64 (length item.depends_on)) (invalid "dependsOn" "must hold at most 64 dependencies")
  dependency_loop item.handle [] item.depends_on
  refuse (before item.updated_at item.created_at) (invalid "updatedAt" "cannot precede creation")

-- The loop of CheckPromotable; a missing key of the map is false.
unfoldable pub satisfied_loop : (Text → Bool) → List Text → Checked
satisfied_loop satisfied [] = ok tt
satisfied_loop satisfied (dependency ∷ rest) =
    let later = satisfied_loop satisfied rest in
    do require (satisfied dependency) (invalid "dependsOn" "dependency %s is not satisfied"); later

unfoldable pub check_promotable : BacklogItem → (Text → Bool) → Checked
unfolding satisfied_loop
check_promotable item satisfied = do
  validate_backlog_item item
  require (is_ready item.readiness)
      (invalid "readiness" "only a ready item may be promoted; this one is %s")
  satisfied_loop satisfied item.depends_on

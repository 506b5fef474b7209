-- ===== src/Task/Brief.antt =====
-- The worker brief of internal/domain/brief.go: the contract lists, the rendered content, and its
-- digest.
use comis_dev_crew.Base.{
  ℕ, Bool, true, false, not, ◌&&◌, ◌||◌, List, [], ◌∷◌, ◌++◌, Result, ok, ◌>>◌, ◌>>=◌, refuse,
  require, String, length, is_empty, ltb, any, sort_by, ◌==◌, not_positive, ℤ,
}
use comis_dev_crew.Text.{Text, ascii, text_eq, text_less, member}
use comis_dev_crew.Text.Utf8.{runes, rune_value, valid_utf8, is_control, is_blank}
use comis_dev_crew.Platform.{Platform, format_int, quote}
use comis_dev_crew.Field.{ValidationError, invalid, Checked, validate_safe_text, validate_sha256}
use comis_dev_crew.Contract.{PinnedContract, validate_pin, artifact_kind_text}
use comis_dev_crew.Lifecycle.{shape_text, mode_text}
use comis_dev_crew.Task.{Task}

pub record WorkerBrief : Type 0 where
  pub revision : ℤ
  pub revision_hash : Text
  pub content : Text

abbrev maximum_contract_entries : ℕ
maximum_contract_entries = 32

-- 16 * 1024
abbrev maximum_worker_brief_bytes : ℕ
maximum_worker_brief_bytes = 16384

-- The loop of validateContractTextList, with the entries that it has seen.
unfoldable pub text_list_loop : String → List Text → List Text → Checked
text_list_loop field seen [] = ok tt
text_list_loop field seen (value ∷ values) =
    let rest = text_list_loop field (value ∷ seen) values in
    do
      validate_safe_text field value
      refuse (member value seen) (invalid field "must not contain duplicate entries")
      rest

unfoldable pub validate_contract_text_list : String → List Text → Bool → Checked
unfolding text_list_loop
validate_contract_text_list field values required = do
  refuse (required && is_empty values) (invalid field "must contain at least one entry")
  refuse (ltb maximum_contract_entries (length values))
      (invalid field "must contain at most 32 entries")
  text_list_loop field [] values

unfoldable pub pins_loop : List Text → List PinnedContract → Checked
pins_loop seen [] = ok tt
pins_loop seen (pin ∷ pins) =
    let rest = pins_loop (pin.artifact_handle ∷ seen) pins in
    do
      validate_pin pin
      refuse (member pin.artifact_handle seen)
          (invalid "consumedContracts" "an artifact may be pinned once")
      rest

unfoldable pub validate_consumed_contracts : Task → Checked
unfolding pins_loop
validate_consumed_contracts task = do
  refuse (ltb maximum_contract_entries (length task.consumed_contracts))
      (invalid "consumedContracts" "must hold a bounded number of pins")
  pins_loop [] task.consumed_contracts

unfoldable pub validate_brief_inputs : Task → Checked
validate_brief_inputs task = do
  refuse (not_positive task.brief_revision) (invalid "briefRevision" "must be positive")
  validate_contract_text_list "acceptanceCriteria" task.acceptance_criteria true
  validate_contract_text_list "constraints" task.constraints false
  validate_consumed_contracts task

abbrev line_feed : ℕ
line_feed = 10

unfoldable pub brief_field : String → Text → Text
brief_field name value = ascii name ++ (ascii ": " ++ (value ++ line_feed ∷ []))

-- What writeBriefList writes after its heading.
unfoldable pub brief_items : Platform → List Text → Text
brief_items platform [] = []
brief_items platform (value ∷ values) =
    ascii "- " ++ (quote platform value ++ line_feed ∷ brief_items platform values)

unfoldable pub brief_list : Platform → String → List Text → Text
unfolding brief_items
brief_list platform name values =
    ascii name ++ (ascii ":" ++ line_feed ∷ brief_items platform values)

unfoldable pub brief_pins : List PinnedContract → Text
brief_pins [] = []
brief_pins (pin ∷ pins) =
    ascii "  - "
    ++ (pin.artifact_handle
        ++ (ascii " "
            ++ (artifact_kind_text pin.kind
                ++ (ascii " " ++ (pin.content_hash ++ line_feed ∷ brief_pins pins)))))

unfoldable pub sorted_pins : List PinnedContract → List PinnedContract
sorted_pins = sort_by (λ left right. text_less left.artifact_handle right.artifact_handle)

-- writeBriefContracts: nothing at all where there is no pin.
unfoldable pub brief_contracts : List PinnedContract → Text
unfolding brief_pins sorted_pins
brief_contracts [] = []
brief_contracts (pin ∷ pins) =
    ascii "consumedContracts:" ++ line_feed ∷ brief_pins (sorted_pins (pin ∷ pins))

-- The fixed lines at the end of every brief.
unfoldable pub brief_protocol : Text
unfolding brief_field
brief_protocol =
    brief_field "workspaceSelfCheck"
      (ascii "verify the canonical working directory and task handle before mutation")
    ++ (brief_field "reportCommand" (ascii "devcrew-report through the protected task reporter")
        ++ (brief_field "reportKinds"
              (ascii "progress, attention, blocked, paused, candidate_complete, failed, resolution")
            ++ (brief_field "decisionProtocol"
                  (ascii "request one keyed decision and wait for acknowledged delivery")
                ++ (brief_field "completionMeaning"
                      (ascii "candidate_complete requires service validation and evidence")
                    ++ brief_field "prohibitedActions" (
                        ascii
                          "merge, mutate the primary checkout, change task shape, or bypass the reporter")))))

-- The text that renderBriefContent builds once the inputs are valid.
unfoldable pub brief_text : Platform → Task → Text
unfolding brief_field brief_list brief_contracts brief_protocol
brief_text platform task =
    brief_field "taskHandle" task.handle
    ++ (brief_field "briefRevision" (format_int task.brief_revision)
        ++ (brief_field "shape" (shape_text task.shape)
            ++ (brief_field "deliveryMode" (mode_text task.delivery_mode)
                ++ (brief_field "repositoryId" task.repository_id
                    ++ (brief_field "baseRevision" task.base_revision
                        ++ (brief_field "validationProfile" task.validation_profile
                            ++ (brief_field "workerProfileId" task.worker_profile_id
                                ++ (brief_list platform "acceptanceCriteria"
                                      task.acceptance_criteria
                                    ++ (brief_list platform "constraints" task.constraints
                                        ++ (brief_contracts task.consumed_contracts
                                            ++ brief_protocol))))))))))

unfoldable pub render_brief_content : Platform → Task → Result ValidationError Text
render_brief_content platform task = do validate_brief_inputs task; ok (brief_text platform task)

unfoldable pub brief_revision_digest : Platform → Task → Result ValidationError Text
unfolding render_brief_content
brief_revision_digest platform task = do
  content ← render_brief_content platform task
  ok (platform.sha256_hex content)

-- WorkerBrief.Validate
unfoldable pub validate_brief : Platform → WorkerBrief → Checked
validate_brief platform brief = do
  refuse (not_positive brief.revision) (invalid "briefRevision" "must be positive")
  validate_sha256 "briefRevisionHash" brief.revision_hash
  refuse
      (is_blank brief.content
        || ltb maximum_worker_brief_bytes (length brief.content)
        || not (valid_utf8 brief.content))
      (invalid "briefContent" "must be bounded nonempty UTF-8")
  refuse
      (any (λ r. is_control (rune_value r) && not (rune_value r == line_feed))
        (runes brief.content))
      (invalid "briefContent" "must not contain non-line control characters")
  require (text_eq (platform.sha256_hex brief.content) brief.revision_hash)
      (invalid "briefRevisionHash" "does not pin the rendered worker brief")

-- ===== src/Field.antt =====
-- The field validators of internal/domain/validation.go and internal/domain/error.go, with the
-- time checks and the closed sets of attachment names. A regular expression is the test of its
-- character classes; a ValidationError keeps the field and the reason, in which a
-- number that the source prints stays its %d.
pub mod Safe
use comis_dev_crew.Base.{
  ℕ, zero, suc, Option, none, some, if◌then◌else◌, String, Bool, true, false, not, ◌&&◌, ◌||◌, List,
  [], ◌∷◌, ◌==◌, leb, ltb, length, all, any, Result, ok, err, ◌>>◌, refuse, require, Time, is_zero,
  before, after, is_empty,
}
use comis_dev_crew.Text.{
  Text, ascii, has_shape, has_class, is_lower, is_upper, is_digit, is_lower_hex, strip_prefix,
  text_eq,
}
use comis_dev_crew.Text.Utf8.{runes, rune_value, valid_utf8, is_control, is_blank}

-- ValidationError: the field and the reason, without the value.
pub record ValidationError : Type 0 where
  pub field : String
  pub reason : String

abbrev pub invalid : String → String → ValidationError
invalid f r = record { field = f; reason = r }

-- An `error` that is nil or a ValidationError.
abbrev pub Checked : Type 0
Checked = Result ValidationError (Unit {0})

unfoldable pub opaque_id_pattern : Text → Bool
opaque_id_pattern =
    has_shape (λ c. is_lower c || is_digit c) (λ c. is_lower c || is_digit c || c == b'-') 2 63

unfoldable pub command_pattern : Text → Bool
command_pattern = has_shape is_upper (λ c. is_upper c || is_lower c || is_digit c) 2 63

unfoldable pub revision_pattern : Text → Bool
revision_pattern t = has_class is_lower_hex 40 t || has_class is_lower_hex 64 t

unfoldable pub sha256_hex_pattern : Text → Bool
sha256_hex_pattern = has_class is_lower_hex 64

abbrev alphanumeric : ℕ → Bool
alphanumeric c = is_upper c || is_lower c || is_digit c

abbrev reference_mark : ℕ → Bool
reference_mark c = c == b'.' || c == b'_' || c == b'~' || c == b'-'

unfoldable pub authority_pattern : Text → Bool
authority_pattern = has_shape alphanumeric (λ c. alphanumeric c || reference_mark c) 2 255

-- [a-f0-9]{n} and then exactly the suffix.
hex_then : ℕ → Text → Text → Bool
hex_then zero suffix t = text_eq t suffix
hex_then (suc n) suffix [] = false
hex_then (suc n) suffix (c ∷ cs) = is_lower_hex c && hex_then n suffix cs

-- ^attachment-[a-f0-9]{32}\.sock$
unfoldable pub attachment_target_name_pattern : Text → Bool
unfolding hex_then
attachment_target_name_pattern t =
    let (found, rest) = strip_prefix (ascii "attachment-") t in
    found && hex_then 32 (ascii ".sock") rest

-- What stands before the first occurrence of a byte, and what stands behind it, if it occurs.
split_first : ℕ → Text → Text × Option Text
split_first b [] = ([], none)
split_first b (c ∷ cs) =
    let (front, back) = split_first b cs in if b == c then ([], some cs) else (c ∷ front, back)

abbrev media_part : Text → Bool
media_part =
    has_shape (λ c. is_lower c || is_digit c)
      (λ c. is_lower c || is_digit c || c == b'.' || c == b'+' || c == b'-') 0 63

-- Neither class of the pattern holds the slash, so the first slash is the one that it matches.
unfoldable pub media_type_pattern : Text → Bool
unfolding split_first
media_type_pattern t =
    let (front, back) = split_first b'/' t in
    elim back [ none ↦ false | some rest ↦ media_part front && media_part rest ]

unfoldable pub validate_opaque_id : String → Text → Checked
validate_opaque_id field value =
    require (opaque_id_pattern value)
      (invalid field "must be a bounded lowercase opaque identifier")

unfoldable pub validate_task_handle : Text → Checked
unfolding validate_opaque_id
validate_task_handle = validate_opaque_id "taskHandle"

unfoldable pub validate_repository_id : Text → Checked
unfolding validate_opaque_id
validate_repository_id = validate_opaque_id "repositoryId"

unfoldable pub validate_command : Text → Checked
validate_command value =
    require (command_pattern value) (invalid "command" "must be a known command-style identifier")

unfoldable pub validate_authority_reference : String → Text → Checked
validate_authority_reference field value =
    require (authority_pattern value) (invalid field "must be a bounded opaque authority reference")

unfoldable pub validate_revision : Text → Checked
validate_revision value =
    require (revision_pattern value)
      (invalid "baseRevision" "must be a lowercase Git object identity")

unfoldable pub validate_sha256 : String → Text → Checked
validate_sha256 field value =
    require (sha256_hex_pattern value) (invalid field "must be a lowercase SHA-256 digest")

unfoldable pub validate_attachment_target_name : Text → Checked
validate_attachment_target_name value =
    require (attachment_target_name_pattern value)
      (invalid "attachmentTargetName" "must be a Comis-managed attachment socket name")

unfoldable pub validate_times : Time → Time → Checked
validate_times created_at updated_at = do
  refuse (is_zero created_at || is_zero updated_at) (invalid "timestamps" "must be present")
  refuse (not created_at.utc || not updated_at.utc) (invalid "timestamps" "must use UTC")
  refuse (before updated_at created_at) (invalid "updatedAt" "must not precede createdAt")

unfoldable pub validate_bounded_safe_text : String → Text → ℕ → Checked
validate_bounded_safe_text field value maximum_bytes = do
  refuse (is_blank value) (invalid field "must not be empty")
  refuse (ltb maximum_bytes (length value)) (invalid field "must be at most %d bytes")
  require (valid_utf8 value) (invalid field "must be valid UTF-8")
  refuse (any (λ r. is_control (rune_value r)) (runes value))
      (invalid field "must not contain control characters")

unfoldable pub validate_safe_text : String → Text → Checked
unfolding validate_bounded_safe_text
validate_safe_text field value = validate_bounded_safe_text field value 512

unfoldable pub validate_steering_instruction : Text → Checked
unfolding validate_bounded_safe_text
validate_steering_instruction value = validate_bounded_safe_text "instruction" value 2048

abbrev maximum_decision_response_bytes : ℕ
maximum_decision_response_bytes = 8192

-- The loop lets the line feed and the tab pass.
abbrev response_control : ℕ → Bool
response_control r = not (r == 10 || r == 9) && (ltb r 0x20 || r == 0x7F)

unfoldable pub validate_decision_response : Text → Checked
validate_decision_response value = do
  refuse (is_empty value) (invalid "response" "must not be empty")
  refuse (ltb maximum_decision_response_bytes (length value))
      (invalid "response" "must stay within its byte bound")
  require (valid_utf8 value) (invalid "response" "must be valid text")
  refuse (any (λ r. response_control (rune_value r)) (runes value))
      (invalid "response" "must not carry control characters")

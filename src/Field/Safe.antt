-- ===== src/Field/Safe.antt =====
-- Lemmas on validateBoundedSafeText of internal/domain/error.go: from the runes it reads to bytes.
use comis_dev_crew.Base.{String, ℕ, ◌≤◌, ◌≡◌, ◌≢◌, true, false, arith, any, length, All, ok}
use comis_dev_crew.Text.{Text}
use comis_dev_crew.Text.Utf8.{rune_value, runes, valid_utf8, is_control}
use comis_dev_crew.Text.Utf8.Ascii.{runes-All}
use comis_dev_crew.Field.{validate_bounded_safe_text}

-- The bytes that a terminal would act on: the control codes below the space, and DEL.
abbrev pub IsPrintable : ℕ → Type 0
IsPrintable b = (0x20 ≤ b) × (b ≢ 0x7F)

bounded_safe_text-runes :
    (field : String) (value : Text) (maximum : ℕ)
    → validate_bounded_safe_text field value maximum ≡ ok tt
    → any (λ r. is_control (rune_value r)) (runes value) ≡ false
unfolding validate_bounded_safe_text
bounded_safe_text-runes field value maximum h = ground arith

-- Text that validateBoundedSafeText accepts holds no byte that is an ASCII control code or DEL,
-- is at most the maximum long, and is valid UTF-8.
pub bounded_safe_text-IsPrintable :
    (field : String) (value : Text) (maximum : ℕ)
    → validate_bounded_safe_text field value maximum ≡ ok tt
    → All IsPrintable value × (length value ≤ maximum) × (valid_utf8 value ≡ true)
unfolding validate_bounded_safe_text
bounded_safe_text-IsPrintable field value maximum h = (
  runes-All is_control IsPrintable (λ b wide. omega arith)
      (unfold is_control in λ b small fine. ground arith) value
      (bounded_safe_text-runes field value maximum h),
  ground arith,
  ground arith,
)

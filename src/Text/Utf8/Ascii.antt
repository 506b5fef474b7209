-- ===== src/Text/Utf8/Ascii.antt =====
-- A byte below 0x80 in valid UTF-8 is a rune of its own: the bytes that a rune takes beyond the
-- first are continuation bytes.
use comis_dev_crew.Base.{
  ℕ, zero, suc, ◌≤◌, ◌<◌, ◌≡◌, Bool, false, [], ◌∷◌, arith, any, All, ||-eq-false,
}
use native.Mathlib.Decide.{dec_lt}
use comis_dev_crew.Text.Core.{Text}
use comis_dev_crew.Text.Utf8.{rune, rune_value, decode_rune, runes_after, runes}

-- The first `n` bytes are continuation bytes.
abbrev Continues : ℕ → Text → Type 0
Continues zero t = Unit
Continues (suc n) [] = Unit
Continues (suc n) (b ∷ bs) = (0x80 ≤ b) × Continues n bs

decode_rune-Continues : (a : ℕ) (rest : Text) → Continues (decode_rune a rest).1 rest
unfolding decode_rune
decode_rune-Continues a [] = ground arith
decode_rune-Continues a (b ∷ []) = ground arith
decode_rune-Continues a (b ∷ c ∷ []) = ground arith
decode_rune-Continues a (b ∷ c ∷ d ∷ ds) = ground arith

decode_rune_ascii : (a : ℕ) (rest : Text) → a < 0x80 → (decode_rune a rest).0 ≡ rune a
unfolding decode_rune
decode_rune_ascii a rest h = ground arith

-- A test that no rune of the text passes, but that all of some ASCII bytes would pass.
module _ (bad : ℕ → Bool) (P : ℕ → Type 0) (wide : (b : ℕ) → 0x80 ≤ b → P b)
    (narrow : (b : ℕ) → b < 0x80 → bad b ≡ false → P b) where
  runes_after-All :
      (skip : ℕ) (t : Text)
      → Continues skip t
      → any (λ r. bad (rune_value r)) (runes_after skip t) ≡ false
      → All P t
  unfolding runes_after
  runes_after-All zero [] c h = tt
  runes_after-All (suc skip) [] c h = tt
  runes_after-All (suc skip) (a ∷ xs) c h = (wide a c.0, runes_after-All skip xs c.1 h)
  runes_after-All zero (a ∷ xs) c h =
      let (first, later) =
        ||-eq-false (bad (rune_value (decode_rune a xs).0))
          (any (λ r. bad (rune_value r)) (runes_after (decode_rune a xs).1 xs)) h in
      (
        elim (dec_lt a 0x80) [
          | yes small ↦ narrow a small (rw (decode_rune_ascii a xs small) at first)
          | no large ↦ wide a (omega arith)
        ],
        runes_after-All (decode_rune a xs).1 xs (decode_rune-Continues a xs) later,
      )

  pub runes-All : (t : Text) → any (λ r. bad (rune_value r)) (runes t) ≡ false → All P t
  unfolding runes
  runes-All t h = runes_after-All zero t tt h

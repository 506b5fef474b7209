-- ===== src/Text/Utf8.antt =====
-- UTF-8 as Go decodes it: a byte that starts no valid encoding is one error of width 1.
pub mod Ascii
use comis_dev_crew.Base.{
  ℕ, zero, suc, ◌+◌, ◌-◌, ◌*◌, Bool, true, false, not, ◌&&◌, ◌||◌, List, [], ◌∷◌, ◌==◌, leb, within,
  all, if◌then◌else◌,
}
use comis_dev_crew.Text.Core.{Text}

pub data Rune : Type 0 where
  rune : ℕ → Rune
  bad_byte : ℕ → Rune

abbrev continuation : ℕ → Bool
continuation b = within 0x80 0xBF b

-- The range of the second byte, after leads that exclude overlong forms, surrogates and
-- numbers above U+10FFFF.
abbrev second_ok : ℕ → ℕ → Bool
second_ok lead b =
    within (if lead == 0xE0 then 0xA0 else if lead == 0xF0 then 0x90 else 0x80)
      (if lead == 0xED then 0x9F else if lead == 0xF4 then 0x8F else 0xBF) b

decode_two : ℕ → Text → Rune × ℕ
decode_two a (b ∷ bs) =
    if continuation b then (rune ((a - 0xC0) * 64 + (b - 0x80)), 1) else (bad_byte a, 0)
decode_two a [] = (bad_byte a, 0)

decode_three : ℕ → Text → Rune × ℕ
decode_three a (b ∷ c ∷ cs) =
    if second_ok a b && continuation c
    then (rune ((a - 0xE0) * 4096 + (b - 0x80) * 64 + (c - 0x80)), 2)
    else (bad_byte a, 0)
decode_three a _ = (bad_byte a, 0)

decode_four : ℕ → Text → Rune × ℕ
decode_four a (b ∷ c ∷ d ∷ ds) =
    if second_ok a b && (continuation c && continuation d)
    then (rune ((a - 0xF0) * 262144 + (b - 0x80) * 4096 + (c - 0x80) * 64 + (d - 0x80)), 3)
    else (bad_byte a, 0)
decode_four a _ = (bad_byte a, 0)

-- The rune at the front, and how many bytes it takes beyond the first.
decode_rune : ℕ → Text → Rune × ℕ
unfolding decode_two decode_three decode_four
decode_rune a rest =
    if leb a 0x7F
    then (rune a, 0)
    else if within 0xC2 0xDF a
    then decode_two a rest
    else if within 0xE0 0xEF a
    then decode_three a rest
    else if within 0xF0 0xF4 a
    then decode_four a rest
    else (bad_byte a, 0)

-- The runes of a text whose first `skip` bytes belong to the rune before.
runes_after : ℕ → Text → List Rune
unfolding decode_rune
runes_after skip [] = []
runes_after (suc skip) (a ∷ xs) = runes_after skip xs
runes_after zero (a ∷ xs) = let (r, more) = decode_rune a xs in r ∷ runes_after more xs

-- `for _, r := range s`
unfoldable pub runes : Text → List Rune
unfolding runes_after
runes t = runes_after 0 t

-- The number that a range loop hands on: U+FFFD at an error.
abbrev pub rune_value : Rune → ℕ
rune_value (rune r) = r
rune_value (bad_byte b) = 0xFFFD

abbrev is_valid_rune : Rune → Bool
is_valid_rune (rune r) = true
is_valid_rune (bad_byte b) = false

-- utf8.ValidString
unfoldable pub valid_utf8 : Text → Bool
unfolding runes
valid_utf8 t = all is_valid_rune (runes t)

-- unicode.IsControl: the category Cc.
unfoldable pub is_control : ℕ → Bool
is_control r = leb r 0x1F || within 0x7F 0x9F r

-- unicode.IsSpace: the property White_Space.
unfoldable pub is_space : ℕ → Bool
is_space r =
    within 9 13 r
    || r == 0x20
    || r == 0x85
    || r == 0xA0
    || r == 0x1680
    || within 0x2000 0x200A r
    || r == 0x2028
    || r == 0x2029
    || r == 0x202F
    || r == 0x205F
    || r == 0x3000

-- `strings.TrimSpace(s) == ""`
unfoldable pub is_blank : Text → Bool
unfolding runes is_space
is_blank t = all (λ r. is_space (rune_value r)) (runes t)

abbrev ends_in_space : List Rune → Bool
ends_in_space [] = false
ends_in_space (r ∷ []) = is_space (rune_value r)
ends_in_space (r ∷ s ∷ rest) = ends_in_space (s ∷ rest)

abbrev starts_with_space : List Rune → Bool
starts_with_space [] = false
starts_with_space (r ∷ rest) = is_space (rune_value r)

-- `strings.TrimSpace(s) == s`
unfoldable pub is_trimmed : Text → Bool
unfolding runes is_space
is_trimmed t = not (starts_with_space (runes t)) && not (ends_in_space (runes t))

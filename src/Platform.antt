-- ===== src/Platform.antt =====
-- What the program takes from Go's standard library and the model leaves open: SHA-256 in
-- lowercase hexadecimal, and which runes the Unicode tables call printable. Every theorem holds
-- for all such functions. Also strconv's FormatInt and Quote, written out over these.
use comis_dev_crew.Base.{
  ℕ, zero, suc, ◌+◌, ◌-◌, ◌/◌, ◌%◌, Bool, ◌||◌, List, [], ◌∷◌, ◌++◌, ◌==◌, leb, ltb, if◌then◌else◌,
  ℤ, pos, negsuc,
}
use comis_dev_crew.Text.{Text}
use comis_dev_crew.Text.Utf8.{Rune, rune, bad_byte, runes}

pub record Platform : Type 0 where
  -- fmt.Sprintf("%x", sha256.Sum256(t))
  pub sha256_hex : Text → Text
  -- strconv.IsPrint
  pub is_print : ℕ → Bool

digit : ℕ → ℕ
digit d = if ltb d 10 then b'0' + d else b'a' + (d - 10)

-- The digits of a number, lowest first, put in front of a text. The fuel bounds their number.
digits_before : ℕ → ℕ → ℕ → Text → Text
unfolding digit
digits_before base zero n t = t
digits_before base (suc fuel) n t =
    let rest = digits_before base fuel (n / base) (digit (n % base) ∷ t) in
    if ltb n base then digit (n % base) ∷ t else rest

-- strconv.FormatInt(n, 10): an int64 has nineteen digits at most.
unfoldable pub format_int : ℤ → Text
unfolding digits_before
format_int (pos n) = digits_before 10 20 n []
format_int (negsuc n) = b'-' ∷ digits_before 10 20 (suc n) []

-- Exactly `count` hexadecimal digits.
hex_digits : ℕ → ℕ → Text → Text
unfolding digit
hex_digits zero n t = t
hex_digits (suc count) n t = hex_digits count (n / 16) (digit (n % 16) ∷ t)

-- The UTF-8 encoding of a rune, as utf8.AppendRune writes it.
encode_rune : ℕ → Text
encode_rune r =
    if leb r 0x7F
    then r ∷ []
    else if leb r 0x7FF
    then (0xC0 + r / 64) ∷ (0x80 + r % 64) ∷ []
    else if leb r 0xFFFF
    then (0xE0 + r / 4096) ∷ (0x80 + (r / 64) % 64) ∷ (0x80 + r % 64) ∷ []
    else (0xF0 + r / 262144)
      ∷ (0x80 + (r / 4096) % 64)
      ∷ (0x80 + (r / 64) % 64)
      ∷ (0x80 + r % 64)
      ∷ []

abbrev backslash : ℕ
backslash = 0x5C

-- The escapes of appendEscapedRune for a rune that is not printed as it is.
escape_rune : ℕ → Text
unfolding hex_digits
escape_rune r =
    if r == 7
    then backslash ∷ b'a' ∷ []
    else if r == 8
    then backslash ∷ b'b' ∷ []
    else if r == 12
    then backslash ∷ b'f' ∷ []
    else if r == 10
    then backslash ∷ b'n' ∷ []
    else if r == 13
    then backslash ∷ b'r' ∷ []
    else if r == 9
    then backslash ∷ b't' ∷ []
    else if r == 11
    then backslash ∷ b'v' ∷ []
    else if ltb r 0x20 || r == 0x7F
    then backslash ∷ b'x' ∷ hex_digits 2 r []
    else if ltb r 0x10000
    then backslash ∷ b'u' ∷ hex_digits 4 r []
    else backslash ∷ b'U' ∷ hex_digits 8 r []

module _ (platform : Platform) where
  quote_rune : Rune → Text
  unfolding hex_digits encode_rune escape_rune
  quote_rune (bad_byte b) = backslash ∷ b'x' ∷ hex_digits 2 b []
  quote_rune (rune r) =
      if r == b'"' || r == backslash
      then backslash ∷ r ∷ []
      else if platform.is_print r
      then encode_rune r
      else escape_rune r

  quote_runes : List Rune → Text
  unfolding quote_rune
  quote_runes [] = []
  quote_runes (r ∷ rs) = quote_rune r ++ quote_runes rs

  -- strconv.Quote
  unfoldable pub quote : Text → Text
  unfolding quote_runes
  quote t = b'"' ∷ (quote_runes (runes t) ++ b'"' ∷ [])

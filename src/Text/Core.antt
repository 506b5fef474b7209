-- ===== src/Text/Core.antt =====
-- Byte strings, their equality, and the shapes that the program's regular expressions describe.
use Prim.Native.Char.{code}
use Prim.Native.String.{String}
use comis_dev_crew.Base.{
  ℕ, suc, Bool, true, false, ◌&&◌, ◌||◌, List, [], ◌∷◌, ◌==◌, leb, within, length, all, any,
  if◌then◌else◌,
}

-- A Go string: its bytes, each below 256.
abbrev pub Text : Type 0
Text = List ℕ

-- The bytes of an ASCII literal.
abbrev pub ascii : String → Text
ascii String.[] = []
ascii (String.◌∷◌ c s) = code c ∷ ascii s

unfoldable pub text_eq : Text → Text → Bool
text_eq [] [] = true
text_eq [] (b ∷ bs) = false
text_eq (a ∷ xs) [] = false
text_eq (a ∷ xs) (b ∷ bs) = a == b && text_eq xs bs

-- Byte order, as Go's `<` on strings.
unfoldable pub text_less : Text → Text → Bool
text_less bs [] = false
text_less [] (b ∷ bs) = true
text_less (a ∷ xs) (b ∷ bs) =
    let rest = text_less xs bs in if leb (suc a) b then true else a == b && rest

-- Whether a string is in a list; Go's lookup in a map[string]struct{}.
unfoldable pub member : Text → List Text → Bool
member t [] = false
member t (x ∷ xs) = text_eq t x || member t xs

unfoldable pub is_lower : ℕ → Bool
is_lower c = within b'a' b'z' c

unfoldable pub is_upper : ℕ → Bool
is_upper c = within b'A' b'Z' c

unfoldable pub is_digit : ℕ → Bool
is_digit c = within b'0' b'9' c

unfoldable pub is_lower_hex : ℕ → Bool
unfolding is_digit
is_lower_hex c = is_digit c || within b'a' b'f' c

-- The pattern ^[first][rest]{lo,hi}$
unfoldable pub has_shape : (ℕ → Bool) → (ℕ → Bool) → ℕ → ℕ → Text → Bool
has_shape first rest lo hi [] = false
has_shape first rest lo hi (c ∷ cs) = first c && all rest cs && within lo hi (length cs)

-- The pattern ^[class]{n}$
unfoldable pub has_class : (ℕ → Bool) → ℕ → Text → Bool
has_class class n t = all class t && length t == n

-- What follows a prefix, if the text starts with it.
unfoldable pub strip_prefix : Text → Text → Bool × Text
strip_prefix [] t = (true, t)
strip_prefix (p ∷ ps) [] = (false, [])
strip_prefix (p ∷ ps) (c ∷ cs) =
    let rest = strip_prefix ps cs in if p == c then rest else (false, c ∷ cs)

-- strings.ContainsAny for a set of ASCII bytes.
unfoldable pub contains_any : (ℕ → Bool) → Text → Bool
contains_any class t = any class t

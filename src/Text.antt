-- ===== src/Text.antt =====
-- Go strings as the program walks them, and the operations of the packages strings, unicode and
-- utf8 that it calls. A string is the list of what `range` visits: a number below 0x110000 is a
-- code point, and 0x110000 + b is a byte b that belongs to no valid UTF-8 sequence.
-- `unicode.ToLower` is a table of the Unicode standard, so it is an argument: see `Unicode`.
pub mod Laws
pub mod Clean
pub mod Decimal
use Prim.Native.Nat.{ℕ, zero, suc, ◌+◌, ◌-◌, ◌<◌, ◌≤◌}
use Prim.Native.Char.{code}
use Prim.Native.String.{String}
use mathlib.Core.Path.{◌≡◌}
use mathlib.Core.Bool.{Bool, true, false, ◌&&◌, ◌||◌, not}
use mathlib.Core.List.{List, [], ◌∷◌, map}
use gologger.Prelude.{ltb, leb, ◌==◌, if◌then◌else◌, length}

abbrev pub Text : Type 0
Text = List ℕ

-- A literal of the source.
abbrev pub codes : String → Text
codes String.[] = []
codes (String.◌∷◌ c s) = code c ∷ codes s

abbrev pub is_empty : Text → Bool
is_empty [] = true
is_empty (c ∷ cs) = false

-- s == t
abbrev pub text_eq : Text → Text → Bool
text_eq [] [] = true
text_eq [] (d ∷ t) = false
text_eq (c ∷ s) [] = false
text_eq (c ∷ s) (d ∷ t) = c == d && text_eq s t

abbrev pub mem_text : Text → List Text → Bool
mem_text t [] = false
mem_text t (s ∷ ss) = text_eq s t || mem_text t ss

abbrev pub max_rune : ℕ
max_rune = 0x110000

abbrev pub rune_error : ℕ
rune_error = 0xfffd

-- utf8.ValidString
abbrev pub valid_string : Text → Bool
valid_string [] = true
valid_string (c ∷ cs) = ltb c max_rune && valid_string cs

-- utf8.RuneCountInString: an invalid byte counts as one.
abbrev pub rune_count : Text → ℕ
rune_count = length

-- What the variable of a `range` loop holds.
abbrev pub decoded : ℕ → ℕ
decoded c = if ltb c max_rune then c else rune_error

-- unicode.IsControl
abbrev pub is_control : ℕ → Bool
is_control c = ltb c 0x20 || leb 0x7f c && ltb c 0xa0

-- unicode.IsSpace, for a code point above Latin-1.
abbrev is_wide_space : ℕ → Bool
is_wide_space c =
    c == 0x1680
    || leb 0x2000 c && leb c 0x200a
    || c == 0x2028
    || c == 0x2029
    || c == 0x202f
    || c == 0x205f
    || c == 0x3000

-- unicode.IsSpace
unfoldable pub is_space : ℕ → Bool
is_space c = leb 9 c && leb c 13 || c == 0x20 || c == 0x85 || c == 0xa0 || is_wide_space c

unfoldable pub trim_left : Text → Text
trim_left [] = []
trim_left (c ∷ cs) = if is_space c then trim_left cs else c ∷ cs

unfoldable pub trim_right : Text → Text
trim_right [] = []
trim_right (c ∷ cs) =
    let rest = trim_right cs in if is_empty rest && is_space c then [] else c ∷ rest

-- strings.TrimSpace
unfoldable pub trim_space : Text → Text
trim_space s = trim_right (trim_left s)

-- strings.ReplaceAll(s, old, "") for a text `old` of one character.
unfoldable pub remove_all : ℕ → Text → Text
remove_all old [] = []
remove_all old (c ∷ cs) = let rest = remove_all old cs in if c == old then rest else c ∷ rest

-- unicode.ToLower on ASCII.
abbrev pub ascii_lower : ℕ → ℕ
ascii_lower c = if leb 0x41 c && leb c 0x5a then c + 32 else c

-- unicode.ToLower, with what its documentation says of ASCII letters.
pub record Unicode : Type 0 where
  pub lower : ℕ → ℕ
  pub lower_ascii : (c : ℕ) → c < 128 → lower c ≡ ascii_lower c

-- strings.ToLower: strings.Map replaces an invalid byte by U+FFFD.
unfoldable pub to_lower : Unicode → Text → Text
to_lower u = map λ c. u.lower (decoded c)

-- ===== src/Security/Pattern.antt =====
-- The two regular expressions of internal/security/redaction.go, as matchers.
-- Every alternative is a keyword, blanks, a separator and a run of characters. No two neighbours
-- of these can begin with the same character, so a greedy match never has to be taken back.
mod Follows
pub mod Complete
use Prim.Native.Nat.{ℕ, zero, suc, ◌+◌, ◌-◌}
use mathlib.Core.Path.{◌≡◌}
use mathlib.Core.Bool.{Bool, true, false, ◌&&◌, ◌||◌, not}
use mathlib.Core.Option.{Option, none, some}
use mathlib.Core.List.{List, [], ◌∷◌, ◌++◌}
use gologger.Prelude.{leb, ◌==◌, if◌then◌else◌, length}
use gologger.Text.{Text, codes}

-- Case folding under the flag (?i): U+017F folds to s and U+212A to k.
unfoldable pub fold : ℕ → ℕ
fold c =
    if leb 0x41 c && leb c 0x5a
    then c + 32
    else if c == 0x17f
    then b's'
    else if c == 0x212a
    then b'k'
    else c

-- A keyword of small letters, at the start of a text: what is left behind it.
unfoldable pub keyword : Text → Text → Option Text
keyword [] s = some s
keyword (l ∷ ls) [] = none
keyword (l ∷ ls) (c ∷ s) = if fold c == l then keyword ls s else none

-- \s
unfoldable pub is_blank : ℕ → Bool
is_blank c = c == 9 || c == 10 || c == 12 || c == 13 || c == 0x20

-- \s*
unfoldable pub skip_blanks : Text → Text
skip_blanks [] = []
skip_blanks (c ∷ s) = if is_blank c then skip_blanks s else c ∷ s

-- \s+
unfoldable pub some_blanks : Text → Option Text
some_blanks [] = none
some_blanks (c ∷ s) = if is_blank c then some (skip_blanks s) else none

abbrev pub is_separator : ℕ → Bool
is_separator c = c == b'=' || c == b':'

-- [=:]
unfoldable pub separator : Text → Option Text
separator [] = none
separator (c ∷ s) = if is_separator c then some s else none

-- [-_ ]?
unfoldable pub skip_joiner : Text → Text
skip_joiner [] = []
skip_joiner (c ∷ s) = if c == b'-' || c == b'_' || c == b' ' then s else c ∷ s

-- [^\s,;]
unfoldable pub is_value_char : ℕ → Bool
unfolding is_blank
is_value_char c = not (is_blank c || c == b',' || c == b';')

-- [^\s,;]*
unfoldable pub skip_value : Text → Text
skip_value [] = []
skip_value (c ∷ s) = if is_value_char c then skip_value s else c ∷ s

-- [^\s,;]+
unfoldable pub some_value : Text → Option Text
some_value [] = none
some_value (c ∷ s) = if is_value_char c then some (skip_value s) else none

infixl 5 ◌>>=◌
abbrev pub ◌>>=◌ : Option Text → (Text → Option Text) → Option Text
none >>= f = none
some s >>= f = f s

infixr 6 ◌<|>◌
abbrev pub ◌<|>◌ : Option Text → Option Text → Option Text
none <|> b = b
some s <|> b = some s

-- bearer\s+
unfoldable pub bearer : Text → Option Text
bearer s = keyword (codes "bearer") s >>= some_blanks

-- WORD\s*[=:]\s*
unfoldable pub assigned : Text → Text → Option Text
assigned word s = keyword word s >>= λ r. separator (skip_blanks r) >>= λ q. some (skip_blanks q)

-- api[-_ ]?key
unfoldable pub api_key : Text → Option Text
api_key s = keyword (codes "api") s >>= λ r. keyword (codes "key") (skip_joiner r)

-- api[-_ ]?key\s*[=:]\s*
unfoldable pub assigned_api_key : Text → Option Text
assigned_api_key s = api_key s >>= λ r. separator (skip_blanks r) >>= λ q. some (skip_blanks q)

-- `sensitiveValue` at the start of a text: what is left behind the match.
unfoldable pub sensitive_value : Text → Option Text
sensitive_value s =
    (bearer s >>= some_value)
    <|> (assigned (codes "token") s >>= some_value)
    <|> (assigned (codes "password") s >>= some_value)
    <|> (assigned (codes "secret") s >>= some_value)
    <|> (assigned_api_key s >>= some_value)

abbrev pub redacted_value : Text
redacted_value = codes "[REDACTED]"

-- `sensitiveValue.ReplaceAllString(_, redactedValue)`. The number counts the characters that
-- still belong to the last match.
unfoldable pub replace_from : ℕ → Text → Text
replace_from n [] = []
replace_from zero (c ∷ s) = elim (sensitive_value (c ∷ s)) [
  | none ↦ c ∷ replace_from zero s
  | some rest ↦ redacted_value ++ replace_from (length s - length rest) s
]
replace_from (suc n) (c ∷ s) = replace_from n s

unfoldable pub replace_sensitive : Text → Text
replace_sensitive = replace_from zero

abbrev is_some : Option Text → Bool
is_some none = false
is_some (some s) = true

-- `sensitiveKey` at the start of a text; what follows "pass" is optional.
unfoldable pub sensitive_key_here : Text → Bool
sensitive_key_here s =
    is_some (keyword (codes "pass") s)
    || is_some (keyword (codes "secret") s)
    || is_some (keyword (codes "token") s)
    || is_some (api_key s)
    || is_some (keyword (codes "authorization") s)
    || is_some (keyword (codes "cookie") s)
    || is_some (keyword (codes "credential") s)

-- sensitiveKey.MatchString
unfoldable pub sensitive_key : Text → Bool
sensitive_key [] = false
sensitive_key (c ∷ s) = sensitive_key_here (c ∷ s) || sensitive_key s

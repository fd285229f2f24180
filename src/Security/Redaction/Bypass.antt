-- ===== src/Security/Redaction/Bypass.antt =====
-- sanitize replaces sensitive values before it drops control characters.
use Prim.Native.Nat.{ℕ}
use mathlib.Core.Path.{◌≡◌, refl}
use mathlib.Core.Bool.{true}
use mathlib.Core.Option.{some}
use mathlib.Core.List.{[], ◌∷◌, ◌++◌}
use native.Mathlib.Omega.{arith}
use gologger.Prelude.{All}
use gologger.Text.{Text, codes, is_space}
use gologger.Text.Laws.{EndsDark, trim_space_id}
use gologger.Text.Clean.{IsClean, IsKept, strip_controls, strip_controls_id, sanitize_text}
use gologger.Security.Pattern.{
  fold, keyword, is_blank, skip_blanks, separator, is_value_char, skip_value, some_value, bearer,
  assigned, api_key, assigned_api_key, sensitive_value,
}
use gologger.Security.Pattern.Complete.{NoMatch, replace_sensitive_id}
use gologger.Security.Redaction.{sanitize}

-- "token=" with a NUL in the keyword.
abbrev pub disguised : Text → Text
disguised v = codes "to" ++ 0 ∷ codes "ken=" ++ v

disguised-NoMatch : (v : Text) → NoMatch v → NoMatch (disguised v)
unfolding sensitive_value bearer assigned assigned_api_key api_key keyword fold
disguised-NoMatch v h = (refl, (refl, (refl, (refl, (refl, (refl, (refl, h)))))))

strip_controls-disguised :
    (v : Text) → All IsKept v → strip_controls (disguised v) ≡ codes "token=" ++ v
unfolding strip_controls
strip_controls-disguised v h = rw (strip_controls_id v h)

EndsDark-token : (v : Text) → EndsDark v → EndsDark (codes "token=" ++ v)
unfolding is_space
EndsDark-token [] h = refl
EndsDark-token (c ∷ v) h = h

sanitize-disguised :
    (v : Text) → IsClean v → NoMatch v → sanitize (disguised v) ≡ codes "token=" ++ v
unfolding sanitize sanitize_text is_space
sanitize-disguised v clean plain = rw (
  replace_sensitive_id (disguised v) (disguised-NoMatch v plain),
  strip_controls-disguised v clean.kept,
  trim_space_id (codes "token=" ++ v) refl (EndsDark-token v clean.ends),
)

token-sensitive :
    (c : ℕ) (v : Text)
    → is_value_char c ≡ true
    → (r : Text) × (sensitive_value (codes "token=" ++ c ∷ v) ≡ some r)
unfolding sensitive_value bearer assigned assigned_api_key api_key keyword fold skip_blanks
    separator is_blank is_value_char some_value
token-sensitive c v h = (skip_value v, ground arith)

-- A secret behind a keyword with a control character in it is not redacted, and sanitize itself
-- joins the keyword again: for every clean secret in which nothing else is sensitive, the result
-- is "token=" and the secret, which the pattern matches.
pub sanitize_leaks :
    (c : ℕ) (v : Text)
    → is_value_char c ≡ true
    → IsClean (c ∷ v)
    → NoMatch (c ∷ v)
    → (sanitize (disguised (c ∷ v)) ≡ codes "token=" ++ c ∷ v)
      × ((r : Text) × (sensitive_value (sanitize (disguised (c ∷ v))) ≡ some r))
sanitize_leaks c v h clean plain =
    let same = sanitize-disguised (c ∷ v) clean plain in (same, rw same (token-sensitive c v h))

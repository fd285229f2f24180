-- ===== src/Security/Pattern/Complete.antt =====
-- After the replacement nothing matches `sensitiveValue` any more.
use Prim.Native.Nat.{ℕ, zero, suc, ◌-◌, ◌≤◌}
use mathlib.Core.Path.{◌≡◌, refl, ap}
use mathlib.Core.Logic.{inl, inr}
use mathlib.Core.Option.{Option, none, some}
use mathlib.Core.List.{[], ◌∷◌, ◌++◌}
use native.Mathlib.Omega.{arith}
use gologger.Prelude.{Option-cases, length}
use gologger.Text.{Text, codes}
use gologger.Security.Pattern.{
  fold, keyword, some_blanks, some_value, ◌>>=◌, ◌<|>◌, bearer, assigned, api_key, assigned_api_key,
  sensitive_value, replace_from, replace_sensitive, redacted_value,
}
use gologger.Security.Pattern.Follows.{
  IsStart, Redacted, end, keep, cut, Matches-sensitive_value, >>=-eq-some, <|>-cases,
}

-- Characters dropped from the front.
abbrev behind : ℕ → Text → Text
behind zero s = s
behind (suc n) [] = []
behind (suc n) (c ∷ s) = behind n s

-- No suffix of the text starts with a match.
abbrev pub NoMatch : Text → Type 0
NoMatch [] = Unit {0}
NoMatch (c ∷ s) = (sensitive_value (c ∷ s) ≡ none) × NoMatch s

-- A stage that matches only where a match can start.
abbrev Starts : (Text → Option Text) → Type 0
Starts f = (c : ℕ) (s r : Text) → f (c ∷ s) ≡ some r → IsStart c

Starts-keyword : (l : ℕ) (ls : Text) → 0x61 ≤ l → l ≤ 0x7a → Starts (keyword (l ∷ ls))
unfolding keyword fold
Starts-keyword l ls low high c s r h = ground arith

Starts-bind : (f g : Text → Option Text) → Starts f → Starts (λ s. f s >>= g)
Starts-bind f g start c s r h = let (q, e, k) = >>=-eq-some (f (c ∷ s)) g r h in start c s q e

Starts-or : (f g : Text → Option Text) → Starts f → Starts g → Starts (λ s. f s <|> g s)
Starts-or f g start start' c s r h = elim (<|>-cases (f (c ∷ s)) (g (c ∷ s)) r h) [
  | inl e ↦ start c s r e
  | inr e ↦ start' c s r e
]

Starts-assigned :
    (l : ℕ) (ls : Text) → 0x61 ≤ l → l ≤ 0x7a → Starts (λ s. assigned (l ∷ ls) s >>= some_value)
unfolding assigned
Starts-assigned l ls low high =
    Starts-bind (assigned (l ∷ ls)) some_value
      (Starts-bind (keyword (l ∷ ls)) _ (Starts-keyword l ls low high))

Starts-bearer : Starts (λ s. bearer s >>= some_value)
unfolding bearer
Starts-bearer = Starts-bind bearer some_value (
    Starts-bind (keyword (codes "bearer")) some_blanks
      (Starts-keyword b'b' (codes "earer") (omega arith) (omega arith)))

Starts-api_key : Starts (λ s. assigned_api_key s >>= some_value)
unfolding assigned_api_key api_key
Starts-api_key = Starts-bind assigned_api_key some_value (
    Starts-bind api_key _ (
      Starts-bind (keyword (codes "api")) _
        (Starts-keyword b'a' (codes "pi") (omega arith) (omega arith))))

abbrev after_secret : Text → Option Text
after_secret s = assigned_api_key s >>= some_value

abbrev after_password : Text → Option Text
after_password s = (assigned (codes "secret") s >>= some_value) <|> after_secret s

abbrev after_token : Text → Option Text
after_token s = (assigned (codes "password") s >>= some_value) <|> after_password s

abbrev after_bearer : Text → Option Text
after_bearer s = (assigned (codes "token") s >>= some_value) <|> after_token s

Starts-sensitive_value : Starts sensitive_value
unfolding sensitive_value
Starts-sensitive_value =
    Starts-or (λ s. bearer s >>= some_value) after_bearer Starts-bearer
      (Starts-or (λ s. assigned (codes "token") s >>= some_value) after_token
        (Starts-assigned b't' (codes "oken") (omega arith) (omega arith))
        (Starts-or (λ s. assigned (codes "password") s >>= some_value) after_password
          (Starts-assigned b'p' (codes "assword") (omega arith) (omega arith))
          (Starts-or (λ s. assigned (codes "secret") s >>= some_value) after_secret
            (Starts-assigned b's' (codes "ecret") (omega arith) (omega arith)) Starts-api_key)))

-- Where nothing matches a character is copied.
pub replace_from-none :
    (c : ℕ) (s : Text)
    → sensitive_value (c ∷ s) ≡ none
    → replace_from 0 (c ∷ s) ≡ c ∷ replace_from 0 s
unfolding replace_from
replace_from-none c s e = rw (e, replace_from)

-- A match is replaced, and the replacement goes on behind it.
pub replace_from-some :
    (c : ℕ) (s r : Text)
    → sensitive_value (c ∷ s) ≡ some r
    → replace_from 0 (c ∷ s) ≡ redacted_value ++ replace_from (length s - length r) s
unfolding replace_from
replace_from-some c s r e = rw (e, replace_from)

Redacted-replace_from : (s : Text) (n : ℕ) → Redacted (replace_from n s) (behind n s)
unfolding replace_from
Redacted-replace_from [] zero = end
Redacted-replace_from [] (suc n) = end
Redacted-replace_from (c ∷ s) zero = elim (Option-cases (sensitive_value (c ∷ s))) [
  | inl e ↦ rw (replace_from-none c s e) (keep c (Redacted-replace_from s zero))
  | inr (r, e) ↦ rw (replace_from-some c s r e) (cut _ c s (Starts-sensitive_value c s r e))
]
Redacted-replace_from (c ∷ s) (suc n) = Redacted-replace_from s n

not_matched : (o i : Text) → Redacted o i → sensitive_value i ≡ none → sensitive_value o ≡ none
not_matched o i d h = elim (Option-cases (sensitive_value o)) [
  | inl e ↦ e
  | inr (r, e) ↦ let (q, e') = Matches-sensitive_value o i r d e in cc
]

NoMatch-redacted_value : (s : Text) → NoMatch s → NoMatch (redacted_value ++ s)
unfolding sensitive_value bearer assigned assigned_api_key api_key keyword fold
NoMatch-redacted_value s h =
    (refl, (refl, (refl, (refl, (refl, (refl, (refl, (refl, (refl, (refl, h))))))))))

NoMatch-replace_from : (s : Text) (n : ℕ) → NoMatch (replace_from n s)
unfolding replace_from
NoMatch-replace_from [] zero = tt
NoMatch-replace_from [] (suc n) = tt
NoMatch-replace_from (c ∷ s) zero = elim (Option-cases (sensitive_value (c ∷ s))) [
  | inl e ↦
      rw (replace_from-none c s e) (
        not_matched _ (c ∷ s) (keep c (Redacted-replace_from s zero)) e,
        NoMatch-replace_from s zero,
      )
  | inr (r, e) ↦
      rw (replace_from-some c s r e)
        (NoMatch-redacted_value _ (NoMatch-replace_from s (length s - length r)))
]
NoMatch-replace_from (c ∷ s) (suc n) = NoMatch-replace_from s n

-- Whatever the text, `sensitiveValue` matches at no position of what the replacement returns.
pub NoMatch-replace_sensitive : (s : Text) → NoMatch (replace_sensitive s)
unfolding replace_sensitive
NoMatch-replace_sensitive s = NoMatch-replace_from s zero

replace_from_id : (s : Text) → NoMatch s → replace_from 0 s ≡ s
unfolding replace_from
replace_from_id [] h = refl
replace_from_id (c ∷ s) h = rw (replace_from-none c s h.0) (ap (◌∷◌ c) (replace_from_id s h.1))

-- A text with no match is returned as it is.
pub replace_sensitive_id : (s : Text) → NoMatch s → replace_sensitive s ≡ s
unfolding replace_sensitive
replace_sensitive_id s h = replace_from_id s h

-- ===== src/Security/Pattern/Follows.antt =====
-- The stages of `sensitiveValue` on a redacted text follow those on the text that it came from.
use Prim.Native.Nat.{ℕ, ◌≤◌}
use mathlib.Core.Path.{◌≡◌, refl}
use mathlib.Core.Logic.{◌⊎◌, inl, inr, ◌≢◌}
use mathlib.Core.Bool.{true, false}
use mathlib.Core.Option.{Option, none, some}
use mathlib.Core.List.{[], ◌∷◌}
use native.Mathlib.Omega.{arith}
use gologger.Prelude.{◌==◌, Bool-cases, All}
use gologger.Text.{Text, codes}
use gologger.Security.Pattern.{
  fold, keyword, is_blank, skip_blanks, some_blanks, is_separator, separator, skip_joiner,
  is_value_char, skip_value, some_value, ◌>>=◌, ◌<|>◌, bearer, assigned, api_key, assigned_api_key,
  sensitive_value,
}

-- What the first character of a match can be: a letter, or one that folds to a letter.
abbrev pub IsStart : ℕ → Type 0
IsStart c = (0x41 ≤ c) × (c ≢ 0x5f)

-- The redacted text beside the text that it came from, up to the first replacement.
pub data Redacted : Text → Text → Type 0 where
  end : Redacted [] []
  keep : (c : ℕ) {o i : Text} → Redacted o i → Redacted (c ∷ o) (c ∷ i)
  cut : (o : Text) (c : ℕ) (i : Text) → IsStart c → Redacted (b'[' ∷ o) (c ∷ i)

-- If a stage of the pattern matches in the redacted text, it matches in the other too.
abbrev Follows : (Text → Option Text) → Type 0
Follows f =
    (o i r : Text) → Redacted o i → f o ≡ some r → (q : Text) × (f i ≡ some q) × Redacted r q

pub >>=-eq-some :
    (m : Option Text) (f : Text → Option Text) (r : Text)
    → (m >>= f) ≡ some r
    → (q : Text) × (m ≡ some q) × (f q ≡ some r)
>>=-eq-some none f r h = cc
>>=-eq-some (some q) f r h = (q, refl, h)

Follows-bind : (f g : Text → Option Text) → Follows f → Follows g → Follows (λ s. f s >>= g)
Follows-bind f g ff fg o i r d h =
    let (p, e, k) = >>=-eq-some (f o) g r h in
    let (q, e', d') = ff o i p d e in let (t, e'', d'') = fg p q r d' k in (t, rw e' e'', d'')

some_inj : (a b : Text) → some a ≡ some b → a ≡ b
some_inj a b e = cc

Follows-some :
    (f : Text → Text)
    → ((o i : Text) → Redacted o i → Redacted (f o) (f i))
    → Follows (λ s. some (f s))
Follows-some f g o i r d h = (f i, refl, rw (← some_inj (f o) r h) (g o i d))

Follows-keyword : (w : Text) → All (λ l. l ≢ b'[') w → Follows (keyword w)
unfolding keyword fold
Follows-keyword [] h o i r d e = (i, refl, rw (← some_inj o r e) d)
Follows-keyword (l ∷ ls) h o i r end e = cc
Follows-keyword (l ∷ ls) h o i r (keep c {o = o'} {i = i'} d) e = elim (Bool-cases (fold c == l)) [
  | inl y ↦
      let (q, e', d') = Follows-keyword ls h.1 o' i' r d (rw (y, keyword) at e) in (q, rw y e', d')
  | inr n ↦ cc (rw (n, keyword) at e)
]
Follows-keyword (l ∷ ls) h o i r (cut o' c i' s) e = ground arith

skip_blanks-Redacted : (o i : Text) → Redacted o i → Redacted (skip_blanks o) (skip_blanks i)
unfolding skip_blanks is_blank
skip_blanks-Redacted o i end = end
skip_blanks-Redacted o i (keep c {o = o'} {i = i'} d) = elim (Bool-cases (is_blank c)) [
  | inl y ↦ rw y (skip_blanks-Redacted o' i' d)
  | inr n ↦ rw n (keep c d)
]
skip_blanks-Redacted o i (cut o' c i' s) =
    let n : is_blank c ≡ false = ground arith in rw n (cut o' c i' s)

Follows-some_blanks : Follows some_blanks
unfolding some_blanks is_blank
Follows-some_blanks o i r end e = cc
Follows-some_blanks o i r (keep c {o = o'} {i = i'} d) e = elim (Bool-cases (is_blank c)) [
  | inl y ↦ (
    skip_blanks i',
    rw y,
    rw (← some_inj _ r (rw (y, some_blanks) at e)) (skip_blanks-Redacted o' i' d),
  )
  | inr n ↦ cc (rw (n, some_blanks) at e)
]
Follows-some_blanks o i r (cut o' c i' s) e = cc

Follows-separator : Follows separator
unfolding separator
Follows-separator o i r end e = cc
Follows-separator o i r (keep c {o = o'} {i = i'} d) e = elim (Bool-cases (is_separator c)) [
  | inl y ↦ (i', rw y, rw (← some_inj o' r (rw (y, separator) at e)) d)
  | inr n ↦ cc (rw (n, separator) at e)
]
Follows-separator o i r (cut o' c i' s) e = cc

skip_joiner-Redacted : (o i : Text) → Redacted o i → Redacted (skip_joiner o) (skip_joiner i)
unfolding skip_joiner
skip_joiner-Redacted o i end = end
skip_joiner-Redacted o i (keep c {o = o'} {i = i'} d) = ground (arith, d, keep c d)
skip_joiner-Redacted o i (cut o' c i' s) = ground (arith, cut o' c i' s)

Follows-bearer : Follows bearer
unfolding bearer
Follows-bearer =
    Follows-bind (keyword (codes "bearer")) some_blanks
      (Follows-keyword (codes "bearer") (omega arith)) Follows-some_blanks

-- \s*[=:]\s*
abbrev assignment : Text → Option Text
assignment r = separator (skip_blanks r) >>= λ q. some (skip_blanks q)

Follows-assignment : Follows assignment
Follows-assignment =
    Follows-bind (λ r. separator (skip_blanks r)) (λ q. some (skip_blanks q))
      (λ o i r d e.
        Follows-separator (skip_blanks o) (skip_blanks i) r (skip_blanks-Redacted o i d) e)
      (Follows-some skip_blanks skip_blanks-Redacted)

Follows-assigned : (w : Text) → All (λ l. l ≢ b'[') w → Follows (assigned w)
unfolding assigned
Follows-assigned w h = Follows-bind (keyword w) assignment (Follows-keyword w h) Follows-assignment

Follows-api_key : Follows api_key
unfolding api_key
Follows-api_key =
    Follows-bind (keyword (codes "api")) (λ r. keyword (codes "key") (skip_joiner r))
      (Follows-keyword (codes "api") (omega arith))
      (λ o i r d e.
        Follows-keyword (codes "key") (omega arith) (skip_joiner o) (skip_joiner i) r
          (skip_joiner-Redacted o i d) e)

Follows-assigned_api_key : Follows assigned_api_key
unfolding assigned_api_key
Follows-assigned_api_key = Follows-bind api_key assignment Follows-api_key Follows-assignment

-- The last stage has nothing after it, so only the fact that it matches is carried over.
abbrev pub Matches : (Text → Option Text) → Type 0
Matches f = (o i r : Text) → Redacted o i → f o ≡ some r → (q : Text) × (f i ≡ some q)

Matches-some_value : Matches some_value
unfolding some_value is_value_char is_blank
Matches-some_value o i r end e = cc
Matches-some_value o i r (keep c {o = o'} {i = i'} d) e = elim (Bool-cases (is_value_char c)) [
  | inl y ↦ (skip_value i', rw y)
  | inr n ↦ cc (rw (n, some_value) at e)
]
Matches-some_value o i r (cut o' c i' s) e =
    let y : is_value_char c ≡ true = ground arith in (skip_value i', rw y)

Matches-bind : (f g : Text → Option Text) → Follows f → Matches g → Matches (λ s. f s >>= g)
Matches-bind f g ff fg o i r d h =
    let (p, e, k) = >>=-eq-some (f o) g r h in
    let (q, e', d') = ff o i p d e in let (t, e'') = fg p q r d' k in (t, rw e' e'')

<|>-some_left : (a b : Option Text) → (q : Text) × (a ≡ some q) → (q : Text) × ((a <|> b) ≡ some q)
<|>-some_left none b (q, e) = cc
<|>-some_left (some x) b (q, e) = (x, refl)

<|>-some_right : (a b : Option Text) → (q : Text) × (b ≡ some q) → (q : Text) × ((a <|> b) ≡ some q)
<|>-some_right none b h = h
<|>-some_right (some x) b h = (x, refl)

pub <|>-cases : (a b : Option Text) (r : Text) → (a <|> b) ≡ some r → (a ≡ some r) ⊎ (b ≡ some r)
<|>-cases none b r h = inr h
<|>-cases (some x) b r h = inl h

Matches-or : (f g : Text → Option Text) → Matches f → Matches g → Matches (λ s. f s <|> g s)
Matches-or f g mf mg o i r d h = elim (<|>-cases (f o) (g o) r h) [
  | inl e ↦ <|>-some_left (f i) (g i) (mf o i r d e)
  | inr e ↦ <|>-some_right (f i) (g i) (mg o i r d e)
]

Matches-assigned : (w : Text) → All (λ l. l ≢ b'[') w → Matches (λ s. assigned w s >>= some_value)
Matches-assigned w h =
    Matches-bind (assigned w) some_value (Follows-assigned w h) Matches-some_value

pub Matches-sensitive_value : Matches sensitive_value
unfolding sensitive_value
Matches-sensitive_value =
    Matches-or (λ s. bearer s >>= some_value) _
      (Matches-bind bearer some_value Follows-bearer Matches-some_value)
      (Matches-or (λ s. assigned (codes "token") s >>= some_value) _
        (Matches-assigned (codes "token") (omega arith))
        (Matches-or (λ s. assigned (codes "password") s >>= some_value) _
          (Matches-assigned (codes "password") (omega arith))
          (Matches-or (λ s. assigned (codes "secret") s >>= some_value) _
            (Matches-assigned (codes "secret") (omega arith))
            (Matches-bind assigned_api_key some_value Follows-assigned_api_key
              Matches-some_value))))

-- ===== src/Security/RateLimit/Burst.antt =====
-- How many calls of one key are allowed in a stretch of time.
use Prim.Native.Nat.{ℕ, ◌+◌, ◌*◌, ◌≤◌, ◌<◌}
use mathlib.Core.Path.{◌≡◌, refl}
use mathlib.Core.Logic.{◌⊎◌, inl, inr}
use mathlib.Core.Bool.{Bool, ◌&&◌}
use mathlib.Core.List.{List, [], ◌∷◌}
use native.Mathlib.Omega.{arith}
use gologger.Prelude.{leb, ltb, if◌then◌else◌, Bool-cases}
use gologger.Text.{Text, text_eq}
use gologger.Text.Laws.{text_eq_iff}
use gologger.GoMap.{lookup}
use gologger.Clock.{zero_instant}
use gologger.Security.RateLimit.{WindowCounter, FixedWindowLimiter, new_fixed_window_limiter, allow}
use gologger.Security.RateLimit.Counter.{
  counter, bump, allow-bump, limit-allow, window-allow, counter-allow,
}

-- A time in the stretch of the given length from t on.
abbrev pub is_within : ℕ → ℕ → ℕ → Bool
is_within t window now = leb t now && ltb now (t + window)

-- The times do not fall, and none lies before m.
abbrev pub Rising : ℕ → List ℕ → Type 0
Rising m [] = Unit {0}
Rising m (now ∷ rest) = (m ≤ now) × Rising now rest

-- The calls on one counter at these times that are allowed in the stretch from t on.
granted_one : ℕ → ℕ → ℕ → List ℕ → WindowCounter → ℕ
granted_one limit window t [] item = 0
granted_one limit window t (now ∷ rest) item =
    let (allowed, item') = bump limit window now item in
    (if allowed && is_within t window now then 1 else 0) + granted_one limit window t rest item'

module _ (limit window t : ℕ) (some_limit : 1 ≤ limit) (after_zero : zero_instant < t) where
  -- Once the stretch is over nothing counts.
  none_after :
      (m : ℕ) (ns : List ℕ) (item : WindowCounter)
      → t + window ≤ m
      → Rising m ns
      → granted_one limit window t ns item ≡ 0
  unfolding granted_one
  none_after m [] item h r = refl
  none_after m (now ∷ rest) item h r =
      ground (arith, none_after now rest (bump limit window now item).1 (omega arith) r.1)

  -- A window that began in the stretch has what is left of its limit.
  left_in_window :
      (m : ℕ) (ns : List ℕ) (item : WindowCounter)
      → t ≤ item.started
      → item.count ≤ limit
      → Rising m ns
      → granted_one limit window t ns item + item.count ≤ limit
  unfolding granted_one bump
  left_in_window m [] item h k r = ground arith
  left_in_window m (now ∷ rest) item h k r = ground (
    arith,
    none_after now rest (record { started = now; count = 1 }),
    left_in_window now rest item h k r.1,
    left_in_window now rest (record item { count = item.count + 1 }) h,
  )

  -- From a call in the stretch on: what is left of an older window, whose first call lies before
  -- the stretch, and one more window.
  left_from_start :
      (m : ℕ) (ns : List ℕ) (item : WindowCounter)
      → t ≤ m
      → 1 ≤ item.count
      → item.count ≤ limit
      → Rising m ns
      → granted_one limit window t ns item + item.count ≤ 2 * limit
  unfolding granted_one bump
  left_from_start m [] item h p k r = ground arith
  left_from_start m (now ∷ rest) item h p k r = ground (
    arith,
    left_in_window now rest (record { started = now; count = 1 }),
    left_from_start now rest item (omega arith) p k r.1,
    left_from_start now rest (record item { count = item.count + 1 }) (omega arith) (omega arith),
  )

  below_twice :
      (m : ℕ) (ns : List ℕ) (item : WindowCounter)
      → (item.started ≡ zero_instant) ⊎ (1 ≤ item.count)
      → item.count ≤ limit
      → Rising m ns
      → granted_one limit window t ns item + 1 ≤ 2 * limit
  unfolding granted_one bump
  below_twice m [] item p k r = ground arith
  below_twice m (now ∷ rest) item (inl fresh) k r = ground (
    arith,
    below_twice now rest (record { started = now; count = 1 }) (inr (omega arith)),
    left_in_window now rest (record { started = now; count = 1 }),
  )
  below_twice m (now ∷ rest) item (inr p) k r = ground (
    arith,
    below_twice now rest (record { started = now; count = 1 }) (inr (omega arith)),
    below_twice now rest item (inr p) k r.1,
    below_twice now rest (record item { count = item.count + 1 }) (inr (omega arith)),
    left_in_window now rest (record { started = now; count = 1 }),
    left_from_start now rest item,
    left_from_start now rest (record item { count = item.count + 1 }),
  )

-- A call of Allow: its time and its key.
abbrev pub Call : Type 0
Call = ℕ × Text

-- The calls of the key that are allowed in the stretch of one window's length from t on.
unfoldable pub granted : Text → ℕ → List Call → FixedWindowLimiter → ℕ
granted key t [] limiter = 0
granted key t ((now, k) ∷ rest) limiter =
    let (allowed, limiter') = allow now k limiter in
    (if allowed && (text_eq k key && is_within t limiter.window now) then 1 else 0)
    + granted key t rest limiter'

-- The times of the calls of a key.
abbrev times : Text → List Call → List ℕ
times key [] = []
times key ((now, k) ∷ rest) =
    let others = times key rest in if text_eq k key then now ∷ others else others

abbrev pub RisingCalls : ℕ → List Call → Type 0
RisingCalls m [] = Unit {0}
RisingCalls m ((now, k) ∷ rest) = (m ≤ now) × RisingCalls now rest

Rising-lower : (l m : ℕ) (ns : List ℕ) → l ≤ m → Rising m ns → Rising l ns
Rising-lower l m [] h r = tt
Rising-lower l m (now ∷ rest) h r = (omega arith, r.1)

Rising-times : (key : Text) (m : ℕ) (cs : List Call) → RisingCalls m cs → Rising m (times key cs)
Rising-times key m [] r = tt
Rising-times key m ((now, k) ∷ rest) r = elim (Bool-cases (text_eq k key)) [
  | inl own ↦ rw own (r.0, Rising-times key now rest r.1)
  | inr other ↦ rw other (Rising-lower m now (times key rest) r.0 (Rising-times key now rest r.1))
]

granted-granted_one :
    (key : Text) (t : ℕ) (cs : List Call) (limiter : FixedWindowLimiter)
    → granted key t cs limiter
      ≡ granted_one limiter.limit limiter.window t (times key cs) (counter key limiter)
unfolding granted granted_one
granted-granted_one key t [] limiter = refl
granted-granted_one key t ((now, k) ∷ rest) limiter = elim (Bool-cases (text_eq k key)) [
  | inl own ↦
      rw
        (
          granted-granted_one key t rest (allow now k limiter).1,
          limit-allow now k limiter,
          window-allow now k limiter,
          counter-allow now k limiter key,
          own,
          allow-bump now k limiter,
          (text_eq_iff k key).0 own,
        )
        refl
  | inr other ↦
      rw
        (
          granted-granted_one key t rest (allow now k limiter).1,
          limit-allow now k limiter,
          window-allow now k limiter,
          counter-allow now k limiter key,
          other,
        )
        (ground arith)
]

-- A new limiter, whatever the calls, as long as their times do not fall, allows in any stretch of
-- one window's length that begins after the zero time fewer than twice its limit of the calls of
-- a key.
pub granted-lt :
    (key : Text) (t m limit window : ℕ) (cs : List Call)
    → zero_instant < t
    → RisingCalls m cs
    → granted key t cs (new_fixed_window_limiter limit window)
      < 2 * (new_fixed_window_limiter limit window).limit
unfolding new_fixed_window_limiter lookup
granted-lt key t m limit window cs after r =
    let limiter = new_fixed_window_limiter limit window in
    let positive : 1 ≤ limiter.limit = ground arith in
    rw (granted-granted_one key t cs limiter) (
      omega (
        arith,
        below_twice limiter.limit limiter.window t positive after m (times key cs)
            (counter key limiter) (inl refl) (omega arith) (Rising-times key m cs r),
      ))

-- ===== src/Security/RateLimit/Connections.antt =====
-- ConnectionLimiter of internal/security/rate_limit.go: a buffered channel of empty structs, that is
-- a number of tokens and a capacity.
use Prim.Native.Nat.{ℕ, zero, suc, ◌+◌, ◌-◌, ◌≤◌}
use mathlib.Core.Path.{◌≡◌, refl}
use mathlib.Core.Bool.{Bool, true, false}
use mathlib.Core.Option.{Option, none, some}
use mathlib.Core.List.{List, [], ◌∷◌}
use native.Mathlib.Omega.{arith}
use gologger.Prelude.{ltb, ◌==◌, if◌then◌else◌}

pub record ConnectionLimiter : Type 0 where
  pub capacity : ℕ
  pub held : ℕ

-- `none` is the nil limiter, which a limit that is not positive gives.
unfoldable pub new_connection_limiter : ℕ → Option ConnectionLimiter
new_connection_limiter limit =
    if limit == 0 then none else some (record { capacity = limit; held = 0 })

unfoldable pub try_acquire : Option ConnectionLimiter → Bool × Option ConnectionLimiter
try_acquire none = (true, none)
try_acquire (some limiter) =
    if ltb limiter.held limiter.capacity
    then (true, some (record limiter { held = limiter.held + 1 }))
    else (false, some limiter)

-- A receive from an empty channel blocks: `none`.
unfoldable pub release : Option ConnectionLimiter → Option (Option ConnectionLimiter)
release none = some none
release (some limiter) =
    if limiter.held == 0 then none else some (some (record limiter { held = limiter.held - 1 }))

-- The clients of the limiter: a client tries to acquire, and one that has acquired releases.
pub data Move : Type 0 where
  acquires releases : Move

-- The connections that are open, beside the limiter. A release without an open connection does not
-- happen.
abbrev pub moved : Move → ℕ × Option ConnectionLimiter → ℕ × Option ConnectionLimiter
moved acquires (open_now, limiter) =
    let (granted, limiter') = try_acquire limiter in
    (if granted then open_now + 1 else open_now, limiter')
moved releases (zero, limiter) = (zero, limiter)
moved releases (suc open_now, limiter) = elim (release limiter) [
  | none ↦ (suc open_now, limiter)
  | some limiter' ↦ (open_now, limiter')
]

abbrev pub run : List Move → ℕ × Option ConnectionLimiter → ℕ × Option ConnectionLimiter
run [] s = s
run (m ∷ ms) s = run ms (moved m s)

-- The limiter counts the open connections, and holds no more than its capacity.
abbrev Counts : ℕ → ℕ × Option ConnectionLimiter → Type 0
Counts limit (open_now, none) = ⊥
Counts limit (open_now, some limiter) =
    (limiter.capacity ≡ limit) × (limiter.held ≡ open_now) × (open_now ≤ limit)

moved-Counts :
    (limit : ℕ) (m : Move) (s : ℕ × Option ConnectionLimiter)
    → Counts limit s
    → Counts limit (moved m s)
unfolding try_acquire release
moved-Counts limit acquires (open_now, some limiter) c = ground arith
moved-Counts limit releases (zero, some limiter) c = c
moved-Counts limit releases (suc open_now, some limiter) c = ground arith
moved-Counts limit acquires (open_now, none) c = c
moved-Counts limit releases (zero, none) c = absurd c
moved-Counts limit releases (suc open_now, none) c = absurd c

run-Counts :
    (limit : ℕ) (ms : List Move) (s : ℕ × Option ConnectionLimiter)
    → Counts limit s
    → Counts limit (run ms s)
run-Counts limit [] s c = c
run-Counts limit (m ∷ ms) s c = run-Counts limit ms (moved m s) (moved-Counts limit m s c)

-- What the count says of the open connections and of the next attempt.
Counts-sound :
    (limit : ℕ) (s : ℕ × Option ConnectionLimiter)
    → Counts limit s
    → (s.0 ≤ limit) × ((try_acquire s.1).0 ≡ ltb s.0 limit)
unfolding try_acquire
Counts-sound limit (open_now, none) c = absurd c
Counts-sound limit (open_now, some limiter) c = (c.2, ground arith)

new_limiter : (limit : ℕ) → 1 ≤ limit → Counts limit (0, new_connection_limiter limit)
unfolding new_connection_limiter
new_limiter limit h =
    let positive : (limit == 0) ≡ false = ground arith in rw positive (refl, refl, omega arith)

-- Through any sequence of acquisitions and releases, with a positive limit, at most that many
-- connections are open at once, and the next attempt succeeds exactly when fewer are open.
pub connections_exact :
    (limit : ℕ) (ms : List Move)
    → 1 ≤ limit
    → let s = run ms (0, new_connection_limiter limit) in
      (s.0 ≤ limit) × ((try_acquire s.1).0 ≡ ltb s.0 limit)
connections_exact limit ms h =
    let start : ℕ × Option ConnectionLimiter = (0, new_connection_limiter limit) in
    Counts-sound limit (run ms start) (run-Counts limit ms start (new_limiter limit h))

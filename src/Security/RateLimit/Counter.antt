-- ===== src/Security/RateLimit/Counter.antt =====
-- One key of the limiter: its counter moves only with its own calls.
use Prim.Native.Nat.{ℕ, ◌+◌}
use mathlib.Core.Path.{◌≡◌}
use mathlib.Core.Bool.{Bool, true, false}
use native.Mathlib.Omega.{arith}
use gologger.Prelude.{leb, if◌then◌else◌}
use gologger.Text.{Text, text_eq}
use gologger.Text.Laws.{text_eq_iff}
use gologger.GoMap.{lookup, lookup-put}
use gologger.Security.RateLimit.{WindowCounter, or_zero, FixedWindowLimiter, is_over, allow}

abbrev pub counter : Text → FixedWindowLimiter → WindowCounter
counter key limiter = or_zero (lookup key limiter.items)

-- A call on a single counter.
unfoldable pub bump : ℕ → ℕ → ℕ → WindowCounter → Bool × WindowCounter
bump limit window now item =
    if is_over window now item
    then (true, record { started = now; count = 1 })
    else if leb limit item.count
    then (false, item)
    else (true, record item { count = item.count + 1 })

module _ (now : ℕ) (key : Text) (limiter : FixedWindowLimiter) where
  pub allow-bump :
      (allow now key limiter).0 ≡ (bump limiter.limit limiter.window now (counter key limiter)).0
  unfolding allow bump
  allow-bump = ground arith

  pub limit-allow : (allow now key limiter).1.limit ≡ limiter.limit
  unfolding allow
  limit-allow = ground arith

  pub window-allow : (allow now key limiter).1.window ≡ limiter.window
  unfolding allow
  window-allow = ground arith

  -- Whatever the call returns, no other key is affected.
  pub counter-allow :
      (j : Text)
      → counter j (allow now key limiter).1 ≡ (
          if text_eq key j
          then (bump limiter.limit limiter.window now (counter key limiter)).1
          else counter j limiter)
  unfolding allow bump
  counter-allow j =
      let item = counter key limiter in
      ground (
        arith,
        text_eq_iff key j,
        lookup-put key j (record { started = now; count = 1 }) limiter.items,
        lookup-put key j (record item { count = item.count + 1 }) limiter.items,
      )

-- ===== src/Security/RateLimit.antt =====
-- internal/security/rate_limit.go: the fixed-window limiter, the middleware and the limiter of
-- connections. A limit or a window below 0 counts as 0, as the constructors treat both alike.
pub mod Counter
pub mod Burst
pub mod Connections
pub mod Rotation
use Prim.Native.Nat.{ℕ, zero, ◌+◌, ◌*◌}
use mathlib.Core.Bool.{Bool, true, false, ◌&&◌, ◌||◌, not}
use mathlib.Core.Option.{Option, none, some}
use mathlib.Core.List.{List, [], ◌∷◌, ◌++◌}
use gologger.Prelude.{ltb, leb, ◌==◌, if◌then◌else◌}
use gologger.Text.{Text, codes, is_empty, trim_space}
use gologger.GoMap.{GoMap, lookup, put}
use gologger.Clock.{second, zero_instant}

pub record WindowCounter : Type 0 where
  pub started : ℕ
  pub count : ℕ

-- What a map yields for a key that it does not have.
abbrev pub zero_counter : WindowCounter
zero_counter = record { started = zero_instant; count = 0 }

abbrev pub or_zero : Option WindowCounter → WindowCounter
or_zero none = zero_counter
or_zero (some item) = item

pub record FixedWindowLimiter : Type 0 where
  pub limit : ℕ
  pub window : ℕ
  pub items : GoMap WindowCounter

abbrev pub minute : ℕ
minute = 60 * second

unfoldable pub new_fixed_window_limiter : ℕ → ℕ → FixedWindowLimiter
new_fixed_window_limiter limit window = record {
  limit = if limit == 0 then 1 else limit;
  window = if window == 0 then minute else window;
  items = [];
}

-- item.started.IsZero() || now.Sub(item.started) >= limiter.window
abbrev pub is_over : ℕ → ℕ → WindowCounter → Bool
is_over window now item = item.started == zero_instant || leb (item.started + window) now

-- Allow, at the time `now`.
unfoldable pub allow : ℕ → Text → FixedWindowLimiter → Bool × FixedWindowLimiter
allow now key limiter =
    let item = or_zero (lookup key limiter.items) in
    if is_over limiter.window now item
    then (
      true,
      record limiter { items = put key (record { started = now; count = 1 }) limiter.items },
    )
    else if leb limiter.limit item.count
    then (false, limiter)
    else (
      true,
      record limiter { items = put key (record item { count = item.count + 1 }) limiter.items },
    )

-- The request as ClientKey reads it: the header X-API-Key, the remote address, and its host if
-- net.SplitHostPort accepts the address.
pub record Request : Type 0 where
  pub api_key : Text
  pub remote_addr : Text
  pub host : Option Text

unfoldable pub client_key : Request → Text
client_key request =
    let api_key = trim_space request.api_key in
    if is_empty api_key
    then elim request.host [
      | none ↦ codes "ip:" ++ request.remote_addr
      | some host ↦ codes "ip:" ++ host
    ]
    else codes "api-key:" ++ api_key

-- What the handler of Middleware does with a request.
pub data Outcome : Type 0 where
  too_many_requests : Outcome
  served : Outcome

-- Middleware; `none` is a limiter that is nil.
unfoldable pub middleware :
    Option FixedWindowLimiter → ℕ → (Request → Text) → Request → Outcome × Option FixedWindowLimiter
middleware none now key request = (served, none)
middleware (some limiter) now key request =
    let (allowed, limiter') = allow now (key request) limiter in
    (if not allowed then too_many_requests else served, some limiter')

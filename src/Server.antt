-- ===== src/Server.antt =====
-- The health handlers of cmd/server/main.go.
pub mod Health
pub mod Boot
pub mod Routes
pub mod Started
pub mod Guard
pub mod Connected
use Prim.Native.Nat.{ℕ}
use mathlib.Core.Option.{Option, none, some}
use mathlib.Core.List.{List, [], ◌∷◌}
use gologger.Prelude.{if◌then◌else◌}
use gologger.Result.{Result, ok, err}
use gologger.Text.{Text, text_eq, codes}
use gologger.Clock.{Time, utc}

-- The value of a key of a response.
pub data Value : Type 0 where
  says : Text → Value
  at : Time → Value

pub record Response : Type 0 where
  pub status : ℕ
  pub body : List (Text × Value)

-- The reply of a handler to a store that is not healthy.
abbrev pub unavailable : Text → Response
unavailable status = record {
  status = 503;
  body = (codes "status", says status) ∷ (codes "error", says (codes "storage unavailable")) ∷ [];
}

-- `store_health` is what store.Health returns.
module _ {E : Type 0} where
  unfoldable pub health_handler : Result E (Unit {0}) → Time → Response
  health_handler (err e) now = unavailable (codes "unhealthy")
  health_handler (ok passed) now = record {
    status = 200;
    body =
        (codes "status", says (codes "healthy"))
        ∷ (codes "timestamp", at (utc now))
        ∷ (codes "service", says (codes "logger-service"))
        ∷ [];
  }

  unfoldable pub readiness_handler : Result E (Unit {0}) → Time → Response
  readiness_handler (err e) now = unavailable (codes "not_ready")
  readiness_handler (ok passed) now = record {
    status = 200;
    body = (codes "status", says (codes "ready")) ∷ (codes "timestamp", at (utc now)) ∷ [];
  }

unfoldable pub liveness_handler : Time → Response
liveness_handler now = record {
  status = 200;
  body = (codes "status", says (codes "alive")) ∷ (codes "timestamp", at (utc now)) ∷ [];
}

-- ===== src/Server/Health.antt =====
-- When the health handlers report a healthy service.
use mathlib.Core.Path.{◌≡◌, refl}
use mathlib.Core.Logic.{◌↔◌, inl, inr}
use mathlib.Core.Bool.{false}
use mathlib.Core.Option.{Option, none, some}
use native.Mathlib.Omega.{arith}
use gologger.Prelude.{Bool-cases}
use gologger.Result.{Result, ok, err}
use gologger.Clock.{Time}
use gologger.Context.{ContextError}
use gologger.Storage.JsonFile.{FileError, JsonFileStorage}
use gologger.Storage.JsonFile.Upkeep.{PathInfo, no_info, a_directory, another, health}
use gologger.Server.{health_handler, readiness_handler}

-- The request is not cancelled, the store is open, and its path is a directory.
pub record IsHealthy (ctx : Option ContextError) (info : PathInfo) (s : JsonFileStorage)
    : Type 0 where
  pub not_cancelled : ctx ≡ none
  pub is_open : s.closed ≡ false
  pub is_directory : info ≡ a_directory

health-IsHealthy :
    (ctx : Option ContextError) (info : PathInfo) (s : JsonFileStorage)
    → health ctx info s ≡ ok tt
    → IsHealthy ctx info s
unfolding health
health-IsHealthy (some e) info s h = absurd (cc h)
health-IsHealthy none no_info s h = elim (Bool-cases s.closed) [
  | inl shut ↦ absurd (cc (rw shut at h))
  | inr open' ↦ absurd (cc (rw open' at h))
]
health-IsHealthy none another s h = elim (Bool-cases s.closed) [
  | inl shut ↦ absurd (cc (rw shut at h))
  | inr open' ↦ absurd (cc (rw open' at h))
]
health-IsHealthy none a_directory s h = elim (Bool-cases s.closed) [
  | inl shut ↦ absurd (cc (rw shut at h))
  | inr open' ↦ record { not_cancelled = refl; is_open = open'; is_directory = refl }
]

healthy-health :
    (ctx : Option ContextError) (info : PathInfo) (s : JsonFileStorage)
    → IsHealthy ctx info s
    → health ctx info s ≡ ok tt
unfolding health
healthy-health ctx info s h = rw (h.not_cancelled, h.is_open, h.is_directory) refl

ok_status :
    (r : Result FileError (Unit {0})) (now : Time) → (health_handler r now).status ≡ 200 → r ≡ ok tt
unfolding health_handler
ok_status (err e) now h = absurd (omega (arith, h))
ok_status (ok tt) now h = refl

same_status :
    (r : Result FileError (Unit {0})) (now later : Time)
    → (health_handler r now).status ≡ (readiness_handler r later).status
unfolding health_handler readiness_handler
same_status (err e) now later = refl
same_status (ok passed) now later = refl

-- With the store of files, /health and /health/ready have the same status at all times, and it is 200
-- exactly when the request is not cancelled, the store is open and its path is a directory.
pub health_handler-ok_iff :
    (ctx : Option ContextError) (info : PathInfo) (s : JsonFileStorage) (now later : Time)
    → (((health_handler (health ctx info s) now).status ≡ 200) ↔ IsHealthy ctx info s)
      × ((health_handler (health ctx info s) now).status
          ≡ (readiness_handler (health ctx info s) later).status)
unfolding health_handler
health_handler-ok_iff ctx info s now later = (
  (
    λ h. health-IsHealthy ctx info s (ok_status (health ctx info s) now h),
    λ h. rw (healthy-health ctx info s h) refl,
  ),
  same_status (health ctx info s) now later,
)

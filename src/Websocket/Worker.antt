-- ===== src/Websocket/Worker.antt =====
-- The data of internal/adapters/websocket/dispatcher.go: jobs, results, and where a worker is.
use Prim.Native.Nat.{ℕ, zero, suc}
use mathlib.Core.Bool.{Bool, true, false}
use mathlib.Core.Option.{Option, none, some}
use mathlib.Core.List.{List, [], ◌∷◌}
use gologger.Contracts.{Event}

-- A job is known by its channel for the result, which Submit makes; `ack` numbers these.
pub record EventJob : Type 0 where
  pub ack : ℕ
  pub event : Event

-- An error, when it is not nil.
pub record EventResult (F : Type 0) : Type 0 where
  pub event : Event
  pub failure : Option F

-- Where a worker is: before it receives from jobs, before Process, before Store, before Publish, or
-- before it sends the result.
pub data Worker (F : Type 0) : Type 0 where
  waiting : Worker F
  processing : EventJob → Worker F
  storing : EventJob → Event → Worker F
  publishing : EventJob → Event → Worker F
  replying : EventJob → EventResult F → Worker F
  exited : Worker F

module _ {F : Type 0} where
  abbrev pub start : ℕ → List (Worker F)
  start zero = []
  start (suc n) = waiting ∷ start n

  abbrev pub all_exited : List (Worker F) → Bool
  all_exited [] = true
  all_exited (exited ∷ rest) = all_exited rest
  all_exited (w ∷ rest) = false

  abbrev pub receive : Bool → List EventJob → Worker F × List EventJob
  receive true [] = (exited, [])
  receive false [] = (waiting, [])
  receive closed (job ∷ rest) = (processing job, rest)

  abbrev pub after_process : EventJob → Event × Option F → Worker F
  after_process job (processed, none) = storing job processed
  after_process job (processed, some failure) =
      replying job (record { event = processed; failure = some failure })

  abbrev pub after_store : EventJob → Event → Option F → Worker F
  after_store job processed none = publishing job processed
  after_store job processed (some failure) =
      replying job (record { event = processed; failure = some failure })

  abbrev pub worker_at : ℕ → List (Worker F) → Worker F
  worker_at i [] = exited
  worker_at zero (w ∷ rest) = w
  worker_at (suc i) (w ∷ rest) = worker_at i rest

  abbrev pub put_worker : ℕ → Worker F → List (Worker F) → List (Worker F)
  put_worker i w [] = []
  put_worker zero w (v ∷ rest) = w ∷ rest
  put_worker (suc i) w (v ∷ rest) = v ∷ put_worker i w rest

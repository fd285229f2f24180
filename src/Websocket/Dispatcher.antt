-- ===== src/Websocket/Dispatcher.antt =====
-- internal/adapters/websocket/dispatcher.go. The goroutines are the list of workers, each at a point
-- of its loop; a step is what one of them, a producer, a monitor or the server does between two
-- points where others can come in, save that the loop of a publication is one step (how publications
-- interleave is in Publisher/Interleaved). `none` is a panic: a send on a closed channel, or a second close.
--
-- What a call of the processor or the store sees besides its event (the context of the job, the
-- clock, the random bytes) is of a type `E`; an error is of a type `F`, and a store keeps an `S`.
pub mod Steps
pub mod Sound
pub mod Acknowledged
pub mod Holding
pub mod Stored
pub mod Runs
pub mod Told
pub mod InMemory
pub mod InFiles
pub mod Ends
use Prim.Native.Nat.{ℕ, zero, suc}
use mathlib.Core.Bool.{Bool, true, false, ◌&&◌, not}
use mathlib.Core.Option.{Option, none, some}
use mathlib.Core.List.{List, [], ◌∷◌, ◌++◌}
use gologger.Prelude.{ltb, ◌==◌, if◌then◌else◌, length, ◌>>=◌}
use gologger.Result.{Result, ok, err}
use gologger.Context.{ContextError}
use gologger.Contracts.{Event, EventFilter}
use gologger.Websocket.Publisher.{Publisher, new_event_publisher, publish}
use gologger.Websocket.Publisher
use gologger.Websocket.Worker.{
  EventJob, EventResult, Worker, waiting, processing, storing, publishing, replying, exited, start,
  all_exited, receive, after_process, after_store, worker_at, put_worker,
}

-- The methods of internal/ports that a worker calls.
abbrev pub Process : Type 0 → Type 0 → Type 0
Process E F = E → Event → Event × Option F

abbrev pub Store : Type 0 → Type 0 → Type 0 → Type 0
Store E F S = E → Event → S → Option F × S

-- `jobs` and `closed` are the channel, `once` the state of stopOnce, and `acks` what has been sent
-- on the channels for results.
pub record Dispatcher (E F S : Type 0) : Type 0 where
  pub processor : Process E F
  pub store : Store E F S
  pub state : S
  pub publisher : Publisher
  pub queue_size : ℕ
  pub jobs : List EventJob
  pub closed : Bool
  pub accepting : Bool
  pub once : Bool
  pub workers : List (Worker F)
  pub acks : List (ℕ × EventResult F)
  pub submitted : ℕ

pub data SetupError : Type 0 where
  processor_required : SetupError
  store_required : SetupError
  queue_size_not_positive : SetupError
  worker_count_not_positive : SetupError

pub data SubmitError : Type 0 where
  handler_closed : SubmitError
  queue_full : SubmitError
  context_error : ContextError → SubmitError

module _ {E F S : Type 0} where
  abbrev pub started : Process E F → Store E F S → S → ℕ → ℕ → Dispatcher E F S
  started processor store state queue_size worker_count = record {
    processor = processor;
    store = store;
    state = state;
    publisher = new_event_publisher 32;
    queue_size = queue_size;
    jobs = [];
    closed = false;
    accepting = true;
    once = false;
    workers = start worker_count;
    acks = [];
    submitted = 0;
  }

  -- A nil interface is `none`.
  unfoldable pub new_dispatcher :
      Option (Process E F) → Option (Store E F S × S) → ℕ → ℕ → Result SetupError (Dispatcher E F S)
  new_dispatcher none store queue_size worker_count = err processor_required
  new_dispatcher (some processor) none queue_size worker_count = err store_required
  new_dispatcher (some processor) (some (store, state)) queue_size worker_count =
      if queue_size == 0
      then err queue_size_not_positive
      else if worker_count == 0
      then err worker_count_not_positive
      else ok (started processor store state queue_size worker_count)

  -- The send to jobs.
  abbrev pub send : Event → Dispatcher E F S → Option (Result SubmitError ℕ × Dispatcher E F S)
  send event d =
      if d.closed
      then none
      else some (
        ok d.submitted,
        record d {
          jobs = d.jobs ++ record { ack = d.submitted; event = event } ∷ [];
          submitted = suc d.submitted;
        },
      )

  -- The select of Submit. When the context is done and the channel has room, Go picks either case.
  unfoldable pub submit :
      Bool
      → Option ContextError
      → Event
      → Dispatcher E F S
      → Option (Result SubmitError ℕ × Dispatcher E F S)
  submit picks_send ctx event d =
      if not d.accepting then some (err handler_closed, d) else elim ctx [
        | none ↦ if ltb (length d.jobs) d.queue_size then send event d else some (err queue_full, d)
        | some failure ↦
            if ltb (length d.jobs) d.queue_size && picks_send
            then send event d
            else some (err (context_error failure), d)
      ]

  -- The function of stopOnce.
  unfoldable pub stop : Dispatcher E F S → Option (Dispatcher E F S)
  stop d =
      if d.once
      then some d
      else if d.closed
      then none
      else some (record d { accepting = false; closed = true; once = true })

  -- The select of Shutdown, after stopOnce: `none` while it waits.
  unfoldable pub shutdown_returns :
      Bool → Option ContextError → Dispatcher E F S → Option (ℕ × Option ContextError)
  shutdown_returns picks_done none d = if all_exited d.workers then some (0, none) else none
  shutdown_returns picks_done (some failure) d =
      if all_exited d.workers && picks_done
      then some (0, none)
      else some (length d.jobs, some failure)

  -- One step of a worker.
  unfoldable pub work : E → Worker F → Dispatcher E F S → Option (Worker F × Dispatcher E F S)
  work call waiting d =
      let (next, jobs) = receive d.closed d.jobs in some (next, record d { jobs = jobs })
  work call (processing job) d = some (after_process job (d.processor call job.event), d)
  work call (storing job processed) d =
      let (failure, state) = d.store call processed d.state in
      some (after_store job processed failure, record d { state = state })
  work call (publishing job processed) d = do
    publisher ← publish processed d.publisher
    some (
      replying job (record { event = processed; failure = none }),
      record d { publisher = publisher },
    )
  work call (replying job result) d =
      some (waiting, record d { acks = d.acks ++ (job.ack, result) ∷ [] })
  work call exited d = some (exited, d)

-- What a monitor does with the publisher of the dispatcher, which only the workers tell to publish.
pub data MonitorAction : Type 0 where
  subscribes : EventFilter → MonitorAction
  closes : ℕ → MonitorAction
  receives : ℕ → MonitorAction

abbrev pub on_publisher : MonitorAction → Publisher.Action
on_publisher (subscribes filter) = Publisher.subscribes filter
on_publisher (closes i) = Publisher.closes i
on_publisher (receives i) = Publisher.receives i

-- What producers, the server, the workers and the monitors do, in any order.
pub data Action (E : Type 0) : Type 0 where
  submits : Bool → Option ContextError → Event → Action E
  stops : Action E
  works : ℕ → E → Action E
  monitors : MonitorAction → Action E

module _ {E F S : Type 0} where
  unfoldable pub act : Action E → Dispatcher E F S → Option (Dispatcher E F S)
  act (submits picks_send ctx event) d = do (reply, d') ← submit picks_send ctx event d; some d'
  act stops d = stop d
  act (works i call) d = do
    (w, d') ← work call (worker_at i d.workers) d
    some (record d' { workers = put_worker i w d.workers })
  act (monitors a) d = do
    publisher ← Publisher.act (on_publisher a) d.publisher
    some (record d { publisher = publisher })

  unfoldable pub run : List (Action E) → Dispatcher E F S → Option (Dispatcher E F S)
  run [] d = some d
  run (a ∷ rest) d = do d' ← act a d; run rest d'

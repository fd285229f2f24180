-- ===== src/Tests/Jobs.antt =====
-- The dispatcher at a concrete run, with a processor and a store in memory.
use Prim.Native.Nat.{ℕ, ◌≤◌, ◌+◌, ◌*◌}
use mathlib.Core.Path.{◌≡◌, refl}
use mathlib.Core.Bool.{true, false}
use mathlib.Core.Option.{Option, none, some}
use mathlib.Core.List.{List, [], ◌∷◌}
use gologger.Prelude.{length, Succeeds, if◌then◌else◌}
use gologger.Result.{ok}
use gologger.Text.{is_empty}
use gologger.GoMap.{lookup, put}
use gologger.Context.{ContextError, cancelled}
use gologger.Contracts.{EventFilter}
use gologger.Storage.{StoreError, event_id_required}
use gologger.Storage.Memory.{MemoryEventStore, new_memory_event_store}
use gologger.Storage.Memory
use gologger.Storage.Memory.Clone.{clone_value, clone_event}
use gologger.Websocket.Filter.{has_candidate, matches_string, matches_filter}
use gologger.Websocket.Publisher
use gologger.Websocket.Counts.{acked}
use gologger.Websocket.Worker.{exited}
use gologger.Websocket.Dispatcher.{
  Process, Dispatcher, new_dispatcher, started, submit, stop, shutdown_returns, work, Action,
  submits, stops, works, monitors, subscribes, act, run,
}
use gologger.Websocket.Dispatcher.Sound.{IsSound, issued}
use gologger.Websocket.Dispatcher.Acknowledged.{dispatcher_keeps_jobs, shutdown_acknowledges}
use gologger.Websocket.Dispatcher.Ends.{Busy, stopped_workers_end}
use gologger.Websocket.Dispatcher.Told.{IsTold, dispatcher_tells_stored}
use gologger.Websocket.Dispatcher.InMemory.{in_memory, Has, in_memory-IsKeeping}
use gologger.Tests.Samples.{stored_order}

-- It refuses an event without identifier and changes no other.
abbrev checked : Process (Option ContextError) StoreError
checked ctx event = (event, if is_empty event.event_id then some event_id_required else none)

abbrev initial : Dispatcher (Option ContextError) StoreError MemoryEventStore
initial = started checked in_memory new_memory_event_store 1 1

abbrev everything : EventFilter
everything = record { levels = []; services = []; event_types = [] }

-- A monitor of every event, and two submissions, the second refused by the full queue; the job is done; the worker leaves.
abbrev actions : List (Action (Option ContextError))
actions =
    monitors (subscribes everything)
    ∷ submits true none stored_order
    ∷ submits true none stored_order
    ∷ works 0 none
    ∷ works 0 none
    ∷ stops
    ∷ submits true none stored_order
    ∷ works 0 none
    ∷ works 0 none
    ∷ works 0 none
    ∷ works 0 none
    ∷ []

abbrev final : Dispatcher (Option ContextError) StoreError MemoryEventStore
final = record initial {
  state = record {
    events = (stored_order.event_id, stored_order) ∷ [];
    order = stored_order.event_id ∷ [];
    closed = false;
  };
  publisher = record {
    buffer_size = 32;
    subscriptions =
        record (Publisher.new_subscription everything) { events = stored_order ∷ [] } ∷ [];
  };
  closed = true;
  accepting = false;
  once = true;
  workers = exited ∷ [];
  acks = (0, record { event = stored_order; failure = none }) ∷ [];
  submitted = 1;
}

made : new_dispatcher (some checked) (some (in_memory, new_memory_event_store)) 1 1 ≡ ok initial
unfolding new_dispatcher
made = refl

ran : run actions initial ≡ some final
unfolding lookup put Memory.store Memory.insert clone_value clone_event has_candidate matches_string
    matches_filter Publisher.offer Publisher.offer_all Publisher.publish
    Publisher.new_event_publisher Publisher.subscribe Publisher.act submit stop work act run
ran = refl

ended : shutdown_returns true (some cancelled) final ≡ some (0, none)
unfolding shutdown_returns
ended = refl

dispatcher_keeps_jobs_example : Succeeds (IsSound 1) (run actions initial)
dispatcher_keeps_jobs_example =
    dispatcher_keeps_jobs (some checked) (some (in_memory, new_memory_event_store)) 1 1 initial made
      actions

abbrev none_left : ℕ
none_left = 0

shutdown_acknowledges_example :
    (none_left ≡ 0) × ((id : ℕ) → acked id final.acks ≡ issued id final.submitted)
shutdown_acknowledges_example =
    shutdown_acknowledges (some checked) (some (in_memory, new_memory_event_store)) 1 1 initial
      final actions true (some cancelled) none_left made ran ended

dispatcher_tells_stored_example : Succeeds (IsTold Has) (run actions initial)
dispatcher_tells_stored_example =
    dispatcher_tells_stored (λ e. Unit) Has checked in_memory new_memory_event_store 1 1 initial
      made (λ call e same. tt) in_memory-IsKeeping actions

-- One job waits when the dispatcher is stopped.
abbrev queued_up : List (Action (Option ContextError))
queued_up = submits true none stored_order ∷ stops ∷ []

abbrev stopped : Dispatcher (Option ContextError) StoreError MemoryEventStore
stopped = record initial {
  jobs = record { ack = 0; event = stored_order } ∷ [];
  closed = true;
  accepting = false;
  once = true;
  submitted = 1;
}

abbrev steps : List (ℕ × Option ContextError)
steps = (0, none) ∷ (0, none) ∷ (0, none) ∷ (0, none) ∷ (0, none) ∷ (0, none) ∷ []

came_to_stop : run queued_up initial ≡ some stopped
unfolding submit stop act run
came_to_stop = refl

steps-Busy : Busy steps stopped
unfolding lookup put Memory.store Memory.insert clone_value clone_event Publisher.offer_all
    Publisher.publish Publisher.new_event_publisher work act
steps-Busy = (refl, (refl, (refl, (refl, (refl, (refl, tt))))))

stopped_workers_end_example : length steps ≤ 5 * 1 + 5 * 1
stopped_workers_end_example =
    stopped_workers_end (some checked) (some (in_memory, new_memory_event_store)) 1 1 initial
      stopped queued_up steps made came_to_stop refl steps-Busy

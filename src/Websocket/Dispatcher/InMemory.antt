-- ===== src/Websocket/Dispatcher/InMemory.antt =====
-- The dispatcher over the store in memory.
use mathlib.Core.Path.{◌≡◌, refl}
use mathlib.Core.Bool.{Bool, true, false}
use mathlib.Core.Option.{Option, none, some}
use gologger.Prelude.{if◌then◌else◌}
use gologger.Result.{Result, ok, err}
use gologger.Text.{is_empty}
use gologger.GoMap.{lookup, put-append, lookup-append, lookup-append_self}
use gologger.Context.{ContextError}
use gologger.Contracts.{Event}
use gologger.Storage.{StoreError}
use gologger.Storage.Memory.{MemoryEventStore, insert}
use gologger.Storage.Memory
use gologger.Storage.Memory.Clone.{clone_event}
use gologger.Websocket.Dispatcher.{Store}
use gologger.Websocket.Dispatcher.Holding.{IsKeeping}

abbrev pub failure_of : Result StoreError (Unit {0}) → Option StoreError
failure_of (err failure) = some failure
failure_of (ok stored) = none

-- MemoryEventStore as the ports.EventStore of a dispatcher.
abbrev pub in_memory : Store (Option ContextError) StoreError MemoryEventStore
in_memory ctx event s = let (reply, s') = Memory.store ctx event s in (failure_of reply, s')

-- The store has a copy of the event.
abbrev pub Has : MemoryEventStore → Event → Type 0
Has s event = lookup event.event_id s.events ≡ some (clone_event event)

-- What one call does to the store.
record Keeping (e x : Event) (s : MemoryEventStore)
    (next : Result StoreError (Unit {0}) × MemoryEventStore) : Type 0 where
  now : failure_of next.0 ≡ none → Has next.1 e
  still : Has s x → Has next.1 x

refused :
    (failure : StoreError) (e x : Event) (s : MemoryEventStore) → Keeping e x s (err failure, s)
refused failure e x s = record { now = λ same. cc same; still = λ h. h }

Keeping-if :
    (b : Bool) (e x : Event) (s : MemoryEventStore)
    {m n : Result StoreError (Unit {0}) × MemoryEventStore}
    → Keeping e x s m
    → Keeping e x s n
    → Keeping e x s (if b then m else n)
Keeping-if true e x s h k = h
Keeping-if false e x s h k = k

insert-Keeping :
    (o : Option Event) (e x : Event) (s : MemoryEventStore)
    → lookup e.event_id s.events ≡ o
    → Keeping e x s (insert o e s)
unfolding insert
insert-Keeping (some existing) e x s h = refused _ e x s
insert-Keeping none e x s h = rw (put-append e.event_id (clone_event e) s.events h) (record {
  now = λ same. lookup-append_self e.event_id s.events (clone_event e) h;
  still = λ k. lookup-append x.event_id s.events _ (clone_event x) k;
})

store-Keeping :
    (ctx : Option ContextError) (e x : Event) (s : MemoryEventStore)
    → Keeping e x s (Memory.store ctx e s)
unfolding Memory.store
store-Keeping (some failure) e x s = refused _ e x s
store-Keeping none e x s = Keeping-if (is_empty e.event_id) e x s (refused _ e x s) (
    Keeping-if s.closed e x s (refused _ e x s)
      (insert-Keeping (lookup e.event_id s.events) e x s refl))

pub in_memory-IsKeeping : IsKeeping (λ e. Unit) Has in_memory
in_memory-IsKeeping = record {
  keeps = λ ctx e s checked. (store-Keeping ctx e e s).now;
  kept = λ ctx e x s. (store-Keeping ctx e x s).still;
}

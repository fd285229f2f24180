-- ===== src/Storage/Memory.antt =====
-- MemoryEventStore of internal/adapters/storage/memory.go. Each method runs under its mutex, so it
-- is one step from a state to a state.
pub mod Sharing
pub mod Clone
pub mod Refines
use Prim.Native.Nat.{ℕ}
use mathlib.Core.Bool.{Bool, true, false}
use mathlib.Core.Option.{Option, none, some}
use mathlib.Core.List.{List, [], ◌∷◌, ◌++◌}
use gologger.Prelude.{if◌then◌else◌}
use gologger.Result.{Result, ok, err}
use gologger.Text.{Text, text_eq, is_empty}
use gologger.Context.{ContextError}
use gologger.Contracts.{Event, zero_event, EventFilter}
use gologger.Clock.{zero_instant}
use gologger.GoMap.{GoMap, lookup, put}
use gologger.Storage.{
  StoreError, event_not_found, store_closed, duplicate_event, event_id_required, context_error,
}
use gologger.Storage.Filter.{matches_filter}
use gologger.Storage.Memory.Clone.{clone_event}

abbrev pub EventMap : Type 0
EventMap = GoMap Event

pub record MemoryEventStore : Type 0 where
  pub events : EventMap
  pub order : List Text
  pub closed : Bool

abbrev pub new_memory_event_store : MemoryEventStore
new_memory_event_store = record { events = []; order = []; closed = false }

abbrev pub or_zero : Option Event → Event
or_zero none = zero_event
or_zero (some e) = e

unfoldable pub insert :
    Option Event → Event → MemoryEventStore → Result StoreError (Unit {0}) × MemoryEventStore
insert (some existing) event s = (err duplicate_event, s)
insert none event s = (
  ok tt,
  record s {
    events = put event.event_id (clone_event event) s.events;
    order = s.order ++ event.event_id ∷ [];
  },
)

unfoldable pub store :
    Option ContextError → Event → MemoryEventStore → Result StoreError (Unit {0}) × MemoryEventStore
unfolding insert
store (some e) event s = (err (context_error e), s)
store none event s =
    if is_empty event.event_id
    then (err event_id_required, s)
    else if s.closed
    then (err store_closed, s)
    else insert (lookup event.event_id s.events) event s

abbrev pub copy_of : Option Event → Result StoreError Event
copy_of none = err event_not_found
copy_of (some event) = ok (clone_event event)

unfoldable pub get : Option ContextError → Text → MemoryEventStore → Result StoreError Event
get (some e) id s = err (context_error e)
get none id s = if s.closed then err store_closed else copy_of (lookup id s.events)

-- The loop of Query.
unfoldable pub collect : EventFilter → EventMap → List Text → List Event
collect filter events [] = []
collect filter events (id ∷ ids) =
    let event = or_zero (lookup id events) in
    let rest = collect filter events ids in
    if matches_filter event filter then clone_event event ∷ rest else rest

unfoldable pub query :
    Option ContextError → EventFilter → MemoryEventStore → Result StoreError (List Event)
query (some e) filter s = err (context_error e)
query none filter s = if s.closed then err store_closed else ok (collect filter s.events s.order)

unfoldable pub health : Option ContextError → MemoryEventStore → Result StoreError (Unit {0})
health (some e) s = err (context_error e)
health none s = if s.closed then err store_closed else ok tt

unfoldable pub close : MemoryEventStore → MemoryEventStore
close s = if s.closed then s else record s { closed = true }

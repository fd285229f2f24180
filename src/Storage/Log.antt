-- ===== src/Storage/Log.antt =====
-- What an event store promises, whatever its representation: a log of events in the order in
-- which they were accepted, no two with the same identifier.
pub mod Find
use mathlib.Core.Bool.{Bool, true}
use mathlib.Core.Option.{Option, none, some}
use mathlib.Core.List.{List, [], ◌∷◌, ◌++◌}
use gologger.Prelude.{if◌then◌else◌, select}
use gologger.Result.{Result, ok, err}
use gologger.Text.{Text, text_eq, is_empty}
use gologger.Context.{ContextError}
use gologger.Contracts.{Event, EventFilter}
use gologger.Storage.{
  StoreError, event_not_found, store_closed, duplicate_event, event_id_required, context_error,
}
use gologger.Storage.Filter.{matches_filter}

pub record EventLog : Type 0 where
  pub entries : List Event
  pub closed : Bool

-- The first event with the identifier.
abbrev pub find_event : Text → List Event → Option Event
find_event id [] = none
find_event id (e ∷ es) = if text_eq e.event_id id then some e else find_event id es

abbrev pub accept : Option Event → Event → EventLog → Result StoreError (Unit {0}) × EventLog
accept (some e) event log = (err duplicate_event, log)
accept none event log = (ok tt, record log { entries = log.entries ++ event ∷ [] })

abbrev pub store : Option ContextError → Event → EventLog → Result StoreError (Unit {0}) × EventLog
store (some e) event log = (err (context_error e), log)
store none event log =
    if is_empty event.event_id
    then (err event_id_required, log)
    else if log.closed
    then (err store_closed, log)
    else accept (find_event event.event_id log.entries) event log

abbrev pub found : Option Event → Result StoreError Event
found none = err event_not_found
found (some e) = ok e

abbrev pub get : Option ContextError → Text → EventLog → Result StoreError Event
get (some e) id log = err (context_error e)
get none id log = if log.closed then err store_closed else found (find_event id log.entries)

abbrev pub query : Option ContextError → EventFilter → EventLog → Result StoreError (List Event)
query (some e) filter log = err (context_error e)
query none filter log =
    if log.closed then err store_closed else ok (select (λ e. matches_filter e filter) log.entries)

abbrev pub health : Option ContextError → EventLog → Result StoreError (Unit {0})
health (some e) log = err (context_error e)
health none log = if log.closed then err store_closed else ok tt

abbrev pub close : EventLog → EventLog
close log = record log { closed = true }

-- The calls of the interface EventStore (internal/ports/event_store.go), and what they return.
pub data Call : Type 0 where
  stores : Option ContextError → Event → Call
  gets : Option ContextError → Text → Call
  queries : Option ContextError → EventFilter → Call
  asks_health : Option ContextError → Call
  closes : Call

pub data Reply : Type 0 where
  done : Result StoreError (Unit {0}) → Reply
  event : Result StoreError Event → Reply
  events : Result StoreError (List Event) → Reply

abbrev pub step : Call → EventLog → Reply × EventLog
step (stores ctx e) log = let (r, log') = store ctx e log in (done r, log')
step (gets ctx id) log = (event (get ctx id log), log)
step (queries ctx filter) log = (events (query ctx filter log), log)
step (asks_health ctx) log = (done (health ctx log), log)
step closes log = (done (ok tt), close log)

abbrev pub replies : List Call → EventLog → List Reply
replies [] log = []
replies (c ∷ cs) log = let (r, log') = step c log in r ∷ replies cs log'

-- ===== src/Tests/Stores.antt =====
-- The event stores at concrete calls.
use mathlib.Core.Path.{◌≡◌, refl}
use mathlib.Core.Bool.{false}
use mathlib.Core.Option.{none, some}
use mathlib.Core.List.{List, [], ◌∷◌, map}
use gologger.Result.{ok, err}
use gologger.Text.{codes}
use gologger.Context.{cancelled}
use gologger.GoMap.{lookup, put}
use gologger.Contracts.{EventFilter}
use gologger.Storage.{duplicate_event, store_closed, context_error}
use gologger.Storage.Filter.{contains_string, matches_filter}
use gologger.Storage.Log
use gologger.Storage.Memory.{
  new_memory_event_store, insert, store, get, collect, query, health, close,
}
use gologger.Storage.Memory.Clone.{clone_value, clone_event}
use gologger.Storage.Memory.Refines.{replies, cloned_call, memory_refines_log}
use gologger.Tests.Samples.{stored_order}

abbrev warnings : EventFilter
warnings = record { levels = codes "error" ∷ codes "warn" ∷ []; services = []; event_types = [] }

abbrev calls : List Log.Call
calls =
    Log.stores none stored_order
    ∷ Log.stores none stored_order
    ∷ Log.gets (some cancelled) stored_order.event_id
    ∷ Log.queries none warnings
    ∷ Log.closes
    ∷ Log.gets none stored_order.event_id
    ∷ []

calls_answered :
    replies calls new_memory_event_store
    ≡ Log.done (ok tt)
      ∷ Log.done (err duplicate_event)
      ∷ Log.event (err (context_error cancelled))
      ∷ Log.events (ok (stored_order ∷ []))
      ∷ Log.done (ok tt)
      ∷ Log.event (err store_closed)
      ∷ []
unfolding lookup put contains_string matches_filter insert store get collect query health close
    clone_value clone_event
calls_answered = refl

memory_refines_log_example :
    replies calls new_memory_event_store
    ≡ Log.replies (map cloned_call calls) (record { entries = []; closed = false })
memory_refines_log_example = memory_refines_log calls

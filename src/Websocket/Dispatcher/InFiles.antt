-- ===== src/Websocket/Dispatcher/InFiles.antt =====
-- The dispatcher of the server: EventProcessorService before JSONFileStorage, as main of
-- cmd/server/main.go gives them to NewHandler.
use Prim.Native.Nat.{ℕ}
use mathlib.Core.Path.{◌≡◌, refl}
use mathlib.Core.Bool.{false}
use mathlib.Core.Option.{Option, none, some}
use mathlib.Core.List.{List}
use gologger.Prelude.{Succeeds}
use gologger.Result.{Result, ok, err}
use gologger.Text.{Unicode}
use gologger.Clock.{Time, is_zero}
use gologger.Context.{ContextError}
use gologger.Contracts.{Event, zero_event}
use gologger.EventProcessor.{Environment, process, process_event}
use gologger.EventProcessor.Errors.{Error}
use gologger.EventProcessor.Accepted.{IsAccepted, process_event-IsAccepted}
use gologger.Storage.Codec.{Codec}
use gologger.Storage.JsonFile.{FileError, JsonFileStorage, WriteFaults}
use gologger.Storage.JsonFile
use gologger.Storage.JsonFile.Written.{IsWritten, Writes, store-Writes}
use gologger.Websocket.Dispatcher.{Process, Store, Dispatcher, new_dispatcher, Action, run}
use gologger.Websocket.Dispatcher.Holding.{IsChecking, IsKeeping}
use gologger.Websocket.Dispatcher.Told.{IsTold, dispatcher_tells_stored}

-- An error of the processor or of the store.
pub data Failure : Type 0 where
  not_processed : Error → Failure
  not_stored : FileError → Failure

-- What a call sees: its context, the environment of the processor, and the time and the system of the
-- store. The clock is past the year 1.
pub record Call : Type 0 where
  pub ctx : Option ContextError
  pub env : Environment
  pub runs : is_zero env.now ≡ false
  pub now : Time
  pub faults : WriteFaults

abbrev pub processed_pair : Result Error Event → Event × Option Failure
processed_pair (err failure) = (zero_event, some (not_processed failure))
processed_pair (ok event) = (event, none)

abbrev pub stored_pair :
    Result FileError (Unit {0}) × JsonFileStorage → Option Failure × JsonFileStorage
stored_pair (err failure, s) = (some (not_stored failure), s)
stored_pair (ok passed, s) = (none, s)

-- EventProcessorService as the ports.EventProcessor of a dispatcher.
abbrev pub event_processor : Unicode → Process Call Failure
event_processor u call event = processed_pair (process u call.ctx call.env event)

-- JSONFileStorage as its ports.EventStore.
abbrev pub in_files : Codec → Store Call Failure JsonFileStorage
in_files codec call event s =
    stored_pair (JsonFile.store codec call.ctx event call.now call.faults s)

pair-IsAccepted :
    (u : Unicode) (env : Environment) (event : Event) (r : Result Error Event)
    → is_zero env.now ≡ false
    → process_event u env event ≡ r
    → (processed_pair r).1 ≡ none
    → IsAccepted u (processed_pair r).0
pair-IsAccepted u env event (err failure) clock returned same = absurd (cc same)
pair-IsAccepted u env event (ok result) clock returned same =
    process_event-IsAccepted u env event result clock returned

-- A processor that has seen a context that is done returns an error.
process-IsAccepted :
    (u : Unicode) (ctx : Option ContextError) (env : Environment) (event : Event)
    → is_zero env.now ≡ false
    → (processed_pair (process u ctx env event)).1 ≡ none
    → IsAccepted u (processed_pair (process u ctx env event)).0
unfolding process
process-IsAccepted u (some failure) env event clock same = absurd (cc same)
process-IsAccepted u none env event clock same =
    pair-IsAccepted u env event (process_event u env event) clock refl same

module _ (u : Unicode) (codec : Codec) where
  -- The event has gone through the processor, and its line is in a file.
  abbrev pub IsLogged : JsonFileStorage → Event → Type 0
  IsLogged s event = IsAccepted u event × IsWritten codec s event

  pair-Writes :
      (e x : Event) (s : JsonFileStorage) (next : Result FileError (Unit {0}) × JsonFileStorage)
      → Writes codec e x s next
      → ((stored_pair next).0 ≡ none → IsWritten codec (stored_pair next).1 e)
        × (IsWritten codec s x → IsWritten codec (stored_pair next).1 x)
  pair-Writes e x s (err failure, s') w = (λ same. absurd (cc same), w.still)
  pair-Writes e x s (ok tt, s') w = (λ same. w.now refl, w.still)

  called-Writes :
      (call : Call) (e x : Event) (s : JsonFileStorage)
      → ((in_files codec call e s).0 ≡ none → IsWritten codec (in_files codec call e s).1 e)
        × (IsWritten codec s x → IsWritten codec (in_files codec call e s).1 x)
  called-Writes call e x s =
      pair-Writes e x s (JsonFile.store codec call.ctx e call.now call.faults s)
        (store-Writes codec call.ctx e x call.now call.faults s)

  event_processor-IsChecking : IsChecking (IsAccepted u) (event_processor u)
  event_processor-IsChecking call e same = process-IsAccepted u call.ctx call.env e call.runs same

  in_files-IsKeeping : IsKeeping (IsAccepted u) IsLogged (in_files codec)
  in_files-IsKeeping = record {
    keeps = λ call e s accepted same. (accepted, (called-Writes call e e s).0 same);
    kept = λ call e x s h. (h.0, (called-Writes call e x s).1 h.1);
  }

  -- Take a dispatcher of EventProcessorService and JSONFileStorage, and a clock past the year 1. In
  -- every run of producers, workers, monitors and shutdowns, whatever fails in the store, nothing
  -- panics; and at each moment every event that a result reports without an error, and every event
  -- that a monitor has received or has in its channel, has all that ProcessEvent promises of an event
  -- that it returns, is known to the store by its identifier, and has its encoded line with a newline
  -- in a file of the store.
  pub dispatcher_tells-IsLogged :
      (state : JsonFileStorage) (size count : ℕ) (d : Dispatcher Call Failure JsonFileStorage)
      → new_dispatcher (some (event_processor u)) (some (in_files codec, state)) size count ≡ ok d
      → (actions : List (Action Call)) → Succeeds (IsTold IsLogged) (run actions d)
  dispatcher_tells-IsLogged state size count d made actions =
      dispatcher_tells_stored (IsAccepted u) IsLogged (event_processor u) (in_files codec) state
        size count d made event_processor-IsChecking in_files-IsKeeping actions

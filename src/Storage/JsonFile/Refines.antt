-- ===== src/Storage/JsonFile/Refines.antt =====
-- JSONFileStorage is an event log, over restarts too.
use Prim.Native.Nat.{ℕ, suc, ◌+◌, ◌*◌, ◌≤◌, ◌<◌}
use mathlib.Core.Path.{◌≡◌, refl}
use mathlib.Core.Logic.{inl, inr}
use mathlib.Core.Bool.{true, false}
use mathlib.Core.Option.{Option, none, some}
use mathlib.Core.List.{List, [], ◌∷◌}
use native.Mathlib.Omega.{arith}
use gologger.Prelude.{if◌then◌else◌, ◌==◌, Bool-cases, All, length, same}
use gologger.Result.{Result, ok, err}
use gologger.Text.{Text, is_empty, trim_space}
use gologger.Clock.{Time}
use gologger.Context.{ContextError}
use gologger.Contracts.{Event, EventFilter}
use gologger.Storage.{StoreError}
use gologger.Storage.Log
use gologger.Storage.Log.{EventLog}
use gologger.Storage.Codec.{Codec, IsCodec}
use gologger.Storage.Files.{Directory, event_files, sort_names}
use gologger.Storage.Files.Names.{max_index}
use gologger.Storage.JsonFile.{
  FileError, JsonFileStorage, store, get, query, new_json_file_storage, load_event_ids, read_all,
}
use gologger.Storage.JsonFile.Upkeep.{a_directory, health, close}
use gologger.Storage.JsonFile.Sound.{no_faults, lifted, saved_form, IsStorable, IsSound}
use gologger.Storage.JsonFile.Stores.{store-Simulates}
use gologger.Storage.JsonFile.Answers.{
  QueryAgrees, get-log, query-log, load_event_ids-log, loaded-known,
}

-- The calls of the interface EventStore, at their times, and a restart of the process.
pub data Call : Type 0 where
  stores : Option ContextError → Event → Time → Call
  gets : Option ContextError → Text → Call
  queries : Option ContextError → EventFilter → Call
  asks_health : Option ContextError → Call
  closes restarts : Call

pub data Reply : Type 0 where
  done : Result FileError (Unit {0}) → Reply
  event : Result FileError Event → Reply
  events : Result FileError (List Event) → Reply

-- The settings that New gets.
pub record Settings : Type 0 where
  pub data_dir : Text
  pub max_file_size : ℕ
  pub retention_days : ℕ

abbrev pub restarted : Result FileError JsonFileStorage → JsonFileStorage → Reply × JsonFileStorage
restarted (err failure) s = (done (err failure), s)
restarted (ok next) s = (done (ok tt), next)

module _ (codec : Codec) (settings : Settings) where
  -- New on a directory.
  abbrev pub opened : Directory → Result FileError JsonFileStorage
  opened files =
      new_json_file_storage codec settings.data_dir settings.max_file_size settings.retention_days
        false (λ n. true) files

  abbrev pub step : Call → JsonFileStorage → Reply × JsonFileStorage
  step (stores ctx e now) s = let (r, s') = store codec ctx e now no_faults s in (done r, s')
  step (gets ctx id) s = (event (get codec ctx id (λ n. true) s), s)
  step (queries ctx filter) s = (events (query codec ctx filter (λ n. true) s), s)
  step (asks_health ctx) s = (done (health ctx a_directory s), s)
  step closes s = (done (ok tt), close s)
  step restarts s = restarted (opened s.files) s

  abbrev pub replies : List Call → JsonFileStorage → List Reply
  replies [] s = []
  replies (c ∷ cs) s = let (r, s') = step c s in r ∷ replies cs s'

  -- The same calls of the log, which has what is read back of the events, and which a restart opens.
  abbrev pub log_step : Call → EventLog → Log.Reply × EventLog
  log_step (stores ctx e now) log = Log.step (Log.stores ctx (saved_form codec e)) log
  log_step (gets ctx id) log = Log.step (Log.gets ctx id) log
  log_step (queries ctx filter) log = Log.step (Log.queries ctx filter) log
  log_step (asks_health ctx) log = Log.step (Log.asks_health ctx) log
  log_step closes log = Log.step Log.closes log
  log_step restarts log = (Log.done (ok tt), record log { closed = false })

  abbrev pub log_replies : List Call → EventLog → List Log.Reply
  log_replies [] log = []
  log_replies (c ∷ cs) log = let (r, log') = log_step c log in r ∷ log_replies cs log'

  abbrev pub CallIsStorable : Call → Type 0
  CallIsStorable (stores ctx e now) = IsStorable codec e
  CallIsStorable c = Unit

-- The same reply; of a query, the same events, in the order of their times.
pub data Agrees : Reply → Log.Reply → Type 0 where
  agree_done : (r : Result StoreError (Unit {0})) → Agrees (done (lifted r)) (Log.done r)
  agree_event : (r : Result StoreError Event) → Agrees (event (lifted r)) (Log.event r)
  agree_events :
      {r : Result FileError (List Event)} {q : Result StoreError (List Event)}
      → QueryAgrees r q
      → Agrees (events r) (Log.events q)

pub data AllAgree : List Reply → List Log.Reply → Type 0 where
  agree_nil : AllAgree [] []
  agree_next :
      {r : Reply} {q : Log.Reply} {rs : List Reply} {qs : List Log.Reply}
      → Agrees r q
      → AllAgree rs qs
      → AllAgree (r ∷ rs) (q ∷ qs)

module _ (codec : Codec) (lawful : IsCodec codec) (settings : Settings)
    (named : is_empty (trim_space settings.data_dir) ≡ false) where
  pub record Follows (files : ℕ) (json : Reply × JsonFileStorage) (log : Log.Reply × EventLog)
      : Type 0 where
    pub agrees : Agrees json.0 log.0
    pub sound : IsSound codec json.1 log.1
    pub small : length json.1.files ≤ suc files

  agree_by :
      {r : Result FileError (Unit {0})} {q : Result StoreError (Unit {0})}
      → r ≡ lifted q
      → Agrees (done r) (Log.done q)
  agree_by {q = q} same_reply = rw same_reply (agree_done q)

  agree_by_event :
      {r : Result FileError Event} {q : Result StoreError Event}
      → r ≡ lifted q
      → Agrees (event r) (Log.event q)
  agree_by_event {q = q} same_reply = rw same_reply (agree_event q)

  health-log :
      (ctx : Option ContextError) (s : JsonFileStorage) (log : EventLog)
      → s.closed ≡ log.closed
      → health ctx a_directory s ≡ lifted (Log.health ctx log)
  unfolding health
  health-log (some failure) s log same_closed = refl
  health-log none s log same_closed = elim (Bool-cases log.closed) [
    | inl shut ↦ rw (same_closed, shut) refl
    | inr is_open ↦ rw (same_closed, is_open) refl
  ]

  close-IsSound :
      (s : JsonFileStorage) (log : EventLog)
      → IsSound codec s log
      → IsSound codec (close s) (Log.close log)
  unfolding close
  close-IsSound s log c = record {
    same_closed = refl;
    distinct = c.distinct;
    readable = c.readable;
    known = c.known;
    held = c.held;
    unique = c.unique;
    named = c.named;
  }

  pub restart-Follows :
      (s : JsonFileStorage) (log : EventLog)
      → IsSound codec s log
      → Follows
          (length s.files)
          (step codec settings restarts s)
          (log_step codec settings restarts log)
  unfolding new_json_file_storage
  restart-Follows s log c =
      rw (named, load_event_ids-log codec s log c)
        (record {
          agrees = agree_done (ok tt);
          sound = record {
            same_closed = refl;
            distinct = c.distinct;
            readable = c.readable;
            known = loaded-known codec s log c;
            held = c.held;
            unique = c.unique;
            named = c.named;
          };
          small = omega arith;
        })

  step-Follows :
      (call : Call) (s : JsonFileStorage) (log : EventLog)
      → length s.files < max_index
      → CallIsStorable codec settings call
      → IsSound codec s log
      → Follows (length s.files) (step codec settings call s) (log_step codec settings call log)
  unfolding close
  step-Follows (stores ctx e now) s log bound h c =
      let sim = store-Simulates codec lawful ctx e now s log bound h c in
      record { agrees = agree_by sim.same_reply; sound = sim.sound; small = sim.small }
  step-Follows (gets ctx id) s log bound h c = record {
    agrees = agree_by_event (get-log codec s log c ctx id);
    sound = c;
    small = omega arith;
  }
  step-Follows (queries ctx filter) s log bound h c = record {
    agrees = agree_events (query-log codec s log c ctx filter);
    sound = c;
    small = omega arith;
  }
  step-Follows (asks_health ctx) s log bound h c = record {
    agrees = agree_by (health-log ctx s log c.same_closed);
    sound = c;
    small = omega arith;
  }
  step-Follows closes s log bound h c = record {
    agrees = agree_done (ok tt);
    sound = close-IsSound s log c;
    small = omega arith;
  }
  step-Follows restarts s log bound h c = restart-Follows s log c

  replies-AllAgree :
      (calls : List Call) (s : JsonFileStorage) (log : EventLog)
      → length s.files + length calls ≤ max_index
      → All (CallIsStorable codec settings) calls
      → IsSound codec s log
      → AllAgree (replies codec settings calls s) (log_replies codec settings calls log)
  replies-AllAgree [] s log bound h c = agree_nil
  replies-AllAgree (call ∷ calls) s log bound h c =
      let follows = step-Follows call s log (omega (arith, bound)) h.0 c in
      agree_next follows.agrees (
        replies-AllAgree calls (step codec settings call s).1 (log_step codec settings call log).1
          (omega (arith, bound, follows.small)) h.1 follows.sound)

  -- New succeeds on an empty directory whose name is not blank. Whatever calls are then made of the store, restarts of the
  -- process included, in whatever order and with whatever contexts, every reply is the one that the
  -- event log gives, which holds what is read back of the events stored; a query has the events of the
  -- log in the order of their times. It holds while the system does what it is asked for, each event
  -- stored is one that json.Marshal accepts, in UTF-8 and shorter than the scanner's buffer, and there
  -- are at most 10 ^ 19 calls.
  pub json_file_refines_log :
      (calls : List Call)
      → length calls ≤ max_index
      → All (CallIsStorable codec settings) calls
      → (s : JsonFileStorage) × (opened codec settings [] ≡ ok s)
        × AllAgree
            (replies codec settings calls s)
            (log_replies codec settings calls (record { entries = []; closed = false }))
  unfolding new_json_file_storage load_event_ids read_all event_files sort_names
  json_file_refines_log calls bound h =
      let s : JsonFileStorage = record {
        max_file_size =
            if settings.max_file_size == 0 then 10 * 1024 * 1024 else settings.max_file_size;
        retention_days = if settings.retention_days == 0 then 30 else settings.retention_days;
        known_ids = [];
        closed = false;
        files = [];
      } in
      (
        s,
        rw named refl,
        replies-AllAgree calls s (record { entries = []; closed = false }) (omega (arith, bound)) h
            (record {
              same_closed = refl;
              distinct = tt;
              readable = tt;
              known = λ id. refl;
              held = same [];
              unique = tt;
              named = tt;
            }),
      )

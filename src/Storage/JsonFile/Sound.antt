-- ===== src/Storage/JsonFile/Sound.antt =====
-- JSONFileStorage beside the event log: each call of Store, without faults of the system.
use Prim.Native.Nat.{ℕ, suc, ◌≤◌}
use mathlib.Core.Path.{◌≡◌}
use mathlib.Core.Bool.{true, false}
use mathlib.Core.Option.{Option, none, some}
use gologger.Prelude.{ltb, All, length, Reorder}
use gologger.Result.{Result, ok, err}
use gologger.Text.{Text, is_empty, mem_text}
use gologger.Contracts.{Event}
use gologger.Storage.{StoreError}
use gologger.Storage.Log.{EventLog, find_event}
use gologger.Storage.Log.Find.{Unique, is_found}
use gologger.Storage.Codec.{Bytes, Codec, has_valid_strings}
use gologger.Storage.Lines.{max_line}
use gologger.Storage.JsonFile.{FileError, store_error, JsonFileStorage, WriteFaults, writes_all}
use gologger.Storage.JsonFile.Contents.{Distinct, IsReadable, contents}

-- The operating system does what it is asked for.
abbrev pub no_faults : WriteFaults
no_faults = record {
  stat_fails = λ index. false;
  open_fails = false;
  outcome = writes_all;
  sync_fails = false;
  close_fails = false;
}

-- The errors that the event log has too.
abbrev pub lifted {ℓ} : {A : Type ℓ} → Result StoreError A → Result FileError A
lifted (err failure) = err (store_error failure)
lifted (ok value) = ok value

abbrev pub or_given : Event → Option Event → Event
or_given event none = event
or_given event (some back) = back

module _ (codec : Codec) where
  abbrev pub decoded_line : Event → Option Bytes → Event
  decoded_line event none = event
  decoded_line event (some line) = or_given event (codec.decode line)

  -- What is read back of an event.
  abbrev pub saved_form : Event → Event
  saved_form event = decoded_line event (codec.encode event)

  -- json.Marshal accepts the event, its line fits in the scanner's buffer, and its strings are UTF-8.
  pub record IsStorable (event : Event) : Type 0 where
    pub line : Bytes
    pub encoded : codec.encode event ≡ some line
    pub fits : ltb (length line) max_line ≡ true
    pub valid : has_valid_strings event ≡ true

  -- The events of the files are those of the log, in some order; the identifiers that the store knows
  -- are theirs; and no two have the same.
  pub record IsSound (s : JsonFileStorage) (log : EventLog) : Type 0 where
    pub same_closed : s.closed ≡ log.closed
    pub distinct : Distinct s.files
    pub readable : All (λ p. IsReadable codec p.1) s.files
    pub known : (id : Text) → mem_text id s.known_ids ≡ is_found (find_event id log.entries)
    pub held : Reorder (contents codec s.files) log.entries
    pub unique : Unique log.entries
    pub named : All (λ e. is_empty e.event_id ≡ false) log.entries

  -- A call of Store beside the same call of the log: what is read back is what the log has.
  pub record Simulates (files : ℕ) (json : Result FileError (Unit {0}) × JsonFileStorage)
      (log : Result StoreError (Unit {0}) × EventLog) : Type 0 where
    pub same_reply : json.0 ≡ lifted log.0
    pub sound : IsSound json.1 log.1
    pub small : length json.1.files ≤ suc files

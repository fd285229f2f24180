-- ===== src/Storage/JsonFile.antt =====
-- JSONFileStorage of internal/adapters/storage/json_file_storage.go. Each method runs under its mutex, so
-- it is one step; what the operating system does in it is an argument.
pub mod Upkeep
pub mod Placement
pub mod Contents
pub mod Appended
pub mod Sound
pub mod Stores
pub mod Answers
pub mod Refines
pub mod Durable
pub mod Sizes
pub mod Spoilt
pub mod Torn
pub mod Overlong
pub mod Retried
pub mod Expired
pub mod Written
use Prim.Native.Nat.{ℕ, zero, suc, ◌+◌, ◌-◌, ◌*◌}
use mathlib.Core.Bool.{Bool, true, false, not}
use mathlib.Core.Option.{Option, none, some}
use mathlib.Core.List.{List, [], ◌∷◌, ◌++◌, map}
use gologger.Prelude.{ltb, leb, ◌==◌, if◌then◌else◌, length, select, take}
use gologger.Result.{Result, ok, err, ◌>>=◌}
use gologger.Text.{Text, text_eq, is_empty, mem_text, trim_space}
use gologger.GoMap.{lookup}
use gologger.Clock.{Time, day}
use gologger.Context.{ContextError}
use gologger.Contracts.{Event, EventFilter}
use gologger.Storage.{
  StoreError, event_not_found, store_closed, duplicate_event, event_id_required, context_error,
}
use gologger.Storage.Filter.{matches_filter}
use gologger.Storage.Codec.{Bytes, newline, Codec}
use gologger.Storage.Lines.{ReadError, cannot_open, read_events}
use gologger.Storage.Files.{
  File, Directory, event_files, sort_events, file_name, append_file, remove_file,
}

pub data FileError : Type 0 where
  store_error : StoreError → FileError
  read_error : ReadError → FileError
  data_dir_required mkdir_failed encode_failed stat_failed open_failed write_failed close_failed :
      FileError
  remove_failed not_a_directory out_of_fuel : FileError

-- The keys of the map knownIDs are a list, and `files` is the directory.
pub record JsonFileStorage : Type 0 where
  pub max_file_size : ℕ
  pub retention_days : ℕ
  pub known_ids : List Text
  pub closed : Bool
  pub files : Directory

-- What write returns: an error, after some of the bytes.
pub data WriteOutcome : Type 0 where
  writes_all : WriteOutcome
  fails_after : ℕ → WriteOutcome

-- What the operating system does in a call of Store; os.Stat may fail at an index.
pub record WriteFaults : Type 0 where
  pub stat_fails : ℕ → Bool
  pub open_fails : Bool
  pub outcome : WriteOutcome
  pub sync_fails : Bool
  pub close_fails : Bool

-- info.Size() + int64(recordSize) <= store.maxFileSize, or the file is not there.
abbrev pub has_room : ℕ → ℕ → Option File → Bool
has_room max_file_size record_size none = true
has_room max_file_size record_size (some file) = leb (length file.bytes + record_size) max_file_size

-- The loop of fileForWrite, from an index on.
unfoldable pub file_from :
    (fuel : ℕ) (index : ℕ) (faults : WriteFaults) (record_size : ℕ) (now : Time)
    (s : JsonFileStorage)
    → Result FileError Text
file_from zero index faults record_size now s = err out_of_fuel
file_from (suc fuel) index faults record_size now s =
    let rest = file_from fuel (suc index) faults record_size now s in
    if faults.stat_fails index
    then err stat_failed
    else if has_room s.max_file_size record_size (lookup (file_name now index) s.files)
    then ok (file_name now index)
    else rest

abbrev pub file_for_write : WriteFaults → ℕ → Time → JsonFileStorage → Result FileError Text
file_for_write faults record_size now s =
    file_from (suc (length s.files)) 0 faults record_size now s

-- os.OpenFile, Write, Sync and Close.
unfoldable pub append_record :
    WriteFaults
    → Text
    → Text
    → Bytes
    → Time
    → JsonFileStorage
    → Result FileError (Unit {0}) × JsonFileStorage
append_record faults id name line now s =
    if faults.open_fails then (err open_failed, s) else elim faults.outcome [
      | fails_after n ↦ (
        err write_failed,
        record s { files = append_file name (take n line) now.instant s.files },
      )
      | writes_all ↦
          let written = record s { files = append_file name line now.instant s.files } in
          if faults.sync_fails
          then (err write_failed, written)
          else if faults.close_fails
          then (err close_failed, written)
          else (ok tt, record written { known_ids = id ∷ s.known_ids })
    ]

abbrev pub write_to :
    Result FileError Text
    → WriteFaults
    → Text
    → Bytes
    → Time
    → JsonFileStorage
    → Result FileError (Unit {0}) × JsonFileStorage
write_to (err failure) faults id line now s = (err failure, s)
write_to (ok name) faults id line now s = append_record faults id name line now s

abbrev pub store_encoded :
    Option Bytes
    → WriteFaults
    → Text
    → Time
    → JsonFileStorage
    → Result FileError (Unit {0}) × JsonFileStorage
store_encoded none faults id now s = (err encode_failed, s)
store_encoded (some line) faults id now s =
    if s.closed
    then (err (store_error store_closed), s)
    else if mem_text id s.known_ids
    then (err (store_error duplicate_event), s)
    else write_to (file_for_write faults (length line + 1) now s) faults id (line ++ newline ∷ [])
        now s

-- The first event with the identifier in the events of a file.
abbrev pub find_id : Text → List Event → Option Event
find_id id [] = none
find_id id (event ∷ rest) = if text_eq event.event_id id then some event else find_id id rest

abbrev pub or_next : Option Event → Result FileError Event → Result FileError Event
or_next none rest = rest
or_next (some event) rest = ok event

abbrev pub get_next :
    Text → Result ReadError (List Event) → Result FileError Event → Result FileError Event
get_next id (err failure) rest = err (read_error failure)
get_next id (ok events) rest = or_next (find_id id events) rest

abbrev pub read_next :
    (Event → Bool)
    → Result ReadError (List Event)
    → Result FileError (List Event)
    → Result FileError (List Event)
read_next keep (err failure) rest = err (read_error failure)
read_next keep (ok events) rest = rest >>= (λ more. ok (select keep events ++ more))

module _ (codec : Codec) where
  unfoldable pub store :
      Option ContextError
      → Event
      → Time
      → WriteFaults
      → JsonFileStorage
      → Result FileError (Unit {0}) × JsonFileStorage
  store (some failure) event now faults s = (err (store_error (context_error failure)), s)
  store none event now faults s =
      if is_empty event.event_id
      then (err (store_error event_id_required), s)
      else store_encoded (codec.encode event) faults event.event_id now s

  -- readEvents, where `opens` tells which files os.Open can open.
  abbrev pub read_content : Bool → Option File → Result ReadError (List Event)
  read_content opens none = err cannot_open
  read_content false (some file) = err cannot_open
  read_content true (some file) = read_events codec file.bytes

  abbrev pub read_file : (Text → Bool) → Directory → Text → Result ReadError (List Event)
  read_file opens files name = read_content (opens name) (lookup name files)

  -- The loop of Get over the files.
  unfoldable pub get_from : (Text → Bool) → Directory → Text → List Text → Result FileError Event
  get_from opens files id [] = err (store_error event_not_found)
  get_from opens files id (name ∷ names) =
      let rest = get_from opens files id names in get_next id (read_file opens files name) rest

  unfoldable pub get :
      Option ContextError → Text → (Text → Bool) → JsonFileStorage → Result FileError Event
  get (some failure) id opens s = err (store_error (context_error failure))
  get none id opens s =
      if s.closed
      then err (store_error store_closed)
      else if mem_text id s.known_ids
      then get_from opens s.files id (event_files s.files)
      else err (store_error event_not_found)

  -- The loops of Query and loadEventIDs over the files and their events.
  unfoldable pub read_all :
      (Event → Bool) → (Text → Bool) → Directory → List Text → Result FileError (List Event)
  read_all keep opens files [] = ok []
  read_all keep opens files (name ∷ names) =
      let rest = read_all keep opens files names in read_next keep (read_file opens files name) rest

  unfoldable pub query :
      Option ContextError
      → EventFilter
      → (Text → Bool)
      → JsonFileStorage
      → Result FileError (List Event)
  query (some failure) filter opens s = err (store_error (context_error failure))
  query none filter opens s =
      if s.closed
      then err (store_error store_closed)
      else read_all (λ e. matches_filter e filter) opens s.files (event_files s.files)
        >>= (λ events. ok (sort_events events))

  unfoldable pub load_event_ids : (Text → Bool) → Directory → Result FileError (List Text)
  load_event_ids opens files =
      read_all (λ e. not (is_empty e.event_id)) opens files (event_files files)
      >>= (λ events. ok (map (λ e. e.event_id) events))

  -- The directory may exist before, with files of an earlier run.
  unfoldable pub new_json_file_storage :
      Text → ℕ → ℕ → Bool → (Text → Bool) → Directory → Result FileError JsonFileStorage
  new_json_file_storage data_dir max_file_size retention_days mkdir_fails opens files =
      if is_empty (trim_space data_dir)
      then err data_dir_required
      else if mkdir_fails
      then err mkdir_failed
      else load_event_ids opens files >>= (λ ids. ok (record {
        max_file_size = if max_file_size == 0 then 10 * 1024 * 1024 else max_file_size;
        retention_days = if retention_days == 0 then 30 else retention_days;
        known_ids = ids;
        closed = false;
        files = files;
      }))

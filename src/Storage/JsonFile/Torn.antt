-- ===== src/Storage/JsonFile/Torn.antt =====
-- A record of which the system writes a part.
use Prim.Native.Nat.{ℕ, suc, ◌+◌, ◌≤◌, ◌<◌}
use mathlib.Core.Path.{◌≡◌, refl, ap}
use mathlib.Core.Logic.{inl}
use mathlib.Core.Bool.{Bool, true, false, not}
use mathlib.Core.Option.{Option, none, some}
use mathlib.Core.List.{List, [], ◌∷◌, ◌++◌, append_assoc}
use native.Mathlib.Omega.{arith}
use gologger.Prelude.{ltb, All, length, length-append, take}
use gologger.Result.{ok, err}
use gologger.Text.{is_empty, mem_text, trim_space}
use gologger.GoMap.{lookup}
use gologger.Clock.{Time}
use gologger.Contracts.{Event, EventFilter}
use gologger.Storage.Filter.{matches_filter}
use gologger.Storage.Codec.{Bytes, newline, Codec, IsCodec}
use gologger.Storage.Lines.{invalid_event, max_line, split_lines, read_events, read_lines}
use gologger.Storage.Lines.Append.{
  IsTerminated, split_lines-torn, drop_return-plain, read_events-append,
}
use gologger.Storage.Files.{File, bytes_of, event_files, append_file}
use gologger.Storage.Files.Names.{max_index}
use gologger.Storage.JsonFile.{
  read_error, write_failed, JsonFileStorage, WriteFaults, fails_after, read_all, store,
  append_record, query, new_json_file_storage, load_event_ids,
}
use gologger.Storage.JsonFile.Placement.{file_for_write-ok}
use gologger.Storage.JsonFile.Spoilt.{read_all-append_file}
use gologger.Storage.JsonFile.Sound.{no_faults}
use gologger.Storage.JsonFile.Refines.{Settings, opened}
use gologger.Storage.JsonFile.Contents.{Distinct, IsReadable}
use gologger.Storage.JsonFile.Appended.{OptionReadable, All-lookup}

-- The characters of a front part are among those of the whole.
All-front : (P : ℕ → Type 0) (front rest : Bytes) → All P (front ++ rest) → All P front
All-front P [] rest h = tt
All-front P (c ∷ front) rest h = (h.0, All-front P front rest h.1)

pub take-front : (front rest : Bytes) → take (length front) (front ++ rest) ≡ front
unfolding take
take-front [] [] = refl
take-front [] (c ∷ rest) = refl
take-front (c ∷ front) rest = ap (◌∷◌ c) (take-front front rest)

-- The system writes a part of the record, and does else what it is asked for.
abbrev pub part_written : ℕ → WriteFaults
part_written n = record no_faults { outcome = fails_after n }

module _ (codec : Codec) (lawful : IsCodec codec) where
  -- What is read of a file whose last record is torn.
  torn-invalid :
      (event : Event) (content front rest : Bytes) (c d : ℕ)
      → IsTerminated content
      → (events : List Event) × (read_events codec content ≡ ok events)
      → codec.encode event ≡ some ((c ∷ front) ++ d ∷ rest)
      → ltb (length ((c ∷ front) ++ d ∷ rest)) max_line ≡ true
      → read_events codec (content ++ (c ∷ front)) ≡ err invalid_event
  unfolding read_lines
  torn-invalid event content front rest c d ended (events, read) encoded fits =
      let plain =
        All-front (λ c. 0x20 ≤ c) (c ∷ front) (d ∷ rest)
          (lawful.plain event ((c ∷ front) ++ d ∷ rest) encoded) in
      let sum = length-append (c ∷ front) (d ∷ rest) in
      let short : ltb (length (c ∷ front)) max_line ≡ true = ground arith in
      rw
        (
          read_events-append codec content (c ∷ front) ended,
          read,
          split_lines-torn c front plain,
          short,
          drop_return-plain (c ∷ front) plain,
          lawful.beginning_fails event c d front rest encoded,
        )
        refl

  -- A directory to one of whose files a part of a record is appended.
  module _ (event : Event) (front rest : Bytes) (c d : ℕ)
      (encoded : codec.encode event ≡ some ((c ∷ front) ++ d ∷ rest))
      (fits : ltb (length ((c ∷ front) ++ d ∷ rest)) max_line ≡ true) where
    torn-grown :
        (o : Option File)
        → OptionReadable codec o
        → read_events codec (bytes_of o ++ (c ∷ front)) ≡ err invalid_event
    unfolding read_lines split_lines
    torn-grown none h = torn-invalid event [] front rest c d (inl refl) ([], refl) encoded fits
    torn-grown (some file) (ended, events, read) =
        torn-invalid event file.bytes front rest c d ended (events, read) encoded fits

    -- In an open store with a named directory of fewer than 10 ^ 19 files, all with different names and
    -- readable, let Store be called with an event whose identifier is not empty and not known and whose
    -- line is shorter than the scanner's buffer, and let the system write a beginning of the line, and
    -- not all of it. Then Store fails with a write error; every Query of the store fails, whatever its
    -- filter, since the file has a line that is no event; and so does New on the directory.
    pub store-torn :
        (now : Time) (s : JsonFileStorage) (settings : Settings)
        → is_empty event.event_id ≡ false
        → mem_text event.event_id s.known_ids ≡ false
        → s.closed ≡ false
        → length s.files < max_index
        → Distinct s.files
        → All (λ p. IsReadable codec p.1) s.files
        → is_empty (trim_space settings.data_dir) ≡ false
        → (after : JsonFileStorage) × (store codec none event now
              (part_written (suc (length front)))
              s
            ≡ (err write_failed, after))
          × ((filter : EventFilter)
              → query codec none filter (λ n. true) after ≡ err (read_error invalid_event))
          × (opened codec settings after.files ≡ err (read_error invalid_event))
    unfolding store append_record query new_json_file_storage load_event_ids
    store-torn now s settings filled new is_open bound distinct readable named =
        let faults = part_written (suc (length front)) in
        let line = (c ∷ front) ++ d ∷ rest in
        let (name, chosen) = file_for_write-ok faults (length line + 1) now s (λ i. refl) bound in
        let written : take (suc (length front)) (line ++ newline ∷ []) ≡ c ∷ front =
          rw (append_assoc (c ∷ front) (d ∷ rest) (newline ∷ []))
            (take-front (c ∷ front) (d ∷ rest ++ newline ∷ [])) in
        let files = append_file name (c ∷ front) now.instant s.files in
        let broken : (keep : Event → Bool)
            → read_all codec keep (λ n. true) files (event_files files)
              ≡ err (read_error invalid_event) =
          λ keep.
            read_all-append_file codec invalid_event keep name (c ∷ front) now.instant s.files
              (torn-grown (lookup name s.files) (All-lookup codec name s.files readable)) distinct
              readable in
        (
          record s { files = files },
          rw (filled, encoded, new, chosen, written, is_open) refl,
          λ filter. rw (broken (λ e. matches_filter e filter), is_open) refl,
          rw (named, broken (λ e. not (is_empty e.event_id))) refl,
        )

-- ===== src/Storage/JsonFile/Overlong.antt =====
-- A record that does not fit in the buffer with which the files are read.
use Prim.Native.Nat.{◌+◌, ◌<◌}
use mathlib.Core.Path.{◌≡◌, refl}
use mathlib.Core.Logic.{inl}
use mathlib.Core.Bool.{Bool, true, false, not}
use mathlib.Core.Option.{Option, none, some}
use mathlib.Core.List.{List, [], ◌∷◌, ◌++◌}
use gologger.Prelude.{ltb, All, length}
use gologger.Result.{ok, err}
use gologger.Text.{is_empty, mem_text, trim_space}
use gologger.GoMap.{lookup}
use gologger.Clock.{Time}
use gologger.Contracts.{Event, EventFilter}
use gologger.Storage.Filter.{matches_filter}
use gologger.Storage.Codec.{Bytes, newline, Codec, IsCodec}
use gologger.Storage.Lines.{line_too_long, max_line, split_lines, read_events, read_lines}
use gologger.Storage.Lines.Append.{IsTerminated, split_lines-plain, read_events-append}
use gologger.Storage.Files.{File, bytes_of, append_file, event_files}
use gologger.Storage.Files.Names.{max_index}
use gologger.Storage.JsonFile.{
  read_error, JsonFileStorage, read_all, store, append_record, query, new_json_file_storage,
  load_event_ids,
}
use gologger.Storage.JsonFile.Placement.{file_for_write-ok}
use gologger.Storage.JsonFile.Sound.{no_faults}
use gologger.Storage.JsonFile.Refines.{Settings, opened}
use gologger.Storage.JsonFile.Contents.{Distinct, IsReadable}
use gologger.Storage.JsonFile.Appended.{OptionReadable, All-lookup}
use gologger.Storage.JsonFile.Spoilt.{read_all-append_file}

module _ (codec : Codec) (lawful : IsCodec codec) (event : Event) (line : Bytes)
    (encoded : codec.encode event ≡ some line) (long : ltb (length line) max_line ≡ false) where
  long-too_long :
      (content : Bytes)
      → IsTerminated content
      → (events : List Event) × (read_events codec content ≡ ok events)
      → read_events codec (content ++ (line ++ newline ∷ [])) ≡ err line_too_long
  unfolding read_lines
  long-too_long content ended (events, read) =
      rw
        (
          read_events-append codec content (line ++ newline ∷ []) ended,
          read,
          split_lines-plain line (lawful.plain event line encoded),
          long,
        )
        refl

  long-grown :
      (o : Option File)
      → OptionReadable codec o
      → read_events codec (bytes_of o ++ (line ++ newline ∷ [])) ≡ err line_too_long
  unfolding read_lines split_lines
  long-grown none h = long-too_long [] (inl refl) ([], refl)
  long-grown (some file) (ended, events, read) = long-too_long file.bytes ended (events, read)

  -- In an open store with a named directory of fewer than 10 ^ 19 files, all with different names and
  -- readable, let Store be called with an event whose identifier is not empty and not known, and whose
  -- line is as long as the scanner's buffer or longer. While the system does what it is asked for,
  -- Store returns no error; but then every Query of the store fails, whatever its filter, since the
  -- line is too long to be read; and so does New on the directory.
  pub store-overlong :
      (now : Time) (s : JsonFileStorage) (settings : Settings)
      → is_empty event.event_id ≡ false
      → mem_text event.event_id s.known_ids ≡ false
      → s.closed ≡ false
      → length s.files < max_index
      → Distinct s.files
      → All (λ p. IsReadable codec p.1) s.files
      → is_empty (trim_space settings.data_dir) ≡ false
      → (after : JsonFileStorage) × (store codec none event now no_faults s ≡ (ok tt, after))
        × ((filter : EventFilter)
            → query codec none filter (λ n. true) after ≡ err (read_error line_too_long))
        × (opened codec settings after.files ≡ err (read_error line_too_long))
  unfolding store append_record query new_json_file_storage load_event_ids
  store-overlong now s settings filled new is_open bound distinct readable named =
      let added = line ++ newline ∷ [] in
      let (name, chosen) = file_for_write-ok no_faults (length line + 1) now s (λ i. refl) bound in
      let files = append_file name added now.instant s.files in
      let broken : (keep : Event → Bool)
          → read_all codec keep (λ n. true) files (event_files files)
            ≡ err (read_error line_too_long) =
        λ keep.
          read_all-append_file codec line_too_long keep name added now.instant s.files
            (long-grown (lookup name s.files) (All-lookup codec name s.files readable)) distinct
            readable in
      (
        record s { files = files; known_ids = event.event_id ∷ s.known_ids },
        rw (filled, encoded, new, chosen, is_open) refl,
        λ filter. rw (broken (λ e. matches_filter e filter), is_open) refl,
        rw (named, broken (λ e. not (is_empty e.event_id))) refl,
      )

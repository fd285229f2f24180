-- ===== src/Storage/JsonFile/Retried.antt =====
-- A record that is written, in a call of Store that fails.
use Prim.Native.Nat.{suc, ◌+◌, ◌<◌}
use mathlib.Core.Path.{◌≡◌, refl, ap, ◌∙◌}
use mathlib.Core.Bool.{Bool, true, false}
use mathlib.Core.Option.{none}
use mathlib.Core.List.{List, [], ◌∷◌, ◌++◌, append_assoc}
use native.Mathlib.Omega.{arith}
use gologger.Prelude.{All, length, select, Reorder, chain, Reorder-back, Reorder-eq, Reorder-select}
use gologger.Result.{ok, err}
use gologger.Text.{is_empty, mem_text}
use gologger.Clock.{Time}
use gologger.Contracts.{Event, EventFilter}
use gologger.Storage.Filter.{matches_filter}
use gologger.Storage.Log.{EventLog, find_event}
use gologger.Storage.Log.Find.{is_found}
use gologger.Storage.Codec.{newline, Codec, IsCodec}
use gologger.Storage.Files.{event_files, sort_events, append_file}
use gologger.Storage.Files.Names.{max_index}
use gologger.Storage.Files.Sorted.{sort_events-Reorder}
use gologger.Storage.JsonFile.{
  write_failed, JsonFileStorage, WriteFaults, store, append_record, query,
}
use gologger.Storage.JsonFile.Placement.{file_for_write-ok}
use gologger.Storage.JsonFile.Contents.{Distinct, IsReadable, contents, gather, read_all-gather}
use gologger.Storage.JsonFile.Appended.{
  event_files-IsThere, gather-event_files, append_file-contents,
}
use gologger.Storage.JsonFile.Sound.{no_faults, saved_form, IsStorable, IsSound}
use gologger.Storage.JsonFile.Stores.{storable-HasLine, length-append_file}

-- The record is written, and Sync fails.
abbrev pub sync_failing : WriteFaults
sync_failing = record no_faults { sync_fails = true }

module _ (codec : Codec) (lawful : IsCodec codec) where
  -- A query of an open store with readable files.
  query-contents :
      (filter : EventFilter) (s : JsonFileStorage)
      → s.closed ≡ false
      → Distinct s.files
      → All (λ p. IsReadable codec p.1) s.files
      → (answer : List Event) × (query codec none filter (λ n. true) s ≡ ok answer)
        × Reorder answer (select (λ e. matches_filter e filter) (contents codec s.files))
  unfolding query
  query-contents filter s is_open distinct readable =
      let keep : Event → Bool = λ e. matches_filter e filter in
      let chosen = select keep (gather codec s.files (event_files s.files)) in
      (
        sort_events chosen,
        rw
            (
              read_all-gather codec keep s.files (event_files s.files)
                  (event_files-IsThere codec s.files distinct readable),
              is_open,
            )
            refl,
        chain (sort_events-Reorder chosen)
            (Reorder-select keep (gather-event_files codec s.files distinct)),
      )

  -- Let an open store with fewer than 10 ^ 19 - 1 files be sound, and let an event that can be stored
  -- have an identifier that is not empty and new. A Store of it whose Sync fails returns an error, and a
  -- second try without faults is not refused as a duplicate: it succeeds, and then a Query returns the
  -- events of the log and this event twice, as far as its filter accepts them.
  pub store-twice :
      (event : Event) (h : IsStorable codec event) (now later : Time) (s : JsonFileStorage)
      (log : EventLog)
      → is_empty event.event_id ≡ false
      → s.closed ≡ false
      → find_event event.event_id log.entries ≡ none
      → suc (length s.files) < max_index
      → IsSound codec s log
      → (failed : JsonFileStorage) × (tried : JsonFileStorage) × (store codec none event now
            sync_failing s
          ≡ (err write_failed, failed))
        × (store codec none event later no_faults failed ≡ (ok tt, tried))
        × ((filter : EventFilter)
            → (answer : List Event) × (query codec none filter (λ n. true) tried ≡ ok answer)
              × Reorder answer (
                  select
                    (λ e. matches_filter e filter)
                    (log.entries ++ saved_form codec event ∷ saved_form codec event ∷ [])))
  unfolding store append_record
  store-twice event h now later s log filled is_open fresh bound sound =
      let back = saved_form codec event in
      let line = h.line in
      let reads = (storable-HasLine codec lawful event h).reads in
      let new : mem_text event.event_id s.known_ids ≡ false =
        sound.known event.event_id ∙ ap is_found fresh in
      let (name, chosen) =
        file_for_write-ok sync_failing (length line + 1) now s (λ i. refl) (omega (arith, bound)) in
      let files = append_file name (line ++ newline ∷ []) now.instant s.files in
      let failed : JsonFileStorage = record s { files = files } in
      let grows = length-append_file name (line ++ newline ∷ []) now.instant s.files in
      let (name', chosen') =
        file_for_write-ok no_faults (length line + 1) later failed (λ i. refl)
          (omega (arith, bound, grows)) in
      let files' = append_file name' (line ++ newline ∷ []) later.instant files in
      let tried : JsonFileStorage = record s {
        files = files';
        known_ids = event.event_id ∷ s.known_ids;
      } in
      let (distinct, readable, more) =
        append_file-contents codec name line back now.instant s.files sound.distinct sound.readable
          reads in
      let (distinct', readable', more') =
        append_file-contents codec name' line back later.instant files distinct readable reads in
      (
        failed,
        tried,
        rw (filled, h.encoded, new, chosen, is_open) refl,
        rw (filled, h.encoded, new, chosen', is_open) refl,
        λ filter.
            let (answer, answers, same_events) =
              query-contents filter tried is_open distinct' readable' in
            (
              answer,
              answers,
              chain same_events (
                  Reorder-select (λ e. matches_filter e filter)
                    (chain more' (
                      chain
                        (Reorder-back (back ∷ [])
                          (chain more (Reorder-back (back ∷ []) sound.held)))
                        (Reorder-eq (append_assoc log.entries (back ∷ []) (back ∷ [])))))),
            ),
      )

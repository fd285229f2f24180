-- ===== src/Storage/JsonFile/Stores.antt =====
-- A call of Store, without faults of the system, is that of the event log.
use Prim.Native.Nat.{ℕ, suc, ◌+◌, ◌≤◌, ◌<◌}
use mathlib.Core.Path.{◌≡◌, refl}
use mathlib.Core.Logic.{inl, inr}
use mathlib.Core.Bool.{Bool, true, false}
use mathlib.Core.Option.{Option, none, some}
use mathlib.Core.List.{List, [], ◌∷◌, ◌++◌}
use native.Mathlib.Omega.{arith}
use gologger.Prelude.{ltb, if◌then◌else◌, Bool-cases, All-append, length, chain, Reorder-back}
use gologger.Result.{Result, ok, err}
use gologger.Text.{Text, is_empty, mem_text}
use gologger.GoMap.{put}
use gologger.Clock.{Time}
use gologger.Context.{ContextError}
use gologger.Contracts.{Event}
use gologger.Storage.{StoreError, duplicate_event, event_id_required, store_closed, context_error}
use gologger.Storage.Log
use gologger.Storage.Log.{EventLog, find_event}
use gologger.Storage.Codec.{Bytes, newline, Codec, IsCodec, IsSame}
use gologger.Storage.Lines.{read_events, max_line}
use gologger.Storage.Files.{Directory, append_file}
use gologger.Storage.Files.Names.{max_index}
use gologger.Storage.JsonFile.{
  FileError, store_error, JsonFileStorage, file_for_write, append_record, write_to, store_encoded,
  store,
}
use gologger.Storage.JsonFile.Placement.{file_for_write-ok}
use gologger.Storage.JsonFile.Appended.{read_events-record, append_file-contents}
use gologger.Storage.Log.Find.{find_event-append, Unique-append}
use gologger.Storage.JsonFile.Sound.{no_faults, saved_form, IsStorable, IsSound, Simulates}

length-put :
    {V : Type 0} (name : Text) (value : V) (m : List (Text × V))
    → length (put name value m) ≤ suc (length m)
unfolding put
length-put name value [] = omega arith
length-put name value ((k, v) ∷ rest) = ground (arith, length-put name value rest)

pub length-append_file :
    (name : Text) (line : Bytes) (now : ℕ) (files : Directory)
    → length (append_file name line now files) ≤ suc (length files)
unfolding append_file
length-append_file name line now files = length-put name _ files

module _ (codec : Codec) (lawful : IsCodec codec) where
  -- The line of an event that can be stored, and what is read of it.
  pub record HasLine (event : Event) (line : Bytes) : Type 0 where
    pub reads : read_events codec (line ++ newline ∷ []) ≡ ok (saved_form codec event ∷ [])
    pub same_event : IsSame event (saved_form codec event)

  HasLine-eq :
      (event back : Event) (line : Bytes)
      → codec.encode event ≡ some line
      → ltb (length line) max_line ≡ true
      → codec.decode line ≡ some back
      → IsSame event back
      → HasLine event line
  HasLine-eq event back [] encoded fits decodes alike = absurd (lawful.filled event encoded)
  HasLine-eq event back (c ∷ line) encoded fits decodes alike =
      let saved : saved_form codec event ≡ back = rw (encoded, decodes) refl in
      record {
        reads = rw saved (
            read_events-record codec c line back (lawful.plain event (c ∷ line) encoded) fits
              decodes);
        same_event = rw saved alike;
      }

  pub storable-HasLine : (event : Event) (h : IsStorable codec event) → HasLine event h.line
  storable-HasLine event h =
      let (back, decodes, alike) = lawful.decodes event h.line h.encoded h.valid in
      HasLine-eq event back h.line h.encoded h.fits decodes alike

  -- A record in a file of its own choosing.
  append-IsSound :
      (event : Event) (line : Bytes) (name : Text) (now : ℕ) (s : JsonFileStorage) (log : EventLog)
      → HasLine event line
      → is_empty event.event_id ≡ false
      → find_event event.event_id log.entries ≡ none
      → IsSound codec s log
      → IsSound codec
          (record s {
            files = append_file name (line ++ newline ∷ []) now s.files;
            known_ids = event.event_id ∷ s.known_ids;
          })
          (record log { entries = log.entries ++ saved_form codec event ∷ [] })
  append-IsSound event line name now s log has filled fresh c =
      let back = saved_form codec event in
      let (distinct, readable, more) =
        append_file-contents codec name line back now s.files c.distinct c.readable has.reads in
      record {
        same_closed = c.same_closed;
        distinct = distinct;
        readable = readable;
        known = λ id.
            rw (find_event-append id back log.entries, has.same_event.same_id, c.known id) refl;
        held = chain more (Reorder-back (back ∷ []) c.held);
        unique = Unique-append back log.entries c.unique (rw has.same_event.same_id fresh);
        named = All-append _ log.entries _ c.named (rw has.same_event.same_id filled, tt);
      }

  Simulates-if :
      (files : ℕ) (a b : Bool) {x y : Result FileError (Unit {0}) × JsonFileStorage}
      {u v : Result StoreError (Unit {0}) × EventLog}
      → a ≡ b
      → (a ≡ true → Simulates codec files x u)
      → (a ≡ false → Simulates codec files y v)
      → Simulates codec files (if a then x else y) (if b then u else v)
  Simulates-if files a b alike h k = elim (Bool-cases a) [
    | inl yes' ↦ rw (← alike, yes') (h yes')
    | inr no' ↦ rw (← alike, no') (k no')
  ]

  refused :
      (failure : StoreError) (s : JsonFileStorage) (log : EventLog)
      → IsSound codec s log
      → Simulates codec (length s.files) (err (store_error failure), s) (err failure, log)
  refused failure s log c = record { same_reply = refl; sound = c; small = omega arith }

  write_to-Simulates :
      (target : Result FileError Text) (event : Event) (line : Bytes) (now : Time)
      (s : JsonFileStorage) (log : EventLog)
      → (name : Text) × (target ≡ ok name)
      → HasLine event line
      → is_empty event.event_id ≡ false
      → find_event event.event_id log.entries ≡ none
      → IsSound codec s log
      → Simulates codec
          (length s.files)
          (write_to target no_faults event.event_id (line ++ newline ∷ []) now s)
          (Log.accept none (saved_form codec event) log)
  unfolding append_record
  write_to-Simulates target event line now s log (name, chosen) has filled fresh c =
      rw chosen (record {
        same_reply = refl;
        sound = append-IsSound event line name now.instant s log has filled fresh c;
        small = length-append_file name (line ++ newline ∷ []) now.instant s.files;
      })

  accept-Simulates :
      (o : Option Event) (event : Event) (line : Bytes) (now : Time) (s : JsonFileStorage)
      (log : EventLog)
      → length s.files < max_index
      → HasLine event line
      → is_empty event.event_id ≡ false
      → find_event event.event_id log.entries ≡ o
      → IsSound codec s log
      → Simulates codec
          (length s.files)
          (if mem_text event.event_id s.known_ids
            then (err (store_error duplicate_event), s)
            else write_to
                (file_for_write no_faults (length line + 1) now s)
                no_faults
                event.event_id
                (line ++ newline ∷ [])
                now
                s)
          (Log.accept o (saved_form codec event) log)
  accept-Simulates (some existing) event line now s log bound has filled found c =
      rw (c.known event.event_id, found) (refused duplicate_event s log c)
  accept-Simulates none event line now s log bound has filled found c =
      rw (c.known event.event_id, found)
        (write_to-Simulates (file_for_write no_faults (length line + 1) now s) event line now s log
          (file_for_write-ok no_faults (length line + 1) now s (λ i. refl) bound) has filled found
          c)

  encoded-Simulates :
      (encoded : Option Bytes) (event : Event) (line : Bytes) (now : Time) (s : JsonFileStorage)
      (log : EventLog)
      → encoded ≡ some line
      → length s.files < max_index
      → HasLine event line
      → is_empty event.event_id ≡ false
      → IsSound codec s log
      → Simulates codec (length s.files) (store_encoded encoded no_faults event.event_id now s) (
          if log.closed
          then (err store_closed, log)
          else Log.accept (find_event event.event_id log.entries) (saved_form codec event) log)
  encoded-Simulates none event line now s log same_line bound has filled c = absurd (cc same_line)
  encoded-Simulates (some other) event line now s log same_line bound has filled c =
      let same_bytes : other ≡ line = cc same_line in
      rw same_bytes (
        Simulates-if (length s.files) s.closed log.closed c.same_closed
          (λ shut. refused store_closed s log c)
          (λ is_open.
            accept-Simulates (find_event event.event_id log.entries) event line now s log bound has
              filled refl c))

  pub store-Simulates :
      (ctx : Option ContextError) (event : Event) (now : Time) (s : JsonFileStorage)
      (log : EventLog)
      → length s.files < max_index
      → IsStorable codec event
      → IsSound codec s log
      → Simulates codec
          (length s.files)
          (store codec ctx event now no_faults s)
          (Log.store ctx (saved_form codec event) log)
  unfolding store
  store-Simulates (some failure) event now s log bound h c = refused (context_error failure) s log c
  store-Simulates none event now s log bound h c =
      let has = storable-HasLine event h in
      rw has.same_event.same_id (
        Simulates-if (length s.files) (is_empty event.event_id) (is_empty event.event_id) refl
          (λ blank. refused event_id_required s log c)
          (λ filled.
            encoded-Simulates (codec.encode event) event h.line now s log h.encoded bound has filled
              c))

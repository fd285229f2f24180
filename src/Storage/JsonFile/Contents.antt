-- ===== src/Storage/JsonFile/Contents.antt =====
-- The events that the files of a directory hold, and what the loops over the files find of them.
use mathlib.Core.Path.{◌≡◌, refl, ap, sym, ◌∙◌}
use mathlib.Core.Logic.{inl, inr}
use mathlib.Core.Bool.{Bool, true}
use mathlib.Core.Option.{Option, none, some}
use mathlib.Core.List.{List, [], ◌∷◌, ◌++◌, map}
use gologger.Prelude.{
  if◌then◌else◌, Bool-cases, All, select, select-append, Reorder, same, chain, Reorder-front,
  Reorder-middle,
}
use gologger.Result.{Result, ok, err}
use gologger.Text.{Text, text_eq}
use gologger.GoMap.{lookup}
use gologger.Contracts.{Event}
use gologger.Storage.{event_not_found}
use gologger.Storage.Log.{find_event}
use gologger.Storage.Codec.{Codec}
use gologger.Storage.Lines.{ReadError, read_events}
use gologger.Storage.Lines.Append.{IsTerminated}
use gologger.Storage.Files.{File, Directory, text_leb, insert_name, sort_names}
use gologger.Storage.JsonFile.{
  FileError, store_error, find_id, or_next, get_from, read_all, read_file,
}

abbrev pub keys : Directory → List Text
keys = map λ p. p.0

-- No two files have the same name.
abbrev pub Distinct : Directory → Type 0
Distinct [] = Unit
Distinct ((name, file) ∷ rest) = (lookup name rest ≡ none) × Distinct rest

abbrev pub events_of : Result ReadError (List Event) → List Event
events_of (err failure) = []
events_of (ok events) = events

module _ (codec : Codec) where
  -- The file ends with a newline, and all its lines are events.
  abbrev pub IsReadable : File → Type 0
  IsReadable file =
      IsTerminated file.bytes × (events : List Event) × (read_events codec file.bytes ≡ ok events)

  abbrev pub events_in : File → List Event
  events_in file = events_of (read_events codec file.bytes)

  abbrev pub contents : Directory → List Event
  contents [] = []
  contents ((name, file) ∷ rest) = events_in file ++ contents rest

  abbrev pub events_at : Option File → List Event
  events_at none = []
  events_at (some file) = events_in file

  abbrev pub gather : Directory → List Text → List Event
  gather files [] = []
  gather files (name ∷ names) = events_at (lookup name files) ++ gather files names

  -- The file is there and readable.
  abbrev pub IsThere : Directory → Text → Type 0
  IsThere files name = (file : File) × (lookup name files ≡ some file) × IsReadable file

  IsReadable-read :
      (file : File) → IsReadable file → read_events codec file.bytes ≡ ok (events_in file)
  IsReadable-read file (ended, events, read) = read ∙ ap ok (sym (ap events_of read))

  read_file-IsThere :
      (files : Directory) (name : Text)
      → IsThere files name
      → read_file codec (λ n. true) files name ≡ ok (events_at (lookup name files))
  read_file-IsThere files name (file, there, readable) = rw there (IsReadable-read file readable)

  pub read_all-gather :
      (keep : Event → Bool) (files : Directory) (names : List Text)
      → All (IsThere files) names
      → read_all codec keep (λ n. true) files names ≡ ok (select keep (gather files names))
  unfolding read_all
  read_all-gather keep files [] h = refl
  read_all-gather keep files (name ∷ names) h =
      rw
        (
          read_file-IsThere files name h.0,
          read_all-gather keep files names h.1,
          select-append keep (events_at (lookup name files)) (gather files names),
        )
        refl

  abbrev pub found : Option Event → Result FileError Event
  found none = err (store_error event_not_found)
  found (some event) = ok event

  find_id-append :
      (id : Text) (xs ys : List Event)
      → find_event id (xs ++ ys)
        ≡ (elim (find_event id xs) [ some e ↦ some e | none ↦ find_event id ys ])
  find_id-append id [] ys = refl
  find_id-append id (x ∷ xs) ys = elim (Bool-cases (text_eq x.event_id id)) [
    | inl match ↦ rw match refl
    | inr other ↦ rw other (find_id-append id xs ys)
  ]

  find_id-find_event : (id : Text) (xs : List Event) → find_id id xs ≡ find_event id xs
  find_id-find_event id [] = refl
  find_id-find_event id (x ∷ xs) =
      ap (λ rest. if text_eq x.event_id id then some x else rest) (find_id-find_event id xs)

  found-or :
      (o p : Option Event) → or_next o (found p) ≡ found (elim o [ some e ↦ some e | none ↦ p ])
  found-or none p = refl
  found-or (some e) p = refl

  pub get_from-gather :
      (id : Text) (files : Directory) (names : List Text)
      → All (IsThere files) names
      → get_from codec (λ n. true) files id names ≡ found (find_event id (gather files names))
  unfolding get_from
  get_from-gather id files [] h = refl
  get_from-gather id files (name ∷ names) h =
      let events = events_at (lookup name files) in
      rw
        (
          read_file-IsThere files name h.0,
          find_id-find_event id events,
          get_from-gather id files names h.1,
          find_id-append id events (gather files names),
        )
        (found-or (find_event id events) (find_event id (gather files names)))

  gather-insert_name :
      (files : Directory) (name : Text) (names : List Text)
      → Reorder (gather files (insert_name name names)) (gather files (name ∷ names))
  unfolding insert_name
  gather-insert_name files name [] = same (gather files (name ∷ []))
  gather-insert_name files name (other ∷ rest) = elim (Bool-cases (text_leb name other)) [
    | inl before ↦ rw before (same (gather files (name ∷ other ∷ rest)))
    | inr after ↦ rw after (
        chain (Reorder-front (events_at (lookup other files)) (gather-insert_name files name rest))
          (Reorder-middle (events_at (lookup other files)) (events_at (lookup name files))
            (gather files rest)))
  ]

  pub gather-sort_names :
      (files : Directory) (names : List Text)
      → Reorder (gather files (sort_names names)) (gather files names)
  unfolding sort_names
  gather-sort_names files [] = same []
  gather-sort_names files (name ∷ names) =
      chain (gather-insert_name files name (sort_names names))
        (Reorder-front (events_at (lookup name files)) (gather-sort_names files names))

  All-insert_name :
      (P : Text → Type 0) (name : Text) (names : List Text)
      → P name
      → All P names
      → All P (insert_name name names)
  unfolding insert_name
  All-insert_name P name [] h k = (h, tt)
  All-insert_name P name (other ∷ rest) h k = elim (Bool-cases (text_leb name other)) [
    | inl before ↦ rw before (h, k)
    | inr after ↦ rw after (k.0, All-insert_name P name rest h k.1)
  ]

  pub All-sort_names :
      (P : Text → Type 0) (names : List Text) → All P names → All P (sort_names names)
  unfolding sort_names
  All-sort_names P [] h = tt
  All-sort_names P (name ∷ names) h =
      All-insert_name P name (sort_names names) h.0 (All-sort_names P names h.1)

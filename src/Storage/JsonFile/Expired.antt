-- ===== src/Storage/JsonFile/Expired.antt =====
-- Rotate, when the system removes what it is asked to.
use Prim.Native.Nat.{ℕ, ◌-◌, ◌*◌, ◌<◌}
use mathlib.Core.Path.{◌≡◌, refl, ap, sym, ◌∙◌}
use mathlib.Core.Logic.{inl, inr}
use mathlib.Core.Bool.{Bool, true, false, ◌&&◌, ◌||◌}
use mathlib.Core.Option.{Option, none, some}
use mathlib.Core.List.{List, [], ◌∷◌}
use native.Mathlib.Omega.{arith}
use gologger.Prelude.{if◌then◌else◌, Bool-cases}
use gologger.Result.{ok, err}
use gologger.Text.{Text, text_eq, is_empty, mem_text}
use gologger.Text.Laws.{text_eq_iff, text_eq_refl}
use gologger.GoMap.{lookup}
use gologger.Clock.{Time, day}
use gologger.Contracts.{Event}
use gologger.Storage.{duplicate_event, event_not_found}
use gologger.Storage.Codec.{Bytes, Codec}
use gologger.Storage.Files.{File, Directory, event_files, sort_names, remove_file}
use gologger.Storage.Files.Names.{lookup-remove_file}
use gologger.Storage.JsonFile.{store_error, JsonFileStorage, WriteFaults, get, get_from, store}
use gologger.Storage.JsonFile.Upkeep.{removable, is_expired, rotate_from, rotate}
use gologger.Storage.JsonFile.Spoilt.{mem_text-sort_names}
use gologger.Storage.JsonFile.Contents.{keys}

remove_file-removed : (x : Text) (files : Directory) → lookup x (remove_file x files) ≡ none
unfolding lookup remove_file
remove_file-removed x [] = refl
remove_file-removed x ((k, f) ∷ rest) = elim (Bool-cases (text_eq k x)) [
  | inl match ↦ rw (match, remove_file-removed x rest) refl
  | inr other ↦ rw (other, other, remove_file-removed x rest) refl
]

-- What is left of the file of a name.
abbrev left_of : Bool → ℕ → Option File → Option File
left_of seen cutoff o = if seen && is_expired cutoff o then none else o

none_left : (seen : Bool) (cutoff : ℕ) → left_of seen cutoff none ≡ none
none_left true cutoff = refl
none_left false cutoff = refl

left_of_or :
    (a b : Bool) (cutoff : ℕ) (o : Option File)
    → left_of b cutoff (left_of a cutoff o) ≡ left_of (a || b) cutoff o
left_of_or false b cutoff o = refl
left_of_or true b cutoff o = elim (Bool-cases (is_expired cutoff o)) [
  | inl old ↦ rw old (none_left b cutoff)
  | inr fresh ↦ ground arith
]

rotated_file-lookup :
    (x name : Text) (cutoff : ℕ) (files : Directory)
    → lookup x (if is_expired cutoff (lookup name files) then remove_file name files else files)
      ≡ left_of (text_eq name x) cutoff (lookup x files)
rotated_file-lookup x name cutoff files = elim (Bool-cases (text_eq name x)) [
  | inl match ↦
      let same_name : name ≡ x = (text_eq_iff name x).0 match in
      rw (same_name, text_eq_refl x)
        (elim (Bool-cases (is_expired cutoff (lookup x files))) [
          | inl old ↦ rw old (remove_file-removed x files)
          | inr fresh ↦ rw fresh refl
        ])
  | inr other ↦ elim (Bool-cases (is_expired cutoff (lookup name files))) [
    | inl old ↦ rw (old, other) (lookup-remove_file name x files other)
    | inr fresh ↦ rw (fresh, other) refl
  ]
]

rotate_from-lookup :
    (x : Text) (cutoff : ℕ) (names : List Text) (files : Directory)
    → lookup x (rotate_from (λ n. removable) cutoff names files).1
      ≡ left_of (mem_text x names) cutoff (lookup x files)
unfolding rotate_from
rotate_from-lookup x cutoff [] files = refl
rotate_from-lookup x cutoff (name ∷ names) files =
    rotate_from-lookup x cutoff names
      (if is_expired cutoff (lookup name files) then remove_file name files else files)
    ∙ (ap (left_of (mem_text x names) cutoff) (rotated_file-lookup x name cutoff files)
        ∙ left_of_or (text_eq name x) (mem_text x names) cutoff (lookup x files))

rotate_from-ok :
    (cutoff : ℕ) (names : List Text) (files : Directory)
    → (rotate_from (λ n. removable) cutoff names files).0 ≡ ok tt
unfolding rotate_from
rotate_from-ok cutoff [] files = refl
rotate_from-ok cutoff (name ∷ names) files = rotate_from-ok cutoff names _

keys-mem : (x : Text) (files : Directory) → mem_text x (keys files) ≡ false → lookup x files ≡ none
unfolding lookup
keys-mem x [] h = refl
keys-mem x ((k, f) ∷ rest) h = ground (arith, keys-mem x rest)

left_of-absent :
    (seen : Bool) (cutoff : ℕ) (o : Option File)
    → (seen ≡ false → o ≡ none)
    → left_of seen cutoff o ≡ left_of true cutoff o
left_of-absent true cutoff o h = refl
left_of-absent false cutoff o h = rw (h refl) refl

-- When the system removes what it is asked to, Rotate of an open store removes the files whose last
-- write is before the cutoff, and no others, and succeeds.
pub rotate-expired :
    (now : Time) (s : JsonFileStorage)
    → s.closed ≡ false
    → ((rotate none now (λ n. removable) s).0 ≡ ok tt)
      × ((name : Text)
          → lookup name (rotate none now (λ n. removable) s).1.files ≡ (
              let file = lookup name s.files in
              if is_expired (now.instant - s.retention_days * day) file then none else file))
unfolding rotate event_files
rotate-expired now s is_open =
    let cutoff = now.instant - s.retention_days * day in
    let names = event_files s.files in
    (
      rw (rotate_from-ok cutoff names s.files, is_open) refl,
      λ name.
          rw (is_open, rotate_from-lookup name cutoff names s.files)
            (left_of-absent (mem_text name names) cutoff (lookup name s.files) (λ absent.
              keys-mem name s.files (sym (mem_text-sort_names name (keys s.files)) ∙ absent))),
    )

empty-lookup : (files : Directory) → ((name : Text) → lookup name files ≡ none) → files ≡ []
unfolding lookup
empty-lookup [] h = refl
empty-lookup ((k, f) ∷ rest) h =
    let first = h k in let match = text_eq_refl k in cc (rw match at first)

all_expired :
    (cutoff : ℕ) (o : Option File)
    → ((file : File) → o ≡ some file → file.modified < cutoff)
    → left_of true cutoff o ≡ none
all_expired cutoff none h = refl
all_expired cutoff (some file) h = let old = h file refl in ground arith

rotate-empty :
    (now : Time) (s : JsonFileStorage)
    → s.closed ≡ false
    → ((name : Text) (file : File)
        → lookup name s.files ≡ some file
        → file.modified < now.instant - s.retention_days * day)
    → rotate none now (λ n. removable) s ≡ (ok tt, record s { files = [] })
unfolding rotate event_files
rotate-empty now s is_open expired =
    let cutoff = now.instant - s.retention_days * day in
    let names = event_files s.files in
    let gone = (rotate_from (λ n. removable) cutoff names s.files).1 in
    let nothing : gone ≡ [] = empty-lookup gone (λ name.
      rotate_from-lookup name cutoff names s.files
      ∙ (left_of-absent (mem_text name names) cutoff (lookup name s.files) (λ absent.
            keys-mem name s.files (sym (mem_text-sort_names name (keys s.files)) ∙ absent))
          ∙ all_expired cutoff (lookup name s.files) (expired name))) in
    rw (nothing, rotate_from-ok cutoff names s.files, is_open) refl

-- After a Rotate of an open store all of whose files have expired, when the system removes what it is
-- asked to, the identifiers of the removed events are still known: a Get of such an event does not
-- find it, and a Store of it, if it can be encoded, is refused as a duplicate.
pub rotate-forgets :
    (codec : Codec) (now later : Time) (faults : WriteFaults) (s : JsonFileStorage) (event : Event)
    (line : Bytes)
    → s.closed ≡ false
    → ((name : Text) (file : File)
        → lookup name s.files ≡ some file
        → file.modified < now.instant - s.retention_days * day)
    → is_empty event.event_id ≡ false
    → codec.encode event ≡ some line
    → mem_text event.event_id s.known_ids ≡ true
    → let after = (rotate none now (λ n. removable) s).1 in
      (get codec none event.event_id (λ n. true) after ≡ err (store_error event_not_found))
      × (store codec none event later faults after ≡ (err (store_error duplicate_event), after))
unfolding get store event_files sort_names get_from
rotate-forgets codec now later faults s event line is_open expired filled encoded known =
    let emptied = rotate-empty now s is_open expired in
    (rw (emptied, known, is_open) refl, rw (emptied, filled, encoded, known, is_open) refl)

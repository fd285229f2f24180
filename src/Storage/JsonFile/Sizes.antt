-- ===== src/Storage/JsonFile/Sizes.antt =====
-- The sizes of the files of the store.
use Prim.Native.Nat.{ℕ, zero, suc, ◌+◌, ◌≤◌, ◌<◌}
use mathlib.Core.Path.{◌≡◌, refl}
use mathlib.Core.Logic.{◌⊎◌, inl, inr}
use mathlib.Core.Bool.{Bool, true, false}
use mathlib.Core.Option.{Option, none, some}
use mathlib.Core.List.{[], ◌∷◌, ◌++◌}
use native.Mathlib.Omega.{arith}
use gologger.Prelude.{if◌then◌else◌, Bool-cases, All, length, length-append, take}
use gologger.Result.{Result, ok, err}
use gologger.Text.{Text, text_eq, is_empty, mem_text}
use gologger.GoMap.{lookup, put}
use gologger.Clock.{Time}
use gologger.Context.{ContextError}
use gologger.Contracts.{Event}
use gologger.Storage.Codec.{Bytes, newline, Codec}
use gologger.Storage.Files.{File, Directory, bytes_of, file_name, append_file}
use gologger.Storage.JsonFile.{
  FileError, JsonFileStorage, WriteFaults, WriteOutcome, writes_all, fails_after, has_room,
  file_from, file_for_write, append_record, write_to, store_encoded, store,
}

-- No file has more bytes than the limit.
abbrev pub AllWithin : ℕ → Directory → Type 0
AllWithin limit files = All (λ p. length p.1.bytes ≤ limit) files

length-take : (n : ℕ) (l : Bytes) → length (take n l) ≤ length l
unfolding take
length-take zero [] = omega arith
length-take (suc n) [] = omega arith
length-take zero (x ∷ l) = omega arith
length-take (suc n) (x ∷ l) = omega (arith, length-take n l)

put-AllWithin :
    (limit : ℕ) (name : Text) (new : File) (files : Directory)
    → length new.bytes ≤ limit
    → AllWithin limit files
    → AllWithin limit (put name new files)
unfolding put
put-AllWithin limit name new [] h k = (h, tt)
put-AllWithin limit name new ((k, f) ∷ rest) h a = elim (Bool-cases (text_eq k name)) [
  | inl match ↦ rw match (h, a.1)
  | inr other ↦ rw other (a.0, put-AllWithin limit name new rest h a.1)
]

room-within :
    (limit max size : ℕ) (o : Option File) (line : Bytes)
    → max ≤ limit
    → size ≤ limit
    → length line ≤ size
    → has_room max size o ≡ true
    → length (bytes_of o ++ line) ≤ limit
room-within limit max size none line h k fits room = omega arith
room-within limit max size (some file) line h k fits room =
    let added = length-append file.bytes line in ground arith

WithinIf :
    (limit : ℕ) (b : Bool) (x y : Result FileError (Unit {0}) × JsonFileStorage)
    → AllWithin limit x.1.files
    → AllWithin limit y.1.files
    → AllWithin limit (if b then x else y).1.files
WithinIf limit true x y h k = h
WithinIf limit false x y h k = k

pub outcome-cases : (o : WriteOutcome) → (o ≡ writes_all) ⊎ ((n : ℕ) × (o ≡ fails_after n))
outcome-cases writes_all = inl refl
outcome-cases (fails_after n) = inr (n, refl)

-- What append_record leaves, whatever fails in it.
append_record-AllWithin :
    (limit size : ℕ) (faults : WriteFaults) (id name : Text) (line : Bytes) (now : Time)
    (s : JsonFileStorage)
    → s.max_file_size ≤ limit
    → size ≤ limit
    → length line ≤ size
    → has_room s.max_file_size size (lookup name s.files) ≡ true
    → AllWithin limit s.files
    → AllWithin limit (append_record faults id name line now s).1.files
unfolding append_record append_file
append_record-AllWithin limit size faults id name line now s h k fits room within =
    let grown : (part : Bytes)
        → length part ≤ size
        → AllWithin limit (append_file name part now.instant s.files) =
      λ part small.
        put-AllWithin limit name _ s.files
          (room-within limit s.max_file_size size (lookup name s.files) part h k small room)
          within in
    WithinIf limit faults.open_fails _ _ within (elim (outcome-cases faults.outcome) [
      | inl all ↦ rw all (
          WithinIf limit faults.sync_fails _ _ (grown line fits)
            (WithinIf limit faults.close_fails _ _ (grown line fits) (grown line fits)))
      | inr (n, part) ↦ rw part (grown (take n line) (omega (arith, length-take n line)))
    ])

HasRoom : ℕ → JsonFileStorage → Result FileError Text → Type 0
HasRoom size s (err failure) = Unit
HasRoom size s (ok name) = has_room s.max_file_size size (lookup name s.files) ≡ true

file_from-HasRoom :
    (fuel index : ℕ) (faults : WriteFaults) (size : ℕ) (now : Time) (s : JsonFileStorage)
    → HasRoom size s (file_from fuel index faults size now s)
unfolding file_from HasRoom
file_from-HasRoom zero index faults size now s = tt
file_from-HasRoom (suc fuel) index faults size now s = elim (Bool-cases (faults.stat_fails index)) [
  | inl fails ↦ rw fails tt
  | inr works ↦
      elim (Bool-cases (has_room s.max_file_size size (lookup (file_name now index) s.files))) [
        | inl room ↦ rw (works, room) room
        | inr full ↦ rw (works, full) (file_from-HasRoom fuel (suc index) faults size now s)
      ]
]

write_to-AllWithin :
    (limit size : ℕ) (target : Result FileError Text) (faults : WriteFaults) (id : Text)
    (line : Bytes) (now : Time) (s : JsonFileStorage)
    → s.max_file_size ≤ limit
    → size ≤ limit
    → length line ≤ size
    → HasRoom size s target
    → AllWithin limit s.files
    → AllWithin limit (write_to target faults id line now s).1.files
unfolding HasRoom
write_to-AllWithin limit size (err failure) faults id line now s h k fits room within = within
write_to-AllWithin limit size (ok name) faults id line now s h k fits room within =
    append_record-AllWithin limit size faults id name line now s h k fits room within

store_encoded-AllWithin :
    (limit : ℕ) (encoded : Option Bytes) (faults : WriteFaults) (id : Text) (now : Time)
    (s : JsonFileStorage)
    → s.max_file_size ≤ limit
    → ((line : Bytes) → encoded ≡ some line → length line < limit)
    → AllWithin limit s.files
    → AllWithin limit (store_encoded encoded faults id now s).1.files
store_encoded-AllWithin limit none faults id now s h k within = within
store_encoded-AllWithin limit (some line) faults id now s h k within =
    let fits = length-append line (newline ∷ []) in
    WithinIf limit s.closed _ _ within (
      WithinIf limit (mem_text id s.known_ids) _ _ within (
        write_to-AllWithin limit (length line + 1) (file_for_write faults (length line + 1) now s)
          faults id (line ++ newline ∷ []) now s h (omega (arith, k line refl)) (omega arith)
          (file_from-HasRoom (suc (length s.files)) 0 faults (length line + 1) now s) within))

-- Store keeps every file within any limit that is at least the greatest size of a file and that the
-- record, with its newline, does not exceed; whatever fails in it.
pub store-AllWithin :
    (codec : Codec) (limit : ℕ) (ctx : Option ContextError) (event : Event) (now : Time)
    (faults : WriteFaults) (s : JsonFileStorage)
    → s.max_file_size ≤ limit
    → ((line : Bytes) → codec.encode event ≡ some line → length line < limit)
    → AllWithin limit s.files
    → AllWithin limit (store codec ctx event now faults s).1.files
unfolding store
store-AllWithin codec limit (some failure) event now faults s h k within = within
store-AllWithin codec limit none event now faults s h k within =
    WithinIf limit (is_empty event.event_id) _ _ within
      (store_encoded-AllWithin limit (codec.encode event) faults event.event_id now s h k within)

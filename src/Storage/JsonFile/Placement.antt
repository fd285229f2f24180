-- ===== src/Storage/JsonFile/Placement.antt =====
-- The file that a record goes to: the loop of fileForWrite ends, and files stay small.
use Prim.Native.Nat.{ℕ, zero, suc, ◌+◌, ◌<◌, ◌≤◌}
use mathlib.Core.Path.{◌≡◌, refl, ap}
use mathlib.Core.Logic.{◌≢◌, inl, inr}
use mathlib.Core.Bool.{Bool, true, false}
use mathlib.Core.Option.{Option, none, some}
use native.Mathlib.Omega.{arith}
use gologger.Prelude.{if◌then◌else◌, Bool-cases, below-suc, length}
use gologger.Result.{Result, ok, err}
use gologger.Text.{Text}
use gologger.GoMap.{lookup}
use gologger.Clock.{Time}
use gologger.Storage.Files.{File, file_name}
use gologger.Storage.Files.Names.{max_index, indices-le-length}
use gologger.Storage.JsonFile.{
  FileError, stat_failed, JsonFileStorage, WriteFaults, has_room, file_from, file_for_write,
}

-- The loop has ended: with a file that is not there or has room, or with an error of Stat.
abbrev pub Ends : ℕ → JsonFileStorage → Result FileError Text → Type 0
Ends record_size s (ok name) = has_room s.max_file_size record_size (lookup name s.files) ≡ true
Ends record_size s (err failure) = failure ≡ stat_failed

full-ne-none : (max size : ℕ) (o : Option File) → has_room max size o ≡ false → o ≢ none
full-ne-none max size none full = cc full
full-ne-none max size (some file) full = λ same. cc same

Ends-if :
    (size : ℕ) (s : JsonFileStorage) (test : Bool) (x y : Result FileError Text)
    → (test ≡ true → Ends size s x)
    → (test ≡ false → Ends size s y)
    → Ends size s (if test then x else y)
Ends-if size s true x y h k = h refl
Ends-if size s false x y h k = k refl

file_from-Ends :
    (fuel index : ℕ) (faults : WriteFaults) (size : ℕ) (now : Time) (s : JsonFileStorage)
    → fuel + index ≡ suc (length s.files)
    → suc (length s.files) ≤ max_index
    → ((i : ℕ) → i < index → lookup (file_name now i) s.files ≢ none)
    → Ends size s (file_from fuel index faults size now s)
unfolding file_from
file_from-Ends zero index faults size now s enough bound passed = absurd (
    let counted =
      indices-le-length now index 0 s.files (omega arith) (λ i from to. passed i (omega arith)) in
    omega arith)
file_from-Ends (suc fuel) index faults size now s enough bound passed =
    let here = lookup (file_name now index) s.files in
    Ends-if size s (faults.stat_fails index) _ _ (λ fails. refl)
      (λ works.
        Ends-if size s (has_room s.max_file_size size here) _ _ (λ room. room)
          (λ full. file_from-Ends fuel (suc index) faults size now s (omega arith) bound (
            below-suc (λ i. lookup (file_name now i) s.files ≢ none) index passed
              (full-ne-none s.max_file_size size here full))))

-- The loop of fileForWrite ends, whatever the files: in a directory of fewer than 10 ^ 19 files as
-- many rounds as there are files, and one, find a file that is not there or has room for the record,
-- unless os.Stat fails.
pub file_for_write-Ends :
    (faults : WriteFaults) (size : ℕ) (now : Time) (s : JsonFileStorage)
    → length s.files < max_index
    → Ends size s (file_for_write faults size now s)
file_for_write-Ends faults size now s bound =
    file_from-Ends (suc (length s.files)) 0 faults size now s (omega arith) (omega arith)
      (λ i below. absurd (omega arith))

file_from-works :
    (fuel index : ℕ) (faults : WriteFaults) (size : ℕ) (now : Time) (s : JsonFileStorage)
    → ((i : ℕ) → faults.stat_fails i ≡ false)
    → file_from fuel index faults size now s ≢ err stat_failed
unfolding file_from
file_from-works zero index faults size now s works = λ e. cc e
file_from-works (suc fuel) index faults size now s works =
    elim (Bool-cases (has_room s.max_file_size size (lookup (file_name now index) s.files))) [
      | inl room ↦ rw (works index, room) (λ e. cc e)
      | inr full ↦ rw (works index, full) (file_from-works fuel (suc index) faults size now s works)
    ]

Ends-ok :
    (size : ℕ) (s : JsonFileStorage) (target : Result FileError Text)
    → Ends size s target
    → target ≢ err stat_failed
    → (name : Text) × (target ≡ ok name)
Ends-ok size s (ok name) ends works = (name, refl)
Ends-ok size s (err failure) ends works = absurd (works (ap err ends))

-- Without faults of Stat the loop of fileForWrite finds a file.
pub file_for_write-ok :
    (faults : WriteFaults) (size : ℕ) (now : Time) (s : JsonFileStorage)
    → ((i : ℕ) → faults.stat_fails i ≡ false)
    → length s.files < max_index
    → (name : Text) × (file_for_write faults size now s ≡ ok name)
file_for_write-ok faults size now s works bound =
    Ends-ok size s (file_for_write faults size now s) (file_for_write-Ends faults size now s bound)
      (file_from-works (suc (length s.files)) 0 faults size now s works)

-- ===== src/Storage/Files.antt =====
-- The directory of internal/adapters/storage/json_file_storage.go, as the package os shows it: the
-- files that the pattern events_*.jsonl matches, which are the only ones that the store touches.
pub mod Names
pub mod Sorted
use Prim.Native.Nat.{ℕ, zero, suc, ◌+◌}
use mathlib.Core.Bool.{Bool, true, false, ◌&&◌, ◌||◌}
use mathlib.Core.Option.{Option, none, some}
use mathlib.Core.List.{List, [], ◌∷◌, ◌++◌, map}
use gologger.Prelude.{ltb, ◌==◌, if◌then◌else◌}
use gologger.Text.{Text, text_eq}
use gologger.Text.Decimal.{two_digits}
use gologger.GoMap.{GoMap, lookup, put}
use gologger.Contracts.{Event}
use gologger.Text.{codes}
use gologger.Clock.{Time, utc}
use gologger.Storage.Codec.{Bytes}
use gologger.Storage.Week.{start_of_week, format_date}

-- `modified` is the instant of the last write.
pub record File : Type 0 where
  pub bytes : Bytes
  pub modified : ℕ

abbrev pub Directory : Type 0
Directory = GoMap File

-- The order of Go's strings.
unfoldable pub text_leb : Text → Text → Bool
text_leb [] t = true
text_leb (c ∷ s) [] = false
text_leb (c ∷ s) (d ∷ t) = ltb c d || c == d && text_leb s t

-- sort.Strings
unfoldable pub insert_name : Text → List Text → List Text
insert_name name [] = name ∷ []
insert_name name (other ∷ rest) =
    if text_leb name other then name ∷ other ∷ rest else other ∷ insert_name name rest

unfoldable pub sort_names : List Text → List Text
sort_names [] = []
sort_names (name ∷ rest) = insert_name name (sort_names rest)

unfoldable pub event_files : Directory → List Text
event_files files = sort_names (map (λ p. p.0) files)

-- sort.SliceStable by the times of the events.
unfoldable pub insert_event : Event → List Event → List Event
insert_event event [] = event ∷ []
insert_event event (other ∷ rest) =
    if ltb other.timestamp.instant event.timestamp.instant
    then other ∷ insert_event event rest
    else event ∷ other ∷ rest

unfoldable pub sort_events : List Event → List Event
sort_events [] = []
sort_events (event ∷ rest) = insert_event event (sort_events rest)

abbrev pub file_name : Time → ℕ → Text
file_name now index =
    codes "events_"
    ++ (format_date (start_of_week now).instant
        ++ (codes "_" ++ (two_digits index ++ codes ".jsonl")))

abbrev pub bytes_of : Option File → Bytes
bytes_of none = []
bytes_of (some file) = file.bytes

-- A write at the end of a file, which is made if it is not there.
unfoldable pub append_file : Text → Bytes → ℕ → Directory → Directory
append_file name added now files =
    put name (record { bytes = bytes_of (lookup name files) ++ added; modified = now }) files

-- os.Remove
unfoldable pub remove_file : Text → Directory → Directory
remove_file name [] = []
remove_file name ((other, file) ∷ rest) =
    let kept = remove_file name rest in if text_eq other name then kept else (other, file) ∷ kept

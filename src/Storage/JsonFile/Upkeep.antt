-- ===== src/Storage/JsonFile/Upkeep.antt =====
-- Health, Close and Rotate of JSONFileStorage.
use Prim.Native.Nat.{ℕ, ◌-◌, ◌*◌}
use mathlib.Core.Bool.{Bool, true, false}
use mathlib.Core.Option.{Option, none, some}
use mathlib.Core.List.{List, [], ◌∷◌}
use gologger.Prelude.{ltb, if◌then◌else◌}
use gologger.Result.{Result, ok, err}
use gologger.Text.{Text}
use gologger.GoMap.{lookup}
use gologger.Clock.{Time, day}
use gologger.Context.{ContextError}
use gologger.Storage.{store_closed, context_error}
use gologger.Storage.Files.{File, Directory, event_files, remove_file}
use gologger.Storage.JsonFile.{
  FileError, store_error, stat_failed, remove_failed, not_a_directory, JsonFileStorage,
}

-- What os.Stat says of the path of the directory.
pub data PathInfo : Type 0 where
  no_info a_directory another : PathInfo

unfoldable pub health :
    Option ContextError → PathInfo → JsonFileStorage → Result FileError (Unit {0})
health (some failure) info s = err (store_error (context_error failure))
health none info s = if s.closed then err (store_error store_closed) else elim info [
  | no_info ↦ err stat_failed
  | a_directory ↦ ok tt
  | another ↦ err not_a_directory
]

unfoldable pub close : JsonFileStorage → JsonFileStorage
close s = record s { closed = true }

-- What the operating system does with a file in Rotate; another process may have removed it.
pub data FileFate : Type 0 where
  removable vanished stat_denied remove_denied : FileFate

-- info.ModTime().Before(cutoff)
abbrev pub is_expired : ℕ → Option File → Bool
is_expired cutoff none = false
is_expired cutoff (some file) = ltb file.modified cutoff

-- The loop of Rotate, up to its first error.
unfoldable pub rotate_from :
    (Text → FileFate) → ℕ → List Text → Directory → Result FileError (Unit {0}) × Directory
rotate_from fate cutoff [] files = (ok tt, files)
rotate_from fate cutoff (name ∷ names) files = elim (fate name) [
  | stat_denied ↦ (err stat_failed, files)
  | vanished ↦ rotate_from fate cutoff names (remove_file name files)
  | removable ↦
      rotate_from fate cutoff names
        (if is_expired cutoff (lookup name files) then remove_file name files else files)
  | remove_denied ↦
      if is_expired cutoff (lookup name files)
      then (err remove_failed, files)
      else rotate_from fate cutoff names files
]

unfoldable pub rotate :
    Option ContextError
    → Time
    → (Text → FileFate)
    → JsonFileStorage
    → Result FileError (Unit {0}) × JsonFileStorage
rotate (some failure) now fate s = (err (store_error (context_error failure)), s)
rotate none now fate s =
    if s.closed
    then (err (store_error store_closed), s)
    else let (reply, files) =
        rotate_from fate (now.instant - s.retention_days * day) (event_files s.files) s.files in
      (reply, record s { files = files })

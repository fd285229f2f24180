-- ===== src/Storage/Lines.antt =====
-- readEvents of internal/adapters/storage/json_file_storage.go: a file as a sequence of lines.
pub mod Append
use Prim.Native.Nat.{ℕ, suc, ◌+◌, ◌*◌, ◌<◌}
use mathlib.Core.Path.{◌≡◌, refl, ap, sym, ◌∙◌}
use mathlib.Core.Logic.{◌≢◌, inl, inr}
use mathlib.Core.Bool.{Bool, true, false}
use mathlib.Core.Option.{Option, none, some}
use mathlib.Core.List.{List, [], ◌∷◌, ◌++◌, append_assoc}
use native.Mathlib.Omega.{arith}
use gologger.Prelude.{ltb, ◌==◌, if◌then◌else◌, ==_iff, ==_refl, Bool-cases, All, length}
use gologger.Result.{Result, ok, err, ◌>>=◌}
use gologger.Contracts.{Event}
use gologger.Storage.Codec.{Bytes, newline, Codec}

pub data ReadError : Type 0 where
  line_too_long invalid_event cannot_open : ReadError

-- The first character of what is before the first newline.
abbrev push : ℕ → List Bytes → List Bytes
push c [] = (c ∷ []) ∷ []
push c (line ∷ lines) = (c ∷ line) ∷ lines

-- What bufio.Scanner cuts a file into: there is no line after a newline at the end.
unfoldable pub split_lines : Bytes → List Bytes
split_lines [] = []
split_lines (c ∷ rest) =
    let lines = split_lines rest in if c == newline then [] ∷ lines else push c lines

-- ScanLines drops one carriage return at the end of a line.
unfoldable pub drop_return : Bytes → Bytes
drop_return [] = []
drop_return (c ∷ []) = if c == b'\r' then [] else c ∷ []
drop_return (c ∷ d ∷ rest) = c ∷ drop_return (d ∷ rest)

-- A line and its newline have to fit in the scanner's buffer.
abbrev pub max_line : ℕ
max_line = 1024 * 1024

abbrev pub add_event : Option Event → Result ReadError (List Event) → Result ReadError (List Event)
add_event none rest = err invalid_event
add_event (some event) (err failure) = err failure
add_event (some event) (ok events) = ok (event ∷ events)

module _ (codec : Codec) where
  abbrev pub scanned : Bytes → Result ReadError (List Event) → Result ReadError (List Event)
  scanned [] rest = rest
  scanned (c ∷ line) rest = add_event (codec.decode (c ∷ line)) rest

  -- The loop over the lines: the first that does not fit or does not decode ends it.
  unfoldable pub read_lines : List Bytes → Result ReadError (List Event)
  read_lines [] = ok []
  read_lines (line ∷ lines) =
      let rest = read_lines lines in
      if ltb (length line) max_line then scanned (drop_return line) rest else err line_too_long

  abbrev pub read_events : Bytes → Result ReadError (List Event)
  read_events content = read_lines (split_lines content)

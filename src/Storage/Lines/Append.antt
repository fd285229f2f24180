-- ===== src/Storage/Lines/Append.antt =====
-- A record appended to a file is read after what the file had.
use Prim.Native.Nat.{ℕ, ◌≤◌}
use mathlib.Core.Path.{◌≡◌, refl, ap, sym}
use mathlib.Core.Logic.{◌⊎◌, inl, inr}
use mathlib.Core.Bool.{false}
use mathlib.Core.Option.{Option, none, some}
use mathlib.Core.List.{List, [], ◌∷◌, ◌++◌}
use native.Mathlib.Omega.{arith}
use gologger.Prelude.{ltb, ◌==◌, Bool-cases, All, length}
use gologger.Result.{Result, ok, err}
use gologger.Contracts.{Event}
use gologger.Storage.Codec.{Bytes, newline, Codec}
use gologger.Storage.Lines.{
  ReadError, push, split_lines, drop_return, max_line, add_event, scanned, read_lines, read_events,
}

-- The last record of a file has its newline.
abbrev pub IsTerminated : Bytes → Type 0
IsTerminated content = (content ≡ []) ⊎ ((front : Bytes) × (content ≡ front ++ newline ∷ []))

push-append :
    (c : ℕ) (line : Bytes) (lines more : List Bytes)
    → push c ((line ∷ lines) ++ more) ≡ push c (line ∷ lines) ++ more
push-append c line lines more = refl

-- A file that ends with a newline has a line.
split_lines-cons :
    (front : Bytes)
    → (line : Bytes) × (lines : List Bytes) × (split_lines (front ++ newline ∷ []) ≡ line ∷ lines)
unfolding split_lines
split_lines-cons [] = ([], [], refl)
split_lines-cons (c ∷ front) = elim (Bool-cases (c == newline)) [
  | inl ended ↦ ([], split_lines (front ++ newline ∷ []), rw ended refl)
  | inr inside ↦
      let (line, lines, same) = split_lines-cons front in (c ∷ line, lines, rw (inside, same) refl)
]

split_lines-append_newline :
    (front more : Bytes)
    → split_lines ((front ++ newline ∷ []) ++ more)
      ≡ split_lines (front ++ newline ∷ []) ++ split_lines more
unfolding split_lines
split_lines-append_newline [] more = refl
split_lines-append_newline (c ∷ front) more = elim (Bool-cases (c == newline)) [
  | inl ended ↦ rw ended (ap (◌∷◌ []) (split_lines-append_newline front more))
  | inr inside ↦
      let (line, lines, same) = split_lines-cons front in
      rw (inside, split_lines-append_newline front more, same) refl
]

pub split_lines-append :
    (content more : Bytes)
    → IsTerminated content
    → split_lines (content ++ more) ≡ split_lines content ++ split_lines more
unfolding split_lines
split_lines-append content more (inl empty) = rw empty refl
split_lines-append content more (inr (front, same)) =
    rw same (split_lines-append_newline front more)

-- A line without control characters is one line, with its newline or without.
not_newline : (c : ℕ) → 0x20 ≤ c → (c == newline) ≡ false
not_newline c h = ground arith

pub split_lines-plain :
    (line : Bytes) → All (λ c. 0x20 ≤ c) line → split_lines (line ++ newline ∷ []) ≡ line ∷ []
unfolding split_lines
split_lines-plain [] h = refl
split_lines-plain (c ∷ line) h = rw (not_newline c h.0, split_lines-plain line h.1) refl

pub split_lines-torn :
    (c : ℕ) (line : Bytes)
    → All (λ d. 0x20 ≤ d) (c ∷ line)
    → split_lines (c ∷ line) ≡ (c ∷ line) ∷ []
unfolding split_lines
split_lines-torn c [] h = rw (not_newline c h.0) refl
split_lines-torn c (d ∷ line) h = rw (not_newline c h.0, split_lines-torn d line h.1) refl

not_return : (c : ℕ) → 0x20 ≤ c → (c == b'\r') ≡ false
not_return c h = ground arith

pub drop_return-plain : (line : Bytes) → All (λ c. 0x20 ≤ c) line → drop_return line ≡ line
unfolding drop_return
drop_return-plain [] h = refl
drop_return-plain (c ∷ []) h = rw (not_return c h.0) refl
drop_return-plain (c ∷ d ∷ rest) h = ap (◌∷◌ c) (drop_return-plain (d ∷ rest) h.1)

module _ (codec : Codec) where
  abbrev and_then :
      Result ReadError (List Event) → Result ReadError (List Event) → Result ReadError (List Event)
  and_then (err failure) more = err failure
  and_then (ok events) (err failure) = err failure
  and_then (ok events) (ok more) = ok (events ++ more)

  and_then-add_event :
      (event : Option Event) (first more : Result ReadError (List Event))
      → add_event event (and_then first more) ≡ and_then (add_event event first) more
  and_then-add_event none first more = refl
  and_then-add_event (some event) (err failure) more = refl
  and_then-add_event (some event) (ok events) (err failure) = refl
  and_then-add_event (some event) (ok events) (ok more) = refl

  and_then-scanned :
      (line : Bytes) (first more : Result ReadError (List Event))
      → scanned codec line (and_then first more) ≡ and_then (scanned codec line first) more
  and_then-scanned [] first more = refl
  and_then-scanned (c ∷ line) first more = and_then-add_event (codec.decode (c ∷ line)) first more

  and_then-ok : (more : Result ReadError (List Event)) → and_then (ok []) more ≡ more
  and_then-ok (err failure) = refl
  and_then-ok (ok more) = refl

  pub read_lines-append :
      (lines more : List Bytes)
      → read_lines codec (lines ++ more) ≡ and_then (read_lines codec lines) (read_lines codec more)
  unfolding read_lines
  read_lines-append [] more = sym (and_then-ok (read_lines codec more))
  read_lines-append (line ∷ lines) more = elim (Bool-cases (ltb (length line) max_line)) [
    | inl fits ↦
        rw (fits, read_lines-append lines more)
          (and_then-scanned (drop_return line) (read_lines codec lines) (read_lines codec more))
    | inr long ↦ rw long refl
  ]

  -- What is appended to a file that ends with a newline is read after what it has.
  pub read_events-append :
      (content more : Bytes)
      → IsTerminated content
      → read_events codec (content ++ more)
        ≡ and_then (read_events codec content) (read_events codec more)
  read_events-append content more ended =
      rw (split_lines-append content more ended)
        (read_lines-append (split_lines content) (split_lines more))

-- ===== src/Storage/JsonFile/Appended.antt =====
-- The files of a directory, all of them readable, and a record appended to one.
use Prim.Native.Nat.{ℕ, ◌≤◌}
use mathlib.Core.Path.{◌≡◌, refl, ap, sym}
use mathlib.Core.Logic.{inl, inr}
use mathlib.Core.Bool.{true, false}
use mathlib.Core.Option.{Option, none, some}
use mathlib.Core.List.{[], ◌∷◌, ◌++◌, append-nil, append_assoc}
use native.Mathlib.Omega.{arith}
use gologger.Prelude.{
  ltb, Bool-cases, All, length, Reorder, same, chain, Reorder-eq, Reorder-front, Reorder-last,
}
use gologger.Result.{ok}
use gologger.Text.{Text, text_eq}
use gologger.Text.Laws.{text_eq_iff, text_eq_refl}
use gologger.GoMap.{lookup, put, lookup-put}
use gologger.Contracts.{Event}
use gologger.Storage.Codec.{Bytes, newline, Codec}
use gologger.Storage.Lines.{read_events, read_lines, max_line}
use gologger.Storage.Lines.Append.{
  IsTerminated, read_events-append, split_lines-plain, drop_return-plain,
}
use gologger.Storage.Files.{File, Directory, bytes_of, event_files, append_file}
use gologger.Storage.JsonFile.Contents.{
  keys, Distinct, IsReadable, events_of, events_in, contents, events_at, gather, IsThere,
  gather-sort_names, All-sort_names,
}

-- A name of the directory's is another than one that it does not have.
key-ne :
    (name k : Text) (f : File) (rest : Directory)
    → lookup name ((k, f) ∷ rest) ≡ none
    → (text_eq name k ≡ false) × (lookup name rest ≡ none)
unfolding lookup
key-ne name k f rest h = ground (arith, text_eq_iff k name, text_eq_iff name k)

-- Under the name there is a file with the property.
abbrev pub Holds : (File → Type 0) → Directory → Text → Type 0
Holds P files name = (file : File) × (lookup name files ≡ some file) × P file

All-skip :
    (P : File → Type 0) (name : Text) (file : File) (files rest : Directory)
    → lookup name rest ≡ none
    → All (Holds P files) (keys rest)
    → All (Holds P ((name, file) ∷ files)) (keys rest)
unfolding lookup
All-skip P name file files [] h there = tt
All-skip P name file files ((k, f) ∷ rest) h (here, there) =
    let (other, absent) = key-ne name k f rest h in
    (rw other here, All-skip P name file files rest absent there)

pub keys-Holds :
    (P : File → Type 0) (files : Directory)
    → Distinct files
    → All (λ p. P p.1) files
    → All (Holds P files) (keys files)
unfolding lookup
keys-Holds P [] d h = tt
keys-Holds P ((name, file) ∷ rest) d h = (
  (file, rw (text_eq_refl name) refl, h.0),
  All-skip P name file rest rest d.0 (keys-Holds P rest d.1 h.1),
)

module _ (codec : Codec) where
  -- More files change nothing for the names of others.
  gather-skip :
      (name : Text) (file : File) (files rest : Directory)
      → lookup name rest ≡ none
      → gather codec ((name, file) ∷ files) (keys rest) ≡ gather codec files (keys rest)
  unfolding lookup
  gather-skip name file files [] h = refl
  gather-skip name file files ((k, f) ∷ rest) h =
      let (other, absent) = key-ne name k f rest h in
      rw (other, gather-skip name file files rest absent) refl

  gather-keys :
      (files : Directory) → Distinct files → gather codec files (keys files) ≡ contents codec files
  unfolding lookup
  gather-keys [] d = refl
  gather-keys ((name, file) ∷ rest) d =
      rw (text_eq_refl name, gather-skip name file rest rest d.0, gather-keys rest d.1) refl

  -- The files in the order of their names are all there, and have the events of the directory.
  pub event_files-IsThere :
      (files : Directory)
      → Distinct files
      → All (λ p. IsReadable codec p.1) files
      → All (IsThere codec files) (event_files files)
  unfolding event_files
  event_files-IsThere files d h =
      All-sort_names codec (IsThere codec files) (keys files)
        (keys-Holds (IsReadable codec) files d h)

  pub gather-event_files :
      (files : Directory)
      → Distinct files
      → Reorder (gather codec files (event_files files)) (contents codec files)
  unfolding event_files
  gather-event_files files d =
      chain (gather-sort_names codec files (keys files)) (Reorder-eq (gather-keys files d))

  -- A line that fits and decodes is read as its event.
  pub read_events-record :
      (c : ℕ) (line : Bytes) (back : Event)
      → All (λ d. 0x20 ≤ d) (c ∷ line)
      → ltb (length (c ∷ line)) max_line ≡ true
      → codec.decode (c ∷ line) ≡ some back
      → read_events codec ((c ∷ line) ++ newline ∷ []) ≡ ok (back ∷ [])
  unfolding read_lines
  read_events-record c line back plain fits decodes =
      rw (split_lines-plain (c ∷ line) plain, fits, drop_return-plain (c ∷ line) plain, decodes)
        refl

  -- A file after a write of the line.
  abbrev grown : Option File → Bytes → ℕ → File
  grown o line now = record { bytes = bytes_of o ++ line; modified = now }

  IsTerminated-append : (content line : Bytes) → IsTerminated (content ++ (line ++ newline ∷ []))
  IsTerminated-append content line =
      inr (content ++ line, sym (append_assoc content line (newline ∷ [])))

  read_events-grown :
      (line : Bytes) (back : Event) (file : File)
      → IsReadable codec file
      → read_events codec (line ++ newline ∷ []) ≡ ok (back ∷ [])
      → read_events codec (file.bytes ++ (line ++ newline ∷ []))
        ≡ ok (events_in codec file ++ back ∷ [])
  read_events-grown line back file (ended, events, read) reads =
      rw (read_events-append codec file.bytes (line ++ newline ∷ []) ended, read, reads) refl

  abbrev pub OptionReadable : Option File → Type 0
  OptionReadable none = Unit {0}
  OptionReadable (some file) = IsReadable codec file

  grown-events :
      (o : Option File) (line : Bytes) (back : Event) (now : ℕ)
      → OptionReadable o
      → read_events codec (line ++ newline ∷ []) ≡ ok (back ∷ [])
      → read_events codec (grown o (line ++ newline ∷ []) now).bytes
        ≡ ok (events_at codec o ++ back ∷ [])
  grown-events none line back now h reads = reads
  grown-events (some file) line back now h reads = read_events-grown line back file h reads

  grown-IsReadable :
      (o : Option File) (line : Bytes) (back : Event) (now : ℕ)
      → OptionReadable o
      → read_events codec (line ++ newline ∷ []) ≡ ok (back ∷ [])
      → IsReadable codec (grown o (line ++ newline ∷ []) now)
  grown-IsReadable o line back now h reads = (
    IsTerminated-append (bytes_of o) line,
    events_at codec o ++ back ∷ [],
    grown-events o line back now h reads,
  )

  put-contents :
      (name : Text) (new : File) (back : Event) (files : Directory)
      → events_in codec new ≡ events_at codec (lookup name files) ++ back ∷ []
      → Reorder (contents codec (put name new files)) (contents codec files ++ back ∷ [])
  unfolding lookup put
  put-contents name new back [] h = rw (h, append-nil (back ∷ [])) (same (back ∷ []))
  put-contents name new back ((k, f) ∷ rest) h = elim (Bool-cases (text_eq k name)) [
    | inl match ↦
        rw (match, (rw match at h))
          (Reorder-last (events_in codec f) (back ∷ []) (contents codec rest))
    | inr other ↦
        rw (other, append_assoc (events_in codec f) (contents codec rest) (back ∷ []))
          (Reorder-front (events_in codec f) (put-contents name new back rest (rw other at h)))
  ]

  pub put-All :
      (P : Text × File → Type 0) (name : Text) (new : File) (files : Directory)
      → ((k : Text) → P (k, new))
      → All P files
      → All P (put name new files)
  unfolding put
  put-All P name new [] h k = (h name, tt)
  put-All P name new ((k, f) ∷ rest) h a = elim (Bool-cases (text_eq k name)) [
    | inl match ↦ rw match (h k, a.1)
    | inr other ↦ rw other (a.0, put-All P name new rest h a.1)
  ]

  pub put-Distinct :
      (name : Text) (new : File) (files : Directory)
      → Distinct files
      → Distinct (put name new files)
  unfolding put lookup
  put-Distinct name new [] d = (refl, tt)
  put-Distinct name new ((k, f) ∷ rest) d = elim (Bool-cases (text_eq k name)) [
    | inl match ↦ rw match d
    | inr other ↦ rw other (
      ground (arith, lookup-put name k new rest, text_eq_iff name k, text_eq_iff k name, d.0),
      put-Distinct name new rest d.1,
    )
  ]

  pub All-lookup :
      (name : Text) (files : Directory)
      → All (λ p. IsReadable codec p.1) files
      → OptionReadable (lookup name files)
  unfolding lookup
  All-lookup name [] h = tt
  All-lookup name ((k, f) ∷ rest) h = elim (Bool-cases (text_eq k name)) [
    | inl match ↦ rw match h.0
    | inr other ↦ rw other (All-lookup name rest h.1)
  ]

  -- A line appended to a file of a readable directory adds its event, and the directory stays
  -- readable.
  pub append_file-contents :
      (name : Text) (line : Bytes) (back : Event) (now : ℕ) (files : Directory)
      → Distinct files
      → All (λ p. IsReadable codec p.1) files
      → read_events codec (line ++ newline ∷ []) ≡ ok (back ∷ [])
      → let after = append_file name (line ++ newline ∷ []) now files in
        Distinct after
        × All (λ p. IsReadable codec p.1) after
        × Reorder (contents codec after) (contents codec files ++ back ∷ [])
  unfolding append_file
  append_file-contents name line back now files d h reads =
      let old = All-lookup name files h in
      let new = grown (lookup name files) (line ++ newline ∷ []) now in
      (
        put-Distinct name new files d,
        put-All (λ p. IsReadable codec p.1) name new files
            (λ k. grown-IsReadable (lookup name files) line back now old reads) h,
        put-contents name new back files
            (ap events_of (grown-events (lookup name files) line back now old reads)),
      )

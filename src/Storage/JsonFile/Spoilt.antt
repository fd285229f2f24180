-- ===== src/Storage/JsonFile/Spoilt.antt =====
-- A directory with a file that cannot be read.
use Prim.Native.Nat.{ℕ}
use mathlib.Core.Path.{◌≡◌, refl, ap, ◌∙◌}
use mathlib.Core.Logic.{◌⊎◌, inl, inr}
use mathlib.Core.Bool.{Bool, true, ◌||◌}
use mathlib.Core.Option.{some}
use mathlib.Core.List.{List, [], ◌∷◌, ◌++◌}
use native.Mathlib.Omega.{arith}
use gologger.Prelude.{Bool-cases, All}
use gologger.Result.{Result, ok, err}
use gologger.Text.{Text, text_eq, mem_text}
use gologger.Text.Laws.{text_eq_iff, text_eq_refl}
use gologger.GoMap.{lookup, put, lookup-put}
use gologger.Contracts.{Event}
use gologger.Storage.Codec.{Bytes, Codec}
use gologger.Storage.Lines.{ReadError, read_events}
use gologger.Storage.Files.{
  File, Directory, bytes_of, text_leb, insert_name, sort_names, event_files, append_file,
}
use gologger.Storage.JsonFile.{read_error, read_file, read_all}
use gologger.Storage.JsonFile.Contents.{keys, Distinct, IsReadable, All-sort_names}
use gologger.Storage.JsonFile.Appended.{Holds, keys-Holds, put-All, put-Distinct}

mem_text-insert_name :
    (x name : Text) (names : List Text)
    → mem_text x (insert_name name names) ≡ mem_text x (name ∷ names)
unfolding insert_name
mem_text-insert_name x name [] = refl
mem_text-insert_name x name (other ∷ rest) = elim (Bool-cases (text_leb name other)) [
  | inl before ↦ rw before refl
  | inr after ↦ rw after (ground (arith, mem_text-insert_name x name rest))
]

pub mem_text-sort_names :
    (x : Text) (names : List Text) → mem_text x (sort_names names) ≡ mem_text x names
unfolding sort_names
mem_text-sort_names x [] = refl
mem_text-sort_names x (name ∷ names) =
    mem_text-insert_name x name (sort_names names)
    ∙ ap (λ b. text_eq name x || b) (mem_text-sort_names x names)

put-keys :
    (name : Text) (new : File) (files : Directory)
    → mem_text name (keys (put name new files)) ≡ true
unfolding put
put-keys name new [] = rw (text_eq_refl name) refl
put-keys name new ((k, f) ∷ rest) = elim (Bool-cases (text_eq k name)) [
  | inl match ↦ rw (match, match) refl
  | inr other ↦ rw (other, other, put-keys name new rest) refl
]

module _ (codec : Codec) (failure : ReadError) where
  -- The file is readable, or reading it fails in this way.
  abbrev IsReadableOr : File → Type 0
  IsReadableOr file =
      ((events : List Event) × (read_events codec file.bytes ≡ ok events))
      ⊎ (read_events codec file.bytes ≡ err failure)

  read_file-Holds :
      (files : Directory) (name : Text) (file : File) (r : Result ReadError (List Event))
      → lookup name files ≡ some file
      → read_events codec file.bytes ≡ r
      → read_file codec (λ n. true) files name ≡ r
  read_file-Holds files name file r there reads = rw (there, reads) refl

  -- One file that is spoilt, among files that are readable or spoilt.
  read_all-spoilt :
      (keep : Event → Bool) (files : Directory) (names : List Text) (spoilt : Text)
      → All (Holds IsReadableOr files) names
      → mem_text spoilt names ≡ true
      → read_file codec (λ n. true) files spoilt ≡ err failure
      → read_all codec keep (λ n. true) files names ≡ err (read_error failure)
  unfolding read_all
  read_all-spoilt keep files [] spoilt h member fails = absurd (cc member)
  read_all-spoilt keep files (name ∷ names) spoilt ((file, there, inr broken), h) member fails =
      rw (read_file-Holds files name file (err failure) there broken) refl
  read_all-spoilt keep files (name ∷ names) spoilt ((file, there, inl (events, reads)), h) member
        fails =
      elim (Bool-cases (text_eq name spoilt)) [
        | inl match ↦
            let same_name : name ≡ spoilt = (text_eq_iff name spoilt).0 match in
            let fine = read_file-Holds files name file (ok events) there reads in cc fails
        | inr other ↦
            rw
              (
                read_file-Holds files name file (ok events) there reads,
                read_all-spoilt keep files names spoilt h (rw other at member) fails,
              )
              refl
      ]

  All-either :
      (files : Directory)
      → All (λ p. IsReadable codec p.1) files
      → All (λ p. IsReadableOr p.1) files
  All-either [] h = tt
  All-either (p ∷ files) ((ended, events, read), h) = (inl (events, read), All-either files h)

  pub read_all-append_file :
      (keep : Event → Bool) (name : Text) (added : Bytes) (now : ℕ) (files : Directory)
      → read_events codec (bytes_of (lookup name files) ++ added) ≡ err failure
      → Distinct files
      → All (λ p. IsReadable codec p.1) files
      → let after = append_file name added now files in
        read_all codec keep (λ n. true) after (event_files after) ≡ err (read_error failure)
  unfolding append_file event_files
  read_all-append_file keep name added now files broken distinct readable =
      let new : File = record { bytes = bytes_of (lookup name files) ++ added; modified = now } in
      let after = put name new files in
      read_all-spoilt keep after (event_files after) name
        (All-sort_names codec (Holds IsReadableOr after) (keys after) (
          keys-Holds IsReadableOr after (put-Distinct codec name new files distinct) (
            put-All codec (λ p. IsReadableOr p.1) name new files (λ k. inr broken)
              (All-either files readable))))
        (mem_text-sort_names name (keys after) ∙ put-keys name new files)
        (read_file-Holds after name new (err failure)
          (lookup-put name name new files ∙ rw (text_eq_refl name) refl) broken)

-- ===== src/Storage/Files/Names.antt =====
-- Names of files, and files of a directory by name.
use Prim.Native.Nat.{ℕ, zero, suc, ◌+◌, ◌^◌, ◌<◌, ◌≤◌}
use mathlib.Core.Path.{◌≡◌, refl}
use mathlib.Core.Logic.{◌≢◌, inl, inr}
use mathlib.Core.Bool.{false}
use mathlib.Core.Option.{none}
use mathlib.Core.List.{[], ◌∷◌, append_cancel_left, append_cancel_right}
use native.Mathlib.Omega.{arith}
use gologger.Prelude.{Bool-cases, length}
use gologger.Text.{Text, text_eq, codes}
use gologger.Text.Laws.{text_eq_iff}
use gologger.Text.Decimal.{two_digits_inj}
use gologger.GoMap.{lookup}
use gologger.Clock.{Time}
use gologger.Storage.Week.{start_of_week, format_date}
use gologger.Storage.Files.{Directory, file_name, remove_file}

abbrev pub max_index : ℕ
max_index = 10 ^ 19

-- The files of a week have different names.
file_name_inj :
    (now : Time) (a b : ℕ)
    → a < max_index
    → b < max_index
    → file_name now a ≡ file_name now b
    → a ≡ b
file_name_inj now a b ha hb same = two_digits_inj a b ha hb (
    append_cancel_right _ _ (codes ".jsonl") (
      append_cancel_left (codes "_") _ _ (
        append_cancel_left (format_date (start_of_week now).instant) _ _
          (append_cancel_left (codes "events_") _ _ same))))

pub file_name-ne :
    (now : Time) (a b : ℕ)
    → a < max_index
    → b < max_index
    → a ≢ b
    → text_eq (file_name now a) (file_name now b) ≡ false
file_name-ne now a b ha hb apart = elim (Bool-cases (text_eq (file_name now a) (file_name now b))) [
  | inr other ↦ other
  | inl same ↦ absurd (
      apart
        (file_name_inj now a b ha hb ((text_eq_iff (file_name now a) (file_name now b)).0 same)))
]

pub lookup-remove_file :
    (a b : Text) (files : Directory)
    → text_eq a b ≡ false
    → lookup b (remove_file a files) ≡ lookup b files
unfolding lookup remove_file
lookup-remove_file a b [] h = refl
lookup-remove_file a b ((k, f) ∷ rest) h =
    ground (arith, text_eq_iff k a, text_eq_iff k b, text_eq_iff a b, lookup-remove_file a b rest h)

length-remove_file-le : (a : Text) (files : Directory) → length (remove_file a files) ≤ length files
unfolding remove_file
length-remove_file-le a [] = omega arith
length-remove_file-le a ((k, f) ∷ rest) = ground (arith, length-remove_file-le a rest)

pub length-remove_file :
    (a : Text) (files : Directory)
    → lookup a files ≢ none
    → length (remove_file a files) < length files
unfolding lookup remove_file
length-remove_file a [] h = absurd (h refl)
length-remove_file a ((k, f) ∷ rest) h = elim (Bool-cases (text_eq k a)) [
  | inl same ↦ rw same (omega (arith, length-remove_file-le a rest))
  | inr other ↦ rw other (omega (arith, length-remove_file a rest (rw other at h)))
]

-- A directory that has the files of `count` indices from one on has so many files.
pub indices-le-length :
    (now : Time) (count index : ℕ) (files : Directory)
    → index + count ≤ max_index
    → ((i : ℕ) → index ≤ i → i < index + count → lookup (file_name now i) files ≢ none)
    → count ≤ length files
indices-le-length now zero index files h there = omega arith
indices-le-length now (suc count) index files h there =
    let first =
      length-remove_file (file_name now index) files (there index (omega arith) (omega arith)) in
    let others =
      indices-le-length now count (suc index) (remove_file (file_name now index) files)
        (omega arith)
        (λ i from to.
          rw
            (lookup-remove_file (file_name now index) (file_name now i) files
              (file_name-ne now index i (omega arith) (omega arith) (omega arith)))
            (there i (omega arith) (omega arith))) in
    omega arith

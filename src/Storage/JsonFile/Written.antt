-- ===== src/Storage/JsonFile/Written.antt =====
-- An event that Store accepts is written, whatever the system does, and stays written.
use Prim.Native.Nat.{ℕ, ◌+◌}
use mathlib.Core.Path.{◌≡◌, refl, ap, sym, ◌∙◌}
use mathlib.Core.Logic.{inl, inr}
use mathlib.Core.Bool.{Bool, true, false}
use mathlib.Core.Option.{Option, none, some}
use mathlib.Core.List.{List, [], ◌∷◌, ◌++◌, append-nil, append_assoc}
use native.Mathlib.Omega.{arith}
use gologger.Prelude.{if◌then◌else◌, Bool-cases, length, take}
use gologger.Result.{Result, ok, err}
use gologger.Text.{Text, text_eq, is_empty, mem_text}
use gologger.Text.Laws.{text_eq_refl, text_eq_iff}
use gologger.GoMap.{lookup, lookup-put}
use gologger.Clock.{Time}
use gologger.Context.{ContextError}
use gologger.Contracts.{Event}
use gologger.Storage.Codec.{Bytes, newline, Codec}
use gologger.Storage.Files.{File, Directory, bytes_of, append_file}
use gologger.Storage.JsonFile.{
  FileError, JsonFileStorage, WriteFaults, file_for_write, append_record, write_to, store_encoded,
  store,
}
use gologger.Storage.JsonFile.Sizes.{outcome-cases}

-- A file has the bytes somewhere.
pub record Contains (files : Directory) (bytes : Bytes) : Type 0 where
  pub name : Text
  pub file : File
  pub found : lookup name files ≡ some file
  pub front : Bytes
  pub back : Bytes
  pub inside : file.bytes ≡ front ++ (bytes ++ back)

append_file-found :
    (name : Text) (added : Bytes) (now : ℕ) (files : Directory) (j : Text)
    → lookup j (append_file name added now files) ≡ (
        if text_eq name j
        then some (record { bytes = bytes_of (lookup name files) ++ added; modified = now })
        else lookup j files)
unfolding append_file
append_file-found name added now files j = lookup-put name j _ files

-- What a file has it keeps when something is written to some file.
append_file-Contains :
    (name : Text) (added : Bytes) (now : ℕ) (files : Directory) (bytes : Bytes)
    → Contains files bytes
    → Contains (append_file name added now files) bytes
append_file-Contains name added now files bytes c = elim (Bool-cases (text_eq name c.name)) [
  | inl match ↦
      let same_name : name ≡ c.name = (text_eq_iff name c.name).0 match in
      record {
        name = c.name;
        file = record { bytes = bytes_of (lookup name files) ++ added; modified = now };
        found = append_file-found name added now files c.name ∙ rw match refl;
        front = c.front;
        back = c.back ++ added;
        inside =
            rw (same_name, c.found, c.inside)
              (append_assoc c.front (bytes ++ c.back) added
                ∙ ap (λ x. c.front ++ x) (append_assoc bytes c.back added));
      }
  | inr other ↦ record {
    name = c.name;
    file = c.file;
    found = append_file-found name added now files c.name ∙ rw other c.found;
    front = c.front;
    back = c.back;
    inside = c.inside;
  }
]

-- What is written is there.
append_file-Contains_self :
    (name : Text) (added : Bytes) (now : ℕ) (files : Directory)
    → Contains (append_file name added now files) added
append_file-Contains_self name added now files = record {
  name = name;
  file = record { bytes = bytes_of (lookup name files) ++ added; modified = now };
  found = append_file-found name added now files name ∙ rw (text_eq_refl name) refl;
  front = bytes_of (lookup name files);
  back = [];
  inside = ap (λ x. bytes_of (lookup name files) ++ x) (sym (append-nil added));
}

module _ (codec : Codec) where
  -- The store knows the identifier of the event, and a file has its line.
  pub record IsWritten (s : JsonFileStorage) (event : Event) : Type 0 where
    pub known : mem_text event.event_id s.known_ids ≡ true
    pub line : Bytes
    pub encoded : codec.encode event ≡ some line
    pub written : Contains s.files (line ++ newline ∷ [])

  -- What one call does to the store, of the event `e`.
  pub record Writes (e x : Event) (s : JsonFileStorage)
      (next : Result FileError (Unit {0}) × JsonFileStorage) : Type 0 where
    pub now : next.0 ≡ ok tt → IsWritten next.1 e
    pub still : IsWritten s x → IsWritten next.1 x

  fails :
      (failure : FileError) (e x : Event) (s next : JsonFileStorage)
      → (IsWritten s x → IsWritten next x)
      → Writes e x s (err failure, next)
  fails failure e x s next h = record { now = λ same. cc same; still = h }

  Writes-if :
      (b : Bool) (e x : Event) (s : JsonFileStorage)
      {m n : Result FileError (Unit {0}) × JsonFileStorage}
      → Writes e x s m
      → Writes e x s n
      → Writes e x s (if b then m else n)
  Writes-if true e x s h k = h
  Writes-if false e x s h k = k

  -- The files of the store after a write.
  grown :
      (name : Text) (added : Bytes) (now : ℕ) (x : Event) (s : JsonFileStorage)
      → IsWritten s x
      → IsWritten (record s { files = append_file name added now s.files }) x
  grown name added now x s h = record {
    known = h.known;
    line = h.line;
    encoded = h.encoded;
    written = append_file-Contains name added now s.files _ h.written;
  }

  mem_text-cons :
      (id other : Text) (known : List Text)
      → mem_text id known ≡ true
      → mem_text id (other ∷ known) ≡ true
  mem_text-cons id other known h = ground arith

  append_record-Writes :
      (faults : WriteFaults) (name : Text) (line : Bytes) (e x : Event) (now : Time)
      (s : JsonFileStorage)
      → codec.encode e ≡ some line
      → Writes e x s (append_record faults e.event_id name (line ++ newline ∷ []) now s)
  unfolding append_record
  append_record-Writes faults name line e x now s encoded =
      let added = line ++ newline ∷ [] in
      Writes-if faults.open_fails e x s (fails _ e x s s (λ h. h))
        (elim (outcome-cases faults.outcome) [
          | inr (n, part) ↦ rw part (fails _ e x s _ (grown name (take n added) now.instant x s))
          | inl all ↦ rw all (
              Writes-if faults.sync_fails e x s (fails _ e x s _ (grown name added now.instant x s))
                (Writes-if faults.close_fails e x s
                  (fails _ e x s _ (grown name added now.instant x s))
                  (record {
                    now = λ same. record {
                      known = rw (text_eq_refl e.event_id) refl;
                      line = line;
                      encoded = encoded;
                      written = append_file-Contains_self name added now.instant s.files;
                    };
                    still = λ h.
                        let next = grown name added now.instant x s h in
                        record {
                          known = mem_text-cons x.event_id e.event_id s.known_ids h.known;
                          line = next.line;
                          encoded = next.encoded;
                          written = next.written;
                        };
                  })))
        ])

  write_to-Writes :
      (target : Result FileError Text) (faults : WriteFaults) (line : Bytes) (e x : Event)
      (now : Time) (s : JsonFileStorage)
      → codec.encode e ≡ some line
      → Writes e x s (write_to target faults e.event_id (line ++ newline ∷ []) now s)
  write_to-Writes (err failure) faults line e x now s encoded = fails failure e x s s (λ h. h)
  write_to-Writes (ok name) faults line e x now s encoded =
      append_record-Writes faults name line e x now s encoded

  store_encoded-Writes :
      (encoded : Option Bytes) (faults : WriteFaults) (e x : Event) (now : Time)
      (s : JsonFileStorage)
      → codec.encode e ≡ encoded
      → Writes e x s (store_encoded encoded faults e.event_id now s)
  store_encoded-Writes none faults e x now s encoded = fails _ e x s s (λ h. h)
  store_encoded-Writes (some line) faults e x now s encoded =
      Writes-if s.closed e x s (fails _ e x s s (λ h. h)) (
        Writes-if (mem_text e.event_id s.known_ids) e x s (fails _ e x s s (λ h. h)) (
          write_to-Writes (file_for_write faults (length line + 1) now s) faults line e x now s
            encoded))

  pub store-Writes :
      (ctx : Option ContextError) (e x : Event) (now : Time) (faults : WriteFaults)
      (s : JsonFileStorage)
      → Writes e x s (store codec ctx e now faults s)
  unfolding store
  store-Writes (some failure) e x now faults s = fails _ e x s s (λ h. h)
  store-Writes none e x now faults s =
      Writes-if (is_empty e.event_id) e x s (fails _ e x s s (λ h. h))
        (store_encoded-Writes (codec.encode e) faults e x now s refl)

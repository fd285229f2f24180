-- ===== src/Storage/Memory/Sharing/Copies.antt =====
-- What cloneMap copies, and what the clone shares with the map.
use Prim.Native.Nat.{ℕ, zero, suc, ◌≤◌}
use mathlib.Core.Path.{◌≡◌, refl, ap, ◌∙◌}
use mathlib.Core.Option.{some}
use mathlib.Core.List.{List, [], ◌∷◌, ◌++◌, append_assoc}
use native.Mathlib.Omega.{arith}
use gologger.Prelude.{length, length-append}
use gologger.Text.{Text}
use gologger.Contracts.Value.{Value}
use gologger.Storage.Memory.Sharing.{
  Ref, plain, map_at, slice_at, Cell, map_cell, slice_cell, Heap, cell_at,
}

-- What is copied: a value of a map, an item of a slice, the items of one, the entries of a map.
pub data Part : Type 0 where
  value item : Ref → Part
  items : List Ref → Part
  entries : List (Text × Ref) → Part

-- A part of the heap `h`, and its copy in a later one. A map and a slice have a new cell, whose content is
-- a copy; but a slice that is an item of a slice is the same reference.
pub data Copied (h later : Heap) : Part → Part → Type 0 where
  same_value : (v : Value) → Copied h later (value (plain v)) (value (plain v))
  new_map :
      {a b : ℕ} {es copies : List (Text × Ref)}
      → cell_at a h ≡ some (map_cell es)
      → length h ≤ b
      → cell_at b later ≡ some (map_cell copies)
      → Copied h later (entries es) (entries copies)
      → Copied h later (value (map_at a)) (value (map_at b))
  new_slice :
      {a b : ℕ} {rs copies : List Ref}
      → cell_at a h ≡ some (slice_cell rs)
      → length h ≤ b
      → cell_at b later ≡ some (slice_cell copies)
      → Copied h later (items rs) (items copies)
      → Copied h later (value (slice_at a)) (value (slice_at b))
  same_item : (v : Value) → Copied h later (item (plain v)) (item (plain v))
  map_item :
      {a b : ℕ}
      → Copied h later (value (map_at a)) (value (map_at b))
      → Copied h later (item (map_at a)) (item (map_at b))
  shared_slice : (a : ℕ) → Copied h later (item (slice_at a)) (item (slice_at a))
  no_items : Copied h later (items []) (items [])
  next_item :
      {r s : Ref} {rs ss : List Ref}
      → Copied h later (item r) (item s)
      → Copied h later (items rs) (items ss)
      → Copied h later (items (r ∷ rs)) (items (s ∷ ss))
  no_entries : Copied h later (entries []) (entries [])
  next_entry :
      (key : Text) {r s : Ref} {rs ss : List (Text × Ref)}
      → Copied h later (value r) (value s)
      → Copied h later (entries rs) (entries ss)
      → Copied h later (entries ((key, r) ∷ rs)) (entries ((key, s) ∷ ss))

-- Nothing that was there has changed.
abbrev pub Extends : Heap → Heap → Type 0
Extends h later = (more : Heap) × (later ≡ h ++ more)

pub Extends-trans : (a b c : Heap) → Extends a b → Extends b c → Extends a c
Extends-trans a b c (more, same) (rest, same') =
    (more ++ rest, same' ∙ ap (λ x. x ++ rest) same ∙ append_assoc a more rest)

cell_at-append :
    (i : ℕ) (h more : Heap) (cell : Cell)
    → cell_at i h ≡ some cell
    → cell_at i (h ++ more) ≡ some cell
cell_at-append i [] more cell there = cc there
cell_at-append zero (c ∷ h) more cell there = there
cell_at-append (suc i) (c ∷ h) more cell there = cell_at-append i h more cell there

pub cell_at-later :
    (i : ℕ) (h later : Heap) (cell : Cell)
    → Extends h later
    → cell_at i h ≡ some cell
    → cell_at i later ≡ some cell
cell_at-later i h later cell (more, same) there = rw same (cell_at-append i h more cell there)

pub cell_at-last : (h : Heap) (cell : Cell) → cell_at (length h) (h ++ cell ∷ []) ≡ some cell
cell_at-last [] cell = refl
cell_at-last (c ∷ h) cell = cell_at-last h cell

pub length-later : (h later : Heap) → Extends h later → length h ≤ length later
length-later h later (more, same) =
    let sum = length-append h more in let longer = ap length same in omega (arith, sum, longer)

-- A copy stays one.
pub Copied-later :
    (h later last : Heap) (p q : Part) → Extends later last → Copied h later p q → Copied h last p q
Copied-later h later last _ _ more (same_value v) = same_value v
Copied-later h later last _ _ more (new_map {b = b} {copies = copies} there new copied c) =
    new_map there new (cell_at-later b later last (map_cell copies) more copied)
      (Copied-later h later last _ _ more c)
Copied-later h later last _ _ more (new_slice {b = b} {copies = copies} there new copied c) =
    new_slice there new (cell_at-later b later last (slice_cell copies) more copied)
      (Copied-later h later last _ _ more c)
Copied-later h later last _ _ more (same_item v) = same_item v
Copied-later h later last _ _ more (map_item c) = map_item (Copied-later h later last _ _ more c)
Copied-later h later last _ _ more (shared_slice a) = shared_slice a
Copied-later h later last _ _ more no_items = no_items
Copied-later h later last _ _ more (next_item c d) =
    next_item (Copied-later h later last _ _ more c) (Copied-later h later last _ _ more d)
Copied-later h later last _ _ more no_entries = no_entries
Copied-later h later last _ _ more (next_entry key c d) =
    next_entry key (Copied-later h later last _ _ more c) (Copied-later h later last _ _ more d)

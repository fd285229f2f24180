-- ===== src/Storage/Memory/Sharing.antt =====
-- cloneMap of internal/adapters/storage/memory.go on the memory of the process: a map or a slice is a
-- reference to a cell, and a reference is copied without its cell.
pub mod Copies
pub mod Cloned
pub mod Isolated
use Prim.Native.Nat.{ℕ, zero, suc, ◌+◌, ◌≤◌}
use mathlib.Core.Path.{◌≡◌, refl, ap, sym, ◌∙◌}
use mathlib.Core.Logic.{inl, inr}
use mathlib.Core.Option.{Option, none, some}
use mathlib.Core.List.{List, [], ◌∷◌, ◌++◌, append-nil, append_assoc}
use native.Mathlib.Omega.{arith}
use gologger.Prelude.{All, All-append, length, length-append, Succeeds, Succeeds-bind, ◌>>=◌}
use gologger.Text.{Text}
use gologger.Contracts.Value.{Value}

-- A value of type any: one that refers to no memory, such as a string, a number, a boolean or nil, or a
-- reference to a map or to a []any. A map or a slice that is nil is not among them.
pub data Ref : Type 0 where
  plain : Value → Ref
  map_at slice_at : ℕ → Ref

pub data Cell : Type 0 where
  map_cell : List (Text × Ref) → Cell
  slice_cell : List Ref → Cell

-- A reference is an index. No two slices overlap, and a new cell is the last one.
abbrev pub Heap : Type 0
Heap = List Cell

abbrev pub cell_at : ℕ → Heap → Option Cell
cell_at i [] = none
cell_at zero (cell ∷ rest) = some cell
cell_at (suc i) (cell ∷ rest) = cell_at i rest

-- The code makes a cell and then fills it; nothing sees it before it is full.
abbrev pub allocate : Cell → Heap → ℕ × Heap
allocate cell heap = (length heap, heap ++ cell ∷ [])

-- `clone` clones a nested map; `none` is a reference to no cell of its kind.
module _ (clone : ℕ → Heap → Option (ℕ × Heap)) where
  -- The loop over the items of a slice: of these only the maps are cloned.
  unfoldable pub clone_refs : List Ref → Heap → Option (List Ref × Heap)
  clone_refs [] heap = some ([], heap)
  clone_refs (plain v ∷ rest) heap = do
    (items, heap') ← clone_refs rest heap
    some (plain v ∷ items, heap')
  clone_refs (slice_at a ∷ rest) heap = do
    (items, heap') ← clone_refs rest heap
    some (slice_at a ∷ items, heap')
  clone_refs (map_at a ∷ rest) heap = do
    (b, heap') ← clone a heap
    (items, heap'') ← clone_refs rest heap'
    some (map_at b ∷ items, heap'')

  abbrev pub clone_slice : Option Cell → Heap → Option (ℕ × Heap)
  clone_slice none heap = none
  clone_slice (some (map_cell entries)) heap = none
  clone_slice (some (slice_cell refs)) heap = do
    (items, heap') ← clone_refs refs heap
    some (allocate (slice_cell items) heap')

  -- The loop over the entries of a map.
  unfoldable pub clone_entries : List (Text × Ref) → Heap → Option (List (Text × Ref) × Heap)
  clone_entries [] heap = some ([], heap)
  clone_entries ((key, plain v) ∷ rest) heap = do
    (entries, heap') ← clone_entries rest heap
    some ((key, plain v) ∷ entries, heap')
  clone_entries ((key, map_at a) ∷ rest) heap = do
    (b, heap') ← clone a heap
    (entries, heap'') ← clone_entries rest heap'
    some ((key, map_at b) ∷ entries, heap'')
  clone_entries ((key, slice_at a) ∷ rest) heap = do
    (b, heap') ← clone_slice (cell_at a heap) heap
    (entries, heap'') ← clone_entries rest heap'
    some ((key, slice_at b) ∷ entries, heap'')

  abbrev pub clone_cell : Option Cell → Heap → Option (ℕ × Heap)
  clone_cell none heap = none
  clone_cell (some (slice_cell refs)) heap = none
  clone_cell (some (map_cell entries)) heap = do
    (copies, heap') ← clone_entries entries heap
    some (allocate (map_cell copies) heap')

-- cloneMap of the map at an index, for maps nested less deep than the fuel.
unfoldable pub clone_map : ℕ → ℕ → Heap → Option (ℕ × Heap)
clone_map zero a heap = none
clone_map (suc fuel) a heap = clone_cell (clone_map fuel) (cell_at a heap) heap

-- ===== src/Tests/Sharing.antt =====
-- cloneMap on a concrete memory.
use Prim.Native.Nat.{zero, suc}
use mathlib.Core.Path.{◌≡◌, refl}
use mathlib.Core.Option.{some}
use mathlib.Core.List.{[], ◌∷◌, ◌++◌}
use native.Mathlib.Omega.{arith}
use gologger.Prelude.{Succeeds}
use gologger.Text.{codes}
use gologger.Contracts.Value.{text_value, object, array, item, no_items, field, no_fields}
use gologger.Storage.Memory.Sharing.{
  plain, map_at, slice_at, map_cell, slice_cell, Heap, clone_refs, clone_entries, clone_map,
}
use gologger.Storage.Memory.Sharing.Cloned.{IsLayered}
use gologger.Storage.Memory.Sharing.Isolated.{
  read_items, read_entries, read_ref, HasFlatSlices, clone_map-isolates,
}

-- {"rows": [["a"]]}, from the inside out.
abbrev memory : Heap
memory =
    slice_cell (plain (text_value (codes "a")) ∷ [])
    ∷ slice_cell (slice_at 0 ∷ [])
    ∷ map_cell ((codes "rows", slice_at 1) ∷ [])
    ∷ []

-- The clone is at 4, its slice at 3, and the slice in that is still the one at 0.
cloned :
    clone_map 3 2 memory
    ≡ some (
      4,
      memory ++ slice_cell (slice_at 0 ∷ []) ∷ map_cell ((codes "rows", slice_at 3) ∷ []) ∷ [],
    )
unfolding clone_refs clone_entries clone_map
cloned = refl

-- What the caller writes to the inner slice of its map is seen in the clone.
shared_rows :
    read_ref 4
      (slice_cell (plain (text_value (codes "b")) ∷ [])
        ∷ slice_cell (slice_at 0 ∷ [])
        ∷ map_cell ((codes "rows", slice_at 1) ∷ [])
        ∷ slice_cell (slice_at 0 ∷ [])
        ∷ map_cell ((codes "rows", slice_at 3) ∷ [])
        ∷ [])
      (map_at 4)
    ≡ some (
        object (
          field
            (codes "rows")
            (array (item (array (item (text_value (codes "b")) no_items)) no_items))
            no_fields))
unfolding read_ref read_items read_entries
shared_rows = refl

-- {"rows": [{"id": "a"}]}, from the inside out.
abbrev flat_memory : Heap
flat_memory =
    map_cell ((codes "id", plain (text_value (codes "a"))) ∷ [])
    ∷ slice_cell (map_at 0 ∷ [])
    ∷ map_cell ((codes "rows", slice_at 1) ∷ [])
    ∷ []

flat_memory-IsLayered : IsLayered flat_memory
flat_memory-IsLayered zero cell same =
    let found : map_cell ((codes "id", plain (text_value (codes "a"))) ∷ []) ≡ cell = cc same in
    rw (← found) (tt, tt)
flat_memory-IsLayered (suc zero) cell same =
    let found : slice_cell (map_at 0 ∷ []) ≡ cell = cc same in
    rw (← found) ((omega arith, _, refl), tt)
flat_memory-IsLayered (suc (suc zero)) cell same =
    let found : map_cell ((codes "rows", slice_at 1) ∷ []) ≡ cell = cc same in
    rw (← found) ((omega arith, _, refl), tt)
flat_memory-IsLayered (suc (suc (suc i))) cell same = absurd (cc same)

flat_memory-HasFlatSlices : HasFlatSlices flat_memory
flat_memory-HasFlatSlices zero rs same = absurd (cc same)
flat_memory-HasFlatSlices (suc zero) rs same =
    let found : map_at 0 ∷ [] ≡ rs = cc same in rw (← found) (tt, tt)
flat_memory-HasFlatSlices (suc (suc zero)) rs same = absurd (cc same)
flat_memory-HasFlatSlices (suc (suc (suc i))) rs same = absurd (cc same)

-- The caller empties its maps and its slice.
abbrev emptied : Heap
emptied = map_cell [] ∷ slice_cell [] ∷ map_cell [] ∷ []

flat_tree :
    read_ref 4 flat_memory (map_at 2)
    ≡ some (
        object (
          field
            (codes "rows")
            (array (item (object (field (codes "id") (text_value (codes "a")) no_fields)) no_items))
            no_fields))
unfolding read_ref read_items read_entries
flat_tree = refl

clone_map-isolates_example :
    Succeeds
      (λ made.
        (more : Heap) × (made.1 ≡ flat_memory ++ more)
        × (read_ref 4 (emptied ++ more ++ []) (map_at made.0) ≡ read_ref 4 flat_memory (map_at 2)))
      (clone_map 3 2 flat_memory)
clone_map-isolates_example =
    clone_map-isolates flat_memory 2 ((codes "rows", slice_at 1) ∷ []) emptied [] 4
      flat_memory-IsLayered flat_memory-HasFlatSlices refl refl

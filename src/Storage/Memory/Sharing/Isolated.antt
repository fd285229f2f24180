-- ===== src/Storage/Memory/Sharing/Isolated.antt =====
-- The tree for which a map stands, and its clone after other code has written to the map.
use Prim.Native.Nat.{ℕ, zero, suc, ◌≤◌}
use mathlib.Core.Path.{◌≡◌, refl}
use mathlib.Core.Option.{Option, none, some}
use mathlib.Core.List.{List, [], ◌∷◌, ◌++◌}
use native.Mathlib.Omega.{arith}
use gologger.Prelude.{All, length, Succeeds, Succeeds-map, ◌>>=◌}
use gologger.Text.{Text}
use gologger.Contracts.Value.{Value, object, array, Items, Fields, field, no_fields}
use gologger.Contracts.Value
use gologger.Storage.Memory.Sharing.{
  Ref, plain, map_at, slice_at, Cell, map_cell, slice_cell, Heap, cell_at, clone_map,
}
use gologger.Storage.Memory.Sharing.Copies.{
  Part, value, item, items, entries, Copied, same_value, new_map, new_slice, same_item, map_item,
  shared_slice, no_items, next_item, no_entries, next_entry, cell_at-later,
}
use gologger.Storage.Memory.Sharing.Cloned.{IsLayered, clone_map-Copied}

-- The tree that a reference stands for.
module _ (read : Ref → Option Value) where
  unfoldable pub read_items : List Ref → Option Items
  read_items [] = some Value.no_items
  read_items (r ∷ rest) = do v ← read r; vs ← read_items rest; some (Value.item v vs)

  unfoldable pub read_entries : List (Text × Ref) → Option Fields
  read_entries [] = some no_fields
  read_entries ((key, r) ∷ rest) = do v ← read r; vs ← read_entries rest; some (field key v vs)

  abbrev pub read_cell : Option Cell → Option Value
  read_cell none = none
  read_cell (some (map_cell es)) = read_entries es >>= (λ fields. some (object fields))
  read_cell (some (slice_cell rs)) = read_items rs >>= (λ vs. some (array vs))

-- `fuel` bounds the depth.
unfoldable pub read_ref : ℕ → Heap → Ref → Option Value
read_ref zero h r = none
read_ref (suc fuel) h (plain v) = some v
read_ref (suc fuel) h (map_at a) = read_cell (read_ref fuel h) (cell_at a h)
read_ref (suc fuel) h (slice_at a) = read_cell (read_ref fuel h) (cell_at a h)

abbrev pub IsFlat : Ref → Type 0
IsFlat (slice_at a) = ⊥
IsFlat (plain v) = Unit
IsFlat (map_at a) = Unit

-- No slice is an item of a slice.
abbrev pub HasFlatSlices : Heap → Type 0
HasFlatSlices h = (a : ℕ) (rs : List Ref) → cell_at a h ≡ some (slice_cell rs) → All IsFlat rs

abbrev IsFlatPart : Part → Type 0
IsFlatPart (value r) = Unit
IsFlatPart (item r) = IsFlat r
IsFlatPart (items rs) = All IsFlat rs
IsFlatPart (entries es) = Unit

-- `written` has the cells that `later` has from the end of `h` on.
abbrev IsKept : Heap → Heap → Heap → Type 0
IsKept h later written =
    (i : ℕ) (cell : Cell)
    → length h ≤ i
    → cell_at i later ≡ some cell
    → cell_at i written ≡ some cell

append-IsKept :
    (h changed more extra : Heap)
    → length changed ≡ length h
    → IsKept h (h ++ more) (changed ++ more ++ extra)
append-IsKept [] [] more extra same i cell beyond there =
    cell_at-later i more (more ++ extra) cell (extra, refl) there
append-IsKept [] (c ∷ changed) more extra same i cell beyond there = absurd (omega (arith, same))
append-IsKept (d ∷ h) [] more extra same i cell beyond there = absurd (omega (arith, same))
append-IsKept (d ∷ h) (c ∷ changed) more extra same zero cell beyond there =
    absurd (omega (arith, beyond))
append-IsKept (d ∷ h) (c ∷ changed) more extra same (suc i) cell beyond there =
    append-IsKept h changed more extra (omega (arith, same)) i cell (omega (arith, beyond)) there

module _ (fuel : ℕ) (h : Heap) where
  abbrev tree_of : Part → Option Value
  tree_of (value r) = read_ref fuel h r
  tree_of (item r) = read_ref fuel h r
  tree_of (items rs) = none
  tree_of (entries es) = none

  abbrev items_of : Part → Option Items
  items_of (value r) = none
  items_of (item r) = none
  items_of (items rs) = read_items (read_ref fuel h) rs
  items_of (entries es) = none

  abbrev fields_of : Part → Option Fields
  fields_of (value r) = none
  fields_of (item r) = none
  fields_of (items rs) = none
  fields_of (entries es) = read_entries (read_ref fuel h) es

abbrev Agree : ℕ → Heap → Heap → Part → Part → Type 0
Agree fuel h written p q =
    (tree_of fuel written q ≡ tree_of fuel h p)
    × (items_of fuel written q ≡ items_of fuel h p)
    × (fields_of fuel written q ≡ fields_of fuel h p)

module _ (h later written : Heap) (flat : HasFlatSlices h) (kept : IsKept h later written) where
  Copied-Agree :
      (p q : Part) → Copied h later p q → IsFlatPart p → (fuel : ℕ) → Agree fuel h written p q
  unfolding read_ref read_items read_entries
  Copied-Agree _ _ (same_value v) k zero = (refl, refl, refl)
  Copied-Agree _ _ (same_value v) k (suc fuel) = (refl, refl, refl)
  Copied-Agree _ _ (new_map there new copied c) k zero = (refl, refl, refl)
  Copied-Agree _ _ (new_map {b = b} {copies = copies} there new copied c) k (suc fuel) =
      let same = (Copied-Agree _ _ c tt fuel).2 in
      let made = kept b (map_cell copies) new copied in
      (rw made (rw there (rw same refl)), refl, refl)
  Copied-Agree _ _ (new_slice there new copied c) k zero = (refl, refl, refl)
  Copied-Agree _ _ (new_slice {a = a} {b = b} {rs = rs} {copies = copies} there new copied c) k
        (suc fuel) =
      let same = (Copied-Agree _ _ c (flat a rs there) fuel).1 in
      let made = kept b (slice_cell copies) new copied in
      (rw made (rw there (rw same refl)), refl, refl)
  Copied-Agree _ _ (same_item v) k zero = (refl, refl, refl)
  Copied-Agree _ _ (same_item v) k (suc fuel) = (refl, refl, refl)
  Copied-Agree _ _ (map_item c) k fuel = ((Copied-Agree _ _ c tt fuel).0, refl, refl)
  Copied-Agree _ _ (shared_slice a) k fuel = absurd k
  Copied-Agree _ _ no_items k fuel = (refl, refl, refl)
  Copied-Agree _ _ (next_item c d) k fuel =
      let same = (Copied-Agree _ _ c k.0 fuel).0 in
      let same_rest = (Copied-Agree _ _ d k.1 fuel).1 in (refl, rw same (rw same_rest refl), refl)
  Copied-Agree _ _ no_entries k fuel = (refl, refl, refl)
  Copied-Agree _ _ (next_entry key c d) k fuel =
      let same = (Copied-Agree _ _ c tt fuel).0 in
      let same_rest = (Copied-Agree _ _ d tt fuel).2 in (refl, refl, rw same (rw same_rest refl))

-- In a memory whose maps and slices have no cycle and where no slice is an item of a slice, cloneMap of
-- a map returns, and changes no cell that was there. Whatever is later written to the cells that were
-- there, and whatever cells are made later, the clone stands for the tree for which the map stood before
-- the call, read to any depth.
pub clone_map-isolates :
    (h : Heap) (a : ℕ) (es : List (Text × Ref)) (changed extra : Heap) (fuel : ℕ)
    → IsLayered h
    → HasFlatSlices h
    → cell_at a h ≡ some (map_cell es)
    → length changed ≡ length h
    → Succeeds
        (λ made.
          (more : Heap) × (made.1 ≡ h ++ more)
          × (read_ref fuel (changed ++ more ++ extra) (map_at made.0) ≡ read_ref fuel h (map_at a)))
        (clone_map (suc a) a h)
clone_map-isolates h a es changed extra fuel layered flat there same =
    Succeeds-map _ _ (clone_map (suc a) a h)
      (λ made m.
        let more = m.0.0 in
        let copied : Copied h (h ++ more) (value (map_at a)) (value (map_at made.0)) =
          rw (← m.0.1) m.1 in
        (
          more,
          m.0.1,
          (Copied-Agree h (h ++ more) (changed ++ more ++ extra) flat
              (append-IsKept h changed more extra same) _ _ copied tt fuel).0,
        ))
      (clone_map-Copied h a es layered there)

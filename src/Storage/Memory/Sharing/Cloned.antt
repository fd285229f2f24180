-- ===== src/Storage/Memory/Sharing/Cloned.antt =====
-- The copy that cloneMap makes.
use Prim.Native.Nat.{ℕ, zero, suc, ◌<◌}
use mathlib.Core.Path.{◌≡◌, refl, sym}
use mathlib.Core.Option.{Option, none, some}
use mathlib.Core.List.{List, [], ◌∷◌, ◌++◌, append-nil}
use native.Mathlib.Omega.{arith}
use gologger.Prelude.{All, Succeeds, Succeeds-bind}
use gologger.Text.{Text}
use gologger.Storage.Memory.Sharing.{
  Ref, plain, map_at, slice_at, Cell, map_cell, slice_cell, Heap, cell_at, clone_refs, clone_slice,
  clone_entries, clone_cell, clone_map,
}
use gologger.Storage.Memory.Sharing.Copies.{
  Part, value, items, entries, Copied, same_value, new_map, new_slice, same_item, map_item,
  shared_slice, no_items, next_item, no_entries, next_entry, Extends, Extends-trans, Copied-later,
  cell_at-later, cell_at-last, length-later,
}

-- A reference is to a cell of its kind below the bound.
abbrev pub HasKind : Heap → ℕ → Ref → Type 0
HasKind h bound (plain v) = Unit
HasKind h bound (map_at a) =
    (a < bound) × (es : List (Text × Ref)) × (cell_at a h ≡ some (map_cell es))
HasKind h bound (slice_at a) = (a < bound) × (rs : List Ref) × (cell_at a h ≡ some (slice_cell rs))

abbrev pub IsBelow : Heap → ℕ → Cell → Type 0
IsBelow h i (map_cell es) = All (λ e. HasKind h i e.1) es
IsBelow h i (slice_cell rs) = All (HasKind h i) rs

-- The maps and slices have no cycle: the references of a cell are to earlier ones.
abbrev pub IsLayered : Heap → Type 0
IsLayered h = (i : ℕ) (cell : Cell) → cell_at i h ≡ some cell → IsBelow h i cell

here : (h : Heap) → Extends h h
here h = ([], sym (append-nil h))

-- A clone of a part of `h`, made in a heap.
module _ {X : Type 0} (h : Heap) where
  abbrev Makes : Heap → Part → (X → Part) → X × Heap → Type 0
  Makes heap p q result = Extends heap result.1 × Copied h result.1 p (q result.0)

module _ (h : Heap) (layered : IsLayered h) where
  abbrev Clones : ℕ → (ℕ → Heap → Option (ℕ × Heap)) → Type 0
  Clones bound clone =
      (a : ℕ) (es : List (Text × Ref))
      → a < bound
      → cell_at a h ≡ some (map_cell es)
      → (heap : Heap) → Extends h heap
      → Succeeds (Makes h heap (value (map_at a)) (λ b. value (map_at b))) (clone a heap)

  module _ (clone : ℕ → Heap → Option (ℕ × Heap)) where
    clone_refs-Makes :
        (bound : ℕ)
        → Clones bound clone
        → (rs : List Ref) → All (HasKind h bound) rs
        → (heap : Heap) → Extends h heap
        → Succeeds (Makes h heap (items rs) items) (clone_refs clone rs heap)
    unfolding clone_refs
    clone_refs-Makes bound clones [] k heap grown = (here heap, no_items)
    clone_refs-Makes bound clones (plain v ∷ rest) k heap grown =
        Succeeds-bind _ _ (clone_refs clone rest heap) _
          (clone_refs-Makes bound clones rest k.1 heap grown)
          (λ r m. (m.0, next_item (same_item v) m.1))
    clone_refs-Makes bound clones (slice_at a ∷ rest) k heap grown =
        Succeeds-bind _ _ (clone_refs clone rest heap) _
          (clone_refs-Makes bound clones rest k.1 heap grown)
          (λ r m. (m.0, next_item (shared_slice a) m.1))
    clone_refs-Makes bound clones (map_at a ∷ rest) ((below, es, there), k) heap grown =
        Succeeds-bind _ _ (clone a heap) _ (clones a es below there heap grown) (λ r m.
          Succeeds-bind _ _ (clone_refs clone rest r.1) _
            (clone_refs-Makes bound clones rest k r.1 (Extends-trans h heap r.1 grown m.0))
            (λ s n. (
              Extends-trans heap r.1 s.1 m.0 n.0,
              next_item (map_item (Copied-later h r.1 s.1 _ _ n.0 m.1)) n.1,
            )))

    clone_slice-Makes :
        (a bound : ℕ) (rs : List Ref) (o : Option Cell)
        → Clones bound clone
        → a < bound
        → cell_at a h ≡ some (slice_cell rs)
        → (heap : Heap) → Extends h heap
        → o ≡ some (slice_cell rs)
        → Succeeds
            (Makes h heap (value (slice_at a)) (λ b. value (slice_at b)))
            (clone_slice clone o heap)
    clone_slice-Makes a bound rs none clones below there heap grown same = absurd (cc same)
    clone_slice-Makes a bound rs (some (map_cell es)) clones below there heap grown same =
        absurd (cc same)
    clone_slice-Makes a bound rs (some (slice_cell refs)) clones below there heap grown same =
        let same_refs : refs ≡ rs = cc same in
        rw same_refs (
          Succeeds-bind _ _ (clone_refs clone rs heap) _
            (clone_refs-Makes a (λ b es less. clones b es (omega (arith, less, below))) rs
              (layered a (slice_cell rs) there) heap grown)
            (λ r m.
              let last : Extends r.1 (r.1 ++ slice_cell r.0 ∷ []) = (slice_cell r.0 ∷ [], refl) in
              (
                Extends-trans heap r.1 _ m.0 last,
                new_slice there (length-later h r.1 (Extends-trans h heap r.1 grown m.0))
                    (cell_at-last r.1 (slice_cell r.0)) (Copied-later h r.1 _ _ _ last m.1),
              )))

    clone_entries-Makes :
        (bound : ℕ)
        → Clones bound clone
        → (es : List (Text × Ref)) → All (λ e. HasKind h bound e.1) es
        → (heap : Heap) → Extends h heap
        → Succeeds (Makes h heap (entries es) entries) (clone_entries clone es heap)
    unfolding clone_entries
    clone_entries-Makes bound clones [] k heap grown = (here heap, no_entries)
    clone_entries-Makes bound clones ((key, plain v) ∷ rest) k heap grown =
        Succeeds-bind _ _ (clone_entries clone rest heap) _
          (clone_entries-Makes bound clones rest k.1 heap grown)
          (λ r m. (m.0, next_entry key (same_value v) m.1))
    clone_entries-Makes bound clones ((key, map_at a) ∷ rest) ((below, es, there), k) heap grown =
        Succeeds-bind _ _ (clone a heap) _ (clones a es below there heap grown) (λ r m.
          Succeeds-bind _ _ (clone_entries clone rest r.1) _
            (clone_entries-Makes bound clones rest k r.1 (Extends-trans h heap r.1 grown m.0))
            (λ s n. (
              Extends-trans heap r.1 s.1 m.0 n.0,
              next_entry key (Copied-later h r.1 s.1 _ _ n.0 m.1) n.1,
            )))
    clone_entries-Makes bound clones ((key, slice_at a) ∷ rest) ((below, rs, there), k) heap grown =
        Succeeds-bind _ _ (clone_slice clone (cell_at a heap) heap) _
          (clone_slice-Makes a bound rs (cell_at a heap) clones below there heap grown
            (cell_at-later a h heap (slice_cell rs) grown there))
          (λ r m.
            Succeeds-bind _ _ (clone_entries clone rest r.1) _
              (clone_entries-Makes bound clones rest k r.1 (Extends-trans h heap r.1 grown m.0))
              (λ s n. (
                Extends-trans heap r.1 s.1 m.0 n.0,
                next_entry key (Copied-later h r.1 s.1 _ _ n.0 m.1) n.1,
              )))

    clone_cell-Makes :
        (a : ℕ) (es : List (Text × Ref)) (o : Option Cell)
        → Clones a clone
        → cell_at a h ≡ some (map_cell es)
        → (heap : Heap) → Extends h heap
        → o ≡ some (map_cell es)
        → Succeeds
            (Makes h heap (value (map_at a)) (λ b. value (map_at b)))
            (clone_cell clone o heap)
    clone_cell-Makes a es none clones there heap grown same = absurd (cc same)
    clone_cell-Makes a es (some (slice_cell rs)) clones there heap grown same = absurd (cc same)
    clone_cell-Makes a es (some (map_cell found)) clones there heap grown same =
        let same_entries : found ≡ es = cc same in
        rw same_entries (
          Succeeds-bind _ _ (clone_entries clone es heap) _
            (clone_entries-Makes a clones es (layered a (map_cell es) there) heap grown)
            (λ r m.
              let last : Extends r.1 (r.1 ++ map_cell r.0 ∷ []) = (map_cell r.0 ∷ [], refl) in
              (
                Extends-trans heap r.1 _ m.0 last,
                new_map there (length-later h r.1 (Extends-trans h heap r.1 grown m.0))
                    (cell_at-last r.1 (map_cell r.0)) (Copied-later h r.1 _ _ _ last m.1),
              )))

  clone_map-Clones : (fuel : ℕ) → Clones fuel (clone_map fuel)
  unfolding clone_map
  clone_map-Clones zero a es below there heap grown = absurd (omega (arith, below))
  clone_map-Clones (suc fuel) a es below there heap grown =
      clone_cell-Makes (clone_map fuel) a es (cell_at a heap)
        (λ b fs less. clone_map-Clones fuel b fs (omega (arith, less, below))) there heap grown
        (cell_at-later a h heap (map_cell es) grown there)

-- In a memory whose maps and slices have no cycle, cloneMap of a map returns, and changes no cell that
-- was there. The clone is a new map with the same keys in the same order, the same values that are no
-- references, and, for each nested map and each slice, a new one that is copied in the same way, at any
-- depth; but of a slice that is an item of a slice it has the very reference, so the two share it.
pub clone_map-Copied :
    (h : Heap) (a : ℕ) (es : List (Text × Ref))
    → IsLayered h
    → cell_at a h ≡ some (map_cell es)
    → Succeeds
        (λ made. Extends h made.1 × Copied h made.1 (value (map_at a)) (value (map_at made.0)))
        (clone_map (suc a) a h)
clone_map-Copied h a es layered there =
    clone_map-Clones h layered (suc a) a es (omega arith) there h (here h)

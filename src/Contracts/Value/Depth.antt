-- ===== src/Contracts/Value/Depth.antt =====
-- How deep maps and arrays are nested in a value.
use Prim.Native.Nat.{ℕ, suc, max, ◌≤◌}
use mathlib.Core.Logic.{inl, inr}
use mathlib.Core.Option.{Option, none, some}
use native.Mathlib.Omega.{arith}
use gologger.Prelude.{Bool-cases}
use gologger.Text.{Text, text_eq}
use gologger.Contracts.Value.{
  Value, nil_value, nil_object, text_value, scalar, unsupported, object, array, Items, no_items,
  item, Fields, no_fields, field, put_field,
}

abbrev mutual
  pub depth : Value → ℕ
  depth nil_value = 0
  depth nil_object = 0
  depth (text_value t) = 0
  depth (scalar x) = 0
  depth (unsupported n) = 0
  depth (object fs) = suc (fields_depth fs)
  depth (array xs) = suc (items_depth xs)

  pub items_depth : Items → ℕ
  items_depth no_items = 0
  items_depth (item x xs) = max (depth x) (items_depth xs)

  pub fields_depth : Fields → ℕ
  fields_depth no_fields = 0
  fields_depth (field k v fs) = max (depth v) (fields_depth fs)

abbrev pub map_depth : Option Fields → ℕ
map_depth none = 0
map_depth (some fs) = suc (fields_depth fs)

pub put_field-depth-le :
    (key : Text) (value : Value) (fs : Fields)
    → fields_depth (put_field key value fs) ≤ max (depth value) (fields_depth fs)
unfolding put_field
put_field-depth-le key value no_fields = omega arith
put_field-depth-le key value (field k v rest) = elim (Bool-cases (text_eq k key)) [
  | inl same ↦ rw same (omega arith)
  | inr other ↦ rw other (omega (arith, put_field-depth-le key value rest))
]

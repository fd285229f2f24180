-- ===== src/Contracts/Value.antt =====
-- Values of type `any`, as event maps hold them, and `map[string]any`. A map is the list of its
-- entries in the order in which `range` visits them; Go fixes no order, so a statement about
-- every list of entries covers every order.
pub mod Every
pub mod Depth
use Prim.Native.Nat.{ℕ}
use mathlib.Core.Path.{◌≡◌, refl}
use mathlib.Core.Bool.{Bool}
use mathlib.Core.Option.{Option, none, some}
use gologger.Prelude.{if◌then◌else◌}
use gologger.Text.{Text, text_eq}

-- `number` holds the JSON form of a number; `not_finite` is a float64 that JSON cannot express.
pub data Scalar : Type 0 where
  boolean : Bool → Scalar
  number : Text → Scalar
  not_finite : Scalar

-- `nil_object` is a map that is nil inside an interface that is not; `unsupported` is a value of
-- any type that the type switches of the program do not name.
mutual
  pub data Value : Type 0 where
    nil_value : Value
    nil_object : Value
    text_value : Text → Value
    scalar : Scalar → Value
    unsupported : ℕ → Value
    object : Fields → Value
    array : Items → Value

  pub data Items : Type 0 where
    no_items : Items
    item : Value → Items → Items

  pub data Fields : Type 0 where
    no_fields : Fields
    field : Text → Value → Fields → Fields

-- m[key]
unfoldable pub get_field : Text → Fields → Option Value
get_field key no_fields = none
get_field key (field k v rest) = if text_eq k key then some v else get_field key rest

-- m[key] = value
unfoldable pub put_field : Text → Value → Fields → Fields
put_field key value no_fields = field key value no_fields
put_field key value (field k v rest) =
    if text_eq k key then field k value rest else field k v (put_field key value rest)

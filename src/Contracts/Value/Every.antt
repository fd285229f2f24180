-- ===== src/Contracts/Value/Every.antt =====
-- Predicates on the keys and the texts of a value, at every depth.
use mathlib.Core.Logic.{inl, inr}
use mathlib.Core.Option.{Option, none, some}
use gologger.Prelude.{Bool-cases}
use gologger.Text.{Text, text_eq}
use gologger.Contracts.Value.{
  Value, nil_value, nil_object, text_value, scalar, unsupported, object, array, Items, no_items,
  item, Fields, no_fields, field, put_field,
}

-- Every key satisfies K and every text T.
abbrev mutual
  pub Every : (Text → Type 0) → (Text → Type 0) → Value → Type 0
  Every K T nil_value = Unit {0}
  Every K T nil_object = Unit {0}
  Every K T (text_value t) = T t
  Every K T (scalar x) = Unit {0}
  Every K T (unsupported n) = Unit {0}
  Every K T (object fs) = EveryFields K T fs
  Every K T (array xs) = EveryItems K T xs

  pub EveryItems : (Text → Type 0) → (Text → Type 0) → Items → Type 0
  EveryItems K T no_items = Unit {0}
  EveryItems K T (item x xs) = Every K T x × EveryItems K T xs

  pub EveryFields : (Text → Type 0) → (Text → Type 0) → Fields → Type 0
  EveryFields K T no_fields = Unit {0}
  EveryFields K T (field k v fs) = K k × Every K T v × EveryFields K T fs

-- The same of a map that may be nil.
abbrev pub EveryMap : (Text → Type 0) → (Text → Type 0) → Option Fields → Type 0
EveryMap K T none = Unit {0}
EveryMap K T (some fs) = EveryFields K T fs

module _ (K T : Text → Type 0) where
  pub put_field-Every :
      (key : Text) (value : Value) (fs : Fields)
      → K key
      → Every K T value
      → EveryFields K T fs
      → EveryFields K T (put_field key value fs)
  unfolding put_field
  put_field-Every key value no_fields hk hv h = (hk, hv, tt)
  put_field-Every key value (field k v rest) hk hv h = elim (Bool-cases (text_eq k key)) [
    | inl same ↦ rw same (h.0, hv, h.2)
    | inr other ↦ rw other (h.0, h.1, put_field-Every key value rest hk hv h.2)
  ]

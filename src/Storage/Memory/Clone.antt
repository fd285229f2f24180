-- ===== src/Storage/Memory/Clone.antt =====
-- cloneEvent and cloneMap of internal/adapters/storage/memory.go, as functions of values.
use mathlib.Core.Path.{◌≡◌, refl, ap}
use mathlib.Core.Option
use mathlib.Core.Option.{Option, none, some}
use gologger.Contracts.{Event}
use gologger.Contracts.Value.{
  Value, nil_value, nil_object, text_value, scalar, unsupported, object, array, Items, no_items,
  item, Fields, no_fields, field,
}

-- cloneMap makes a map also from nil. The keys of a map are distinct, so each write of its loop
-- is of a new key. Of the items of an array only the maps are cloned.
unfoldable mutual
  pub clone_value : Value → Value
  clone_value nil_value = nil_value
  clone_value nil_object = object no_fields
  clone_value (text_value t) = text_value t
  clone_value (scalar x) = scalar x
  clone_value (unsupported n) = unsupported n
  clone_value (object fs) = object (clone_fields fs)
  clone_value (array xs) = array (clone_items xs)

  pub clone_item : Value → Value
  clone_item nil_value = nil_value
  clone_item nil_object = object no_fields
  clone_item (text_value t) = text_value t
  clone_item (scalar x) = scalar x
  clone_item (unsupported n) = unsupported n
  clone_item (object fs) = object (clone_fields fs)
  clone_item (array xs) = array xs

  pub clone_items : Items → Items
  clone_items no_items = no_items
  clone_items (item x xs) = item (clone_item x) (clone_items xs)

  pub clone_fields : Fields → Fields
  clone_fields no_fields = no_fields
  clone_fields (field k v fs) = field k (clone_value v) (clone_fields fs)

unfoldable pub clone_event : Event → Event
clone_event event = record event {
  context = Option.map clone_fields event.context;
  metadata = Option.map clone_fields event.metadata;
}

mutual
  unfolding clone_value

  value_idem : (v : Value) → clone_value (clone_value v) ≡ clone_value v
  value_idem nil_value = refl
  value_idem nil_object = refl
  value_idem (text_value t) = refl
  value_idem (scalar x) = refl
  value_idem (unsupported n) = refl
  value_idem (object fs) = ap object (fields_idem fs)
  value_idem (array xs) = ap array (items_idem xs)

  item_idem : (v : Value) → clone_item (clone_item v) ≡ clone_item v
  item_idem nil_value = refl
  item_idem nil_object = refl
  item_idem (text_value t) = refl
  item_idem (scalar x) = refl
  item_idem (unsupported n) = refl
  item_idem (object fs) = ap object (fields_idem fs)
  item_idem (array xs) = refl

  items_idem : (xs : Items) → clone_items (clone_items xs) ≡ clone_items xs
  items_idem no_items = refl
  items_idem (item x xs) = cc (item_idem x, items_idem xs)

  fields_idem : (fs : Fields) → clone_fields (clone_fields fs) ≡ clone_fields fs
  fields_idem no_fields = refl
  fields_idem (field k v fs) = cc (value_idem v, fields_idem fs)

map_idem :
    (m : Option Fields)
    → Option.map clone_fields (Option.map clone_fields m) ≡ Option.map clone_fields m
map_idem none = refl
map_idem (some fs) = ap some (fields_idem fs)

-- A clone is its own clone.
pub clone_event_idem : (event : Event) → clone_event (clone_event event) ≡ clone_event event
unfolding clone_event
clone_event_idem event = rw (map_idem event.context, map_idem event.metadata)

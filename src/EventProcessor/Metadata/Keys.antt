-- ===== src/EventProcessor/Metadata/Keys.antt =====
-- The keys and the texts of the maps that sanitizeMap returns.
use Prim.Native.Nat.{ℕ, suc}
use mathlib.Core.Path.{◌≡◌}
use mathlib.Core.Bool.{false, not}
use mathlib.Core.Option.{Option, none, some}
use gologger.Prelude.{leb}
use gologger.Result.{ok, fail_if, >>=-eq-ok, fail_if-eq-ok, ok_inj}
use gologger.Text.{Text, Unicode, valid_string}
use gologger.Text.Clean.{sanitize_text, IsClean, sanitize_text-IsClean, sanitize_text_id}
use gologger.Contracts.Value.{
  Value, nil_value, nil_object, text_value, scalar, unsupported, object, array, Items, no_items,
  item, Fields, no_fields, field, put_field,
}
use gologger.Contracts.Value.Every.{Every, EveryItems, EveryFields, EveryMap, put_field-Every}
use gologger.EventProcessor.Errors.{invalid_utf8, nested_too_deep, sensitive_field}
use gologger.EventProcessor.Metadata.{
  sanitize_value, sanitize_items, sanitize_fields, sanitize_map, max_map_depth, is_prohibited,
}

-- A key that passes the test of sanitizeMap and is not changed by it.
pub record IsAllowed (u : Unicode) (key : Text) : Type 0 where
  pub clean : IsClean key
  pub allowed : is_prohibited u key ≡ false

module _ (u : Unicode) where
  mutual
    unfolding sanitize_value

    value_keys :
        (v : Value) (d : ℕ) (w : Value)
        → Every IsClean IsClean v
        → sanitize_value u v d ≡ ok w
        → Every (IsAllowed u) IsClean w
    value_keys nil_value d w h e = rw (← ok_inj e) tt
    value_keys nil_object d w h e = rw (← ok_inj e) tt
    value_keys (text_value t) d w h e =
        let (_, a, e1) = >>=-eq-ok (fail_if (not (valid_string t)) invalid_utf8) _ e in
        rw (← ok_inj e1) (sanitize_text-IsClean t)
    value_keys (scalar x) d w h e = rw (← ok_inj e) tt
    value_keys (unsupported n) d w h e = cc
    value_keys (object fs) d w h e =
        let (_, a, e1) = >>=-eq-ok (fail_if (leb max_map_depth d) nested_too_deep) _ e in
        let (s, b, e2) = >>=-eq-ok (sanitize_fields u fs d no_fields) _ e1 in
        rw (← ok_inj e2) (fields_keys fs d no_fields s h tt b)
    value_keys (array xs) d w h e =
        let (_, a, e1) = >>=-eq-ok (fail_if (leb max_map_depth d) nested_too_deep) _ e in
        let (s, b, e2) = >>=-eq-ok (sanitize_items u xs d) _ e1 in
        rw (← ok_inj e2) (items_keys xs d s h b)

    items_keys :
        (xs : Items) (d : ℕ) (ys : Items)
        → EveryItems IsClean IsClean xs
        → sanitize_items u xs d ≡ ok ys
        → EveryItems (IsAllowed u) IsClean ys
    items_keys no_items d ys h e = rw (← ok_inj e) tt
    items_keys (item x xs) d ys h e =
        let (y, a, e1) = >>=-eq-ok (sanitize_value u x (suc d)) _ e in
        let (rest, b, e2) = >>=-eq-ok (sanitize_items u xs d) _ e1 in
        rw (← ok_inj e2) (value_keys x (suc d) y h.0 a, items_keys xs d rest h.1 b)

    fields_keys :
        (fs : Fields) (d : ℕ) (acc gs : Fields)
        → EveryFields IsClean IsClean fs
        → EveryFields (IsAllowed u) IsClean acc
        → sanitize_fields u fs d acc ≡ ok gs
        → EveryFields (IsAllowed u) IsClean gs
    fields_keys no_fields d acc gs h k e = rw (← ok_inj e) k
    fields_keys (field key value rest) d acc gs h k e =
        let (_, a, e1) = >>=-eq-ok (fail_if (not (valid_string key)) invalid_utf8) _ e in
        let (_, b, e2) = >>=-eq-ok (fail_if (is_prohibited u key) (sensitive_field key)) _ e1 in
        let (w, c, e3) = >>=-eq-ok (sanitize_value u value (suc d)) _ e2 in
        let same = sanitize_text_id key h.0 in
        let allowed = fail_if-eq-ok (is_prohibited u key) (sensitive_field key) b in
        fields_keys rest d (put_field (sanitize_text key) w acc) gs h.2
          (put_field-Every (IsAllowed u) IsClean (sanitize_text key) w acc
            (rw same (record { clean = h.0; allowed = allowed })) (value_keys value (suc d) w h.1 c)
            k)
          e3

  -- From a map with clean keys and texts comes a map with clean keys and texts none of whose keys
  -- is prohibited, at any depth.
  pub sanitize_map-IsAllowed :
      (m r : Option Fields)
      → EveryMap IsClean IsClean m
      → sanitize_map u m 0 ≡ ok r
      → EveryMap (IsAllowed u) IsClean r
  unfolding sanitize_map
  sanitize_map-IsAllowed none r h e = rw (← ok_inj e) tt
  sanitize_map-IsAllowed (some fs) r h e =
      let (s, b, e2) = >>=-eq-ok (sanitize_fields u fs 0 no_fields) _ e in
      rw (← ok_inj e2) (fields_keys fs 0 no_fields s h tt b)

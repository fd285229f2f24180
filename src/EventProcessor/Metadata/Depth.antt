-- ===== src/EventProcessor/Metadata/Depth.antt =====
-- The nesting limit of sanitizeMap.
use Prim.Native.Nat.{ℕ, suc, ◌+◌, ◌≤◌}
use mathlib.Core.Path.{◌≡◌}
use mathlib.Core.Bool.{not}
use mathlib.Core.Option.{Option, none, some}
use native.Mathlib.Omega.{arith}
use gologger.Prelude.{leb}
use gologger.Result.{ok, fail_if, >>=-eq-ok, fail_if-eq-ok}
use gologger.Text.{Unicode, valid_string}
use gologger.Text.Clean.{sanitize_text}
use gologger.Contracts.Value.{
  Value, nil_value, nil_object, text_value, scalar, unsupported, object, array, Items, no_items,
  item, Fields, no_fields, field, put_field,
}
use gologger.Contracts.Value.Depth.{depth, items_depth, fields_depth, map_depth, put_field-depth-le}
use gologger.EventProcessor.Errors.{invalid_utf8, nested_too_deep, sensitive_field}
use gologger.EventProcessor.Metadata.{
  sanitize_value, sanitize_items, sanitize_fields, sanitize_map, max_map_depth, is_prohibited,
}

module _ (u : Unicode) where
  mutual
    unfolding sanitize_value

    value_bound :
        (v : Value) (d : ℕ) (w : Value)
        → d ≤ max_map_depth
        → sanitize_value u v d ≡ ok w
        → depth w + d ≤ max_map_depth
    value_bound nil_value d w h e = ground arith
    value_bound nil_object d w h e = ground arith
    value_bound (text_value t) d w h e = ground arith
    value_bound (scalar x) d w h e = ground arith
    value_bound (unsupported n) d w h e = cc
    value_bound (object fs) d w h e =
        let (_, a, e1) = >>=-eq-ok (fail_if (leb max_map_depth d) nested_too_deep) _ e in
        let (s, b, e2) = >>=-eq-ok (sanitize_fields u fs d no_fields) _ e1 in
        let below = fail_if-eq-ok (leb max_map_depth d) nested_too_deep a in
        ground (arith, fields_bound fs d no_fields s (ground arith) (ground arith) b)
    value_bound (array xs) d w h e =
        let (_, a, e1) = >>=-eq-ok (fail_if (leb max_map_depth d) nested_too_deep) _ e in
        let (s, b, e2) = >>=-eq-ok (sanitize_items u xs d) _ e1 in
        let below = fail_if-eq-ok (leb max_map_depth d) nested_too_deep a in
        ground (arith, items_bound xs d s (ground arith) b)

    items_bound :
        (xs : Items) (d : ℕ) (ys : Items)
        → suc d ≤ max_map_depth
        → sanitize_items u xs d ≡ ok ys
        → items_depth ys + suc d ≤ max_map_depth
    items_bound no_items d ys h e = ground arith
    items_bound (item x xs) d ys h e =
        let (y, a, e1) = >>=-eq-ok (sanitize_value u x (suc d)) _ e in
        let (rest, b, e2) = >>=-eq-ok (sanitize_items u xs d) _ e1 in
        ground (arith, value_bound x (suc d) y h a, items_bound xs d rest h b)

    fields_bound :
        (fs : Fields) (d : ℕ) (acc gs : Fields)
        → suc d ≤ max_map_depth
        → fields_depth acc + suc d ≤ max_map_depth
        → sanitize_fields u fs d acc ≡ ok gs
        → fields_depth gs + suc d ≤ max_map_depth
    fields_bound no_fields d acc gs h k e = ground arith
    fields_bound (field key value rest) d acc gs h k e =
        let (_, a, e1) = >>=-eq-ok (fail_if (not (valid_string key)) invalid_utf8) _ e in
        let (_, b, e2) = >>=-eq-ok (fail_if (is_prohibited u key) (sensitive_field key)) _ e1 in
        let (w, c, e3) = >>=-eq-ok (sanitize_value u value (suc d)) _ e2 in
        fields_bound rest d (put_field (sanitize_text key) w acc) gs h
          (omega
            (arith, value_bound value (suc d) w h c, put_field-depth-le (sanitize_text key) w acc))
          e3

  -- An accepted map is nested at most `max_map_depth` deep, itself counted.
  pub sanitize_map-depth-le :
      (m r : Option Fields) → sanitize_map u m 0 ≡ ok r → map_depth r ≤ max_map_depth
  unfolding sanitize_map
  sanitize_map-depth-le none r e = ground arith
  sanitize_map-depth-le (some fs) r e =
      let (s, b, e2) = >>=-eq-ok (sanitize_fields u fs 0 no_fields) _ e in
      ground (arith, fields_bound fs 0 no_fields s (omega arith) (omega arith) b)

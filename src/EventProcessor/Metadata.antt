-- ===== src/EventProcessor/Metadata.antt =====
-- The maps of an event: sanitizeMap, sanitizeValue, normalizeFieldName and validateMetadataSize.
pub mod Size
pub mod Depth
pub mod Keys
use Prim.Native.Nat.{ℕ, suc, ◌+◌}
use mathlib.Core.Bool.{Bool, true, false, not}
use mathlib.Core.Option.{Option, none, some}
use mathlib.Core.List.{List, [], ◌∷◌}
use gologger.Prelude.{leb, if◌then◌else◌}
use gologger.Result.{Result, ok, err, ◌>>=◌, ◌>>◌, fail_if}
use gologger.Text.{Text, codes, mem_text, valid_string, trim_space, remove_all, Unicode, to_lower}
use gologger.Text.Clean.{sanitize_text}
use gologger.Contracts.Value.{
  Value, nil_value, nil_object, text_value, scalar, unsupported, object, array, Items, no_items,
  item, Fields, no_fields, field, put_field,
}
use gologger.EventProcessor.Errors.{
  Error, invalid_utf8, nested_too_deep, unsupported_value, sensitive_field,
}

abbrev pub max_map_depth : ℕ
max_map_depth = 8

abbrev pub prohibited_fields : List Text
prohibited_fields =
    codes "authorization"
    ∷ codes "cookie"
    ∷ codes "cookies"
    ∷ codes "password"
    ∷ codes "passwd"
    ∷ codes "secret"
    ∷ codes "token"
    ∷ codes "accesstoken"
    ∷ codes "refreshtoken"
    ∷ codes "apikey"
    ∷ codes "privatekey"
    ∷ codes "sessionsecret"
    ∷ []

module _ (u : Unicode) where
  unfoldable pub normalize_field_name : Text → Text
  normalize_field_name value =
      remove_all b' ' (remove_all b'_' (remove_all b'-' (to_lower u (trim_space value))))

  -- The test of a key against `prohibitedFields`.
  unfoldable pub is_prohibited : Text → Bool
  is_prohibited key = mem_text (normalize_field_name key) prohibited_fields

  -- sanitizeMap is the case `object` behind its depth test and the loop `sanitize_fields`, which
  -- carries the map that it fills.
  unfoldable mutual
    pub sanitize_value : Value → ℕ → Result Error Value
    sanitize_value nil_value depth = ok nil_value
    sanitize_value nil_object depth = ok nil_object
    sanitize_value (text_value t) depth = do
      fail_if (not (valid_string t)) invalid_utf8
      ok (text_value (sanitize_text t))
    sanitize_value (scalar x) depth = ok (scalar x)
    sanitize_value (unsupported n) depth = err (unsupported_value n)
    sanitize_value (object fs) depth = do
      fail_if (leb max_map_depth depth) nested_too_deep
      sanitized ← sanitize_fields fs depth no_fields
      ok (object sanitized)
    sanitize_value (array xs) depth = do
      fail_if (leb max_map_depth depth) nested_too_deep
      sanitized ← sanitize_items xs depth
      ok (array sanitized)

    pub sanitize_items : Items → ℕ → Result Error Items
    sanitize_items no_items depth = ok no_items
    sanitize_items (item x xs) depth = do
      clean_item ← sanitize_value x (suc depth)
      rest ← sanitize_items xs depth
      ok (item clean_item rest)

    pub sanitize_fields : Fields → ℕ → Fields → Result Error Fields
    sanitize_fields no_fields depth sanitized = ok sanitized
    sanitize_fields (field key value rest) depth sanitized = do
      fail_if (not (valid_string key)) invalid_utf8
      fail_if (is_prohibited key) (sensitive_field key)
      clean_value ← sanitize_value value (suc depth)
      sanitize_fields rest depth (put_field (sanitize_text key) clean_value sanitized)

  -- sanitizeMap
  unfoldable pub sanitize_map : Option Fields → ℕ → Result Error (Option Fields)
  sanitize_map none depth = ok none
  sanitize_map (some values) depth = do
    fail_if (leb max_map_depth depth) nested_too_deep
    sanitized ← sanitize_fields values depth no_fields
    ok (some sanitized)

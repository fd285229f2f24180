-- ===== src/EventProcessor/Metadata/Size.antt =====
-- The length of what json.Marshal writes, and validateMetadataSize. The escapes are those of
-- encoding/json with HTML escaping, which Marshal has on.
use Prim.Native.Nat.{ℕ, ◌+◌, ◌*◌}
use mathlib.Core.Bool.{true, false, ◌||◌}
use mathlib.Core.Option
use mathlib.Core.Option.{Option, none, some}
use mathlib.Core.List.{[], ◌∷◌}
use gologger.Prelude.{ltb, leb, ◌==◌, if◌then◌else◌, length}
use gologger.Result.{Result, ok, err}
use gologger.Text.{Text, codes, max_rune}
use gologger.Contracts.Value.{
  Scalar, boolean, number, not_finite, Value, nil_value, nil_object, text_value, scalar,
  unsupported, object, array, Items, no_items, item, Fields, no_fields, field,
}
use gologger.EventProcessor.Errors.{Error, metadata_too_large, not_encodable}

abbrev pub max_metadata_bytes : ℕ
max_metadata_bytes = 64 * 1024

-- The bytes of a code point in UTF-8.
unfoldable pub utf8_size : ℕ → ℕ
utf8_size c = if ltb c 0x80 then 1 else if ltb c 0x800 then 2 else if ltb c 0x10000 then 3 else 4

-- A character inside a JSON string; an invalid byte is written as \ufffd.
unfoldable pub escaped_size : ℕ → ℕ
escaped_size c =
    if c == b'"' || c == 0x5c || c == 8 || c == 9 || c == 10 || c == 12 || c == 13
    then 2
    else if ltb c 0x20
        || c == b'<'
        || c == b'>'
        || c == b'&'
        || c == 0x2028
        || c == 0x2029
        || leb max_rune c
    then 6
    else utf8_size c

unfoldable pub escaped_sizes : Text → ℕ
escaped_sizes [] = 0
escaped_sizes (c ∷ s) = escaped_size c + escaped_sizes s

unfoldable pub quoted_size : Text → ℕ
quoted_size s = 2 + escaped_sizes s

-- A float that is not finite has no JSON form.
unfoldable pub scalar_size : Scalar → Option ℕ
scalar_size (boolean true) = some 4
scalar_size (boolean false) = some 5
scalar_size (number t) = some (length t)
scalar_size not_finite = none

abbrev add_sizes : ℕ → Option ℕ → Option ℕ → Option ℕ
add_sizes n none b = none
add_sizes n (some a) none = none
add_sizes n (some a) (some b) = some (n + a + b)

-- Inside brackets each item but the last is followed by a comma.
abbrev comma_items : Items → ℕ
comma_items no_items = 0
comma_items (item x xs) = 1

abbrev comma_fields : Fields → ℕ
comma_fields no_fields = 0
comma_fields (field k v fs) = 1

-- Values of other types never reach json.Marshal: sanitizeValue refuses them.
unfoldable mutual
  pub value_size : Value → Option ℕ
  value_size nil_value = some 4
  value_size nil_object = some 4
  value_size (text_value t) = some (quoted_size t)
  value_size (scalar x) = scalar_size x
  value_size (unsupported n) = none
  value_size (object fs) = Option.map (λ n. 2 + n) (fields_size fs)
  value_size (array xs) = Option.map (λ n. 2 + n) (items_size xs)

  pub items_size : Items → Option ℕ
  items_size no_items = some 0
  items_size (item x xs) = add_sizes (comma_items xs) (value_size x) (items_size xs)

  pub fields_size : Fields → Option ℕ
  fields_size no_fields = some 0
  fields_size (field k v fs) =
      add_sizes (quoted_size k + 1 + comma_fields fs) (value_size v) (fields_size fs)

-- A member `"name":{…}` of the payload; `omitempty` leaves out a map without entries.
abbrev member_size : ℕ → Option Fields → Option ℕ
member_size name none = some 0
member_size name (some no_fields) = some 0
member_size name (some (field k v fs)) =
    Option.map (λ n. name + 1 + (2 + n)) (fields_size (field k v fs))

abbrev comma_between : Option ℕ → Option ℕ → ℕ
comma_between (some a) (some b) = if a == 0 || b == 0 then 0 else 1
comma_between a b = 0

-- len(data) of the payload with the keys "context" and "metadata".
unfoldable pub payload_size : Option Fields → Option Fields → Option ℕ
payload_size context metadata =
    let a = member_size (length (codes "\"context\"")) context in
    let b = member_size (length (codes "\"metadata\"")) metadata in
    add_sizes (2 + comma_between a b) a b

-- validateMetadataSize
unfoldable pub validate_metadata_size : Option Fields → Option Fields → Result Error (Unit {0})
validate_metadata_size context metadata = elim (payload_size context metadata) [
  | none ↦ err not_encodable
  | some n ↦ if ltb max_metadata_bytes n then err metadata_too_large else ok tt
]

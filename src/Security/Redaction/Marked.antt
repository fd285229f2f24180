-- ===== src/Security/Redaction/Marked.antt =====
-- What RedactEvent leaves under sensitive keys.
use mathlib.Core.Path.{◌≡◌}
use mathlib.Core.Logic.{inl, inr}
use mathlib.Core.Bool.{Bool, true, false}
use gologger.Prelude.{if◌then◌else◌, Bool-cases}
use gologger.Text.{Text, text_eq}
use gologger.Text.Laws.{text_eq_iff}
use gologger.Contracts.Value.{
  Value, nil_value, nil_object, text_value, scalar, unsupported, object, array, Items, no_items,
  item, Fields, no_fields, field, put_field,
}
use gologger.Contracts.Value.Every.{Every, EveryItems, EveryFields}
use gologger.Security.Pattern.{redacted_value, sensitive_key}
use gologger.Security.Redaction.{sanitize, redact_value, redact_items, redact_fields}

-- At every depth, whatever stands under a sensitive key is the marker.
abbrev mutual
  pub IsRedacted : Value → Type 0
  IsRedacted nil_value = Unit {0}
  IsRedacted nil_object = Unit {0}
  IsRedacted (text_value t) = Unit {0}
  IsRedacted (scalar x) = Unit {0}
  IsRedacted (unsupported n) = Unit {0}
  IsRedacted (object fs) = IsRedactedFields fs
  IsRedacted (array xs) = IsRedactedItems xs

  pub IsRedactedItems : Items → Type 0
  IsRedactedItems no_items = Unit {0}
  IsRedactedItems (item x xs) = IsRedacted x × IsRedactedItems xs

  pub IsRedactedFields : Fields → Type 0
  IsRedactedFields no_fields = Unit {0}
  IsRedactedFields (field k v fs) =
      (sensitive_key k ≡ true → v ≡ text_value redacted_value) × IsRedacted v × IsRedactedFields fs

-- A key whose name sanitize does not change.
abbrev pub IsFixed : Text → Type 0
IsFixed k = sanitize k ≡ k

abbrev AnyText : Text → Type 0
AnyText t = Unit {0}

redact_value-sensitive :
    (v : Value) (key : Text)
    → sensitive_key key ≡ true
    → redact_value v key ≡ text_value redacted_value
unfolding redact_value
redact_value-sensitive nil_value key h = rw h
redact_value-sensitive nil_object key h = rw h
redact_value-sensitive (text_value t) key h = rw h
redact_value-sensitive (scalar x) key h = rw h
redact_value-sensitive (unsupported n) key h = rw h
redact_value-sensitive (object fs) key h = rw h
redact_value-sensitive (array xs) key h = rw h

if-IsRedacted :
    (b : Bool) (v : Value) → IsRedacted v → IsRedacted (if b then text_value redacted_value else v)
if-IsRedacted true v h = tt
if-IsRedacted false v h = h

put_field-IsRedacted :
    (key : Text) (v : Value) (fs : Fields)
    → (sensitive_key key ≡ true → v ≡ text_value redacted_value)
    → IsRedacted v
    → IsRedactedFields fs
    → IsRedactedFields (put_field key v fs)
unfolding put_field
put_field-IsRedacted key v no_fields hk hv h = (hk, hv, tt)
put_field-IsRedacted key v (field k w rest) hk hv h = elim (Bool-cases (text_eq k key)) [
  | inl same ↦ rw same (λ s. hk (rw ((text_eq_iff k key).0 same) at s), hv, h.2)
  | inr other ↦ rw other (h.0, h.1, put_field-IsRedacted key v rest hk hv h.2)
]

mutual
  unfolding redact_value

  value-IsRedacted :
      (v : Value) (key : Text) → Every IsFixed AnyText v → IsRedacted (redact_value v key)
  value-IsRedacted nil_value key h = if-IsRedacted (sensitive_key key) nil_value tt
  value-IsRedacted nil_object key h = if-IsRedacted (sensitive_key key) nil_object tt
  value-IsRedacted (text_value t) key h =
      if-IsRedacted (sensitive_key key) (text_value (sanitize t)) tt
  value-IsRedacted (scalar x) key h = if-IsRedacted (sensitive_key key) (scalar x) tt
  value-IsRedacted (unsupported n) key h = if-IsRedacted (sensitive_key key) (unsupported n) tt
  value-IsRedacted (object fs) key h =
      if-IsRedacted (sensitive_key key) (object (redact_fields fs no_fields))
        (fields-IsRedacted fs no_fields h tt)
  value-IsRedacted (array xs) key h =
      if-IsRedacted (sensitive_key key) (array (redact_items xs key)) (items-IsRedacted xs key h)

  items-IsRedacted :
      (xs : Items) (key : Text)
      → EveryItems IsFixed AnyText xs
      → IsRedactedItems (redact_items xs key)
  items-IsRedacted no_items key h = tt
  items-IsRedacted (item x xs) key h = (value-IsRedacted x key h.0, items-IsRedacted xs key h.1)

  fields-IsRedacted :
      (fs acc : Fields)
      → EveryFields IsFixed AnyText fs
      → IsRedactedFields acc
      → IsRedactedFields (redact_fields fs acc)
  fields-IsRedacted no_fields acc h k = k
  fields-IsRedacted (field key v rest) acc h k =
      fields-IsRedacted rest (put_field (sanitize key) (redact_value v key) acc) h.2 (
        put_field-IsRedacted (sanitize key) (redact_value v key) acc
          (λ s. redact_value-sensitive v key (rw h.0 at s)) (value-IsRedacted v key h.1) k)

-- In the redacted form of a map whose keys, at every depth, are already in sanitized form,
-- whatever stands under a key that `sensitiveKey` matches is "[REDACTED]", at every depth.
pub redact_fields-IsRedacted :
    (fs : Fields) → EveryFields IsFixed AnyText fs → IsRedactedFields (redact_fields fs no_fields)
redact_fields-IsRedacted fs h = fields-IsRedacted fs no_fields h tt

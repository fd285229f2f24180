-- ===== src/Security/Redaction/Clean.antt =====
-- Every text that RedactEvent leaves in an event is valid and free of control characters.
use mathlib.Core.Bool.{Bool, true, false}
use mathlib.Core.Option.{Option, none, some}
use gologger.Prelude.{if◌then◌else◌}
use gologger.Text.{Text, trim_space, trim_left, trim_right, is_space}
use gologger.Text.Clean.{IsClean, strip_controls, sanitize_text, sanitize_text-IsClean}
use gologger.Contracts.{Event}
use gologger.Contracts.Value.{
  Value, nil_value, nil_object, text_value, scalar, unsupported, object, array, Items, no_items,
  item, Fields, no_fields, field, put_field,
}
use gologger.Contracts.Value.Every.{Every, EveryItems, EveryFields, EveryMap, put_field-Every}
use gologger.Security.Pattern.{replace_sensitive, redacted_value, sensitive_key}
use gologger.Security.Redaction.{
  sanitize, redact_value, redact_items, redact_fields, redact_map, redact_event,
}

-- Whatever the text, sanitize returns a clean one.
pub sanitize-IsClean : (s : Text) → IsClean (sanitize s)
unfolding sanitize
sanitize-IsClean s = sanitize_text-IsClean (replace_sensitive s)

IsClean-redacted_value : IsClean redacted_value
unfolding sanitize_text strip_controls trim_space trim_left trim_right is_space
IsClean-redacted_value = sanitize_text-IsClean redacted_value

if-Every :
    (b : Bool) (v : Value)
    → Every IsClean IsClean v
    → Every IsClean IsClean (if b then text_value redacted_value else v)
if-Every true v h = IsClean-redacted_value
if-Every false v h = h

mutual
  unfolding redact_value

  value-Every : (v : Value) (key : Text) → Every IsClean IsClean (redact_value v key)
  value-Every nil_value key = if-Every (sensitive_key key) nil_value tt
  value-Every nil_object key = if-Every (sensitive_key key) nil_object tt
  value-Every (text_value t) key =
      if-Every (sensitive_key key) (text_value (sanitize t)) (sanitize-IsClean t)
  value-Every (scalar x) key = if-Every (sensitive_key key) (scalar x) tt
  value-Every (unsupported n) key = if-Every (sensitive_key key) (unsupported n) tt
  value-Every (object fs) key =
      if-Every (sensitive_key key) (object (redact_fields fs no_fields))
        (fields-Every fs no_fields tt)
  value-Every (array xs) key =
      if-Every (sensitive_key key) (array (redact_items xs key)) (items-Every xs key)

  items-Every : (xs : Items) (key : Text) → EveryItems IsClean IsClean (redact_items xs key)
  items-Every no_items key = tt
  items-Every (item x xs) key = (value-Every x key, items-Every xs key)

  fields-Every :
      (fs acc : Fields)
      → EveryFields IsClean IsClean acc
      → EveryFields IsClean IsClean (redact_fields fs acc)
  fields-Every no_fields acc h = h
  fields-Every (field k v rest) acc h =
      fields-Every rest (put_field (sanitize k) (redact_value v k) acc) (
        put_field-Every IsClean IsClean (sanitize k) (redact_value v k) acc (sanitize-IsClean k)
          (value-Every v k) h)

-- After redactMap every key and every text, at any depth, is clean.
pub redact_map-Every : (m : Option Fields) → EveryMap IsClean IsClean (redact_map m)
unfolding redact_map
redact_map-Every none = tt
redact_map-Every (some fs) = fields-Every fs no_fields tt

-- An event whose texts, but for the identifier and the level, are clean.
pub record HasCleanTexts (event : Event) : Type 0 where
  pub service : IsClean event.service
  pub component : IsClean event.component
  pub event_type : IsClean event.event_type
  pub message : IsClean event.message
  pub code : IsClean event.code
  pub session_id : IsClean event.session_id
  pub user_id : IsClean event.user_id
  pub correlation_id : IsClean event.correlation_id
  pub trace_id : IsClean event.trace_id
  pub span_id : IsClean event.span_id

pub redact_event-HasCleanTexts : (event : Event) → HasCleanTexts (redact_event event)
unfolding redact_event
redact_event-HasCleanTexts event = record {
  service = sanitize-IsClean event.service;
  component = sanitize-IsClean event.component;
  event_type = sanitize-IsClean event.event_type;
  message = sanitize-IsClean event.message;
  code = sanitize-IsClean event.code;
  session_id = sanitize-IsClean event.session_id;
  user_id = sanitize-IsClean event.user_id;
  correlation_id = sanitize-IsClean event.correlation_id;
  trace_id = sanitize-IsClean event.trace_id;
  span_id = sanitize-IsClean event.span_id;
}

-- ===== src/Security/Redaction.antt =====
-- internal/security/redaction.go
pub mod Clean
pub mod Marked
pub mod Bypass
use Prim.Native.Nat.{ℕ}
use mathlib.Core.Bool.{Bool, true, false}
use mathlib.Core.Option
use mathlib.Core.Option.{Option, none, some}
use mathlib.Core.List.{List, [], ◌∷◌}
use gologger.Prelude.{if◌then◌else◌}
use gologger.Text.{Text}
use gologger.Text.Clean.{sanitize_text}
use gologger.Contracts.{Event}
use gologger.Contracts.Value.{
  Value, nil_value, nil_object, text_value, scalar, unsupported, object, array, Items, no_items,
  item, Fields, no_fields, field, put_field,
}
use gologger.Security.Pattern.{replace_sensitive, redacted_value, sensitive_key}

-- sanitize: the loop and the trimming are the same as in `sanitizeText`.
unfoldable pub sanitize : Text → Text
sanitize value = sanitize_text (replace_sensitive value)

-- redactValue, redactMap. A map is built by writes, so of two keys that are cleaned to the same
-- one the later entry wins. An array hands its key on to its items.
unfoldable mutual
  pub redact_value : Value → Text → Value
  redact_value nil_value key = if sensitive_key key then text_value redacted_value else nil_value
  redact_value nil_object key = if sensitive_key key then text_value redacted_value else nil_object
  redact_value (text_value t) key =
      if sensitive_key key then text_value redacted_value else text_value (sanitize t)
  redact_value (scalar x) key = if sensitive_key key then text_value redacted_value else scalar x
  redact_value (unsupported n) key =
      if sensitive_key key then text_value redacted_value else unsupported n
  redact_value (object fs) key =
      let redacted = redact_fields fs no_fields in
      if sensitive_key key then text_value redacted_value else object redacted
  redact_value (array xs) key =
      let redacted = redact_items xs key in
      if sensitive_key key then text_value redacted_value else array redacted

  pub redact_items : Items → Text → Items
  redact_items no_items key = no_items
  redact_items (item x xs) key = item (redact_value x key) (redact_items xs key)

  -- The loop of redactMap, over the map that it fills.
  pub redact_fields : Fields → Fields → Fields
  redact_fields no_fields redacted = redacted
  redact_fields (field key value rest) redacted =
      redact_fields rest (put_field (sanitize key) (redact_value value key) redacted)

unfoldable pub redact_map : Option Fields → Option Fields
redact_map none = none
redact_map (some values) = some (redact_fields values no_fields)

-- RedactEvent
unfoldable pub redact_event : Event → Event
redact_event event = record event {
  service = sanitize event.service;
  component = sanitize event.component;
  event_type = sanitize event.event_type;
  message = sanitize event.message;
  code = sanitize event.code;
  session_id = sanitize event.session_id;
  user_id = sanitize event.user_id;
  correlation_id = sanitize event.correlation_id;
  trace_id = sanitize event.trace_id;
  span_id = sanitize event.span_id;
  context = redact_map event.context;
  metadata = redact_map event.metadata;
}

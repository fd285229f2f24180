-- ===== src/EventProcessor.antt =====
-- internal/domain/services/event_processor.go: validation, normalization and enrichment of events.
-- The maps of an event are in EventProcessor/Metadata.
pub mod Errors
pub mod Metadata
pub mod Validation
pub mod Accepted
pub mod Kept
pub mod Prohibited
pub mod Utf8
use Prim.Native.Nat.{ℕ, zero, suc, ◌+◌, ◌*◌, ◌/◌, ◌%◌, ◌^◌}
use mathlib.Core.Bool.{Bool, true, false, ◌&&◌, not}
use mathlib.Core.Option.{Option, none, some}
use mathlib.Core.List.{List, [], ◌∷◌, ◌++◌, flat_map}
use gologger.Prelude.{ltb, ◌==◌, if◌then◌else◌}
use gologger.Result.{Result, ok, err, ◌>>=◌, ◌>>◌, fail_if}
use gologger.Text.{
  Text, codes, is_empty, text_eq, mem_text, valid_string, rune_count, trim_space, Unicode, to_lower,
}
use gologger.Text.Clean.{sanitize_text}
use gologger.Context.{ContextError}
use gologger.Text.Decimal.{decimal}
use gologger.Contracts.{
  Event, level_trace, level_debug, level_info, level_warn, level_error, level_fatal,
  level_information, level_warning,
}
use gologger.Clock.{Time, is_zero, before_2000, utc}
use gologger.Security.Redaction.{redact_event}
use gologger.EventProcessor.Errors.{
  Error, invalid_utf8, missing_required_field, unsupported_event_level, too_long, invalid_timestamp,
  context_error,
}
use gologger.EventProcessor.Metadata.{sanitize_map}
use gologger.EventProcessor.Metadata.Size.{validate_metadata_size}

abbrev pub max_service_length : ℕ
max_service_length = 128

abbrev pub max_component_length : ℕ
max_component_length = 128

abbrev pub max_event_type_length : ℕ
max_event_type_length = 128

abbrev pub max_message_length : ℕ
max_message_length = 4096

abbrev pub canonical_levels : List Text
canonical_levels =
    level_trace ∷ level_debug ∷ level_info ∷ level_warn ∷ level_error ∷ level_fatal ∷ []

-- A level that the switch of validateEvent lets through.
unfoldable pub is_canonical : Text → Bool
is_canonical level = mem_text level canonical_levels

-- encoding/hex
abbrev hex_digit : ℕ → ℕ
hex_digit n = if ltb n 10 then b'0' + n else 87 + n

abbrev hex_byte : ℕ → Text
hex_byte b = hex_digit (b / 16) ∷ hex_digit (b % 16) ∷ []

unfoldable pub hex_encode : List ℕ → Text
hex_encode [] = []
hex_encode (b ∷ bs) = hex_byte b ++ hex_encode bs

-- What the environment supplies to a call: the time, the bytes that crypto/rand reads (`none` for
-- an error), and the clock of the fallback.
pub record Environment : Type 0 where
  pub now : Time
  pub random : Option (List ℕ)
  pub unix_nano : ℕ

-- generateEventID; an int64 has at most 19 digits.
unfoldable pub generate_event_id : Environment → Text
generate_event_id env = elim env.random [
  | none ↦ codes "evt-" ++ decimal 19 env.unix_nano
  | some buffer ↦ codes "evt-" ++ hex_encode buffer
]

abbrev pub RequiredField : Type 0
RequiredField = Text × Text × ℕ

abbrev pub required_fields : Event → List RequiredField
required_fields event =
    (codes "service", event.service, max_service_length)
    ∷ (codes "eventType", event.event_type, max_event_type_length)
    ∷ (codes "message", event.message, max_message_length)
    ∷ []

-- The loop over `requiredFields`.
unfoldable pub check_fields : List RequiredField → Result Error (Unit {0})
check_fields [] = ok tt
check_fields ((name, value, limit) ∷ rest) = do
  fail_if (is_empty (trim_space value)) (missing_required_field name)
  fail_if (ltb limit (rune_count value)) (too_long name)
  check_fields rest

module _ (u : Unicode) where
  unfoldable pub map_event_level : Text → Text
  map_event_level level =
      let name = to_lower u (trim_space level) in
      if text_eq name level_information
      then level_info
      else if text_eq name level_warning
      then level_warn
      else name

  -- The switch of validateEvent.
  unfoldable pub check_level : Text → Result Error (Unit {0})
  check_level level =
      if is_canonical (map_event_level level)
      then ok tt
      else if is_empty level
      then err (missing_required_field (codes "level"))
      else err (unsupported_event_level level)

  unfoldable pub validate_event : Event → Result Error (Unit {0})
  validate_event event = do
    fail_if
        (not (
          valid_string event.level
          && valid_string event.service
          && valid_string event.event_type
          && valid_string event.message))
        invalid_utf8
    check_level event.level
    check_fields (required_fields event)
    fail_if (ltb max_component_length (rune_count event.component)) (too_long (codes "component"))
    fail_if (not (is_zero event.timestamp) && before_2000 event.timestamp) invalid_timestamp

  -- The assignments of ProcessEvent between validation and the maps.
  unfoldable pub normalize : Environment → Event → Event
  normalize env event = record event {
    level = map_event_level event.level;
    event_id = if is_empty event.event_id then generate_event_id env else event.event_id;
    timestamp = if is_zero event.timestamp then utc env.now else utc event.timestamp;
    service = sanitize_text event.service;
    component = sanitize_text event.component;
    event_type = sanitize_text event.event_type;
    message = sanitize_text event.message;
    code = sanitize_text event.code;
    session_id = sanitize_text event.session_id;
    user_id = sanitize_text event.user_id;
    correlation_id = sanitize_text event.correlation_id;
    trace_id = sanitize_text event.trace_id;
    span_id = sanitize_text event.span_id;
  }

  -- ProcessEvent behind the redaction.
  unfoldable pub process_redacted : Environment → Event → Result Error Event
  process_redacted env event = do
    validate_event event
    let normalized = normalize env event
    context ← sanitize_map u normalized.context 0
    metadata ← sanitize_map u normalized.metadata 0
    validate_metadata_size context metadata
    ok (record normalized { context = context; metadata = metadata })

  unfoldable pub process_event : Environment → Event → Result Error Event
  process_event env event = process_redacted env (redact_event event)

  -- EventProcessorService.Process, with what `ctx.Err()` returns.
  unfoldable pub process : Option ContextError → Environment → Event → Result Error Event
  process (some e) env event = err (context_error e)
  process none env event = process_event env event

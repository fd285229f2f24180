-- ===== src/EventProcessor/Accepted.antt =====
-- What holds of an event that ProcessEvent returns.
use Prim.Native.Nat.{ℕ, ◌≤◌}
use mathlib.Core.Path.{◌≡◌, refl}
use mathlib.Core.Logic.{inl, inr}
use mathlib.Core.Bool.{true, false}
use mathlib.Core.Option.{Option, some}
use mathlib.Core.List.{[], ◌∷◌}
use native.Mathlib.Omega.{arith}
use gologger.Prelude.{ltb, if◌then◌else◌, Option-cases}
use gologger.Result.{ok, err, >>=-eq-ok, ok_inj}
use gologger.Text.{Text, is_empty, rune_count, Unicode}
use gologger.Text.Clean.{IsClean, sanitize_text-IsClean, sanitize_text_id}
use gologger.Contracts.{Event}
use gologger.Clock.{Time, is_zero, utc}
use gologger.Contracts.Value.{Fields}
use gologger.Contracts.Value.Every.{EveryMap}
use gologger.Contracts.Value.Depth.{map_depth}
use gologger.Security.Redaction.{redact_event}
use gologger.Security.Redaction.Clean.{redact_map-Every, HasCleanTexts, redact_event-HasCleanTexts}
use gologger.EventProcessor.Errors.{metadata_too_large}
use gologger.EventProcessor.Metadata.{sanitize_map, max_map_depth}
use gologger.EventProcessor.Metadata.Size.{payload_size, validate_metadata_size, max_metadata_bytes}
use gologger.EventProcessor.Metadata.Depth.{sanitize_map-depth-le}
use gologger.EventProcessor.Metadata.Keys.{IsAllowed, sanitize_map-IsAllowed}
use gologger.EventProcessor.Validation.{IsFilled, IsValid, validate_event_iff}
use gologger.EventProcessor.{
  Environment, max_service_length, max_component_length, max_event_type_length, max_message_length,
  is_canonical, generate_event_id, validate_event, normalize, process_redacted, process_event,
}

-- The JSON form of the two maps exists and is within the limit.
abbrev pub FitsPayload : Option Fields → Option Fields → Type 0
FitsPayload context metadata =
    (n : ℕ) × (payload_size context metadata ≡ some n) × (n ≤ max_metadata_bytes)

validate_metadata_size-FitsPayload :
    (context metadata : Option Fields) (x : Unit {0})
    → validate_metadata_size context metadata ≡ ok x
    → FitsPayload context metadata
unfolding validate_metadata_size
validate_metadata_size-FitsPayload context metadata x e =
    elim (Option-cases (payload_size context metadata)) [
      | inl missing ↦ cc (rw (missing, validate_metadata_size) at e)
      | inr (n, found) ↦ (n, found, small n (rw (found, validate_metadata_size) at e))
    ]
  where
    small :
        (n : ℕ)
        → (if ltb max_metadata_bytes n then err metadata_too_large else ok tt) ≡ ok x
        → n ≤ max_metadata_bytes
    small n e = ground arith

-- The event that ProcessEvent returns with these maps.
abbrev pub with_maps : Event → Option Fields → Option Fields → Event
with_maps event context metadata = record event { context = context; metadata = metadata }

-- The parts of a successful call behind the redaction.
pub record Parts (u : Unicode) (env : Environment) (event result : Event) : Type 0 where
  pub new_context : Option Fields
  pub new_metadata : Option Fields
  pub valid : IsValid u event
  pub context : sanitize_map u event.context 0 ≡ ok new_context
  pub metadata : sanitize_map u event.metadata 0 ≡ ok new_metadata
  pub fits : FitsPayload new_context new_metadata
  pub returned : with_maps (normalize u env event) new_context new_metadata ≡ result

pub process_redacted-Parts :
    (u : Unicode) (env : Environment) (event result : Event)
    → process_redacted u env event ≡ ok result
    → Parts u env event result
unfolding process_redacted normalize
process_redacted-Parts u env event result e =
    let (x, a, e1) = >>=-eq-ok (validate_event u event) _ e in
    let (c, b, e2) = >>=-eq-ok (sanitize_map u event.context 0) _ e1 in
    let (m, d, e3) = >>=-eq-ok (sanitize_map u event.metadata 0) _ e2 in
    let (y, f, e4) = >>=-eq-ok (validate_metadata_size c m) _ e3 in
    record {
      new_context = c;
      new_metadata = m;
      valid = (validate_event_iff u event).0 a;
      context = b;
      metadata = d;
      fits = validate_metadata_size-FitsPayload c m y f;
      returned = ok_inj e4;
    }

pub record IsAccepted (u : Unicode) (event : Event) : Type 0 where
  pub level : is_canonical event.level ≡ true
  pub identified : is_empty event.event_id ≡ false
  pub dated : is_zero event.timestamp ≡ false
  pub east : event.timestamp.east ≡ 0
  pub west : event.timestamp.west ≡ 0
  pub service : IsFilled max_service_length event.service
  pub event_type : IsFilled max_event_type_length event.event_type
  pub message : IsFilled max_message_length event.message
  pub component : rune_count event.component ≤ max_component_length
  pub texts : HasCleanTexts event
  pub context : EveryMap (IsAllowed u) IsClean event.context
  pub metadata : EveryMap (IsAllowed u) IsClean event.metadata
  pub context_depth : map_depth event.context ≤ max_map_depth
  pub metadata_depth : map_depth event.metadata ≤ max_map_depth
  pub payload : FitsPayload event.context event.metadata

generate_event_id-filled : (env : Environment) → is_empty (generate_event_id env) ≡ false
unfolding generate_event_id
generate_event_id-filled env = elim (Option-cases env.random) [
  | inl e ↦ rw (e, generate_event_id) refl
  | inr (buffer, e) ↦ rw (e, generate_event_id) refl
]

identified_step :
    (id generated : Text)
    → is_empty generated ≡ false
    → is_empty (if is_empty id then generated else id) ≡ false
identified_step [] generated h = h
identified_step (c ∷ id) generated h = refl

dated_step :
    (now given : Time)
    → is_zero now ≡ false
    → (is_zero (if is_zero given then utc now else utc given) ≡ false)
      × ((if is_zero given then utc now else utc given).east ≡ 0)
      × ((if is_zero given then utc now else utc given).west ≡ 0)
dated_step now given h = ground arith

module _ (u : Unicode) (env : Environment) (clock : is_zero env.now ≡ false) where
  normalized-IsAccepted :
      (event result : Event)
      → HasCleanTexts event
      → EveryMap IsClean IsClean event.context
      → EveryMap IsClean IsClean event.metadata
      → Parts u env event result
      → IsAccepted u result
  unfolding normalize
  normalized-IsAccepted event result t hc hm p =
      let v = p.valid in
      let filled =
        identified_step event.event_id (generate_event_id env) (generate_event_id-filled env) in
      let dates = dated_step env.now event.timestamp clock in
      rw (← p.returned) (record {
        level = v.level;
        identified = filled;
        dated = dates.0;
        east = dates.1;
        west = dates.2;
        service = rw (sanitize_text_id event.service t.service) v.service;
        event_type = rw (sanitize_text_id event.event_type t.event_type) v.event_type;
        message = rw (sanitize_text_id event.message t.message) v.message;
        component = rw (sanitize_text_id event.component t.component) v.component;
        texts = record {
          service = sanitize_text-IsClean event.service;
          component = sanitize_text-IsClean event.component;
          event_type = sanitize_text-IsClean event.event_type;
          message = sanitize_text-IsClean event.message;
          code = sanitize_text-IsClean event.code;
          session_id = sanitize_text-IsClean event.session_id;
          user_id = sanitize_text-IsClean event.user_id;
          correlation_id = sanitize_text-IsClean event.correlation_id;
          trace_id = sanitize_text-IsClean event.trace_id;
          span_id = sanitize_text-IsClean event.span_id;
        };
        context = sanitize_map-IsAllowed u event.context p.new_context hc p.context;
        metadata = sanitize_map-IsAllowed u event.metadata p.new_metadata hm p.metadata;
        context_depth = sanitize_map-depth-le u event.context p.new_context p.context;
        metadata_depth = sanitize_map-depth-le u event.metadata p.new_metadata p.metadata;
        payload = p.fits;
      })

-- With a clock that does not show the zero time, every event that ProcessEvent returns has a
-- canonical level, an identifier, a timestamp that is not zero and in UTC, a service, an event type
-- and a message that are not blank and within their limits, a component within its limit, and
-- clean texts; its maps hold clean texts under clean keys none of which is prohibited, at any
-- depth, are nested at most 8 deep, and have together a JSON form of at most 65536 bytes.
pub process_event-IsAccepted :
    (u : Unicode) (env : Environment) (event result : Event)
    → is_zero env.now ≡ false
    → process_event u env event ≡ ok result
    → IsAccepted u result
unfolding process_event redact_event
process_event-IsAccepted u env event result clock e =
    normalized-IsAccepted u env clock (redact_event event) result (redact_event-HasCleanTexts event)
      (redact_map-Every event.context) (redact_map-Every event.metadata)
      (process_redacted-Parts u env (redact_event event) result e)

-- ===== src/EventProcessor/Kept.antt =====
-- How the event that ProcessEvent returns depends on the one that it was given.
use mathlib.Core.Path.{◌≡◌, refl}
use gologger.Prelude.{if◌then◌else◌}
use gologger.Result.{ok}
use gologger.Text.{is_empty, Unicode}
use gologger.Text.Clean.{sanitize_text_id}
use gologger.Contracts.{Event}
use gologger.Clock.{is_zero, utc}
use gologger.Security.Redaction.{sanitize, redact_event}
use gologger.Security.Redaction.Clean.{redact_event-HasCleanTexts}
use gologger.EventProcessor.Accepted.{process_redacted-Parts}
use gologger.EventProcessor.{
  Environment, map_event_level, generate_event_id, normalize, process_event,
}

pub record IsProcessed (u : Unicode) (env : Environment) (event result : Event) : Type 0 where
  pub event_id :
      result.event_id ≡ (if is_empty event.event_id then generate_event_id env else event.event_id)
  pub timestamp :
      result.timestamp ≡ (if is_zero event.timestamp then utc env.now else utc event.timestamp)
  pub level : result.level ≡ map_event_level u event.level
  pub service : result.service ≡ sanitize event.service
  pub component : result.component ≡ sanitize event.component
  pub event_type : result.event_type ≡ sanitize event.event_type
  pub message : result.message ≡ sanitize event.message
  pub code : result.code ≡ sanitize event.code
  pub session_id : result.session_id ≡ sanitize event.session_id
  pub user_id : result.user_id ≡ sanitize event.user_id
  pub correlation_id : result.correlation_id ≡ sanitize event.correlation_id
  pub trace_id : result.trace_id ≡ sanitize event.trace_id
  pub span_id : result.span_id ≡ sanitize event.span_id

-- The texts of a returned event are the redacted texts of the given one: sanitizeText changes
-- nothing that RedactEvent has left. A given identifier and a given instant are kept.
pub process_event-IsProcessed :
    (u : Unicode) (env : Environment) (event result : Event)
    → process_event u env event ≡ ok result
    → IsProcessed u env event result
unfolding process_event redact_event normalize
process_event-IsProcessed u env event result e =
    let t = redact_event-HasCleanTexts event in
    let p = process_redacted-Parts u env (redact_event event) result e in
    rw (← p.returned) (record {
      event_id = refl;
      timestamp = refl;
      level = refl;
      service = sanitize_text_id (sanitize event.service) t.service;
      component = sanitize_text_id (sanitize event.component) t.component;
      event_type = sanitize_text_id (sanitize event.event_type) t.event_type;
      message = sanitize_text_id (sanitize event.message) t.message;
      code = sanitize_text_id (sanitize event.code) t.code;
      session_id = sanitize_text_id (sanitize event.session_id) t.session_id;
      user_id = sanitize_text_id (sanitize event.user_id) t.user_id;
      correlation_id = sanitize_text_id (sanitize event.correlation_id) t.correlation_id;
      trace_id = sanitize_text_id (sanitize event.trace_id) t.trace_id;
      span_id = sanitize_text_id (sanitize event.span_id) t.span_id;
    })

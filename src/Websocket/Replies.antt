-- ===== src/Websocket/Replies.antt =====
-- The reply to an event: sendError, sendEventSubmissionError and the results in handleEvent, of
-- internal/adapters/websocket/connection.go.
use mathlib.Core.Option.{none, some}
use gologger.Prelude.{if◌then◌else◌}
use gologger.Text.{Text}
use gologger.Clock.{Time, utc}
use gologger.Websocket.Worker.{EventResult}
use gologger.Websocket.Message.{
  type_ack, type_error, status_accepted, code_storage_unavailable, code_internal, OutboundMessage,
  ack_message, error_message,
}
use gologger.Websocket.Protocol.{
  queue_full, handler_closed, GoError, is_error, protocol_error, public_error_message,
}

-- The message of sendError and writeError.
abbrev pub error_of : Text → Text → OutboundMessage
error_of request_id code = error_message (record {
  message_type = type_error;
  request_id = request_id;
  code = code;
  message = public_error_message code;
})

-- What becomes of an event: Submit refuses it; or its channel has a result, is closed, or has nothing
-- for writeWait.
pub data Submission : Type 0 where
  refused : GoError → Submission
  outcome : EventResult GoError → Submission
  channel_closed timed_out : Submission

-- The code of sendEventSubmissionError.
unfoldable pub submission_code : GoError → Text
submission_code e =
    if is_error e queue_full
    then code_storage_unavailable
    else if is_error e handler_closed
    then code_storage_unavailable
    else protocol_error e

abbrev pub outcome_reply : Text → EventResult GoError → Time → OutboundMessage
outcome_reply request_id result now = elim result.failure [
  | some e ↦ error_of request_id (protocol_error e)
  | none ↦ ack_message (record {
    message_type = type_ack;
    request_id = request_id;
    event_id = result.event.event_id;
    status = status_accepted;
    timestamp = utc now;
  })
]

abbrev pub reply_to : Text → Submission → Time → OutboundMessage
reply_to request_id (refused e) now = error_of request_id (submission_code e)
reply_to request_id (outcome result) now = outcome_reply request_id result now
reply_to request_id channel_closed now = error_of request_id code_internal
reply_to request_id timed_out now = error_of request_id code_internal

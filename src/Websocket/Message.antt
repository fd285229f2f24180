-- ===== src/Websocket/Message.antt =====
-- The messages of the WebSocket protocol: internal/contracts/message.go.
use gologger.Text.{Text, codes}
use gologger.Clock.{Time}
use gologger.Contracts.{Event, EventFilter}

abbrev pub type_hello : Text
type_hello = codes "hello"

abbrev pub type_ready : Text
type_ready = codes "ready"

abbrev pub type_event : Text
type_event = codes "event"

abbrev pub type_ack : Text
type_ack = codes "ack"

abbrev pub type_error : Text
type_error = codes "error"

abbrev pub type_subscribe : Text
type_subscribe = codes "subscribe"

abbrev pub mode_producer : Text
mode_producer = codes "producer"

abbrev pub mode_monitor : Text
mode_monitor = codes "monitor"

pub record HelloMessage : Type 0 where
  pub message_type : Text
  pub mode : Text
  pub client : Text
  pub version : Text

pub record ReadyMessage : Type 0 where
  pub message_type : Text
  pub connection_id : Text
  pub mode : Text
  pub server_time : Time

pub record EventMessage : Type 0 where
  pub message_type : Text
  pub request_id : Text
  pub event : Event

pub record AckMessage : Type 0 where
  pub message_type : Text
  pub request_id : Text
  pub event_id : Text
  pub status : Text
  pub timestamp : Time

pub record ErrorMessage : Type 0 where
  pub message_type : Text
  pub request_id : Text
  pub code : Text
  pub message : Text

pub record SubscribeMessage : Type 0 where
  pub message_type : Text
  pub request_id : Text
  pub filters : EventFilter

abbrev pub status_accepted : Text
status_accepted = codes "accepted"

abbrev pub unauthorized : Text
unauthorized = codes "UNAUTHORIZED"

abbrev pub forbidden : Text
forbidden = codes "FORBIDDEN"

abbrev pub code_invalid_json : Text
code_invalid_json = codes "INVALID_JSON"

abbrev pub code_invalid_message : Text
code_invalid_message = codes "INVALID_MESSAGE"

abbrev pub code_invalid_event : Text
code_invalid_event = codes "INVALID_EVENT"

abbrev pub code_unsupported_event_level : Text
code_unsupported_event_level = codes "UNSUPPORTED_EVENT_LEVEL"

abbrev pub code_missing_required_field : Text
code_missing_required_field = codes "MISSING_REQUIRED_FIELD"

abbrev pub code_storage_unavailable : Text
code_storage_unavailable = codes "STORAGE_UNAVAILABLE"

abbrev pub code_internal : Text
code_internal = codes "INTERNAL_ERROR"

-- What the server sends.
pub data OutboundMessage : Type 0 where
  ready_message : ReadyMessage → OutboundMessage
  event_message : EventMessage → OutboundMessage
  ack_message : AckMessage → OutboundMessage
  error_message : ErrorMessage → OutboundMessage

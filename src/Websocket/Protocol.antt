-- ===== src/Websocket/Protocol.antt =====
-- decodeMessage of internal/adapters/websocket/protocol.go, and what handler.go makes of errors.
pub mod Decoded
use Prim.Native.Nat.{ℕ}
use mathlib.Core.Bool.{Bool, true, false, ◌&&◌, ◌||◌, not}
use mathlib.Core.Option.{Option, none, some}
use mathlib.Core.List.{List, [], ◌∷◌, ◌++◌}
use gologger.Prelude.{◌==◌, if◌then◌else◌}
use gologger.Result.{Result, ok, err}
use gologger.Text.{Text, text_eq, codes}
use gologger.GoMap.{GoMap, lookup}
use gologger.Websocket.Message.{
  type_hello, type_event, type_subscribe, HelloMessage, EventMessage, SubscribeMessage,
  unauthorized, forbidden, code_invalid_json, code_invalid_message, code_invalid_event,
  code_unsupported_event_level, code_missing_required_field, code_storage_unavailable,
  code_internal,
}

abbrev pub Bytes : Type 0
Bytes = List ℕ

-- The error values that errors.Is is asked for.
pub data Sentinel : Type 0 where
  invalid_json invalid_message unsupported_type queue_full handler_closed : Sentinel

abbrev number : Sentinel → ℕ
number invalid_json = 0
number invalid_message = 1
number unsupported_type = 2
number queue_full = 3
number handler_closed = 4

-- An error: the value that it wraps, if one of these, and its text.
pub record GoError : Type 0 where
  pub wrapped : Option Sentinel
  pub text : Text

-- errors.Is
abbrev pub is_error : GoError → Sentinel → Bool
is_error e sentinel = elim e.wrapped [ none ↦ false | some other ↦ number other == number sentinel ]

-- errors.New
abbrev pub new_error : Text → GoError
new_error text = record { wrapped = none; text = text }

-- fmt.Errorf with %w
abbrev pub wrap : Sentinel → Text → GoError
wrap sentinel text = record { wrapped = some sentinel; text = text }

-- What is used of encoding/json; an error is its text. Keys that the types do not have are errors of
-- the three last.
pub record Json : Type 0 where
  pub decode_object : Bytes → Result Text (GoMap Bytes)
  pub decode_type : Bytes → Option Text
  pub decode_hello : Bytes → Result Text HelloMessage
  pub decode_event : Bytes → Result Text EventMessage
  pub decode_subscribe : Bytes → Result Text SubscribeMessage

-- The pointer that decodeMessage returns as a value of type any.
pub data Payload : Type 0 where
  hello : HelloMessage → Payload
  event : EventMessage → Payload
  subscribe : SubscribeMessage → Payload

abbrev pub as_payload {ℓ} :
    {A : Type ℓ} → Text → (A → Payload) → Result Text A → Result GoError (Text × Payload)
as_payload message_type payload (err text) =
    err (wrap invalid_message (codes "invalid protocol message: " ++ text))
as_payload message_type payload (ok message) = ok (message_type, payload message)

module _ (json : Json) where
  abbrev pub decode_typed : Text → Bytes → Result GoError (Text × Payload)
  decode_typed message_type data_ =
      if text_eq message_type type_hello
      then as_payload message_type hello (json.decode_hello data_)
      else if text_eq message_type type_event
      then as_payload message_type event (json.decode_event data_)
      else if text_eq message_type type_subscribe
      then as_payload message_type subscribe (json.decode_subscribe data_)
      else err (wrap unsupported_type (codes "unsupported message type: " ++ message_type))

  abbrev pub with_type : Option Text → Bytes → Result GoError (Text × Payload)
  with_type none data_ = err (wrap invalid_message (codes "invalid protocol message: invalid type"))
  with_type (some message_type) data_ = decode_typed message_type data_

  abbrev pub type_value : Option Bytes → Bytes → Result GoError (Text × Payload)
  type_value none data_ =
      err (wrap invalid_message (codes "invalid protocol message: missing type"))
  type_value (some value) data_ = with_type (json.decode_type value) data_

  abbrev pub decode_raw : Result Text (GoMap Bytes) → Bytes → Result GoError (Text × Payload)
  decode_raw (err text) data_ = err (wrap invalid_json (codes "invalid JSON: " ++ text))
  decode_raw (ok []) data_ = err (wrap invalid_message (codes "invalid protocol message"))
  decode_raw (ok (entry ∷ raw)) data_ = type_value (lookup (codes "type") (entry ∷ raw)) data_

  unfoldable pub decode_message : Bytes → Result GoError (Text × Payload)
  decode_message data_ = decode_raw (json.decode_object data_) data_

  -- socket.ReadMessage fails, or returns a message and whether it is a text message.
  abbrev pub read_protocol_message : Result GoError (Bool × Bytes) → Result GoError (Text × Payload)
  read_protocol_message (err failure) = err failure
  read_protocol_message (ok (false, data_)) =
      err (new_error (codes "only text messages are supported"))
  read_protocol_message (ok (true, data_)) = decode_message data_

abbrev pub starts_with : Text → Text → Bool
starts_with [] s = true
starts_with (c ∷ part) [] = false
starts_with (c ∷ part) (d ∷ s) = c == d && starts_with part s

-- strings.Contains(s, part)
unfoldable pub contains : Text → Text → Bool
contains part [] = starts_with part []
contains part (c ∷ s) = starts_with part (c ∷ s) || contains part s

unfoldable pub protocol_error : GoError → Text
protocol_error e =
    if is_error e invalid_json
    then code_invalid_json
    else if is_error e invalid_message
    then code_invalid_message
    else if is_error e unsupported_type
    then code_invalid_message
    else if contains (codes "first message") e.text
    then code_invalid_message
    else if contains (codes "required") e.text
    then code_missing_required_field
    else code_internal

unfoldable pub public_error_message : Text → Text
public_error_message code =
    if text_eq code unauthorized
    then codes "authentication failed"
    else if text_eq code forbidden
    then codes "access denied"
    else if text_eq code code_invalid_json
    then codes "message contains invalid JSON"
    else if text_eq code code_invalid_message
    then codes "message is invalid"
    else if text_eq code code_missing_required_field
    then codes "a required field is missing"
    else if text_eq code code_storage_unavailable
    then codes "event could not be persisted"
    else if text_eq code code_unsupported_event_level
    then codes "event level is not supported"
    else if text_eq code code_invalid_event
    then codes "event is invalid"
    else codes "request could not be processed"

-- ===== src/Websocket/Greeting.antt =====
-- performHandshake and newConnectionID of internal/adapters/websocket/connection.go.
use Prim.Native.Nat.{◌/◌, ◌%◌}
use mathlib.Core.Bool.{Bool, true, not}
use mathlib.Core.Option.{Option, none, some}
use mathlib.Core.List.{List, [], ◌∷◌, ◌++◌}
use gologger.Prelude.{if◌then◌else◌}
use gologger.Result.{Result, ok, err}
use gologger.Text.{Text, text_eq, is_empty, trim_space, codes}
use gologger.Clock.{Time, utc, day, second}
use gologger.Text.Decimal.{padded}
use gologger.Storage.Week.{format_date}
use gologger.Websocket.Message.{
  type_hello, type_ready, mode_producer, mode_monitor, HelloMessage, OutboundMessage, ready_message,
}
use gologger.Websocket.Protocol.{GoError, new_error, Payload, hello, event, subscribe}

-- newConnectionID: the time in UTC, as Format("20060102T150405.000000000").
unfoldable pub new_connection_id : Time → Text
new_connection_id now =
    let t = now.instant in
    let seconds = t % day / second in
    format_date t
    ++ codes "T"
    ++ padded 2 (seconds / 3600)
    ++ padded 2 (seconds / 60 % 60)
    ++ padded 2 (seconds % 60)
    ++ codes "."
    ++ padded 9 (t % second)

-- ConnectionID and ServerTime are of the same clock.
unfoldable pub ready_of : HelloMessage → Text → Time → OutboundMessage
ready_of message id now = ready_message (record {
  message_type = type_ready;
  connection_id = id;
  mode = message.mode;
  server_time = utc now;
})

-- A connection mode that the handshake accepts.
abbrev pub is_mode : Text → Bool
is_mode mode = if text_eq mode mode_producer then true else text_eq mode mode_monitor

-- `failure` is what the encoding or the writing of the ready message returns.
abbrev pub greet :
    Payload → Text → Time → Option GoError → Result GoError HelloMessage × List OutboundMessage
greet (event message) id now failure = (err (new_error (codes "invalid hello message")), [])
greet (subscribe message) id now failure = (err (new_error (codes "invalid hello message")), [])
greet (hello message) id now failure =
    if is_empty (trim_space message.client)
    then (err (new_error (codes "client is required")), [])
    else if not (is_mode message.mode)
    then (err (new_error (codes "unsupported connection mode")), [])
    else elim failure [ some e ↦ (err e, []) | none ↦ (ok message, ready_of message id now ∷ []) ]

-- What it returns, and what it has written.
unfoldable pub perform_handshake :
    Result GoError (Text × Payload)
    → Text
    → Time
    → Option GoError
    → Result GoError HelloMessage × List OutboundMessage
perform_handshake (err e) id now failure = (err e, [])
perform_handshake (ok (message_type, payload)) id now failure =
    if not (text_eq message_type type_hello)
    then (err (new_error (codes "first message must be hello")), [])
    else greet payload id now failure

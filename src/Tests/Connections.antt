-- ===== src/Tests/Connections.antt =====
-- A connection at concrete frames, with a decoder of one-letter messages.
use Prim.Native.Nat.{◌≤◌}
use mathlib.Core.Path.{◌≡◌, refl}
use mathlib.Core.Logic.{◌↔◌}
use mathlib.Core.Bool.{Bool, true, false}
use mathlib.Core.Option.{none, some}
use mathlib.Core.List.{List, [], ◌∷◌, ◌++◌}
use native.Mathlib.Omega.{arith}
use gologger.Prelude.{if◌then◌else◌, All, length, Subsequence}
use gologger.Result.{Result, ok, err}
use gologger.Text.{text_eq, is_empty, codes, trim_space, trim_left, trim_right, is_space}
use gologger.GoMap.{lookup}
use gologger.Websocket.Message.{
  type_hello, type_event, mode_producer, HelloMessage, EventMessage, OutboundMessage, code_internal,
}
use gologger.Websocket.Protocol.{
  Bytes, GoError, new_error, Json, hello, decode_message, read_protocol_message,
}
use gologger.Websocket.Protocol.Decoded.{IsDecoded, code_of, decode_message-IsDecoded}
use gologger.Websocket.Greeting.{ready_of, perform_handshake}
use gologger.Websocket.Replies.{outcome, timed_out, error_of}
use gologger.Websocket.Connection.{
  act_all, Connection, new_connection, Action, reads, pumps, returns, begin, run,
}
use gologger.Websocket.Connection.Answered.{answers, producer_answered}
use gologger.Websocket.Connection.Drained.{rounds, write_pump-drains}
use gologger.Websocket.Connection.Sendable.{IsSendable}
use gologger.Websocket.Connection.Running.{run-Lives}
use gologger.Websocket.Connection.Handshake.{
  IsReady, perform_handshake-ok_iff, begin-unsupported_mode,
}
use gologger.Tests.Samples.{noon, stored_order}

abbrev producer_hello : HelloMessage
producer_hello = record {
  message_type = type_hello;
  mode = mode_producer;
  client = codes "orders";
  version = codes "1";
}

abbrev other_hello : HelloMessage
other_hello = record producer_hello { mode = codes "reader" }

abbrev order_message : EventMessage
order_message = record { message_type = type_event; request_id = codes "r1"; event = stored_order }

abbrev pub json : Json
json = record {
  decode_object = λ bytes. ok ((codes "type", bytes) ∷ []);
  decode_type = λ bytes. some (if text_eq bytes (codes "h") then type_hello else type_event);
  decode_hello = λ bytes. ok producer_hello;
  decode_event = λ bytes. ok order_message;
  decode_subscribe = λ bytes. err (codes "unknown field");
}

abbrev pub first : Result GoError (Bool × Bytes)
first = ok (true, codes "h")

abbrev pub actions : List Action
actions =
    reads (ok (true, codes "e")) (outcome (record { event = stored_order; failure = none })) noon
    ∷ pumps true
    ∷ reads (err (new_error (codes "websocket: close 1000"))) timed_out noon
    ∷ pumps true
    ∷ returns
    ∷ []

abbrev greeting : List OutboundMessage
greeting = ready_of producer_hello (codes "20000101T000000.000043200") noon ∷ []

greeted :
    perform_handshake
      (read_protocol_message json first)
      (codes "20000101T000000.000043200")
      noon
      none
    ≡ (ok producer_hello, greeting)
unfolding decode_message lookup perform_handshake trim_space trim_left trim_right is_space
greeted = refl

producer_answered_example :
    (after : Connection) × (run json 0 first
        (codes "20000101T000000.000043200")
        noon
        none
        true
        actions
      ≡ some after)
    × Subsequence (after.written ++ after.outbound) (greeting ++ answers json actions)
    × (after.turned_away ≡ false
        → after.write_failed ≡ false
        → after.written ++ after.outbound ≡ greeting ++ answers json actions)
producer_answered_example =
    producer_answered json 0 first (codes "20000101T000000.000043200") noon none true producer_hello
      greeting actions greeted refl

run-Lives_example :
    (after : Connection) × (run json 0 first
        (codes "20000101T000000.000043200")
        noon
        none
        true
        actions
      ≡ some after)
    × All (IsSendable (λ e. e ≡ stored_order)) (after.written ++ after.outbound)
    × (length after.outbound ≤ after.queue_size)
run-Lives_example =
    run-Lives (λ e. e ≡ stored_order) json 0 first (codes "20000101T000000.000043200") noon none
      true actions (λ same. refl, (tt, (tt, (tt, (tt, tt)))))

decode_message-IsDecoded_example :
    IsDecoded (code_of (json.decode_object (codes "e"))) (decode_message json (codes "e"))
decode_message-IsDecoded_example = decode_message-IsDecoded json (codes "e")

perform_handshake-ok_iff_example :
    (perform_handshake (ok (type_hello, hello producer_hello)) [] noon none
      ≡ (ok producer_hello, ready_of producer_hello [] noon ∷ []))
    ↔ IsReady (ok (type_hello, hello producer_hello)) none producer_hello
perform_handshake-ok_iff_example =
    perform_handshake-ok_iff (ok (type_hello, hello producer_hello)) [] noon none producer_hello

client_named : is_empty (trim_space other_hello.client) ≡ false
unfolding trim_space trim_left trim_right is_space
client_named = refl

other_mode_answered :
    begin
      (perform_handshake (ok (type_hello, hello other_hello)) [] noon none)
      true
      (new_connection 0)
    ≡ some (record (new_connection 0) { written = error_of [] code_internal ∷ [] })
other_mode_answered =
    begin-unsupported_mode other_hello [] noon none (new_connection 0) client_named refl

abbrev two_queued : Connection
two_queued = record (new_connection 0) {
  pumping = true;
  write_failed = false;
  written = greeting;
  outbound = error_of [] code_internal ∷ error_of (codes "r2") code_internal ∷ [];
}

write_pump-drains_example :
    (after : Connection) × (act_all json (rounds 3) two_queued ≡ some after)
    × (after.outbound ≡ [])
    × (after.written ≡ two_queued.written ++ two_queued.outbound)
unfolding new_connection
write_pump-drains_example = write_pump-drains json 3 two_queued refl refl (omega arith)

-- ===== src/Websocket/Connection.antt =====
-- internal/adapters/websocket/connection.go: a connection after its upgrade. The goroutine that reads
-- and the one of writePump take steps in any order.
pub mod Sendable
pub mod Answer
pub mod Following
pub mod Answered
pub mod Reading
pub mod Beginning
pub mod Running
pub mod Handshake
pub mod Drained
use Prim.Native.Nat.{ℕ}
use mathlib.Core.Bool.{Bool, true, false, not}
use mathlib.Core.Option.{Option, none, some}
use mathlib.Core.List.{List, [], ◌∷◌, ◌++◌}
use gologger.Prelude.{ltb, ◌==◌, if◌then◌else◌, length}
use gologger.Result.{Result, ok, err}
use gologger.Text.{Text, text_eq, is_empty, trim_space, codes}
use gologger.Clock.{Time, utc}
use gologger.Contracts.{Event, EventFilter}
use gologger.Websocket.Worker.{EventResult}
use gologger.Websocket.Message.{
  type_hello, type_ready, type_event, type_ack, type_error, type_subscribe, mode_producer,
  mode_monitor, HelloMessage, EventMessage, SubscribeMessage, status_accepted, code_invalid_message,
  code_missing_required_field, code_storage_unavailable, code_internal, OutboundMessage,
  ready_message, event_message, ack_message, error_message,
}
use gologger.Websocket.Protocol.{
  Bytes, Sentinel, queue_full, handler_closed, GoError, is_error, new_error, Json, Payload, hello,
  event, subscribe, read_protocol_message, protocol_error, public_error_message,
}
use gologger.Websocket.Greeting.{ready_of, is_mode, greet, perform_handshake}
use gologger.Websocket.Replies.{
  error_of, Submission, refused, outcome, channel_closed, timed_out, submission_code, outcome_reply,
  reply_to,
}

-- Where the goroutine of run is: in the loop of a producer or of a monitor, in the loop over the events
-- of a subscription, behind the loops, or returned.
pub data Phase : Type 0 where
  producing awaiting : Phase
  following : EventFilter → Phase
  leaving returned : Phase

-- `outbound` is a channel of the size `queue_size`, and `closed` when it is closed; `pumping` as long as
-- writePump runs; `write_failed` when it has returned since it could not write; `turned_away` when a close
-- message for a full queue was sent.
pub record Connection : Type 0 where
  pub phase : Phase
  pub queue_size : ℕ
  pub outbound : List OutboundMessage
  pub closed : Bool
  pub pumping : Bool
  pub write_failed : Bool
  pub written : List OutboundMessage
  pub turned_away : Bool
  pub socket_closed : Bool

-- WriteQueueSize of the handler, with 32 by default.
unfoldable pub new_connection : ℕ → Connection
new_connection write_queue_size = record {
  phase = leaving;
  queue_size = if write_queue_size == 0 then 32 else write_queue_size;
  outbound = [];
  closed = false;
  pumping = false;
  write_failed = false;
  written = [];
  turned_away = false;
  socket_closed = false;
}

-- A send into a closed channel panics.
unfoldable pub send : OutboundMessage → Connection → Option (Bool × Connection)
send message c =
    if c.closed
    then none
    else if ltb (length c.outbound) c.queue_size
    then some (true, record c { outbound = c.outbound ++ message ∷ [] })
    else some (false, record c { turned_away = true })

-- The loop returns, and its defer closes the channel.
abbrev pub leave : Connection → Connection
leave c = record c { phase = leaving; closed = true }

abbrev pub and_stay : Option (Bool × Connection) → Option Connection
and_stay none = none
and_stay (some (sent, c)) = some c

abbrev pub and_leave : Option (Bool × Connection) → Option Connection
and_leave none = none
and_leave (some (sent, c)) = some (leave c)

abbrev pub stay_if_sent : Option (Bool × Connection) → Option Connection
stay_if_sent none = none
stay_if_sent (some (true, c)) = some c
stay_if_sent (some (false, c)) = some (leave c)

-- run up to the loops; `writes` tells whether writeError can write.
abbrev pub begin :
    Result GoError HelloMessage × List OutboundMessage → Bool → Connection → Option Connection
begin (err e, sent) writes c =
    some
      (record c { written = if writes then sent ++ error_of [] (protocol_error e) ∷ [] else sent })
begin (ok message, sent) writes c =
    let started = record c { written = sent; pumping = true } in
    if text_eq message.mode mode_producer
    then some (record started { phase = producing })
    else if text_eq message.mode mode_monitor
    then some (record started { phase = awaiting })
    else and_stay (send (error_of [] code_invalid_message) started)

unfoldable pub handle_event : EventMessage → Submission → Time → Connection → Option Connection
handle_event message submission now c =
    if is_empty (trim_space message.request_id)
    then and_stay (send (error_of [] code_missing_required_field) c)
    else and_stay (send (reply_to message.request_id submission now) c)

abbrev pub on_event : Payload → Submission → Time → Connection → Option Connection
on_event (event message) submission now c = handle_event message submission now c
on_event payload submission now c = and_leave (send (error_of [] code_invalid_message) c)

-- A round of the loop of readProducerMessages.
unfoldable pub read_producer :
    Result GoError (Text × Payload) → Submission → Time → Connection → Option Connection
read_producer (err e) submission now c = and_leave (send (error_of [] (protocol_error e)) c)
read_producer (ok (message_type, payload)) submission now c =
    if text_eq message_type type_event
    then on_event payload submission now c
    else and_leave (send (error_of [] code_invalid_message) c)

-- dispatcher.Subscribe with the filters of the message.
abbrev pub on_subscribe : Payload → Connection → Option Connection
on_subscribe (subscribe message) c = some (record c { phase = following message.filters })
on_subscribe payload c = and_leave (send (error_of [] code_invalid_message) c)

-- A round of the loop of readMonitorMessages.
unfoldable pub read_monitor : Result GoError (Text × Payload) → Connection → Option Connection
read_monitor (err e) c = and_leave (send (error_of [] (protocol_error e)) c)
read_monitor (ok (message_type, payload)) c =
    if text_eq message_type type_subscribe
    then on_subscribe payload c
    else and_leave (send (error_of [] code_invalid_message) c)

-- A round of writePump that receives a message, or finds the channel closed and empty.
abbrev pub pump : Bool → List OutboundMessage → Connection → Connection
pump writes [] c = if c.closed then record c { pumping = false } else c
pump true (message ∷ rest) c = record c { outbound = rest; written = c.written ++ message ∷ [] }
pump false (message ∷ rest) c = record c { outbound = rest; pumping = false; write_failed = true }

-- A round of writePump at the ticker.
abbrev pub ping : Bool → Connection → Connection
ping true c = c
ping false c = record c { pumping = false; write_failed = true }

-- A step: a read returns, and what becomes of its event; an event comes from the subscription, or its
-- channel is closed; writePump receives, or pings, and can write or not; run returns.
pub data Action : Type 0 where
  reads : Result GoError (Bool × Bytes) → Submission → Time → Action
  delivers : Event → Action
  unsubscribes : Action
  pumps pings : Bool → Action
  returns : Action

abbrev pub on_read :
    Phase → Result GoError (Text × Payload) → Submission → Time → Connection → Option Connection
on_read producing read submission now c = read_producer read submission now c
on_read awaiting read submission now c = read_monitor read c
on_read phase read submission now c = some c

-- A round of the loop of handleSubscribe.
unfoldable pub deliver : Phase → Event → Connection → Option Connection
deliver (following filter) e c =
    stay_if_sent
      (send (event_message (record { message_type = type_event; request_id = []; event = e })) c)
deliver phase e c = some c

abbrev pub unsubscribe : Phase → Connection → Connection
unsubscribe (following filter) c = leave c
unsubscribe phase c = c

abbrev pub return_from : Phase → Connection → Connection
return_from leaving c = record c { phase = returned; socket_closed = true }
return_from phase c = c

abbrev pub and_next : Option Connection → (Connection → Option Connection) → Option Connection
and_next none next = none
and_next (some c) next = next c

module _ (json : Json) where
  unfoldable pub act : Action → Connection → Option Connection
  act (reads read submission now) c =
      on_read c.phase (read_protocol_message json read) submission now c
  act (delivers e) c = deliver c.phase e c
  act unsubscribes c = some (unsubscribe c.phase c)
  act (pumps writes) c =
      some (if c.pumping then pump (if c.socket_closed then false else writes) c.outbound c else c)
  act (pings writes) c =
      some (if c.pumping then ping (if c.socket_closed then false else writes) c else c)
  act returns c = some (return_from c.phase c)

  unfoldable pub act_all : List Action → Connection → Option Connection
  act_all [] c = some c
  act_all (a ∷ rest) c = and_next (act a c) (λ next. act_all rest next)

  -- run of a new connection, with its first message, what becomes of the ready message, and the steps
  -- that follow.
  abbrev pub run :
      ℕ
      → Result GoError (Bool × Bytes)
      → Text
      → Time
      → Option GoError
      → Bool
      → List Action
      → Option Connection
  run write_queue_size first id now failure writes actions =
      and_next
        (begin (perform_handshake (read_protocol_message json first) id now failure) writes
          (new_connection write_queue_size))
        (λ c. act_all actions c)

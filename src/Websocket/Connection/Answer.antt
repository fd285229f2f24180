-- ===== src/Websocket/Connection/Answer.antt =====
-- The one answer to each frame of a producer.
use mathlib.Core.Path.{◌≡◌, refl, ap, ◌∙◌}
use mathlib.Core.Logic.{◌⊎◌, inl, inr}
use mathlib.Core.Bool.{Bool, true, false}
use mathlib.Core.Option.{Option, some}
use mathlib.Core.List.{[]}
use gologger.Prelude.{if◌then◌else◌, Bool-cases}
use gologger.Result.{Result, ok, err}
use gologger.Text.{Text, text_eq, is_empty, trim_space}
use gologger.Clock.{Time}
use gologger.Websocket.Message.{
  type_event, EventMessage, code_invalid_message, code_missing_required_field, OutboundMessage,
}
use gologger.Websocket.Protocol.{GoError, Payload, hello, event, subscribe, protocol_error}
use gologger.Websocket.Replies.{error_of, Submission, reply_to}
use gologger.Websocket.Connection.{
  Phase, producing, leaving, returned, Connection, send, and_stay, and_leave, handle_event,
  read_producer, on_event, on_read,
}

-- The one answer to a frame, and whether more are read.
abbrev pub answer_payload : Payload → Submission → Time → OutboundMessage × Bool
answer_payload (event message) submission now = (
  if is_empty (trim_space message.request_id)
      then error_of [] code_missing_required_field
      else reply_to message.request_id submission now,
  true,
)
answer_payload payload submission now = (error_of [] code_invalid_message, false)

abbrev pub answer : Result GoError (Text × Payload) → Submission → Time → OutboundMessage × Bool
answer (err e) submission now = (error_of [] (protocol_error e), false)
answer (ok (message_type, payload)) submission now =
    if text_eq message_type type_event
    then answer_payload payload submission now
    else (error_of [] code_invalid_message, false)

abbrev reply_and : OutboundMessage × Bool → Connection → Option Connection
reply_and (message, more) c = if more then and_stay (send message c) else and_leave (send message c)

handle_event-reply :
    (message : EventMessage) (submission : Submission) (now : Time) (c : Connection)
    → handle_event message submission now c
      ≡ reply_and (answer_payload (event message) submission now) c
unfolding handle_event
handle_event-reply message submission now c =
    elim (Bool-cases (is_empty (trim_space message.request_id))) [
      | inl blank ↦ rw blank refl
      | inr filled ↦ rw filled refl
    ]

on_event-reply :
    (payload : Payload) (submission : Submission) (now : Time) (c : Connection)
    → on_event payload submission now c ≡ reply_and (answer_payload payload submission now) c
on_event-reply (hello message) submission now c = refl
on_event-reply (subscribe message) submission now c = refl
on_event-reply (event message) submission now c = handle_event-reply message submission now c

read_producer-reply :
    (read : Result GoError (Text × Payload)) (submission : Submission) (now : Time) (c : Connection)
    → read_producer read submission now c ≡ reply_and (answer read submission now) c
unfolding read_producer
read_producer-reply (err e) submission now c = refl
read_producer-reply (ok (message_type, payload)) submission now c =
    elim (Bool-cases (text_eq message_type type_event)) [
      | inl match ↦ rw match (on_event-reply payload submission now c)
      | inr other ↦ rw other refl
    ]

pub on_read-producing :
    (phase : Phase) (read : Result GoError (Text × Payload)) (submission : Submission) (now : Time)
    (c : Connection)
    → phase ≡ producing
    → on_read phase read submission now c ≡ reply_and (answer read submission now) c
on_read-producing phase read submission now c loops =
    ap (λ p. on_read p read submission now c) loops ∙ read_producer-reply read submission now c

pub on_read-over :
    (phase : Phase) (read : Result GoError (Text × Payload)) (submission : Submission) (now : Time)
    (c : Connection)
    → (phase ≡ leaving) ⊎ (phase ≡ returned)
    → on_read phase read submission now c ≡ some c
on_read-over phase read submission now c (inl leaves) = rw leaves refl
on_read-over phase read submission now c (inr gone) = rw gone refl

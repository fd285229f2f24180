-- ===== src/Websocket/Connection/Reading.antt =====
-- The rounds of the loops over the messages of a client.
use mathlib.Core.Path.{◌≡◌, refl}
use mathlib.Core.Logic.{◌⊎◌, ◌≢◌, inl, inr}
use mathlib.Core.Bool.{Bool, true, false}
use mathlib.Core.Option.{Option, some}
use mathlib.Core.List.{[]}
use gologger.Prelude.{if◌then◌else◌}
use gologger.Result.{Result, ok, err}
use gologger.Text.{Text, text_eq, is_empty, trim_space}
use gologger.Clock.{Time}
use gologger.Contracts.{Event}
use gologger.Websocket.Message.{
  type_event, type_subscribe, EventMessage, code_invalid_message, code_missing_required_field,
}
use gologger.Websocket.Protocol.{GoError, Payload, hello, event, subscribe, protocol_error}
use gologger.Websocket.Replies.{error_of, Submission, reply_to}
use gologger.Websocket.Connection.{
  Phase, following, leaving, returned, Connection, send, and_leave, handle_event, on_event,
  read_producer, on_subscribe, read_monitor,
}
use gologger.Websocket.Connection.Sendable.{
  IsSendable, Told, is_invalid_message, is_missing_required_field, protocol_error-IsSentCode,
  error_of-IsSendable, reply_to-IsSendable, IsOver, IsSane, Lives, stay-Lives, leave-Lives,
}

-- While a loop runs the channel is open.
pub in_loop :
    (closed : Bool) (phase : Phase)
    → (closed ≡ false) ⊎ IsOver phase
    → phase ≢ leaving
    → phase ≢ returned
    → closed ≡ false
in_loop closed phase (inl is_open) h k = is_open
in_loop closed phase (inr (inl leaves)) h k = absurd (h leaves)
in_loop closed phase (inr (inr gone)) h k = absurd (k gone)

module _ (K : Event → Type 0) where
  pub LivesIf :
      {x y : Option Connection} (b : Bool) → Lives K x → Lives K y → Lives K (if b then x else y)
  LivesIf true h k = h
  LivesIf false h k = k

  pub PickIf :
      (b : Bool) (x y : Connection)
      → Lives K (some x)
      → Lives K (some y)
      → Lives K (some (if b then x else y))
  PickIf true x y h k = h
  PickIf false x y h k = k

  -- A state that is sane as it is.
  pub here : (c : Connection) → IsSane K c → (c.closed ≡ false) ⊎ IsOver c.phase → Lives K (some c)
  here c s o = record { next = c; lives = refl; sane = s; open_until = o }

  pub invalid-IsSendable : IsSendable K (error_of [] code_invalid_message)
  invalid-IsSendable = error_of-IsSendable K [] code_invalid_message is_invalid_message

  pub failed-IsSendable : (e : GoError) → IsSendable K (error_of [] (protocol_error e))
  failed-IsSendable e = error_of-IsSendable K [] (protocol_error e) (protocol_error-IsSentCode e)

  module _ (c : Connection) (s : IsSane K c) (is_open : c.closed ≡ false) where
    handle_event-Lives :
        (message : EventMessage) (submission : Submission) (now : Time)
        → Told K submission
        → Lives K (handle_event message submission now c)
    unfolding handle_event
    handle_event-Lives message submission now h =
        LivesIf (is_empty (trim_space message.request_id))
          (stay-Lives K (error_of [] code_missing_required_field) c
            (error_of-IsSendable K [] code_missing_required_field is_missing_required_field) s
            is_open)
          (stay-Lives K (reply_to message.request_id submission now) c
            (reply_to-IsSendable K message.request_id submission now h) s is_open)

    refuse-Lives : Lives K (and_leave (send (error_of [] code_invalid_message) c))
    refuse-Lives = leave-Lives K (error_of [] code_invalid_message) c invalid-IsSendable s is_open

    fail-Lives : (e : GoError) → Lives K (and_leave (send (error_of [] (protocol_error e)) c))
    fail-Lives e = leave-Lives K (error_of [] (protocol_error e)) c (failed-IsSendable e) s is_open

    on_event-Lives :
        (payload : Payload) (submission : Submission) (now : Time)
        → Told K submission
        → Lives K (on_event payload submission now c)
    on_event-Lives (event message) submission now h = handle_event-Lives message submission now h
    on_event-Lives (hello message) submission now h = refuse-Lives
    on_event-Lives (subscribe message) submission now h = refuse-Lives

    pub read_producer-Lives :
        (read : Result GoError (Text × Payload)) (submission : Submission) (now : Time)
        → Told K submission
        → Lives K (read_producer read submission now c)
    unfolding read_producer
    read_producer-Lives (err e) submission now h = fail-Lives e
    read_producer-Lives (ok (message_type, payload)) submission now h =
        LivesIf (text_eq message_type type_event) (on_event-Lives payload submission now h)
          refuse-Lives

    on_subscribe-Lives : (payload : Payload) → Lives K (on_subscribe payload c)
    on_subscribe-Lives (subscribe message) = record {
      next = record c { phase = following message.filters };
      lives = refl;
      sane = record { queued = s.queued; sendable = s.sendable; bounded = s.bounded };
      open_until = inl is_open;
    }
    on_subscribe-Lives (hello message) = refuse-Lives
    on_subscribe-Lives (event message) = refuse-Lives

    pub read_monitor-Lives :
        (read : Result GoError (Text × Payload)) → Lives K (read_monitor read c)
    unfolding read_monitor
    read_monitor-Lives (err e) = fail-Lives e
    read_monitor-Lives (ok (message_type, payload)) =
        LivesIf (text_eq message_type type_subscribe) (on_subscribe-Lives payload) refuse-Lives

-- ===== src/Websocket/Connection/Sendable.antt =====
-- What a connection sends.
use Prim.Native.Nat.{◌≤◌}
use mathlib.Core.Path.{◌≡◌, refl}
use mathlib.Core.Logic.{◌⊎◌, inl, inr}
use mathlib.Core.Bool.{Bool, true, false}
use mathlib.Core.Option.{Option, none, some}
use mathlib.Core.List.{[], ◌∷◌, ◌++◌}
use native.Mathlib.Omega.{arith}
use gologger.Prelude.{ltb, if◌then◌else◌, Bool-cases, All, All-append, length, length-append}
use gologger.Text.{Text, codes}
use gologger.Clock.{Time}
use gologger.Contracts.{Event}
use gologger.Websocket.Message.{
  type_ready, type_event, type_ack, type_error, status_accepted, code_invalid_json,
  code_invalid_message, code_missing_required_field, code_storage_unavailable, code_internal,
  OutboundMessage, ready_message, event_message, ack_message, error_message,
}
use gologger.Websocket.Protocol.{
  invalid_json, invalid_message, unsupported_type, queue_full, handler_closed, GoError, is_error,
  contains, protocol_error, public_error_message,
}
use gologger.Websocket.Replies.{
  error_of, Submission, refused, outcome, channel_closed, timed_out, reply_to, outcome_reply,
  submission_code,
}
use gologger.Websocket.Connection.{
  Phase, leaving, returned, Connection, send, leave, and_stay, and_leave, stay_if_sent,
}

-- The codes that errors have.
pub data IsSentCode : Text → Type 0 where
  is_invalid_json : IsSentCode code_invalid_json
  is_invalid_message : IsSentCode code_invalid_message
  is_missing_required_field : IsSentCode code_missing_required_field
  is_storage_unavailable : IsSentCode code_storage_unavailable
  is_internal : IsSentCode code_internal

IsSentCode-if :
    {x y : Text} (b : Bool) → IsSentCode x → IsSentCode y → IsSentCode (if b then x else y)
IsSentCode-if true h k = h
IsSentCode-if false h k = k

pub protocol_error-IsSentCode : (e : GoError) → IsSentCode (protocol_error e)
unfolding protocol_error
protocol_error-IsSentCode e = IsSentCode-if (is_error e invalid_json) is_invalid_json (
    IsSentCode-if (is_error e invalid_message) is_invalid_message (
      IsSentCode-if (is_error e unsupported_type) is_invalid_message (
        IsSentCode-if (contains (codes "first message") e.text) is_invalid_message (
          IsSentCode-if (contains (codes "required") e.text) is_missing_required_field
            is_internal))))

submission_code-IsSentCode : (e : GoError) → IsSentCode (submission_code e)
unfolding submission_code
submission_code-IsSentCode e =
    IsSentCode-if (is_error e queue_full) is_storage_unavailable (
      IsSentCode-if (is_error e handler_closed) is_storage_unavailable
        (protocol_error-IsSentCode e))

-- The loops have ended.
abbrev pub IsOver : Phase → Type 0
IsOver phase = (phase ≡ leaving) ⊎ (phase ≡ returned)

module _ (K : Event → Type 0) where
  -- A message of the server; `K` is what is known of the events that it tells of.
  abbrev pub IsSendable : OutboundMessage → Type 0
  IsSendable (ready_message m) = m.message_type ≡ type_ready
  IsSendable (event_message m) = (m.message_type ≡ type_event) × K m.event
  IsSendable (ack_message m) =
      (m.message_type ≡ type_ack)
      × (m.status ≡ status_accepted)
      × (e : Event) × (m.event_id ≡ e.event_id)
      × K e
  IsSendable (error_message m) =
      (m.message_type ≡ type_error) × IsSentCode m.code × (m.message ≡ public_error_message m.code)

  -- What K tells of: the event of a result without an error.
  abbrev pub Told : Submission → Type 0
  Told (outcome result) = result.failure ≡ none → K result.event
  Told (refused e) = Unit
  Told channel_closed = Unit
  Told timed_out = Unit

  pub error_of-IsSendable : (id code : Text) → IsSentCode code → IsSendable (error_of id code)
  error_of-IsSendable id code h = (refl, h, refl)

  outcome_reply-IsSendable :
      (id : Text) (event : Event) (failure : Option GoError) (now : Time)
      → (failure ≡ none → K event)
      → IsSendable (outcome_reply id (record { event = event; failure = failure }) now)
  outcome_reply-IsSendable id e (some failure) now h =
      error_of-IsSendable id (protocol_error failure) (protocol_error-IsSentCode failure)
  outcome_reply-IsSendable id e none now h = (refl, refl, e, refl, h refl)

  pub reply_to-IsSendable :
      (id : Text) (submission : Submission) (now : Time)
      → Told submission
      → IsSendable (reply_to id submission now)
  reply_to-IsSendable id (refused e) now h =
      error_of-IsSendable id (submission_code e) (submission_code-IsSentCode e)
  reply_to-IsSendable id channel_closed now h = error_of-IsSendable id code_internal is_internal
  reply_to-IsSendable id timed_out now h = error_of-IsSendable id code_internal is_internal
  reply_to-IsSendable id (outcome result) now h =
      outcome_reply-IsSendable id result.event result.failure now h

  -- What holds of a connection in every state.
  pub record IsSane (c : Connection) : Type 0 where
    pub queued : All IsSendable c.outbound
    pub sendable : All IsSendable c.written
    pub bounded : length c.outbound ≤ c.queue_size

  -- The result of a step, which does not panic: a sane state, and an open channel while a loop runs.
  pub record Lives (o : Option Connection) : Type 0 where
    pub next : Connection
    pub lives : o ≡ some next
    pub sane : IsSane next
    pub open_until : (next.closed ≡ false) ⊎ ((next.phase ≡ leaving) ⊎ (next.phase ≡ returned))

  -- A send while the channel is open.
  record Sends (message : OutboundMessage) (c : Connection) : Type 0 where
    sent : Bool
    next : Connection
    sends : send message c ≡ some (sent, next)
    sane : IsSane next
    same_phase : next.phase ≡ c.phase
    still_open : next.closed ≡ false

  send-Sends :
      (message : OutboundMessage) (c : Connection)
      → IsSendable message
      → IsSane c
      → c.closed ≡ false
      → Sends message c
  unfolding send
  send-Sends message c good s is_open = elim (Bool-cases (ltb (length c.outbound) c.queue_size)) [
    | inl room ↦ record {
      sent = true;
      next = record c { outbound = c.outbound ++ message ∷ [] };
      sends = rw (room, is_open) refl;
      sane = record {
        queued = All-append IsSendable c.outbound (message ∷ []) s.queued (good, tt);
        sendable = s.sendable;
        bounded = let sum = length-append c.outbound (message ∷ []) in ground arith;
      };
      same_phase = refl;
      still_open = is_open;
    }
    | inr full ↦ record {
      sent = false;
      next = record c { turned_away = true };
      sends = rw (full, is_open) refl;
      sane = record { queued = s.queued; sendable = s.sendable; bounded = s.bounded };
      same_phase = refl;
      still_open = is_open;
    }
  ]

  pub leave-IsSane : (c : Connection) → IsSane c → IsSane (leave c)
  leave-IsSane c s = record { queued = s.queued; sendable = s.sendable; bounded = s.bounded }

  pub stay-Lives :
      (message : OutboundMessage) (c : Connection)
      → IsSendable message
      → IsSane c
      → c.closed ≡ false
      → Lives (and_stay (send message c))
  stay-Lives message c good s is_open =
      let t = send-Sends message c good s is_open in
      record {
        next = t.next;
        lives = rw t.sends refl;
        sane = t.sane;
        open_until = inl t.still_open;
      }

  pub leave-Lives :
      (message : OutboundMessage) (c : Connection)
      → IsSendable message
      → IsSane c
      → c.closed ≡ false
      → Lives (and_leave (send message c))
  leave-Lives message c good s is_open =
      let t = send-Sends message c good s is_open in
      record {
        next = leave t.next;
        lives = rw t.sends refl;
        sane = leave-IsSane t.next t.sane;
        open_until = inr (inl refl);
      }

  pub stay_if_sent-Lives :
      (message : OutboundMessage) (c : Connection)
      → IsSendable message
      → IsSane c
      → c.closed ≡ false
      → Lives (stay_if_sent (send message c))
  stay_if_sent-Lives message c good s is_open =
      let t = send-Sends message c good s is_open in
      elim (Bool-cases t.sent) [
        | inl sent ↦ record {
          next = t.next;
          lives = rw (t.sends, sent) refl;
          sane = t.sane;
          open_until = inl t.still_open;
        }
        | inr refused' ↦ record {
          next = leave t.next;
          lives = rw (t.sends, refused') refl;
          sane = leave-IsSane t.next t.sane;
          open_until = inr (inl refl);
        }
      ]

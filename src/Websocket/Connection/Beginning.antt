-- ===== src/Websocket/Connection/Beginning.antt =====
-- The start of a connection: what the handshake sends, and the state that run goes on from.
use Prim.Native.Nat.{ℕ}
use mathlib.Core.Path.{refl}
use mathlib.Core.Logic.{inl}
use mathlib.Core.Bool.{Bool, true, false, not}
use mathlib.Core.Option.{Option, none, some}
use mathlib.Core.List.{List, []}
use native.Mathlib.Omega.{arith}
use gologger.Prelude.{if◌then◌else◌, All, All-append}
use gologger.Result.{Result, ok, err}
use gologger.Text.{Text, text_eq, is_empty, trim_space}
use gologger.Clock.{Time}
use gologger.Contracts.{Event}
use gologger.Websocket.Message.{
  type_hello, mode_producer, mode_monitor, HelloMessage, code_invalid_message, OutboundMessage,
}
use gologger.Websocket.Protocol.{GoError, Payload, hello, event, subscribe}
use gologger.Websocket.Greeting.{ready_of, greet, is_mode, perform_handshake}
use gologger.Websocket.Replies.{error_of}
use gologger.Websocket.Connection.{new_connection, begin}
use gologger.Websocket.Connection.Sendable.{IsSendable, Lives, stay-Lives}
use gologger.Websocket.Connection.Reading.{LivesIf, here, invalid-IsSendable, failed-IsSendable}

module _ (K : Event → Type 0) where
  -- What a handshake writes.
  abbrev pub AllSent : Result GoError HelloMessage × List OutboundMessage → Type 0
  AllSent h = All (IsSendable K) h.1

  AllSent-if :
      (b : Bool) (x y : Result GoError HelloMessage × List OutboundMessage)
      → AllSent x
      → AllSent y
      → AllSent (if b then x else y)
  AllSent-if true x y h k = h
  AllSent-if false x y h k = k

  greet-IsSendable :
      (payload : Payload) (id : Text) (now : Time) (failure : Option GoError)
      → AllSent (greet payload id now failure)
  unfolding ready_of
  greet-IsSendable (event message) id now failure = tt
  greet-IsSendable (subscribe message) id now failure = tt
  greet-IsSendable (hello message) id now (some e) =
      AllSent-if (is_empty (trim_space message.client)) _ _ tt
        (AllSent-if (not (is_mode message.mode)) _ _ tt tt)
  greet-IsSendable (hello message) id now none =
      AllSent-if (is_empty (trim_space message.client)) _ _ tt
        (AllSent-if (not (is_mode message.mode)) _ _ tt (refl, tt))

  pub perform_handshake-IsSendable :
      (read : Result GoError (Text × Payload)) (id : Text) (now : Time) (failure : Option GoError)
      → AllSent (perform_handshake read id now failure)
  unfolding perform_handshake
  perform_handshake-IsSendable (err e) id now failure = tt
  perform_handshake-IsSendable (ok (message_type, payload)) id now failure =
      AllSent-if (not (text_eq message_type type_hello)) _ _ tt
        (greet-IsSendable payload id now failure)

  pub begin-Lives :
      (h : Result GoError HelloMessage × List OutboundMessage) (writes : Bool)
      (write_queue_size : ℕ)
      → AllSent h
      → Lives K (begin h writes (new_connection write_queue_size))
  unfolding new_connection
  begin-Lives (err e, sent) true n good =
      here K _
        (record {
          queued = tt;
          sendable = All-append (IsSendable K) sent _ good (failed-IsSendable K e, tt);
          bounded = omega arith;
        })
        (inl refl)
  begin-Lives (err e, sent) false n good =
      here K _ (record { queued = tt; sendable = good; bounded = omega arith }) (inl refl)
  begin-Lives (ok message, sent) writes n good =
      LivesIf K (text_eq message.mode mode_producer)
        (here K _ (record { queued = tt; sendable = good; bounded = omega arith }) (inl refl))
        (LivesIf K (text_eq message.mode mode_monitor)
          (here K _ (record { queued = tt; sendable = good; bounded = omega arith }) (inl refl))
          (stay-Lives K (error_of [] code_invalid_message) _ (invalid-IsSendable K)
            (record { queued = tt; sendable = good; bounded = omega arith }) refl))

-- ===== src/Websocket/Connection/Handshake.antt =====
-- performHandshake, and what run makes of its error.
use mathlib.Core.Path.{◌≡◌, refl, ap, sym, ◌∙◌}
use mathlib.Core.Logic.{◌⊎◌, ◌↔◌, inl, inr}
use mathlib.Core.Bool.{true, false}
use mathlib.Core.Option.{Option, none, some}
use mathlib.Core.List.{[], ◌∷◌}
use gologger.Prelude.{Bool-cases}
use gologger.Result.{Result, ok, err}
use gologger.Text.{Text, text_eq, is_empty, trim_space}
use gologger.Text.Laws.{text_eq_iff}
use gologger.Clock.{Time}
use gologger.Websocket.Message.{
  type_hello, mode_producer, mode_monitor, HelloMessage, code_internal,
}
use gologger.Websocket.Protocol.{
  GoError, Payload, hello, event, subscribe, contains, protocol_error,
}
use gologger.Websocket.Greeting.{ready_of, is_mode, greet, perform_handshake}
use gologger.Websocket.Replies.{error_of}
use gologger.Websocket.Connection.{Connection, begin}

-- The conditions under which a connection is ready.
pub record IsReady (read : Result GoError (Text × Payload)) (failure : Option GoError)
    (message : HelloMessage) : Type 0 where
  pub greeted : read ≡ ok (type_hello, hello message)
  pub has_client : is_empty (trim_space message.client) ≡ false
  pub has_mode : (message.mode ≡ mode_producer) ⊎ (message.mode ≡ mode_monitor)
  pub works : failure ≡ none

mode_accepted : (mode : Text) → is_mode mode ≡ true → (mode ≡ mode_producer) ⊎ (mode ≡ mode_monitor)
mode_accepted mode h = elim (Bool-cases (text_eq mode mode_producer)) [
  | inl match ↦ inl ((text_eq_iff mode mode_producer).0 match)
  | inr other ↦ inr ((text_eq_iff mode mode_monitor).0 (rw other at h))
]

accepted_mode : (mode : Text) → (mode ≡ mode_producer) ⊎ (mode ≡ mode_monitor) → is_mode mode ≡ true
accepted_mode mode (inl producer) = rw producer refl
accepted_mode mode (inr monitor) = rw monitor refl

after_write : HelloMessage → Option GoError → Result GoError HelloMessage
after_write m none = ok m
after_write m (some e) = err e

after_write-IsReady :
    (m : HelloMessage) (failure : Option GoError) (message : HelloMessage)
    → is_empty (trim_space m.client) ≡ false
    → is_mode m.mode ≡ true
    → after_write m failure ≡ ok message
    → IsReady (ok (type_hello, hello m)) failure message
unfolding after_write
after_write-IsReady m (some e) message filled known h = absurd (cc h)
after_write-IsReady m none message filled known h =
    let same_message : m ≡ message = cc h in
    record {
      greeted = ap (λ n. ok (type_hello, hello n)) same_message;
      has_client = rw (← same_message) filled;
      has_mode = rw (← same_message) (mode_accepted m.mode known);
      works = refl;
    }

greet-after_write :
    (m : HelloMessage) (id : Text) (now : Time) (failure : Option GoError)
    → is_empty (trim_space m.client) ≡ false
    → is_mode m.mode ≡ true
    → (greet (hello m) id now failure).0 ≡ after_write m failure
unfolding after_write
greet-after_write m id now none filled known = rw (filled, known) refl
greet-after_write m id now (some e) filled known = rw (filled, known) refl

greet-IsReady :
    (payload : Payload) (id : Text) (now : Time) (failure : Option GoError) (message : HelloMessage)
    → (greet payload id now failure).0 ≡ ok message
    → IsReady (ok (type_hello, payload)) failure message
greet-IsReady (event m) id now failure message h = absurd (cc h)
greet-IsReady (subscribe m) id now failure message h = absurd (cc h)
greet-IsReady (hello m) id now failure message h =
    elim (Bool-cases (is_empty (trim_space m.client))) [
      | inl blank ↦ absurd (cc (rw blank at h))
      | inr filled ↦ elim (Bool-cases (is_mode m.mode)) [
        | inr other ↦ absurd (cc (rw (filled, other) at h))
        | inl known ↦
            after_write-IsReady m failure message filled known
              (sym (greet-after_write m id now failure filled known) ∙ h)
      ]
    ]

perform_handshake-IsReady :
    (read : Result GoError (Text × Payload)) (id : Text) (now : Time) (failure : Option GoError)
    (message : HelloMessage)
    → (perform_handshake read id now failure).0 ≡ ok message
    → IsReady read failure message
unfolding perform_handshake
perform_handshake-IsReady (err e) id now failure message h = absurd (cc h)
perform_handshake-IsReady (ok (message_type, payload)) id now failure message h =
    elim (Bool-cases (text_eq message_type type_hello)) [
      | inl match ↦
          rw ((text_eq_iff message_type type_hello).0 match)
            (greet-IsReady payload id now failure message (rw match at h))
      | inr other ↦ absurd (cc (rw other at h))
    ]

ready-perform_handshake :
    (read : Result GoError (Text × Payload)) (id : Text) (now : Time) (failure : Option GoError)
    (message : HelloMessage)
    → IsReady read failure message
    → perform_handshake read id now failure ≡ (ok message, ready_of message id now ∷ [])
unfolding perform_handshake
ready-perform_handshake read id now failure message r =
    rw (r.greeted, r.has_client, accepted_mode message.mode r.has_mode, r.works) refl

-- The handshake returns a hello message exactly when that is the first message, it was read, its client
-- is not blank, its mode is producer or monitor, and the ready message could be encoded and written;
-- and then the one message written is the ready message.
pub perform_handshake-ok_iff :
    (read : Result GoError (Text × Payload)) (id : Text) (now : Time) (failure : Option GoError)
    (message : HelloMessage)
    → (perform_handshake read id now failure ≡ (ok message, ready_of message id now ∷ []))
      ↔ IsReady read failure message
perform_handshake-ok_iff read id now failure message = (
  λ h. perform_handshake-IsReady read id now failure message (ap (λ p. p.0) h),
  ready-perform_handshake read id now failure message,
)

-- A hello message that names its client but a mode that is not supported is answered with
-- INTERNAL_ERROR, and nothing else.
pub begin-unsupported_mode :
    (message : HelloMessage) (id : Text) (now : Time) (failure : Option GoError) (c : Connection)
    → is_empty (trim_space message.client) ≡ false
    → is_mode message.mode ≡ false
    → begin (perform_handshake (ok (type_hello, hello message)) id now failure) true c
      ≡ some (record c { written = error_of [] code_internal ∷ [] })
unfolding perform_handshake protocol_error contains
begin-unsupported_mode message id now failure c filled other = rw (filled, other) refl

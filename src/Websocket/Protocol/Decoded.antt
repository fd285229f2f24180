-- ===== src/Websocket/Protocol/Decoded.antt =====
-- What decodeMessage returns, and the codes of its errors.
use mathlib.Core.Path.{◌≡◌, refl}
use mathlib.Core.Bool.{Bool, true, false}
use mathlib.Core.Option.{Option, none, some}
use mathlib.Core.List.{[], ◌∷◌}
use gologger.Prelude.{if◌then◌else◌}
use gologger.Result.{Result, ok, err}
use gologger.Text.{Text, text_eq, codes}
use gologger.Text.Laws.{text_eq_iff}
use gologger.GoMap.{GoMap, lookup}
use gologger.Websocket.Message.{
  type_hello, type_event, type_subscribe, HelloMessage, EventMessage, SubscribeMessage,
  code_invalid_json, code_invalid_message,
}
use gologger.Websocket.Protocol.{
  Bytes, GoError, Json, Payload, hello, event, subscribe, as_payload, decode_typed, with_type,
  type_value, decode_raw, decode_message, protocol_error,
}

-- The payload is of the type that is named.
pub data IsOfType : Text → Payload → Type 0 where
  is_hello : (m : HelloMessage) → IsOfType type_hello (hello m)
  is_event : (m : EventMessage) → IsOfType type_event (event m)
  is_subscribe : (m : SubscribeMessage) → IsOfType type_subscribe (subscribe m)

-- The code of an error, by whether the message is a JSON object.
abbrev pub code_of : Result Text (GoMap Bytes) → Text
code_of (err text) = code_invalid_json
code_of (ok raw) = code_invalid_message

-- A payload of its type, or an error with the code.
abbrev pub IsDecoded : Text → Result GoError (Text × Payload) → Type 0
IsDecoded code (err e) = protocol_error e ≡ code
IsDecoded code (ok (message_type, payload)) = IsOfType message_type payload

IsDecoded-if :
    (code : Text) (b : Bool) (x y : Result GoError (Text × Payload))
    → (b ≡ true → IsDecoded code x)
    → (b ≡ false → IsDecoded code y)
    → IsDecoded code (if b then x else y)
IsDecoded-if code true x y h k = h refl
IsDecoded-if code false x y h k = k refl

as_payload-IsDecoded :
    {A : Type 0} (message_type : Text) (payload : A → Payload) (decoded : Result Text A)
    → ((m : A) → IsOfType message_type (payload m))
    → IsDecoded code_invalid_message (as_payload message_type payload decoded)
unfolding protocol_error
as_payload-IsDecoded message_type payload (err text) h = refl
as_payload-IsDecoded message_type payload (ok m) h = h m

module _ (json : Json) where
  decode_typed-IsDecoded :
      (message_type : Text) (data_ : Bytes)
      → IsDecoded code_invalid_message (decode_typed json message_type data_)
  unfolding protocol_error
  decode_typed-IsDecoded message_type data_ =
      IsDecoded-if code_invalid_message (text_eq message_type type_hello) _ _
        (λ match.
          as_payload-IsDecoded message_type hello (json.decode_hello data_)
            (λ m. rw ((text_eq_iff message_type type_hello).0 match) (is_hello m)))
        (λ other.
          IsDecoded-if code_invalid_message (text_eq message_type type_event) _ _
            (λ match.
              as_payload-IsDecoded message_type event (json.decode_event data_)
                (λ m. rw ((text_eq_iff message_type type_event).0 match) (is_event m)))
            (λ other'.
              IsDecoded-if code_invalid_message (text_eq message_type type_subscribe) _ _
                (λ match.
                  as_payload-IsDecoded message_type subscribe (json.decode_subscribe data_)
                    (λ m. rw ((text_eq_iff message_type type_subscribe).0 match) (is_subscribe m)))
                (λ unknown. refl)))

  with_type-IsDecoded :
      (message_type : Option Text) (data_ : Bytes)
      → IsDecoded code_invalid_message (with_type json message_type data_)
  unfolding protocol_error
  with_type-IsDecoded none data_ = refl
  with_type-IsDecoded (some message_type) data_ = decode_typed-IsDecoded message_type data_

  type_value-IsDecoded :
      (value : Option Bytes) (data_ : Bytes)
      → IsDecoded code_invalid_message (type_value json value data_)
  unfolding protocol_error
  type_value-IsDecoded none data_ = refl
  type_value-IsDecoded (some value) data_ = with_type-IsDecoded (json.decode_type value) data_

  decode_raw-IsDecoded :
      (raw : Result Text (GoMap Bytes)) (data_ : Bytes)
      → IsDecoded (code_of raw) (decode_raw json raw data_)
  unfolding protocol_error
  decode_raw-IsDecoded (err text) data_ = refl
  decode_raw-IsDecoded (ok []) data_ = refl
  decode_raw-IsDecoded (ok (entry ∷ raw)) data_ =
      type_value-IsDecoded (lookup (codes "type") (entry ∷ raw)) data_

  -- A message that decodeMessage accepts has the payload of the type that it names, so that the type
  -- assertions on it succeed. One that it refuses is answered with INVALID_JSON if it is no JSON
  -- object, and with INVALID_MESSAGE in all other cases.
  pub decode_message-IsDecoded :
      (data_ : Bytes) → IsDecoded (code_of (json.decode_object data_)) (decode_message json data_)
  unfolding decode_message
  decode_message-IsDecoded data_ = decode_raw-IsDecoded (json.decode_object data_) data_

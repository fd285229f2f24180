-- ===== src/Websocket/Handler.antt =====
-- internal/adapters/websocket/handler.go: the handler, who may open a connection, and the connection
-- that it opens. The code's Upgrade is of the websocket library.
pub mod Local
pub mod Admission
use Prim.Native.Nat.{ℕ, ◌*◌}
use mathlib.Core.Bool.{Bool, true, false, ◌&&◌, ◌||◌, not}
use mathlib.Core.Option.{Option, none, some}
use mathlib.Core.List.{List, [], ◌∷◌}
use gologger.Prelude.{◌==◌, if◌then◌else◌}
use gologger.Result.{Result, ok, err, ◌>>=◌}
use gologger.Text.{Text, text_eq, is_empty, codes, mem_text}
use gologger.Clock.{Time}
use gologger.Websocket.Message.{ErrorMessage, type_error, unauthorized, forbidden, code_internal}
use gologger.Websocket.Protocol.{Bytes, GoError, Json, public_error_message}
use gologger.Websocket.Greeting.{new_connection_id}
use gologger.Websocket.Dispatcher.{Process, Store, Dispatcher, SetupError, new_dispatcher}
use gologger.Websocket.Connection

-- A request, as far as it is read here: Header.Get of X-API-Key and Origin, and Host.
pub record Request : Type 0 where
  pub api_key : Text
  pub origin : Text
  pub host : Text

-- The dispatcher is a pointer, which may be nil.
pub record Handler (D : Type 0) : Type 0 where
  pub dispatcher : Option D
  pub api_key : Text
  pub read_limit : ℕ
  pub write_queue_size : ℕ
  pub allowed_origins : List Text
  pub allow_localhost : Bool

-- NewHandler and NewHandlerWithDispatcherConfig.
module _ {E F S : Type 0} where
  unfoldable pub new_handler_with_dispatcher_config :
      Option (Process E F)
      → Option (Store E F S × S)
      → Text
      → ℕ
      → ℕ
      → Result SetupError (Handler (Dispatcher E F S))
  new_handler_with_dispatcher_config processor store api_key queue_size worker_count =
      new_dispatcher processor store queue_size worker_count >>= (λ dispatcher. ok (record {
        dispatcher = some dispatcher;
        api_key = api_key;
        read_limit = 1024 * 1024;
        write_queue_size = 32;
        allowed_origins = [];
        allow_localhost = false;
      }))

  abbrev pub new_handler :
      Option (Process E F)
      → Option (Store E F S × S)
      → Text
      → Result SetupError (Handler (Dispatcher E F S))
  new_handler processor store api_key =
      new_handler_with_dispatcher_config processor store api_key 1024 4

-- host[:index] for the last index of a colon, if there is one.
unfoldable pub before_last_colon : Text → Option Text
before_last_colon [] = none
before_last_colon (c ∷ rest) = elim (before_last_colon rest) [
  | some before ↦ some (c ∷ before)
  | none ↦ if c == b':' then some [] else none
]

abbrev pub or_whole : Text → Option Text → Text
or_whole host none = host
or_whole host (some before) = before

abbrev pub is_loopback : Text → Bool
is_loopback host =
    text_eq host (codes "localhost")
    || text_eq host (codes "127.0.0.1")
    || text_eq host (codes "::1")

unfoldable pub is_localhost : Request → Bool
is_localhost request = is_loopback (or_whole request.host (before_last_colon request.host))

-- The response that writeHTTPError writes.
pub record HttpError : Type 0 where
  pub status : ℕ
  pub content_type : Text
  pub body : ErrorMessage

abbrev pub write_http_error : ℕ → Text → HttpError
write_http_error status code = record {
  status = status;
  content_type = codes "application/json";
  body = record {
    message_type = type_error;
    request_id = [];
    code = code;
    message = public_error_message code;
  };
}

-- A refusal, or the call of Upgrade.
pub data Answer : Type 0 where
  refuses : HttpError → Answer
  upgrades : Answer

-- What happens on an upgraded connection: its first message, the time when its identifier is made and
-- that of its ready message, how that is written, whether an error can be written, and what follows.
pub record Session : Type 0 where
  pub first : Result GoError (Bool × Bytes)
  pub opened : Time
  pub now : Time
  pub failure : Option GoError
  pub writes : Bool
  pub actions : List Connection.Action

-- What ServeHTTP does with a request: it refuses it; Upgrade fails; or a connection has run, or has
-- panicked if it is `none`.
pub data Visit : Type 0 where
  refused : HttpError → Visit
  not_upgraded : Visit
  connected : Option Connection.Connection → Visit

abbrev pub is_nil {ℓ} : {A : Type ℓ} → Option A → Bool
is_nil none = true
is_nil (some value) = false

module _ {D : Type 0} where
  unfoldable pub authenticate : Handler D → Request → Bool
  authenticate handler request =
      if is_empty handler.api_key
      then handler.allow_localhost && is_localhost request
      else not (is_empty request.api_key) && text_eq request.api_key handler.api_key

  unfoldable pub origin_allowed : Handler D → Request → Bool
  origin_allowed handler request =
      if is_empty request.origin
      then true
      else if mem_text request.origin handler.allowed_origins
      then true
      else handler.allow_localhost && is_localhost request

  -- ServeHTTP up to Upgrade.
  unfoldable pub admit : Handler D → Request → Answer
  admit handler request =
      if not (authenticate handler request)
      then refuses (write_http_error 401 unauthorized)
      else if not (origin_allowed handler request)
      then refuses (write_http_error 403 forbidden)
      else if is_nil handler.dispatcher
      then refuses (write_http_error 500 code_internal)
      else upgrades

  -- handler.readLimit(), with 1024 * 1024 by default.
  unfoldable pub read_limit : Handler D → ℕ
  read_limit handler = if handler.read_limit == 0 then 1048576 else handler.read_limit

  abbrev pub visit : Json → Handler D → Option Session → Answer → Visit
  visit json handler session (refuses e) = refused e
  visit json handler none upgrades = not_upgraded
  visit json handler (some session) upgrades = connected (
      Connection.run json handler.write_queue_size session.first (new_connection_id session.opened)
        session.now session.failure session.writes session.actions)

  -- ServeHTTP, where `none` is a failure of Upgrade.
  abbrev pub serve_http : Json → Handler D → Request → Option Session → Visit
  serve_http json handler request session = visit json handler session (admit handler request)

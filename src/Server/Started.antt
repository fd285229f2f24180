-- ===== src/Server/Started.antt =====
-- What the start of cmd/server/main.go makes.
use Prim.Native.Nat.{◌*◌}
use mathlib.Core.Path.{◌≡◌, refl, ap, sym, ◌∙◌}
use mathlib.Core.Logic.{inl, inr}
use mathlib.Core.Bool.{Bool, false}
use mathlib.Core.Option.{none, some}
use mathlib.Core.List.{List, []}
use gologger.Prelude.{Bool-cases, Succeeds}
use gologger.Result.{Result, ok, err, >>=-eq-ok, ok_inj}
use gologger.Text.{Text, is_empty, codes, Unicode}
use gologger.Config.{Config, Viper, IsViper, load, default_config}
use gologger.Config.Defaults.{load-default_config}
use gologger.Security.RateLimit.{new_fixed_window_limiter, minute}
use gologger.Storage.Codec.{Codec}
use gologger.Storage.Files.{Directory}
use gologger.Storage.JsonFile.{JsonFileStorage, new_json_file_storage}
use gologger.Websocket.Dispatcher.{Dispatcher, new_dispatcher, started, Action, run}
use gologger.Websocket.Dispatcher.Told.{IsTold}
use gologger.Websocket.Dispatcher.InFiles.{
  Failure, Call, event_processor, in_files, IsLogged, dispatcher_tells-IsLogged,
}
use gologger.Websocket.Handler.{Handler, new_handler_with_dispatcher_config}
use gologger.Server.Boot.{BootError, Server, or_fatal, open_locally, limiter_of, boot}

-- The handler that NewHandler makes, before main looks at its API key.
abbrev pub fresh_handler : {D : Type 0} → D → Text → Handler D
fresh_handler dispatcher api_key = record {
  dispatcher = some dispatcher;
  api_key = api_key;
  read_limit = 1048576;
  write_queue_size = 32;
  allowed_origins = [];
  allow_localhost = false;
}

-- What a start has made.
pub record IsBooted (u : Unicode) (codec : Codec) (viper : Viper) (api_key : Text) (server : Server)
    : Type 0 where
  pub config : Config
  pub loaded : load viper ≡ ok config
  pub state : JsonFileStorage
  pub dispatcher : Dispatcher Call Failure JsonFileStorage
  pub made :
      new_dispatcher (some (event_processor u)) (some (in_files codec, state)) 1024 4
      ≡ ok dispatcher
  pub handler : server.handler ≡ open_locally (fresh_handler dispatcher api_key)
  pub limiter : server.limiter ≡ limiter_of config.rate_limit

or_fatal-eq-ok :
    {E A : Type 0} (reason : E → BootError) (r : Result E A) {value : A}
    → or_fatal reason r ≡ ok value
    → r ≡ ok value
or_fatal-eq-ok reason (err e) h = absurd (cc h)
or_fatal-eq-ok reason (ok value) h = cc h

pub boot-IsBooted :
    (u : Unicode) (codec : Codec) (viper : Viper) (api_key : Text) (mkdir_fails : Bool)
    (opens : Text → Bool) (files : Directory) (server : Server)
    → boot u codec viper api_key mkdir_fails opens files ≡ ok server
    → IsBooted u codec viper api_key server
unfolding boot new_handler_with_dispatcher_config new_dispatcher
boot-IsBooted u codec viper api_key mkdir_fails opens files server booted =
    let (config, loading, next) = >>=-eq-ok (or_fatal _ (load viper)) _ booted in
    let (state, opening, last) =
      >>=-eq-ok
        (or_fatal _ (
          new_json_file_storage codec config.storage.data_dir config.storage.max_file_size
            config.storage.rotation_days mkdir_fails opens files))
        _ next in
    let same = ok_inj last in
    rw (← same) (record {
      config = config;
      loaded = or_fatal-eq-ok _ (load viper) loading;
      state = state;
      dispatcher = _;
      made = refl;
      handler = refl;
      limiter = refl;
    })

open_locally-dispatcher :
    {D : Type 0} (handler : Handler D) → (open_locally handler).dispatcher ≡ handler.dispatcher
open_locally-dispatcher handler = elim (Bool-cases (is_empty handler.api_key)) [
  | inl no_key ↦ rw no_key refl
  | inr key ↦ rw key refl
]

-- Let a server have started, with EventProcessorService and JSONFileStorage, whatever its directory had
-- before. In every run of producers, workers, monitors and shutdowns on the dispatcher of its handler,
-- whatever fails in the store, nothing panics; and at each moment every event that a result reports
-- without an error, and every event that a monitor has received or has in its channel, has all that
-- ProcessEvent promises of an event that it returns, is known to the store by its identifier, and has
-- its encoded line with a newline in a file of the store.
pub server_tells-IsLogged :
    (u : Unicode) (codec : Codec) (viper : Viper) (api_key : Text) (mkdir_fails : Bool)
    (opens : Text → Bool) (files : Directory) (server : Server)
    (d : Dispatcher Call Failure JsonFileStorage)
    → boot u codec viper api_key mkdir_fails opens files ≡ ok server
    → server.handler.dispatcher ≡ some d
    → (actions : List (Action Call)) → Succeeds (IsTold (IsLogged u codec)) (run actions d)
server_tells-IsLogged u codec viper api_key mkdir_fails opens files server d booted same actions =
    let b = boot-IsBooted u codec viper api_key mkdir_fails opens files server booted in
    let kept : server.handler.dispatcher ≡ some b.dispatcher =
      ap (λ h. h.dispatcher) b.handler
      ∙ open_locally-dispatcher (fresh_handler b.dispatcher api_key) in
    let made : d ≡ b.dispatcher = cc (kept, same) in
    dispatcher_tells-IsLogged u codec b.state 1024 4 d (b.made ∙ ap ok (sym made)) actions

-- Without variables of the environment, and on a directory in which the store opens, main gets
-- DefaultConfig and starts the server, whatever the API key, with a limiter of 1000 requests a minute.
pub boot-default :
    (u : Unicode) (codec : Codec) (viper : Viper) (api_key : Text) (mkdir_fails : Bool)
    (opens : Text → Bool) (files : Directory) (state : JsonFileStorage)
    → IsViper viper
    → ((key : Text) → viper.environment key ≡ none)
    → new_json_file_storage codec (codes "./logs") (100 * 1024 * 1024) 7 mkdir_fails opens files
      ≡ ok state
    → (load viper ≡ ok default_config)
      × (server : Server) × (boot u codec viper api_key mkdir_fails opens files ≡ ok server)
      × (server.limiter ≡ some (new_fixed_window_limiter 1000 minute))
unfolding boot new_handler_with_dispatcher_config new_dispatcher default_config
boot-default u codec viper api_key mkdir_fails opens files state lawful unset opened =
    let loaded = load-default_config viper lawful unset in
    let dispatcher : Dispatcher Call Failure JsonFileStorage =
      started (event_processor u) (in_files codec) state 1024 4 in
    let server : Server = record {
      handler = open_locally (fresh_handler dispatcher api_key);
      limiter = some (new_fixed_window_limiter 1000 minute);
    } in
    (loaded, server, rw (loaded, opened) refl, refl)

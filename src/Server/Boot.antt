-- ===== src/Server/Boot.antt =====
-- What main of cmd/server/main.go does before it listens.
use mathlib.Core.Bool.{Bool, true}
use mathlib.Core.Option.{Option, none, some}
use gologger.Prelude.{if◌then◌else◌}
use gologger.Result.{Result, ok, err, ◌>>=◌}
use gologger.Text.{Text, is_empty, Unicode}
use gologger.Config.{RateLimitConfig, Viper, load}
use gologger.Security.RateLimit.{FixedWindowLimiter, new_fixed_window_limiter}
use gologger.Storage.Codec.{Codec}
use gologger.Storage.Files.{Directory}
use gologger.Storage.JsonFile.{FileError, JsonFileStorage, new_json_file_storage}
use gologger.Websocket.Dispatcher.{Dispatcher, SetupError}
use gologger.Websocket.Dispatcher.InFiles.{Failure, Call, event_processor, in_files}
use gologger.Websocket.Handler.{Handler, new_handler}

-- Why the process ends with logger.Fatal.
pub data BootError : Type 0 where
  not_configured : Text → BootError
  no_storage : FileError → BootError
  no_handler : SetupError → BootError

-- The handler of /ws/events, and the limiter before the router, when there is one.
pub record Server : Type 0 where
  pub handler : Handler (Dispatcher Call Failure JsonFileStorage)
  pub limiter : Option FixedWindowLimiter

module _ {E A : Type 0} where
  abbrev pub or_fatal : (E → BootError) → Result E A → Result BootError A
  or_fatal reason (err e) = err (reason e)
  or_fatal reason (ok value) = ok value

module _ {D : Type 0} where
  -- Without an API key the handler allows local names.
  abbrev pub open_locally : Handler D → Handler D
  open_locally handler =
      if is_empty handler.api_key then record handler { allow_localhost = true } else handler

abbrev pub limiter_of : RateLimitConfig → Option FixedWindowLimiter
limiter_of config =
    if config.enabled
    then some (new_fixed_window_limiter config.requests_per config.window)
    else none

-- `api_key` is the variable LOGGER_API_KEY; the other arguments are what the system does for the store.
unfoldable pub boot :
    Unicode → Codec → Viper → Text → Bool → (Text → Bool) → Directory → Result BootError Server
boot u codec viper api_key mkdir_fails opens files =
    or_fatal not_configured (load viper) >>= (λ config.
      or_fatal no_storage (
        new_json_file_storage codec config.storage.data_dir config.storage.max_file_size
          config.storage.rotation_days mkdir_fails opens files)
      >>= (λ store.
          or_fatal no_handler
            (new_handler (some (event_processor u)) (some (in_files codec, store)) api_key)
          >>= (λ handler.
              ok (record {
                handler = open_locally handler;
                limiter = limiter_of config.rate_limit;
              }))))

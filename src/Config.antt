-- ===== src/Config.antt =====
-- The configuration: internal/domain/config/config.go and internal/adapters/config/viper_config.go.
pub mod Defaults
use Prim.Native.Nat.{ℕ, ◌*◌}
use mathlib.Core.Path.{◌≡◌}
use mathlib.Core.Bool.{Bool, true, false}
use mathlib.Core.Option.{Option, none, some}
use mathlib.Core.List.{List, [], ◌∷◌}
use gologger.Result.{Result, ok, err, ◌>>=◌}
use gologger.Text.{Text, codes}
use gologger.GoMap.{GoMap, lookup}
use gologger.Clock.{second}

-- Durations are in nanoseconds.
pub record ServerConfig : Type 0 where
  pub port : Text
  pub host : Text
  pub read_timeout : ℕ
  pub write_timeout : ℕ
  pub idle_timeout : ℕ
  pub max_body_bytes : ℕ
  pub max_connections : ℕ

pub record StorageConfig : Type 0 where
  pub data_dir : Text
  pub rotation_days : ℕ
  pub max_file_size : ℕ
  pub buffer_size : ℕ

pub record LoggingConfig : Type 0 where
  pub level : Text
  pub format : Text
  pub output_path : Text

pub record RateLimitConfig : Type 0 where
  pub enabled : Bool
  pub requests_per : ℕ
  pub window : ℕ

pub record Config : Type 0 where
  pub server : ServerConfig
  pub storage : StorageConfig
  pub logging : LoggingConfig
  pub rate_limit : RateLimitConfig

unfoldable pub default_config : Config
default_config = record {
  server = record {
    port = codes "8080";
    host = codes "0.0.0.0";
    read_timeout = 15 * second;
    write_timeout = 15 * second;
    idle_timeout = 60 * second;
    max_body_bytes = 1048576;
    max_connections = 100;
  };
  storage = record {
    data_dir = codes "./logs";
    rotation_days = 7;
    max_file_size = 100 * 1024 * 1024;
    buffer_size = 1000;
  };
  logging = record { level = codes "info"; format = codes "json"; output_path = codes "stdout" };
  rate_limit = record { enabled = true; requests_per = 1000; window = 60 * second };
}

-- A value of viper's.
pub data Setting : Type 0 where
  text : Text → Setting
  number : ℕ → Setting
  flag : Bool → Setting

-- The defaults that NewViperConfigLoader sets.
unfoldable pub defaults : GoMap Setting
defaults =
    (codes "server.port", text (codes "8080"))
    ∷ (codes "server.host", text (codes "0.0.0.0"))
    ∷ (codes "server.read_timeout", text (codes "15s"))
    ∷ (codes "server.write_timeout", text (codes "15s"))
    ∷ (codes "server.idle_timeout", text (codes "60s"))
    ∷ (codes "server.max_body_bytes", number 1048576)
    ∷ (codes "server.max_connections", number 100)
    ∷ (codes "storage.data_dir", text (codes "./logs"))
    ∷ (codes "storage.rotation_days", number 7)
    ∷ (codes "storage.max_file_size", number 104857600)
    ∷ (codes "storage.buffer_size", number 1000)
    ∷ (codes "logging.level", text (codes "info"))
    ∷ (codes "logging.format", text (codes "json"))
    ∷ (codes "logging.output_path", text (codes "stdout"))
    ∷ (codes "rate_limit.enabled", flag true)
    ∷ (codes "rate_limit.requests_per", number 1000)
    ∷ (codes "rate_limit.window", text (codes "1m"))
    ∷ []

-- What viper does: the value of the environment for a key, and the decoding of a value, or of no value,
-- into a field of each type. An error is its text.
pub record Viper : Type 0 where
  pub environment : Text → Option Text
  pub decode_text : Option Setting → Result Text Text
  pub decode_number : Option Setting → Result Text ℕ
  pub decode_flag : Option Setting → Result Text Bool
  pub decode_duration : Option Setting → Result Text ℕ

-- What is relied on: without a variable of the environment, texts, numbers and flags are kept, and a
-- number with the unit s or m is so many seconds or minutes.
pub record IsViper (viper : Viper) : Type 0 where
  pub texts : (t : Text) → viper.decode_text (some (text t)) ≡ ok t
  pub numbers : (n : ℕ) → viper.decode_number (some (number n)) ≡ ok n
  pub flags : (b : Bool) → viper.decode_flag (some (flag b)) ≡ ok b
  pub seconds_15 : viper.decode_duration (some (text (codes "15s"))) ≡ ok (15 * second)
  pub seconds_60 : viper.decode_duration (some (text (codes "60s"))) ≡ ok (60 * second)
  pub minute : viper.decode_duration (some (text (codes "1m"))) ≡ ok (60 * second)

abbrev pub overridden : Option Text → Option Setting → Option Setting
overridden none setting = setting
overridden (some value) setting = some (text value)

module _ (viper : Viper) where
  -- The value of a key: that of the environment, or the default.
  unfoldable pub value_of : Text → Option Setting
  value_of key = overridden (viper.environment key) (lookup key defaults)

  unfoldable pub load_server : Result Text ServerConfig
  load_server = viper.decode_text (value_of (codes "server.port")) >>= (λ port.
      viper.decode_text (value_of (codes "server.host")) >>= (λ host.
        viper.decode_duration (value_of (codes "server.read_timeout")) >>= (λ read_timeout.
          viper.decode_duration (value_of (codes "server.write_timeout")) >>= (λ write_timeout.
            viper.decode_duration (value_of (codes "server.idle_timeout")) >>= (λ idle_timeout.
              viper.decode_number (value_of (codes "server.max_body_bytes")) >>= (λ max_body_bytes.
                viper.decode_number (value_of (codes "server.max_connections"))
                >>= (λ max_connections. ok (record {
                  port = port;
                  host = host;
                  read_timeout = read_timeout;
                  write_timeout = write_timeout;
                  idle_timeout = idle_timeout;
                  max_body_bytes = max_body_bytes;
                  max_connections = max_connections;
                }))))))))

  unfoldable pub load_storage : Result Text StorageConfig
  load_storage = viper.decode_text (value_of (codes "storage.data_dir")) >>= (λ data_dir.
      viper.decode_number (value_of (codes "storage.rotation_days")) >>= (λ rotation_days.
        viper.decode_number (value_of (codes "storage.max_file_size")) >>= (λ max_file_size.
          viper.decode_number (value_of (codes "storage.buffer_size")) >>= (λ buffer_size.
            ok (record {
              data_dir = data_dir;
              rotation_days = rotation_days;
              max_file_size = max_file_size;
              buffer_size = buffer_size;
            })))))

  unfoldable pub load_logging : Result Text LoggingConfig
  load_logging = viper.decode_text (value_of (codes "logging.level")) >>= (λ level.
      viper.decode_text (value_of (codes "logging.format")) >>= (λ format.
        viper.decode_text (value_of (codes "logging.output_path")) >>= (λ output_path.
          ok (record { level = level; format = format; output_path = output_path }))))

  unfoldable pub load_rate_limit : Result Text RateLimitConfig
  load_rate_limit = viper.decode_flag (value_of (codes "rate_limit.enabled")) >>= (λ enabled.
      viper.decode_number (value_of (codes "rate_limit.requests_per")) >>= (λ requests_per.
        viper.decode_duration (value_of (codes "rate_limit.window")) >>= (λ window.
          ok (record { enabled = enabled; requests_per = requests_per; window = window }))))

  -- ViperConfigLoader.Load
  unfoldable pub load : Result Text Config
  load = load_server >>= (λ server. load_storage >>= (λ storage. load_logging >>= (λ logging.
      load_rate_limit >>= (λ rate_limit. ok (record {
        server = server;
        storage = storage;
        logging = logging;
        rate_limit = rate_limit;
      })))))

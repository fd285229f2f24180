-- ===== src/Config/Defaults.antt =====
-- The two places that have the defaults agree.
use mathlib.Core.Path.{◌≡◌, refl}
use mathlib.Core.Option.{none}
use gologger.Result.{ok}
use gologger.Text.{Text}
use gologger.GoMap.{lookup}
use gologger.Config.{
  default_config, defaults, Viper, IsViper, value_of, load_server, load_storage, load_logging,
  load_rate_limit, load,
}

-- Without variables in the environment, Load returns the configuration of DefaultConfig.
pub load-default_config :
    (viper : Viper)
    → IsViper viper
    → ((key : Text) → viper.environment key ≡ none)
    → load viper ≡ ok default_config
unfolding default_config defaults value_of load_server load_storage load_logging load_rate_limit
    load lookup
load-default_config viper v unset =
    simp (unset, v.texts, v.numbers, v.flags, v.seconds_15, v.seconds_60, v.minute) refl

-- ===== src/Tests/Services.antt =====
-- The configuration and the health handlers at concrete inputs.
use Prim.Native.Nat.{ℕ, ◌*◌}
use mathlib.Core.Path.{◌≡◌, refl}
use mathlib.Core.Logic.{◌↔◌}
use mathlib.Core.Bool.{false}
use mathlib.Core.List.{[]}
use mathlib.Core.Option.{none, some}
use gologger.Prelude.{if◌then◌else◌}
use gologger.Result.{Result, ok, err}
use gologger.Text.{Text, text_eq, codes}
use gologger.Clock.{second}
use gologger.Config.{text, number, flag, Viper, IsViper}
use gologger.Storage.JsonFile.Upkeep.{a_directory, health}
use gologger.Server.{health_handler, readiness_handler}
use gologger.Server.Health.{IsHealthy, health_handler-ok_iff}
use gologger.Storage.JsonFile.{JsonFileStorage}
use gologger.Tests.Samples.{noon}

-- The durations that the defaults have.
abbrev duration : Text → Result Text ℕ
duration t =
    if text_eq t (codes "15s")
    then ok (15 * second)
    else if text_eq t (codes "60s")
    then ok (60 * second)
    else if text_eq t (codes "1m")
    then ok (60 * second)
    else err t

abbrev pub viper : Viper
viper = record {
  environment = λ key. none;
  decode_text = λ o. elim o [
    | some setting ↦ elim setting [
      | text t ↦ ok t
      | number n ↦ err (codes "not a string")
      | flag b ↦ err (codes "not a string")
    ]
    | none ↦ ok []
  ];
  decode_number = λ o. elim o [
    | some setting ↦ elim setting [
      | number n ↦ ok n
      | text t ↦ err (codes "not an int")
      | flag b ↦ err (codes "not an int")
    ]
    | none ↦ ok 0
  ];
  decode_flag = λ o. elim o [
    | some setting ↦ elim setting [
      | flag b ↦ ok b
      | text t ↦ err (codes "not a bool")
      | number n ↦ err (codes "not a bool")
    ]
    | none ↦ ok false
  ];
  decode_duration = λ o. elim o [
    | some setting ↦ elim setting [
      | text t ↦ duration t
      | number n ↦ ok n
      | flag b ↦ err (codes "not a duration")
    ]
    | none ↦ ok 0
  ];
}

pub viper-IsViper : IsViper viper
viper-IsViper = record {
  texts = λ t. refl;
  numbers = λ n. refl;
  flags = λ b. refl;
  seconds_15 = refl;
  seconds_60 = refl;
  minute = refl;
}

abbrev opened_store : JsonFileStorage
opened_store = record {
  max_file_size = 5;
  retention_days = 30;
  known_ids = [];
  closed = false;
  files = [];
}

health_agrees :
    (((health_handler (health none a_directory opened_store) noon).status ≡ 200)
      ↔ IsHealthy none a_directory opened_store)
    × ((health_handler (health none a_directory opened_store) noon).status
        ≡ (readiness_handler (health none a_directory opened_store) noon).status)
health_agrees = health_handler-ok_iff none a_directory opened_store noon noon

-- ===== src/Tests/Server.antt =====
-- The server at a concrete start, and its dispatcher at a concrete run.
use mathlib.Core.Path.{◌≡◌, refl}
use mathlib.Core.Bool.{true, false}
use mathlib.Core.Option.{none, some}
use mathlib.Core.List.{List, [], ◌∷◌}
use gologger.Prelude.{Succeeds}
use gologger.Result.{ok}
use gologger.Contracts.{EventFilter}
use gologger.Storage.JsonFile.{JsonFileStorage}
use gologger.Storage.JsonFile.Sound.{no_faults}
use gologger.Websocket.Dispatcher.{
  Dispatcher, new_dispatcher, started, Action, submits, stops, works, monitors, subscribes,
}
use gologger.Websocket.Dispatcher
use gologger.Websocket.Dispatcher.Told.{IsTold}
use gologger.Websocket.Dispatcher.InFiles.{Failure, Call, event_processor, in_files, IsLogged}
use gologger.Text.{codes, is_space, trim_left, trim_right, trim_space}
use gologger.Text.Decimal.{padded, two_digits}
use gologger.GoMap.{put}
use gologger.EventProcessor.{process}
use gologger.Storage.Week.{start_of_week, format_date}
use gologger.Storage.Files.{append_file, file_name}
use gologger.Storage.JsonFile.{file_from, append_record, store}
use gologger.Websocket.Filter.{has_candidate, matches_string, matches_filter}
use gologger.Websocket.Publisher
use gologger.Websocket.Dispatcher.{submit, stop, work, act, receives}
use gologger.Websocket.Protocol.{new_error}
use gologger.Websocket.Replies.{outcome}
use gologger.Websocket.Connection
use gologger.Websocket.Connection.Sendable.{IsSendable}
use gologger.Server.Connected.{connection_tells-IsLogged}
use gologger.Tests.Samples.{stored_order}
use gologger.Tests.Processor.{run}
use gologger.Tests.Connections.{first}
use gologger.Prelude.{All, length}
use mathlib.Core.List.{◌++◌, Memᴰ}
use gologger.Tests.Samples.{ascii, env, noon, order}
use gologger.Tests.Files.{toy}
use gologger.Tests.Services.{viper, viper-IsViper}
use gologger.Tests.Connections.{json}
use Prim.Native.Nat.{◌≤◌}
use gologger.Text.{codes, trim_space, trim_left, trim_right, is_space}
use gologger.GoMap.{lookup}
use gologger.Config.{
  load, load_server, load_storage, load_logging, load_rate_limit, value_of, defaults,
  default_config,
}
use gologger.Security.RateLimit.{new_fixed_window_limiter, minute}
use gologger.Storage.Files.{event_files, sort_names}
use gologger.Storage.JsonFile.{new_json_file_storage, load_event_ids, read_all}
use gologger.Websocket.Handler.{new_handler_with_dispatcher_config}
use gologger.Server.Boot.{Server, boot}
use gologger.Server.Started.{server_tells-IsLogged, boot-default}

abbrev call : Call
call = record { ctx = none; env = env; runs = refl; now = noon; faults = no_faults }

abbrev empty_store : JsonFileStorage
empty_store = record {
  max_file_size = 104857600;
  retention_days = 7;
  known_ids = [];
  closed = false;
  files = [];
}

abbrev initial : Dispatcher Call Failure JsonFileStorage
initial = started (event_processor ascii) (in_files toy) empty_store 1024 4

abbrev everything : EventFilter
everything = record { levels = []; services = []; event_types = [] }

-- A monitor subscribes, a producer submits an order, and a worker takes it to the end.
abbrev actions : List (Action Call)
actions =
    monitors (subscribes everything)
    ∷ submits true none order
    ∷ works 0 call
    ∷ works 0 call
    ∷ works 0 call
    ∷ works 0 call
    ∷ works 0 call
    ∷ monitors (receives 0)
    ∷ stops
    ∷ []

abbrev pub server : Server
server = record {
  handler = record {
    dispatcher = some initial;
    api_key = codes "k1";
    read_limit = 1048576;
    write_queue_size = 32;
    allowed_origins = [];
    allow_localhost = false;
  };
  limiter = some (new_fixed_window_limiter 1000 minute);
}

opened :
    new_json_file_storage toy (codes "./logs") 104857600 7 false (λ n. true) [] ≡ ok empty_store
unfolding new_json_file_storage load_event_ids read_all event_files sort_names trim_space trim_left
    trim_right is_space
opened = refl

pub booted : boot ascii toy viper (codes "k1") false (λ n. true) [] ≡ ok server
unfolding boot load load_server load_storage load_logging load_rate_limit value_of defaults lookup
    new_handler_with_dispatcher_config new_dispatcher opened
booted = refl

server_tells-IsLogged_example :
    Succeeds (IsTold (IsLogged ascii toy)) (Dispatcher.run actions initial)
server_tells-IsLogged_example =
    server_tells-IsLogged ascii toy viper (codes "k1") false (λ n. true) [] server initial booted
      refl actions

-- The order has been processed, written, published and reported, and the monitor has taken it.
abbrev final : Dispatcher Call Failure JsonFileStorage
final = record initial {
  state = record empty_store {
    known_ids = stored_order.event_id ∷ [];
    files = (file_name noon 0, record { bytes = codes "{}\n"; modified = noon.instant }) ∷ [];
  };
  publisher = record {
    buffer_size = 32;
    subscriptions =
        record (Publisher.new_subscription everything) { received = stored_order ∷ [] } ∷ [];
  };
  closed = true;
  accepting = false;
  once = true;
  acks = (0, record { event = stored_order; failure = none }) ∷ [];
  submitted = 1;
}

ran : Dispatcher.run actions initial ≡ some final
unfolding run process lookup put append_file file_from append_record store start_of_week format_date
    padded two_digits has_candidate matches_string matches_filter Publisher.receive
    Publisher.at_index Publisher.offer Publisher.offer_all Publisher.publish
    Publisher.new_event_publisher Publisher.subscribe Publisher.act submit stop work act
    Dispatcher.run
ran = refl

-- A producer is told of it, and a monitor that the connection would be of gets it.
abbrev steps : List Connection.Action
steps =
    Connection.reads (ok (true, codes "e"))
      (outcome (record { event = stored_order; failure = none })) noon
    ∷ Connection.delivers stored_order
    ∷ Connection.pumps true
    ∷ []

connection_tells-IsLogged_example :
    (after : Connection.Connection) × (Connection.run json 32 first [] noon none true steps
      ≡ some after)
    × All (IsSendable (IsLogged ascii toy final.state)) (after.written ++ after.outbound)
    × (length after.outbound ≤ after.queue_size)
connection_tells-IsLogged_example =
    connection_tells-IsLogged ascii toy viper (codes "k1") false (λ n. true) [] server initial final
      actions (λ failure. new_error []) json first [] noon none true steps booted refl ran
      (
        (0, record { event = stored_order; failure = none }, Memᴰ.head refl, refl),
        ((_, Memᴰ.head refl, Memᴰ.head refl), (tt, tt)),
      )

boot-default_example :
    (load viper ≡ ok default_config)
    × (s : Server) × (boot ascii toy viper (codes "k1") false (λ n. true) [] ≡ ok s)
    × (s.limiter ≡ some (new_fixed_window_limiter 1000 minute))
boot-default_example =
    boot-default ascii toy viper (codes "k1") false (λ n. true) [] empty_store viper-IsViper
      (λ key. refl) opened

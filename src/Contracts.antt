-- ===== src/Contracts.antt =====
-- The data of internal/contracts/event.go: events, their levels, and the filters of monitors.
pub mod Value
use mathlib.Core.Option.{Option, none}
use mathlib.Core.List.{List, [], ◌∷◌}
use gologger.Text.{Text, codes}
use gologger.Contracts.Value.{Fields}
use gologger.Clock.{Time, zero_instant}

-- The constants `EventLevel…`: a level is a string.
abbrev pub level_trace : Text
level_trace = codes "trace"

abbrev pub level_debug : Text
level_debug = codes "debug"

abbrev pub level_info : Text
level_info = codes "info"

abbrev pub level_warn : Text
level_warn = codes "warn"

abbrev pub level_error : Text
level_error = codes "error"

abbrev pub level_fatal : Text
level_fatal = codes "fatal"

abbrev pub level_information : Text
level_information = codes "information"

abbrev pub level_warning : Text
level_warning = codes "warning"

-- `none` for a map is nil.
pub record Event : Type 0 where
  pub event_id : Text
  pub timestamp : Time
  pub level : Text
  pub service : Text
  pub component : Text
  pub event_type : Text
  pub message : Text
  pub code : Text
  pub session_id : Text
  pub user_id : Text
  pub correlation_id : Text
  pub trace_id : Text
  pub span_id : Text
  pub context : Option Fields
  pub metadata : Option Fields

pub record EventFilter : Type 0 where
  pub levels : List Text
  pub services : List Text
  pub event_types : List Text

-- contracts.Event{}
abbrev pub zero_event : Event
zero_event = record {
  event_id = [];
  timestamp = record { instant = zero_instant; east = 0; west = 0 };
  level = [];
  service = [];
  component = [];
  event_type = [];
  message = [];
  code = [];
  session_id = [];
  user_id = [];
  correlation_id = [];
  trace_id = [];
  span_id = [];
  context = none;
  metadata = none;
}

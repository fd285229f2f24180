-- ===== src/Tests/Samples.antt =====
-- Inputs that the tests share.
use Prim.Native.Nat.{◌+◌}
use mathlib.Core.Path.{refl}
use mathlib.Core.Option.{none, some}
use mathlib.Core.List.{[], ◌∷◌}
use gologger.Text.{codes, Unicode, ascii_lower}
use gologger.Clock.{Time, zero_instant, year_2000}
use gologger.Contracts.{Event}
use gologger.Contracts.Value.{Fields, no_fields, field, text_value}
use gologger.EventProcessor.{Environment}

-- A table that knows the ASCII letters alone.
abbrev pub ascii : Unicode
ascii = record { lower = ascii_lower; lower_ascii = λ c h. refl }

abbrev pub noon : Time
noon = record { instant = year_2000 + 43200; east = 3600; west = 0 }

abbrev pub no_time : Time
no_time = record { instant = zero_instant; east = 0; west = 0 }

abbrev pub env : Environment
env = record { now = noon; random = some (0 ∷ 255 ∷ []); unix_nano = 1 }

abbrev pub metadata : Fields
metadata = field (codes "orderId") (text_value (codes " 7 ")) no_fields

-- An order event as a producer sends it.
abbrev pub order : Event
order = record {
  event_id = [];
  timestamp = no_time;
  level = codes " Warning";
  service = codes "orders";
  component = codes "api";
  event_type = codes "order.created";
  message = codes "failed token=abc123";
  code = [];
  session_id = [];
  user_id = [];
  correlation_id = [];
  trace_id = [];
  span_id = [];
  context = none;
  metadata = some metadata;
}

-- The same event as it is stored.
abbrev pub stored_order : Event
stored_order = record order {
  event_id = codes "evt-00ff";
  timestamp = record { instant = year_2000 + 43200; east = 0; west = 0 };
  level = codes "warn";
  message = codes "failed [REDACTED]";
  metadata = some (field (codes "orderId") (text_value (codes "7")) no_fields);
}

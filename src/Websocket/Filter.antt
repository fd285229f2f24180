-- ===== src/Websocket/Filter.antt =====
-- matchesFilter of internal/adapters/websocket/publisher.go, which agrees with that of the stores.
use mathlib.Core.Path.{◌≡◌, refl}
use mathlib.Core.Bool.{Bool, true, false, ◌&&◌, not}
use mathlib.Core.List.{List, [], ◌∷◌}
use native.Mathlib.Omega.{arith}
use gologger.Prelude.{if◌then◌else◌}
use gologger.Text.{Text, text_eq}
use gologger.Text.Laws.{text_eq_iff}
use gologger.Contracts.{Event, EventFilter}
use gologger.Storage.Filter.{is_set, contains_string}
use gologger.Storage.Filter

-- The loops of matchesLevel and matchesString.
unfoldable pub has_candidate : Text → List Text → Bool
has_candidate value [] = false
has_candidate value (candidate ∷ rest) =
    let found = has_candidate value rest in if text_eq value candidate then true else found

-- matchesString, and matchesLevel: a level is a string.
unfoldable pub matches_string : Text → List Text → Bool
matches_string value [] = true
matches_string value (candidate ∷ rest) = has_candidate value (candidate ∷ rest)

unfoldable pub matches_filter : Event → EventFilter → Bool
matches_filter event filter =
    matches_string event.level filter.levels
    && matches_string event.service filter.services
    && matches_string event.event_type filter.event_types

has_candidate-contains_string :
    (value : Text) (values : List Text) → has_candidate value values ≡ contains_string values value
unfolding has_candidate contains_string
has_candidate-contains_string value [] = refl
has_candidate-contains_string value (c ∷ rest) =
    ground
      (arith, text_eq_iff value c, text_eq_iff c value, has_candidate-contains_string value rest)

matches_string_lem :
    (value : Text) (values : List Text)
    → matches_string value values ≡ not (is_set values && not (contains_string values value))
unfolding matches_string
matches_string_lem value [] = refl
matches_string_lem value (c ∷ rest) = ground (arith, has_candidate-contains_string value (c ∷ rest))

-- The filter of a monitor and the filter of a query select the same events.
pub filters_agree :
    (event : Event) (filter : EventFilter)
    → matches_filter event filter ≡ Filter.matches_filter event filter
unfolding matches_filter Filter.matches_filter
filters_agree event filter = ground (
  arith,
  matches_string_lem event.level filter.levels,
  matches_string_lem event.service filter.services,
  matches_string_lem event.event_type filter.event_types,
)

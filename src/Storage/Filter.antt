-- ===== src/Storage/Filter.antt =====
-- matchesFilter of internal/adapters/storage/memory.go.
use mathlib.Core.Bool.{Bool, true, false, ◌&&◌, not}
use mathlib.Core.List.{List, [], ◌∷◌}
use gologger.Prelude.{if◌then◌else◌}
use gologger.Text.{Text, text_eq}
use gologger.Contracts.{Event, EventFilter}

-- len(values) > 0
abbrev pub is_set : List Text → Bool
is_set [] = false
is_set (t ∷ ts) = true

-- containsLevel and containsString: a level is a string.
unfoldable pub contains_string : List Text → Text → Bool
contains_string [] value = false
contains_string (candidate ∷ rest) value =
    let found = contains_string rest value in if text_eq candidate value then true else found

unfoldable pub matches_filter : Event → EventFilter → Bool
matches_filter event filter =
    if is_set filter.levels && not (contains_string filter.levels event.level)
    then false
    else if is_set filter.services && not (contains_string filter.services event.service)
    then false
    else if is_set filter.event_types && not (contains_string filter.event_types event.event_type)
    then false
    else true

-- ===== src/Tests/Monitors.antt =====
-- Publication to monitors at concrete runs.
use mathlib.Core.Path.{◌≡◌, refl}
use mathlib.Core.Bool.{Bool, true, false}
use mathlib.Core.Option.{Option, none, some}
use mathlib.Core.List.{List, [], ◌∷◌, map}
use gologger.Prelude.{Succeeds}
use gologger.Text.{Text, codes}
use gologger.Contracts.{Event, EventFilter}
use gologger.Storage.Filter
use gologger.Websocket.Filter.{has_candidate, matches_string, matches_filter, filters_agree}
use gologger.Websocket.Publisher.{offer, close_subscription, receive, at_index}
use gologger.Websocket.Publisher.Delivery.{capacity}
use gologger.Websocket.Publisher.Interleaved.{
  Broadcast, new_broadcast, has_number, visit_monitor, find_active, all_visited, Action, subscribes,
  begins, visits, ends, closes, receives, act, run,
}
use gologger.Websocket.Publisher.Interleaved.Orderly.{IsOrderly}
use gologger.Websocket.Publisher.Interleaved.Delivered.{begun, publications_delivered}
use gologger.Tests.Samples.{stored_order}

abbrev of_service : Text → EventFilter
of_service service = record { levels = []; services = service ∷ []; event_types = [] }

abbrev later_order : Event
later_order = record stored_order { event_id = codes "later" }

-- Two publications come to the two monitors in different orders; a monitor that wants another service gets
-- nothing; a Close has no effect while they hold the mutex, and a third publication finds one channel full
-- and one closed.
abbrev actions : List Action
actions =
    subscribes (of_service stored_order.service)
    ∷ subscribes (of_service stored_order.service)
    ∷ subscribes (of_service (codes "billing"))
    ∷ begins stored_order
    ∷ begins later_order
    ∷ visits 0 0
    ∷ visits 1 0
    ∷ visits 1 1
    ∷ visits 1 1
    ∷ closes 1
    ∷ visits 0 1
    ∷ visits 0 2
    ∷ visits 1 2
    ∷ ends 1
    ∷ ends 0
    ∷ receives 1
    ∷ closes 1
    ∷ closes 1
    ∷ begins stored_order
    ∷ visits 2 0
    ∷ visits 2 1
    ∷ ends 2
    ∷ []

-- What each monitor has received, what waits in its channel, and whether that is closed.
abbrev shown : Option Broadcast → List (List Text × List Text × Bool)
shown none = []
shown (some s) =
    map
      (λ m. (
        map (λ e. e.event_id) m.subscription.received,
        map (λ e. e.event_id) m.subscription.events,
        m.subscription.closed,
      ))
      s.monitors

orders_differ :
    shown (run actions (new_broadcast 2))
    ≡ ([], stored_order.event_id ∷ codes "later" ∷ [], false)
      ∷ (codes "later" ∷ [], stored_order.event_id ∷ [], true)
      ∷ ([], [], false)
      ∷ []
unfolding has_candidate matches_string matches_filter offer close_subscription receive at_index
    new_broadcast has_number visit_monitor find_active all_visited act run
orders_differ = refl

publications_delivered_example :
    Succeeds (IsOrderly (capacity 2) (begun actions)) (run actions (new_broadcast 2))
publications_delivered_example = publications_delivered 2 actions

filters_agree_example :
    matches_filter stored_order (of_service (codes "orders"))
    ≡ Filter.matches_filter stored_order (of_service (codes "orders"))
filters_agree_example = filters_agree stored_order (of_service (codes "orders"))

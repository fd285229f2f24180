-- ===== src/Websocket/Publisher.antt =====
-- internal/adapters/websocket/publisher.go. A subscription is an object that the monitor and the
-- publisher share; the list holds all that were ever made, and a position in it is a pointer.
-- Each operation is one step here, Publish as it goes while no other publication is under way; Interleaved
-- has the publications that visit the subscriptions at the same time. `none` is a panic: a send on a
-- closed channel, or the close of one.
pub mod Served
pub mod Delivery
pub mod Interleaved
use Prim.Native.Nat.{ℕ, zero, suc, ◌+◌}
use mathlib.Core.Bool.{Bool, true, false, ◌&&◌, not}
use mathlib.Core.Option.{Option, none, some}
use mathlib.Core.List.{List, [], ◌∷◌, ◌++◌}
use gologger.Prelude.{ltb, ◌==◌, if◌then◌else◌, length, ◌>>=◌}
use gologger.Contracts.{Event, EventFilter}
use gologger.Websocket.Filter.{matches_filter}

-- `events` and `closed` are the channel, `registered` tells whether the publisher's map has the
-- subscription, `once` is the state of the sync.Once, and `received` is what the monitor has taken from
-- the channel.
pub record Subscription : Type 0 where
  pub filter : EventFilter
  pub events : List Event
  pub closed : Bool
  pub registered : Bool
  pub once : Bool
  pub received : List Event

pub record Publisher : Type 0 where
  pub buffer_size : ℕ
  pub subscriptions : List Subscription

unfoldable pub new_event_publisher : ℕ → Publisher
new_event_publisher size = record {
  buffer_size = if size == 0 then 32 else size;
  subscriptions = [];
}

abbrev pub new_subscription : EventFilter → Subscription
new_subscription filter = record {
  filter = filter;
  events = [];
  closed = false;
  registered = true;
  once = false;
  received = [];
}

unfoldable pub subscribe : EventFilter → Publisher → Publisher
subscribe filter p = record p { subscriptions = p.subscriptions ++ new_subscription filter ∷ [] }

-- The body of the loop of Publish: a send that does not wait.
unfoldable pub offer : ℕ → Event → Subscription → Option Subscription
offer size event s =
    if not s.registered
    then some s
    else if not (matches_filter event s.filter)
    then some s
    else if s.closed
    then none
    else if ltb (length s.events) size
    then some (record s { events = s.events ++ event ∷ [] })
    else some s

unfoldable pub offer_all : ℕ → Event → List Subscription → Option (List Subscription)
offer_all size event [] = some []
offer_all size event (s ∷ rest) = do
  s' ← offer size event s
  rest' ← offer_all size event rest
  some (s' ∷ rest')

unfoldable pub publish : Event → Publisher → Option Publisher
publish event p = do
  subscriptions ← offer_all p.buffer_size event p.subscriptions
  some (record p { subscriptions = subscriptions })

-- eventSubscription.Close
unfoldable pub close_subscription : Subscription → Option Subscription
close_subscription s =
    if s.once
    then some s
    else if s.closed
    then none
    else some (record s { registered = false; closed = true; once = true })

-- The monitor takes the next event from the channel, if there is one.
unfoldable pub receive : Subscription → Option Subscription
receive s = elim s.events [
  | [] ↦ some s
  | event ∷ rest ↦ some (record s { events = rest; received = s.received ++ event ∷ [] })
]

-- A step on the object that a pointer names.
unfoldable pub at_index : {A : Type 0} → (A → Option A) → ℕ → List A → Option (List A)
at_index f i [] = some []
at_index f zero (s ∷ rest) = do s' ← f s; some (s' ∷ rest)
at_index f (suc i) (s ∷ rest) = do rest' ← at_index f i rest; some (s ∷ rest')

-- What the dispatcher and the monitors do, in any order.
pub data Action : Type 0 where
  subscribes : EventFilter → Action
  publishes : Event → Action
  closes : ℕ → Action
  receives : ℕ → Action

abbrev pub on_index : (Subscription → Option Subscription) → ℕ → Publisher → Option Publisher
on_index f i p = do
  subscriptions ← at_index f i p.subscriptions
  some (record p { subscriptions = subscriptions })

unfoldable pub act : Action → Publisher → Option Publisher
act (subscribes filter) p = some (subscribe filter p)
act (publishes event) p = publish event p
act (closes i) p = on_index close_subscription i p
act (receives i) p = on_index receive i p

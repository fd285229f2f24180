-- ===== src/Websocket/Publisher/Delivery.antt =====
-- What the monitors get of publications that are one step each.
use Prim.Native.Nat.{ℕ, zero, suc}
use mathlib.Core.Path.{◌≡◌, refl}
use mathlib.Core.Option.{Option}
use mathlib.Core.List.{List, [], ◌∷◌, ◌++◌, append-nil}
use gologger.Prelude.{◌==◌, if◌then◌else◌, All, All-append, Succeeds, Succeeds-bind}
use gologger.Contracts.{Event}
use gologger.Websocket.Publisher.Served.{
  IsServed, new_subscription-IsServed, offer_all-IsServed, close_subscription-IsServed,
  receive-IsServed,
}
use gologger.Websocket.Publisher.{
  Subscription, Publisher, new_event_publisher, subscribe, offer_all, publish, close_subscription,
  receive, at_index, Action, subscribes, publishes, closes, receives, act, on_index,
}

-- A step on one object.
pub at_index-All :
    {A : Type 0} (P : A → Type 0) (f : A → Option A)
    → ((s : A) → P s → Succeeds P (f s))
    → (i : ℕ) (l : List A) → All P l
    → Succeeds (All P) (at_index f i l)
unfolding at_index
at_index-All P f kept i [] c = tt
at_index-All P f kept zero (s ∷ rest) c =
    Succeeds-bind P (All P) (f s) _ (kept s c.0) (λ s' k. (k, c.1))
at_index-All P f kept (suc i) (s ∷ rest) c =
    Succeeds-bind (All P) (All P) (at_index f i rest) _ (at_index-All P f kept i rest c.1)
      (λ rest' k. (c.0, k))

-- What an action publishes.
abbrev pub published_by : Action → List Event
published_by (publishes event) = event ∷ []
published_by (subscribes filter) = []
published_by (closes i) = []
published_by (receives i) = []

-- The state of a publisher of channels of the size after the events.
pub record IsServing (size : ℕ) (history : List Event) (p : Publisher) : Type 0 where
  same_size : p.buffer_size ≡ size
  pub served : All (IsServed size history) p.subscriptions

on_index-IsServing :
    (size : ℕ) (h : List Event) (f : Subscription → Option Subscription)
    → ((s : Subscription) → IsServed size h s → Succeeds (IsServed size h) (f s))
    → (i : ℕ) (p : Publisher) → IsServing size h p
    → Succeeds (IsServing size (h ++ [])) (on_index f i p)
on_index-IsServing size h f kept i p c = rw (append-nil h) (
    Succeeds-bind (All (IsServed size h)) (IsServing size h) (at_index f i p.subscriptions) _
      (at_index-All (IsServed size h) f kept i p.subscriptions c.served)
      (λ l served. record { same_size = c.same_size; served = served }))

pub act-IsServing :
    (size : ℕ) (h : List Event) (a : Action) (p : Publisher)
    → IsServing size h p
    → Succeeds (IsServing size (h ++ published_by a)) (act a p)
unfolding act subscribe publish
act-IsServing size h (subscribes filter) p c = rw (append-nil h) (record {
  same_size = c.same_size;
  served =
      All-append (IsServed size h) p.subscriptions _ c.served
        (new_subscription-IsServed size h filter, tt);
})
act-IsServing size h (publishes event) p c =
    let next = All (IsServed size (h ++ event ∷ [])) in
    rw c.same_size (
      Succeeds-bind next (IsServing size (h ++ event ∷ [])) (offer_all size event p.subscriptions) _
        (offer_all-IsServed size h event p.subscriptions c.served)
        (λ l served. record { same_size = refl; served = served }))
act-IsServing size h (closes i) p c =
    on_index-IsServing size h close_subscription (close_subscription-IsServed size h) i p c
act-IsServing size h (receives i) p c =
    on_index-IsServing size h receive (receive-IsServed size h) i p c

-- The capacity that NewEventPublisher gives to the channels.
abbrev pub capacity : ℕ → ℕ
capacity size = if size == 0 then 32 else size

pub new_event_publisher-IsServing :
    (size : ℕ) → IsServing (capacity size) [] (new_event_publisher size)
unfolding new_event_publisher
new_event_publisher-IsServing size = record { same_size = refl; served = tt }

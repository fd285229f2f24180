-- ===== src/Websocket/Publisher/Interleaved/Delivered.antt =====
-- What monitors get of publications that interleave.
use Prim.Native.Nat.{ℕ}
use mathlib.Core.Path.{refl}
use mathlib.Core.Option.{some}
use mathlib.Core.List.{List, [], ◌∷◌, ◌++◌, append-nil, append_assoc}
use gologger.Prelude.{All-append, Succeeds, Succeeds-bind}
use gologger.Contracts.{Event}
use gologger.Websocket.Publisher.{close_subscription, receive}
use gologger.Websocket.Publisher.Served.{
  close_subscription-IsServed, receive-IsServed, new_subscription-IsServed,
}
use gologger.Websocket.Publisher.Delivery.{capacity}
use gologger.Websocket.Publisher.Interleaved.{
  Broadcast, new_broadcast, find_active, on_subscription, Action, subscribes, begins, visits, ends,
  closes, receives, act, run,
}
use gologger.Websocket.Publisher.Interleaved.Orderly.{IsUnderWay, IsOrderly}
use gologger.Websocket.Publisher.Interleaved.Kept.{
  on_subscription-IsFollowed, on_monitor-IsOrderly, when_free-IsOrderly, find_active-All,
  visit_by-IsOrderly, end_of-IsOrderly, begin_publication-IsOrderly,
}

-- What an action begins to publish.
abbrev pub begun_by : Action → List Event
begun_by (begins event) = event ∷ []
begun_by (subscribes filter) = []
begun_by (visits n i) = []
begun_by (ends n) = []
begun_by (closes i) = []
begun_by (receives i) = []

abbrev pub begun : List Action → List Event
begun [] = []
begun (a ∷ rest) = begun_by a ++ begun rest

act-IsOrderly :
    (size : ℕ) (h : List Event) (a : Action) (s : Broadcast)
    → IsOrderly size h s
    → Succeeds (IsOrderly size (h ++ begun_by a)) (act a s)
unfolding act
act-IsOrderly size h (subscribes filter) s c = rw (append-nil h) (
    when_free-IsOrderly size h s.active (some _) s
      (record {
        same_size = c.same_size;
        followed = All-append _ s.monitors _ c.followed (
          record { served = new_subscription-IsServed size [] filter; ordered = tt; known = tt },
          tt,
        );
        under_way = c.under_way;
        counted = c.counted;
        ended_begun = c.ended_begun;
      })
      c)
act-IsOrderly size h (begins event) s c = begin_publication-IsOrderly size h event s c
act-IsOrderly size h (visits n i) s c = rw (append-nil h) (
    visit_by-IsOrderly size h (find_active n s.active) i s
      (find_active-All size h (IsUnderWay h s.ended) n s.active _ refl c.under_way) c)
act-IsOrderly size h (ends n) s c = rw (append-nil h) (
    end_of-IsOrderly size h (find_active n s.active) s
      (find_active-All size h (IsUnderWay h s.ended) n s.active _ refl c.under_way) c)
act-IsOrderly size h (closes i) s c = rw (append-nil h) (
    when_free-IsOrderly size h s.active _ s
      (on_monitor-IsOrderly size h (on_subscription close_subscription) i s
        (on_subscription-IsFollowed size h s.ended close_subscription
          (close_subscription-IsServed size))
        c)
      c)
act-IsOrderly size h (receives i) s c = rw (append-nil h) (
    on_monitor-IsOrderly size h (on_subscription receive) i s
      (on_subscription-IsFollowed size h s.ended receive (receive-IsServed size)) c)

run-IsOrderly :
    (size : ℕ) (h : List Event) (actions : List Action) (s : Broadcast)
    → IsOrderly size h s
    → Succeeds (IsOrderly size (h ++ begun actions)) (run actions s)
unfolding run
run-IsOrderly size h [] s c = rw (append-nil h) c
run-IsOrderly size h (a ∷ rest) s c = rw (← append_assoc h (begun_by a) (begun rest)) (
    Succeeds-bind (IsOrderly size (h ++ begun_by a)) _ (act a s) _ (act-IsOrderly size h a s c)
      (λ s' c'. run-IsOrderly size (h ++ begun_by a) rest s' c'))

-- From a new publisher, whatever subscriptions, publications that interleave, closes and receptions
-- follow: nothing sends on a closed channel or closes one twice; the channel of a subscription that the
-- publisher knows is open; no channel holds more than its capacity; and what a monitor has received,
-- followed by what is in its channel, is the events that match its filter, some perhaps left out, of the
-- publications that have come to its subscription, in the order in which they came. Each of these is
-- a publication of the run with its event; none came twice; and none came after one that began when it
-- had ended.
pub publications_delivered :
    (size : ℕ) (actions : List Action)
    → Succeeds (IsOrderly (capacity size) (begun actions)) (run actions (new_broadcast size))
unfolding new_broadcast
publications_delivered size actions =
    run-IsOrderly (capacity size) [] actions (new_broadcast size)
      (record { same_size = refl; followed = tt; under_way = tt; counted = refl; ended_begun = tt })

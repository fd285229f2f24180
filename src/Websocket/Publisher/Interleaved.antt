-- ===== src/Websocket/Publisher/Interleaved.antt =====
-- internal/adapters/websocket/publisher.go, as several goroutines use it. Publish holds the mutex for
-- reading only, so several publications visit the subscriptions at the same time, each in an order of its
-- own; Subscribe and Close wait for the mutex until no publication holds it.
pub mod Numbers
pub mod Orderly
pub mod Kept
pub mod Delivered
pub mod Alone
use Prim.Native.Nat.{ℕ, suc}
use mathlib.Core.Bool.{Bool, true, false, ◌&&◌, ◌||◌, not}
use mathlib.Core.Option.{Option, none, some}
use mathlib.Core.List.{List, [], ◌∷◌, ◌++◌, map}
use gologger.Prelude.{◌==◌, if◌then◌else◌, select, ◌>>=◌}
use gologger.Contracts.{Event, EventFilter}
use gologger.Websocket.Publisher.{
  Subscription, new_subscription, offer, close_subscription, receive, at_index,
}

-- A call of Publish. The calls are numbered as they begin; `after` has those that had ended by then.
pub record Publication : Type 0 where
  pub number : ℕ
  pub event : Event
  pub after : List ℕ

-- A subscription, and the publications whose loop has come to it, in the order in which they have.
pub record Monitor : Type 0 where
  pub subscription : Subscription
  pub visits : List Publication

-- `active` are the publications that hold the mutex, and `ended` those that have released it.
pub record Broadcast : Type 0 where
  pub buffer_size : ℕ
  pub monitors : List Monitor
  pub count : ℕ
  pub ended : List ℕ
  pub active : List Publication

unfoldable pub new_broadcast : ℕ → Broadcast
new_broadcast size = record {
  buffer_size = if size == 0 then 32 else size;
  monitors = [];
  count = 0;
  ended = [];
  active = [];
}

unfoldable pub has_number : ℕ → List ℕ → Bool
has_number n [] = false
has_number n (m ∷ rest) = (n == m) || has_number n rest

abbrev pub is_visited : Publication → Monitor → Bool
is_visited p m = has_number p.number (map (λ q. q.number) m.visits)

-- A round of the loop of Publish. The range has each key of the map once.
unfoldable pub visit_monitor : ℕ → Publication → Monitor → Option Monitor
visit_monitor size p m =
    if not m.subscription.registered
    then some m
    else if is_visited p m
    then some m
    else offer size p.event m.subscription
      >>= (λ s. some (record m { subscription = s; visits = m.visits ++ p ∷ [] }))

unfoldable pub find_active : ℕ → List Publication → Option Publication
find_active n [] = none
find_active n (p ∷ rest) = if p.number == n then some p else find_active n rest

-- The range has no more keys.
unfoldable pub all_visited : Publication → List Monitor → Bool
all_visited p [] = true
all_visited p (m ∷ rest) = (not m.subscription.registered || is_visited p m) && all_visited p rest

abbrev pub on_monitor : (Monitor → Option Monitor) → ℕ → Broadcast → Option Broadcast
on_monitor f i s = at_index f i s.monitors >>= (λ monitors. some (record s { monitors = monitors }))

abbrev pub on_subscription : (Subscription → Option Subscription) → Monitor → Option Monitor
on_subscription f m = f m.subscription >>= (λ s. some (record m { subscription = s }))

-- What goroutines do: Publish begins, comes to a subscription, and ends; the others as before.
pub data Action : Type 0 where
  subscribes : EventFilter → Action
  begins : Event → Action
  visits : ℕ → ℕ → Action
  ends : ℕ → Action
  closes : ℕ → Action
  receives : ℕ → Action

-- Lock: the call is at this step as long as a publication holds the mutex.
abbrev pub when_free : List Publication → Option Broadcast → Broadcast → Option Broadcast
when_free [] next s = next
when_free (p ∷ rest) next s = some s

abbrev pub begin_publication : Event → Broadcast → Broadcast
begin_publication event s = record s {
  count = suc s.count;
  active = s.active ++ (record { number = s.count; event = event; after = s.ended }) ∷ [];
}

abbrev pub visit_by : Option Publication → ℕ → Broadcast → Option Broadcast
visit_by none i s = some s
visit_by (some p) i s = on_monitor (visit_monitor s.buffer_size p) i s

abbrev pub end_of : Option Publication → Broadcast → Broadcast
end_of none s = s
end_of (some p) s =
    if all_visited p s.monitors
    then record s {
      ended = p.number ∷ s.ended;
      active = select (λ q. not (q.number == p.number)) s.active;
    }
    else s

abbrev pub new_monitor : EventFilter → Monitor
new_monitor filter = record { subscription = new_subscription filter; visits = [] }

unfoldable pub act : Action → Broadcast → Option Broadcast
act (subscribes filter) s =
    when_free s.active (some (record s { monitors = s.monitors ++ new_monitor filter ∷ [] })) s
act (begins event) s = some (begin_publication event s)
act (visits n i) s = visit_by (find_active n s.active) i s
act (ends n) s = some (end_of (find_active n s.active) s)
act (closes i) s = when_free s.active (on_monitor (on_subscription close_subscription) i s) s
act (receives i) s = on_monitor (on_subscription receive) i s

unfoldable pub run : List Action → Broadcast → Option Broadcast
run [] s = some s
run (a ∷ rest) s = act a s >>= (λ s'. run rest s')

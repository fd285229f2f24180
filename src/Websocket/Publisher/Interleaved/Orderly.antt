-- ===== src/Websocket/Publisher/Interleaved/Orderly.antt =====
-- What holds of a publisher while publications interleave.
use Prim.Native.Nat.{ℕ, ◌<◌}
use mathlib.Core.Path.{◌≡◌}
use mathlib.Core.Bool.{true, false}
use mathlib.Core.Option.{some}
use mathlib.Core.List.{List, [], ◌∷◌, ◌++◌, map}
use gologger.Prelude.{◌==◌, length, All, All-append, All-map}
use gologger.Contracts.{Event}
use gologger.Websocket.Publisher.Served.{IsServed}
use gologger.Websocket.Publisher.Interleaved.{Publication, Monitor, Broadcast, has_number}
use gologger.Websocket.Publisher.Interleaved.Numbers.{get_elem?, get_elem?-append, has_number-cons}

-- The later one is another publication, and had not ended when the first one began.
abbrev pub MayFollow : Publication → Publication → Type 0
MayFollow p q = ((q.number == p.number) ≡ false) × (has_number q.number p.after ≡ false)

abbrev pub InOrder : List Publication → Type 0
InOrder [] = Unit
InOrder (p ∷ rest) = All (MayFollow p) rest × InOrder rest

pub InOrder-append :
    (l : List Publication) (q : Publication)
    → InOrder l
    → All (λ p. MayFollow p q) l
    → InOrder (l ++ q ∷ [])
InOrder-append [] q o k = (tt, tt)
InOrder-append (p ∷ rest) q o k =
    (All-append (MayFollow p) rest (q ∷ []) o.0 (k.0, tt), InOrder-append rest q o.1 k.1)

-- A publication of the history, whose predecessors have ended.
pub record IsKnown (history : List Event) (ended : List ℕ) (p : Publication) : Type 0 where
  pub published : get_elem? history p.number ≡ some p.event
  pub after_ended : All (λ n. has_number n ended ≡ true) p.after

pub IsKnown-later :
    (h more : List Event) (ended : List ℕ) (p : Publication)
    → IsKnown h ended p
    → IsKnown (h ++ more) ended p
IsKnown-later h more ended p k = record {
  published = get_elem?-append h more p.number p.event k.published;
  after_ended = k.after_ended;
}

pub IsKnown-ended :
    (h : List Event) (ended : List ℕ) (n : ℕ) (p : Publication)
    → IsKnown h ended p
    → IsKnown h (n ∷ ended) p
IsKnown-ended h ended n p k = record {
  published = k.published;
  after_ended = All-map _ _ p.after (λ m there. has_number-cons m n ended there) k.after_ended;
}

abbrev pub events_of : List Publication → List Event
events_of = map λ p. p.event

-- The subscription has been served the events of the publications that came to it, in the order in which
-- they came: no publication twice, and none after one that began when it had ended.
pub record IsFollowed (size : ℕ) (history : List Event) (ended : List ℕ) (m : Monitor)
    : Type 0 where
  pub served : IsServed size (events_of m.visits) m.subscription
  pub ordered : InOrder m.visits
  pub known : All (IsKnown history ended) m.visits

abbrev pub IsUnderWay : List Event → List ℕ → Publication → Type 0
IsUnderWay history ended p = IsKnown history ended p × (has_number p.number ended ≡ false)

-- The state after publications of the events have begun.
pub record IsOrderly (size : ℕ) (history : List Event) (s : Broadcast) : Type 0 where
  pub same_size : s.buffer_size ≡ size
  pub followed : All (IsFollowed size history s.ended) s.monitors
  pub under_way : All (IsUnderWay history s.ended) s.active
  pub counted : s.count ≡ length history
  pub ended_begun : All (λ n. n < length history) s.ended

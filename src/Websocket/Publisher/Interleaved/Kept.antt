-- ===== src/Websocket/Publisher/Interleaved/Kept.antt =====
-- What each step of a publisher keeps while publications interleave.
use Prim.Native.Nat.{ℕ}
use mathlib.Core.Path.{◌≡◌, refl, sym, ◌∙◌}
use mathlib.Core.Logic.{inl, inr, ◌⊎◌}
use mathlib.Core.Bool.{Bool, true, false, not}
use mathlib.Core.Option.{Option, none, some}
use mathlib.Core.List.{List, [], ◌∷◌, ◌++◌, map, map-append}
use native.Mathlib.Omega.{arith}
use gologger.Prelude.{
  ◌==◌, if◌then◌else◌, Bool-cases, length, length-append, select, All, All-append, All-map,
  All-select, Succeeds, Succeeds-bind, Succeeds-if,
}
use gologger.Contracts.{Event}
use gologger.Websocket.Publisher.{Subscription, offer, at_index}
use gologger.Websocket.Publisher.Served.{IsServed, offer-IsServed}
use gologger.Websocket.Publisher.Delivery.{at_index-All}
use gologger.Websocket.Publisher.Interleaved.{
  Publication, Monitor, Broadcast, has_number, visit_monitor, find_active, on_monitor,
  on_subscription, when_free, begin_publication, visit_by, end_of, is_visited, all_visited,
}
use gologger.Websocket.Publisher.Interleaved.Numbers.{
  get_elem?-last, get_elem?-lt, has_number_self, has_number-above, has_number-part,
}
use gologger.Websocket.Publisher.Interleaved.Orderly.{
  MayFollow, InOrder-append, IsKnown, IsKnown-later, IsKnown-ended, events_of, IsFollowed,
  IsUnderWay, IsOrderly,
}

-- What each step keeps, with no more publications begun.
module _ (size : ℕ) (h : List Event) where
  not_visited :
      (p : Publication) (l : List Publication)
      → has_number p.number (map (λ q. q.number) l) ≡ false
      → All (λ q. (p.number == q.number) ≡ false) l
  unfolding has_number
  not_visited p [] out = tt
  not_visited p (q ∷ rest) out = (ground (arith, out), not_visited p rest (ground (arith, out)))

  visits-MayFollow :
      (ended : List ℕ) (p : Publication) (l : List Publication)
      → has_number p.number ended ≡ false
      → All (λ q. (p.number == q.number) ≡ false) l
      → All (IsKnown h ended) l
      → All (λ q. MayFollow q p) l
  visits-MayFollow ended p [] runs other known = tt
  visits-MayFollow ended p (q ∷ rest) runs other known = (
    (other.0, has_number-part p.number q.after ended runs known.0.after_ended),
    visits-MayFollow ended p rest runs other.1 known.1,
  )

  visit_monitor-IsFollowed :
      (ended : List ℕ) (p : Publication)
      → IsUnderWay h ended p
      → (m : Monitor) → IsFollowed size h ended m
      → Succeeds (IsFollowed size h ended) (visit_monitor size p m)
  unfolding visit_monitor
  visit_monitor-IsFollowed ended p (known, runs) m c =
      let test = Succeeds-if (IsFollowed size h ended) in
      test (not m.subscription.registered) _ _ (λ gone. c)
        (λ here.
          test (is_visited p m) _ _ (λ before. c)
            (λ fresh.
              let history = events_of m.visits ++ p.event ∷ [] in
              Succeeds-bind (IsServed size history) (IsFollowed size h ended)
                (offer size p.event m.subscription) _
                (offer-IsServed size (events_of m.visits) p.event m.subscription c.served)
                (λ s served. record {
                  served = rw (map-append (λ q. q.event) m.visits (p ∷ [])) served;
                  ordered = InOrder-append m.visits p c.ordered (
                      visits-MayFollow ended p m.visits runs (not_visited p m.visits fresh)
                        c.known);
                  known = All-append (IsKnown h ended) m.visits (p ∷ []) c.known (known, tt);
                })))

  pub on_subscription-IsFollowed :
      (ended : List ℕ) (f : Subscription → Option Subscription)
      → ((events : List Event) (s : Subscription)
          → IsServed size events s
          → Succeeds (IsServed size events) (f s))
      → (m : Monitor) → IsFollowed size h ended m
      → Succeeds (IsFollowed size h ended) (on_subscription f m)
  on_subscription-IsFollowed ended f kept m c =
      Succeeds-bind (IsServed size (events_of m.visits)) (IsFollowed size h ended)
        (f m.subscription) _ (kept (events_of m.visits) m.subscription c.served)
        (λ s served. record { served = served; ordered = c.ordered; known = c.known })

  pub on_monitor-IsOrderly :
      (f : Monitor → Option Monitor) (i : ℕ) (s : Broadcast)
      → ((m : Monitor) → IsFollowed size h s.ended m → Succeeds (IsFollowed size h s.ended) (f m))
      → IsOrderly size h s
      → Succeeds (IsOrderly size h) (on_monitor f i s)
  on_monitor-IsOrderly f i s kept c =
      Succeeds-bind (All (IsFollowed size h s.ended)) (IsOrderly size h) (at_index f i s.monitors) _
        (at_index-All (IsFollowed size h s.ended) f kept i s.monitors c.followed)
        (λ monitors followed. record {
          same_size = c.same_size;
          followed = followed;
          under_way = c.under_way;
          counted = c.counted;
          ended_begun = c.ended_begun;
        })

  pub when_free-IsOrderly :
      (active : List Publication) (next : Option Broadcast) (s : Broadcast)
      → Succeeds (IsOrderly size h) next
      → IsOrderly size h s
      → Succeeds (IsOrderly size h) (when_free active next s)
  when_free-IsOrderly [] next s k c = k
  when_free-IsOrderly (p ∷ rest) next s k c = c

  pub find_active-All :
      (P : Publication → Type 0) (n : ℕ) (l : List Publication) (o : Option Publication)
      → find_active n l ≡ o
      → All P l
      → (o ≡ none) ⊎ ((p : Publication) × (o ≡ some p) × P p)
  unfolding find_active
  find_active-All P n [] o same k = inl (sym same)
  find_active-All P n (p ∷ rest) o same k = elim (Bool-cases (p.number == n)) [
    | inl here ↦ inr (p, sym same ∙ rw here refl, k.0)
    | inr other ↦ find_active-All P n rest o (rw other at same) k.1
  ]

  pub visit_by-IsOrderly :
      (o : Option Publication) (i : ℕ) (s : Broadcast)
      → (o ≡ none) ⊎ ((p : Publication) × (o ≡ some p) × IsUnderWay h s.ended p)
      → IsOrderly size h s
      → Succeeds (IsOrderly size h) (visit_by o i s)
  visit_by-IsOrderly o i s (inl missing) c = rw missing c
  visit_by-IsOrderly o i s (inr (p, found, u)) c = rw found (
      on_monitor-IsOrderly (visit_monitor s.buffer_size p) i s
        (λ m k. rw c.same_size (visit_monitor-IsFollowed s.ended p u m k)) c)

  remains-IsUnderWay :
      (ended : List ℕ) (n : ℕ) (q : Publication)
      → not (q.number == n) ≡ true
      → IsUnderWay h ended q
      → IsUnderWay h (n ∷ ended) q
  unfolding has_number
  remains-IsUnderWay ended n q other (known, runs) =
      (IsKnown-ended h ended n q known, ground (arith, other, runs))

  released-IsOrderly :
      (p : Publication) (s : Broadcast)
      → IsUnderWay h s.ended p
      → IsOrderly size h s
      → IsOrderly size h (record s {
        ended = p.number ∷ s.ended;
        active = select (λ q. not (q.number == p.number)) s.active;
      })
  released-IsOrderly p s u c = record {
    same_size = c.same_size;
    followed =
        All-map _ _ s.monitors
          (λ m k. record {
            served = k.served;
            ordered = k.ordered;
            known = All-map _ _ m.visits (IsKnown-ended h s.ended p.number) k.known;
          })
          c.followed;
    under_way = All-select _ _ _ s.active (remains-IsUnderWay s.ended p.number) c.under_way;
    counted = c.counted;
    ended_begun = (get_elem?-lt h p.number p.event u.0.published, c.ended_begun);
  }

  IsOrderly-if :
      (b : Bool) (x y : Broadcast)
      → IsOrderly size h x
      → IsOrderly size h y
      → IsOrderly size h (if b then x else y)
  IsOrderly-if true x y k l = k
  IsOrderly-if false x y k l = l

  pub end_of-IsOrderly :
      (o : Option Publication) (s : Broadcast)
      → (o ≡ none) ⊎ ((p : Publication) × (o ≡ some p) × IsUnderWay h s.ended p)
      → IsOrderly size h s
      → IsOrderly size h (end_of o s)
  end_of-IsOrderly o s (inl missing) c = rw missing c
  end_of-IsOrderly o s (inr (p, found, u)) c =
      rw found (IsOrderly-if (all_visited p s.monitors) _ s (released-IsOrderly p s u c) c)

  pub begin_publication-IsOrderly :
      (e : Event) (s : Broadcast)
      → IsOrderly size h s
      → IsOrderly size (h ++ e ∷ []) (begin_publication e s)
  begin_publication-IsOrderly e s c = record {
    same_size = c.same_size;
    followed =
        All-map _ _ s.monitors
          (λ m k. record {
            served = k.served;
            ordered = k.ordered;
            known = All-map _ _ m.visits (IsKnown-later h (e ∷ []) s.ended) k.known;
          })
          c.followed;
    under_way =
        All-append _ s.active _
          (All-map _ _ s.active (λ p u. (IsKnown-later h (e ∷ []) s.ended p u.0, u.1)) c.under_way)
          (
            (
              record {
                published = rw c.counted (get_elem?-last h e);
                after_ended = has_number_self s.ended;
              },
              rw c.counted (has_number-above (length h) s.ended c.ended_begun),
            ),
            tt,
          );
    counted = omega (arith, c.counted, length-append h (e ∷ []));
    ended_begun =
        All-map _ _ s.ended (λ n less. omega (arith, less, length-append h (e ∷ []))) c.ended_begun;
  }

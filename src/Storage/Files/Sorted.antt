-- ===== src/Storage/Files/Sorted.antt =====
-- sort.SliceStable by the times of the events.
use Prim.Native.Nat.{ℕ, ◌≤◌}
use mathlib.Core.Path.{◌≡◌, refl, ap, ◌∙◌}
use mathlib.Core.Logic.{inl, inr}
use mathlib.Core.List.{List, [], ◌∷◌}
use native.Mathlib.Omega.{arith}
use gologger.Prelude.{
  ltb, ◌==◌, if◌then◌else◌, Bool-cases, All, select, Reorder, same, behind, swap, chain,
}
use gologger.Contracts.{Event}
use gologger.Storage.Files.{insert_event, sort_events}

-- No event is before one that stands earlier.
abbrev pub InOrder : List Event → Type 0
InOrder [] = Unit
InOrder (e ∷ rest) = All (λ x. e.timestamp.instant ≤ x.timestamp.instant) rest × InOrder rest

insert_event-All :
    (P : Event → Type 0) (e : Event) (l : List Event) → P e → All P l → All P (insert_event e l)
unfolding insert_event
insert_event-All P e [] h k = (h, tt)
insert_event-All P e (x ∷ rest) h k =
    elim (Bool-cases (ltb x.timestamp.instant e.timestamp.instant)) [
      | inl before ↦ rw before (k.0, insert_event-All P e rest h k.1)
      | inr after ↦ rw after (h, k)
    ]

All-later :
    (a b : ℕ) (l : List Event)
    → a ≤ b
    → All (λ x. b ≤ x.timestamp.instant) l
    → All (λ x. a ≤ x.timestamp.instant) l
All-later a b [] h k = tt
All-later a b (x ∷ rest) h k = (omega (arith, k.0), All-later a b rest h k.1)

insert_event-InOrder : (e : Event) (l : List Event) → InOrder l → InOrder (insert_event e l)
unfolding insert_event
insert_event-InOrder e [] h = (tt, tt)
insert_event-InOrder e (x ∷ rest) h =
    elim (Bool-cases (ltb x.timestamp.instant e.timestamp.instant)) [
      | inl before ↦ rw before (
        insert_event-All (λ y. x.timestamp.instant ≤ y.timestamp.instant) e rest (ground arith) h.0,
        insert_event-InOrder e rest h.1,
      )
      | inr after ↦
          let le : e.timestamp.instant ≤ x.timestamp.instant = ground arith in
          rw after ((le, All-later e.timestamp.instant x.timestamp.instant rest le h.0), h)
    ]

pub sort_events-InOrder : (l : List Event) → InOrder (sort_events l)
unfolding sort_events
sort_events-InOrder [] = tt
sort_events-InOrder (e ∷ rest) =
    insert_event-InOrder e (sort_events rest) (sort_events-InOrder rest)

insert_event-Reorder : (e : Event) (l : List Event) → Reorder (insert_event e l) (e ∷ l)
unfolding insert_event
insert_event-Reorder e [] = same (e ∷ [])
insert_event-Reorder e (x ∷ rest) =
    elim (Bool-cases (ltb x.timestamp.instant e.timestamp.instant)) [
      | inl before ↦ rw before (chain (behind x (insert_event-Reorder e rest)) (swap x e rest))
      | inr after ↦ rw after (same (e ∷ x ∷ rest))
    ]

pub sort_events-Reorder : (l : List Event) → Reorder (sort_events l) l
unfolding sort_events
sort_events-Reorder [] = same []
sort_events-Reorder (e ∷ rest) =
    chain (insert_event-Reorder e (sort_events rest)) (behind e (sort_events-Reorder rest))

-- The events of one time.
abbrev pub at_time : ℕ → List Event → List Event
at_time t = select λ e. e.timestamp.instant == t

insert_event-at_time :
    (t : ℕ) (e : Event) (l : List Event) → at_time t (insert_event e l) ≡ at_time t (e ∷ l)
unfolding insert_event
insert_event-at_time t e [] = refl
insert_event-at_time t e (x ∷ rest) =
    elim (Bool-cases (ltb x.timestamp.instant e.timestamp.instant)) [
      | inr after ↦ rw after refl
      | inl before ↦ rw before (ground (arith, insert_event-at_time t e rest))
    ]

-- Events of one time stay in their order.
pub sort_events-at_time : (t : ℕ) (l : List Event) → at_time t (sort_events l) ≡ at_time t l
unfolding sort_events
sort_events-at_time t [] = refl
sort_events-at_time t (e ∷ rest) =
    insert_event-at_time t e (sort_events rest)
    ∙ ap (λ l. if e.timestamp.instant == t then e ∷ l else l) (sort_events-at_time t rest)

-- What Query returns of the events that it has collected: the same events, in the order of their
-- times, and those of one time in the order in which they were collected.
pub sort_events-IsStable :
    (l : List Event)
    → InOrder (sort_events l)
      × Reorder (sort_events l) l
      × ((t : ℕ) → at_time t (sort_events l) ≡ at_time t l)
sort_events-IsStable l =
    (sort_events-InOrder l, sort_events-Reorder l, λ t. sort_events-at_time t l)

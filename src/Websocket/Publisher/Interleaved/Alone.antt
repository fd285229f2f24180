-- ===== src/Websocket/Publisher/Interleaved/Alone.antt =====
-- A publication that is alone: what Publish does in one step.
use Prim.Native.Nat.{ℕ, zero, suc}
use mathlib.Core.Path.{◌≡◌, refl, ap, sym, ◌∙◌}
use mathlib.Core.Logic.{inl, inr}
use mathlib.Core.Bool.{true, false, ◌||◌, not}
use mathlib.Core.Option.{Option, some}
use mathlib.Core.List.{List, [], ◌∷◌, ◌++◌, append-nil, append_assoc, map, map-append}
use native.Mathlib.Omega.{arith}
use gologger.Prelude.{
  ==_refl, Bool-cases, length, length-append, >>=-eq-some, All, All-append, All-map, ◌>>=◌,
}
use gologger.Contracts.{Event}
use gologger.Websocket.Publisher.{Subscription, Publisher, offer, offer_all, publish, at_index}
use gologger.Websocket.Publisher.Interleaved.{
  Publication, Monitor, Broadcast, has_number, is_visited, visit_monitor, find_active, all_visited,
  Action, begins, visits, ends, begin_publication, act, run,
}
use gologger.Websocket.Publisher.Interleaved.Numbers.{get_elem?-lt}
use gologger.Websocket.Publisher.Interleaved.Orderly.{IsKnown, IsOrderly}

abbrev IsPassed : Publication → Monitor → Type 0
IsPassed p m = (not m.subscription.registered || is_visited p m) ≡ true

has_number-last : (n : ℕ) (l : List ℕ) → has_number n (l ++ n ∷ []) ≡ true
unfolding has_number
has_number-last n [] = rw (==_refl n) refl
has_number-last n (m ∷ rest) = ground (arith, has_number-last n rest)

record Visited (size : ℕ) (p : Publication) (m : Monitor) (s : Subscription) : Type 0 where
  next : Monitor
  visits_it : visit_monitor size p m ≡ some next
  same_subscription : next.subscription ≡ s
  passed : IsPassed p next

visit_monitor-Visited :
    (size : ℕ) (p : Publication) (m : Monitor) (s : Subscription)
    → is_visited p m ≡ false
    → offer size p.event m.subscription ≡ some s
    → Visited size p m s
unfolding visit_monitor offer
visit_monitor-Visited size p m s fresh offered = elim (Bool-cases m.subscription.registered) [
  | inl known ↦ record {
    next = record m { subscription = s; visits = m.visits ++ p ∷ [] };
    visits_it = rw known (rw fresh (rw (rw known at offered) refl));
    same_subscription = refl;
    passed =
        rw
          (
            map-append (λ q. q.number) m.visits (p ∷ []),
            has_number-last p.number (map (λ q. q.number) m.visits),
          )
          (ground arith);
  }
  | inr gone ↦ record {
    next = m;
    visits_it = rw gone refl;
    same_subscription = cc (rw gone at offered);
    passed = rw gone refl;
  }
]

at_index-length :
    {A : Type 0} (f : A → Option A) (front : List A) (x y : A) (rest : List A)
    → f x ≡ some y
    → at_index f (length front) (front ++ x ∷ rest) ≡ some (front ++ y ∷ rest)
unfolding at_index
at_index-length f [] x y rest same = rw same refl
at_index-length f (z ∷ front) x y rest same = rw (at_index-length f front x y rest same) refl

-- The loop over so many subscriptions from a position on.
abbrev pub rounds : ℕ → ℕ → ℕ → List Action
rounds n i zero = []
rounds n i (suc k) = visits n i ∷ rounds n (suc i) k

module _ (p : Publication) (more : List Action) where
  -- The rounds from a position on, where the subscriptions before have been passed.
  record Looped (s : Broadcast) (front rest : List Monitor) (l : List Subscription) : Type 0 where
    monitors : List Monitor
    runs :
        run (rounds p.number (length front) (length rest) ++ more) s
        ≡ run more (record s { monitors = monitors })
    all_passed : All (IsPassed p) monitors
    same_subscriptions : map (λ m. m.subscription) monitors ≡ map (λ m. m.subscription) front ++ l

  rounds-Looped :
      (s : Broadcast) (front rest : List Monitor) (l : List Subscription)
      → s.active ≡ p ∷ []
      → s.monitors ≡ front ++ rest
      → All (λ m. is_visited p m ≡ false) rest
      → All (IsPassed p) front
      → offer_all s.buffer_size p.event (map (λ m. m.subscription) rest) ≡ some l
      → Looped s front rest l
  unfolding offer_all run act find_active
  rounds-Looped s front [] l alone same fresh passed offered = record {
    monitors = front;
    runs = ap (λ ms. run more (record s { monitors = ms })) (same ∙ append-nil front);
    all_passed = passed;
    same_subscriptions =
        sym (append-nil _) ∙ ap (λ x. map (λ m. m.subscription) front ++ x) (cc offered);
  }
  rounds-Looped s front (m ∷ rest) l alone same fresh passed offered =
      let (s1, one, others) = >>=-eq-some (offer s.buffer_size p.event m.subscription) _ offered in
      let (l1, later, both) =
        >>=-eq-some (offer_all s.buffer_size p.event (map (λ m. m.subscription) rest)) _ others in
      let v = visit_monitor-Visited s.buffer_size p m s1 fresh.0 one in
      let next : Broadcast = record s { monitors = front ++ v.next ∷ rest } in
      let steps : act (visits p.number (length front)) s ≡ some next =
        rw (alone, ==_refl p.number, same)
          (rw (at_index-length (visit_monitor s.buffer_size p) front m v.next rest v.visits_it)
            refl) in
      let one_more : length (front ++ v.next ∷ []) ≡ suc (length front) =
        omega (arith, length-append front (v.next ∷ [])) in
      let r =
        rounds-Looped next (front ++ v.next ∷ []) rest l1 alone
          (sym (append_assoc front (v.next ∷ []) rest)) fresh.1
          (All-append (IsPassed p) front (v.next ∷ []) passed (v.passed, tt)) later in
      record {
        monitors = r.monitors;
        runs =
            ap (λ o. o >>= run (rounds p.number (suc (length front)) (length rest) ++ more)) steps
            ∙ (rw one_more at r.runs);
        all_passed = r.all_passed;
        same_subscriptions =
            r.same_subscriptions
            ∙ ap (λ x. x ++ l1) (map-append (λ k. k.subscription) front (v.next ∷ []))
            ∙ append_assoc _ (v.next.subscription ∷ []) l1
            ∙ ap (λ x. map (λ k. k.subscription) front ++ x)
                (ap (λ x. x ∷ l1) v.same_subscription ∙ cc both);
      }

all_visited-eq-true :
    (p : Publication) (l : List Monitor) → All (IsPassed p) l → all_visited p l ≡ true
unfolding all_visited
all_visited-eq-true p [] k = refl
all_visited-eq-true p (m ∷ rest) (passed, k) = rw (passed, all_visited-eq-true p rest k) refl

ends-alone :
    (p : Publication) (s : Broadcast)
    → s.active ≡ p ∷ []
    → All (IsPassed p) s.monitors
    → (after : Broadcast) × (act (ends p.number) s ≡ some after)
      × (after.active ≡ [])
      × (after.monitors ≡ s.monitors)
      × (after.buffer_size ≡ s.buffer_size)
unfolding act find_active
ends-alone p s held passed = (
  record s { ended = p.number ∷ s.ended; active = [] },
  rw (held, ==_refl p.number, all_visited-eq-true p s.monitors passed) (rw (==_refl p.number) refl),
  refl,
  refl,
  refl,
)

-- A call of Publish while no other publication is under way: it comes to every subscription, in the order
-- of the list, and ends.
abbrev pub alone : Event → Broadcast → List Action
alone event s = begins event ∷ rounds s.count 0 (length s.monitors) ++ ends s.count ∷ []

abbrev pub subscriptions_of : Broadcast → List Subscription
subscriptions_of s = map (λ m. m.subscription) s.monitors

run-alone :
    (event : Event) (s : Broadcast) (l : List Subscription)
    → s.active ≡ []
    → All (λ m. has_number s.count (map (λ q. q.number) m.visits) ≡ false) s.monitors
    → offer_all s.buffer_size event (subscriptions_of s) ≡ some l
    → (after : Broadcast) × (run (alone event s) s ≡ some after)
      × (after.active ≡ [])
      × (subscriptions_of after ≡ l)
      × (after.buffer_size ≡ s.buffer_size)
unfolding run act
run-alone event s l free fresh offered =
    let p : Publication = record { number = s.count; event = event; after = s.ended } in
    let started = begin_publication event s in
    let held : started.active ≡ p ∷ [] = ap (λ x. x ++ p ∷ []) free in
    let r =
      rounds-Looped p (ends s.count ∷ []) started [] s.monitors l held refl fresh tt offered in
    let (after, ends_it, released, kept, same_size) =
      ends-alone p (record started { monitors = r.monitors }) held r.all_passed in
    (
      after,
      r.runs ∙ ap (λ o. o >>= run []) ends_it,
      released,
      ap (map λ m. m.subscription) kept ∙ r.same_subscriptions,
      same_size,
    )

IsKnown-fresh :
    (h : List Event) (ended : List ℕ) (l : List Publication)
    → All (IsKnown h ended) l
    → has_number (length h) (map (λ q. q.number) l) ≡ false
unfolding has_number
IsKnown-fresh h ended [] k = refl
IsKnown-fresh h ended (q ∷ rest) (known, k) =
    ground (arith, get_elem?-lt h q.number q.event known.published, IsKnown-fresh h ended rest k)

abbrev pub publisher_of : Broadcast → Publisher
publisher_of s = record { buffer_size = s.buffer_size; subscriptions = subscriptions_of s }

-- While no other publication is under way, the steps of a call of Publish do what it does in one step:
-- they end, and leave the same publisher, with nothing under way.
pub publish-alone :
    (size : ℕ) (h : List Event) (event : Event) (s : Broadcast) (q : Publisher)
    → IsOrderly size h s
    → s.active ≡ []
    → publish event (publisher_of s) ≡ some q
    → (after : Broadcast) × (run (alone event s) s ≡ some after)
      × (after.active ≡ [])
      × (publisher_of after ≡ q)
unfolding publish
publish-alone size h event s q c free published =
    let (l, offered, same) =
      >>=-eq-some (offer_all s.buffer_size event (subscriptions_of s)) _ published in
    let fresh =
      All-map _ (λ m. has_number s.count (map (λ k. k.number) m.visits) ≡ false) s.monitors
        (λ m k. rw c.counted (IsKnown-fresh h s.ended m.visits k.known)) c.followed in
    let (after, ran, released, left, same_size) = run-alone event s l free fresh offered in
    (after, ran, released, rw (left, same_size) (cc same))

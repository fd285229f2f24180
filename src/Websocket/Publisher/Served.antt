-- ===== src/Websocket/Publisher/Served.antt =====
-- What each operation does to the state of one subscription.
use Prim.Native.Nat.{ℕ, ◌≤◌}
use mathlib.Core.Path.{◌≡◌, refl}
use mathlib.Core.Bool.{true, false, not}
use mathlib.Core.List.{List, [], ◌∷◌, ◌++◌, append-nil, append_assoc}
use native.Mathlib.Omega.{arith}
use gologger.Prelude.{
  ltb, length, length-append, select, select-append, All, Subsequence, end, keep,
  nothing-Subsequence, append-Subsequence, Succeeds, Succeeds-bind, Succeeds-if, not-eq_false,
  ltb→lt,
}
use gologger.Contracts.{Event, EventFilter}
use gologger.Websocket.Filter.{matches_filter}
use gologger.Websocket.Publisher.{
  Subscription, new_subscription, offer, offer_all, close_subscription, receive,
}

abbrev pub wanted : EventFilter → List Event → List Event
wanted filter = select λ e. matches_filter e filter

-- The channel is open as long as the publisher knows it and the subscription is not closed, it is
-- not over its capacity, and all that went into it are events of the filter, in order.
pub record IsServed (size : ℕ) (published : List Event) (s : Subscription) : Type 0 where
  open_known : s.registered ≡ true → s.closed ≡ false
  open_once : s.once ≡ false → s.closed ≡ false
  bounded : length s.events ≤ size
  pub delivered : Subsequence (s.received ++ s.events) (wanted s.filter published)

-- An event that is not sent.
IsServed-skip :
    (size : ℕ) (h : List Event) (e : Event) (s : Subscription)
    → IsServed size h s
    → IsServed size (h ++ e ∷ []) s
IsServed-skip size h e s c = record {
  open_known = c.open_known;
  open_once = c.open_once;
  bounded = c.bounded;
  delivered =
      rw
        (
          select-append (λ x. matches_filter x s.filter) h (e ∷ []),
          ← append-nil (s.received ++ s.events),
        )
        (append-Subsequence c.delivered (nothing-Subsequence (wanted s.filter (e ∷ []))));
}

wanted-one :
    (filter : EventFilter) (e : Event)
    → matches_filter e filter ≡ true
    → wanted filter (e ∷ []) ≡ e ∷ []
wanted-one filter e h = rw h refl

IsServed-send :
    (size : ℕ) (h : List Event) (e : Event) (s : Subscription)
    → ltb (length s.events) size ≡ true
    → matches_filter e s.filter ≡ true
    → IsServed size h s
    → IsServed size (h ++ e ∷ []) (record s { events = s.events ++ e ∷ [] })
IsServed-send size h e s room matching c = record {
  open_known = c.open_known;
  open_once = c.open_once;
  bounded = omega (arith, length-append s.events (e ∷ []), ltb→lt (length s.events) size room);
  delivered =
      rw
        (
          select-append (λ x. matches_filter x s.filter) h (e ∷ []),
          wanted-one s.filter e matching,
          ← append_assoc s.received s.events (e ∷ []),
        )
        (append-Subsequence c.delivered (keep e end));
}

pub offer-IsServed :
    (size : ℕ) (h : List Event) (e : Event) (s : Subscription)
    → IsServed size h s
    → Succeeds (IsServed size (h ++ e ∷ [])) (offer size e s)
unfolding offer
offer-IsServed size h e s c =
    let test = Succeeds-if (IsServed size (h ++ e ∷ [])) in
    let skipped = IsServed-skip size h e s c in
    test (not s.registered) _ _ (λ gone. skipped)
      (λ known.
        test (not (matches_filter e s.filter)) _ _ (λ other. skipped)
          (λ matching.
            test s.closed _ _ (λ shut. cc (shut, c.open_known (not-eq_false s.registered known)))
              (λ is_open.
                test (ltb (length s.events) size) _ _
                  (λ room.
                    IsServed-send size h e s room
                      (not-eq_false (matches_filter e s.filter) matching) c)
                  (λ full. skipped))))

pub offer_all-IsServed :
    (size : ℕ) (h : List Event) (e : Event) (l : List Subscription)
    → All (IsServed size h) l
    → Succeeds (All (IsServed size (h ++ e ∷ []))) (offer_all size e l)
unfolding offer_all
offer_all-IsServed size h e [] c = tt
offer_all-IsServed size h e (s ∷ rest) c =
    let All' = All (IsServed size (h ++ e ∷ [])) in
    Succeeds-bind (IsServed size (h ++ e ∷ [])) All' (offer size e s) _
      (offer-IsServed size h e s c.0)
      (λ s' served.
        Succeeds-bind All' All' (offer_all size e rest) _ (offer_all-IsServed size h e rest c.1)
          (λ rest' all. (served, all)))

pub close_subscription-IsServed :
    (size : ℕ) (h : List Event) (s : Subscription)
    → IsServed size h s
    → Succeeds (IsServed size h) (close_subscription s)
unfolding close_subscription
close_subscription-IsServed size h s c =
    let test = Succeeds-if (IsServed size h) in
    test s.once _ _ (λ before. c)
      (λ first.
        test s.closed _ _ (λ shut. cc (shut, c.open_once first))
          (λ is_open. record {
            open_known = λ known. cc;
            open_once = λ later. cc;
            bounded = c.bounded;
            delivered = c.delivered;
          }))

receive_from :
    (size : ℕ) (h : List Event) (s : Subscription) (events : List Event)
    → IsServed size h (record s { events = events })
    → Succeeds (IsServed size h) (receive (record s { events = events }))
unfolding receive
receive_from size h s [] c = c
receive_from size h s (e ∷ rest) c = record {
  open_known = c.open_known;
  open_once = c.open_once;
  bounded = omega (arith, c.bounded);
  delivered = rw (append_assoc s.received (e ∷ []) rest) c.delivered;
}

pub receive-IsServed :
    (size : ℕ) (h : List Event) (s : Subscription)
    → IsServed size h s
    → Succeeds (IsServed size h) (receive s)
receive-IsServed size h s = receive_from size h s s.events

pub new_subscription-IsServed :
    (size : ℕ) (h : List Event) (filter : EventFilter) → IsServed size h (new_subscription filter)
new_subscription-IsServed size h filter = record {
  open_known = λ known. refl;
  open_once = λ first. refl;
  bounded = omega arith;
  delivered = nothing-Subsequence (wanted filter h);
}

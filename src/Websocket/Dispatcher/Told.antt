-- ===== src/Websocket/Dispatcher/Told.antt =====
-- A dispatcher tells its producers and monitors only of events that its store has.
use Prim.Native.Nat.{ℕ}
use mathlib.Core.Path.{◌≡◌}
use mathlib.Core.Option.{some}
use mathlib.Core.List.{List, [], ◌∷◌, ◌++◌}
use gologger.Prelude.{◌==◌, All, Succeeds, Succeeds-map}
use gologger.Result.{ok}
use gologger.Contracts.{Event}
use gologger.Websocket.Filter.{matches_filter}
use gologger.Websocket.Publisher.{Subscription}
use gologger.Websocket.Publisher.Served.{IsServed}
use gologger.Websocket.Publisher.Delivery.{new_event_publisher-IsServing}
use gologger.Websocket.Dispatcher.Holding.{IsChecking, IsKeeping, Holds, Reported}
use gologger.Websocket.Dispatcher.Acknowledged.{new_dispatcher-IsSound, accepted-if}
use gologger.Websocket.Dispatcher.Stored.{IsStored}
use gologger.Websocket.Dispatcher.Runs.{All-start, All-Subsequence, All-select, run-IsStored}
use gologger.Websocket.Dispatcher.{
  Store, Process, Dispatcher, new_dispatcher, started, queue_size_not_positive,
  worker_count_not_positive, Action, run,
}

module _ {S : Type 0} (Keeps : S → Event → Type 0) where
  IsServed-kept :
      (s : S) (history : List Event)
      → All (Keeps s) history
      → (l : List Subscription) → All (IsServed 32 history) l
      → All (λ x. All (Keeps s) (x.received ++ x.events)) l
  IsServed-kept s history recorded [] h = tt
  IsServed-kept s history recorded (x ∷ rest) h = (
    All-Subsequence (Keeps s) h.0.delivered
        (All-select (Keeps s) (λ e. matches_filter e x.filter) history recorded),
    IsServed-kept s history recorded rest h.1,
  )

module _ {E F S : Type 0} (Keeps : S → Event → Type 0) where
  -- The store has each event that a result reports without an error, and each event that a monitor
  -- has received or will find in its channel.
  pub record IsTold (d : Dispatcher E F S) : Type 0 where
    pub producers : All (Reported Keeps d.state) d.acks
    pub monitors : All (λ s. All (Keeps d.state) (s.received ++ s.events)) d.publisher.subscriptions

module _ {E F S : Type 0} (P : Event → Type 0) (Keeps : S → Event → Type 0) where
  started-IsStored :
      (processor : Process E F) (store : Store E F S) (state : S) (size count : ℕ)
      → IsChecking P processor
      → IsKeeping P Keeps store
      → IsStored P Keeps (started processor store state size count)
  started-IsStored processor store state size count c k = record {
    checks = c;
    keeping = k;
    held = All-start (Holds P Keeps state) count tt;
    reported = tt;
    serves = ([], new_event_publisher-IsServing 32, tt);
  }

  new_dispatcher-IsStored :
      (processor : Process E F) (store : Store E F S) (state : S) (size count : ℕ)
      (d : Dispatcher E F S)
      → new_dispatcher (some processor) (some (store, state)) size count ≡ ok d
      → IsChecking P processor
      → IsKeeping P Keeps store
      → IsStored P Keeps d
  unfolding new_dispatcher
  new_dispatcher-IsStored processor store state size count d made c k =
      let (positive, same) =
        accepted-if (size == 0) (count == 0) queue_size_not_positive worker_count_not_positive
          made in
      rw (← same) (started-IsStored processor store state size count c k)

  -- Let every event that a processor returns without an error have a property, and let a store keep
  -- every event with this property that it has stored without an error. Then in every run of a
  -- dispatcher of the two nothing panics, and at each moment the store has every event that a result
  -- reports without an error, and every event that a monitor has received or has in its channel.
  pub dispatcher_tells_stored :
      (processor : Process E F) (store : Store E F S) (state : S) (size count : ℕ)
      (d : Dispatcher E F S)
      → new_dispatcher (some processor) (some (store, state)) size count ≡ ok d
      → IsChecking P processor
      → IsKeeping P Keeps store
      → (actions : List (Action E)) → Succeeds (IsTold Keeps) (run actions d)
  dispatcher_tells_stored processor store state size count d made c k actions =
      let sound =
        (new_dispatcher-IsSound (some processor) (some (store, state)) size count d made).0 in
      Succeeds-map (IsStored P Keeps) (IsTold Keeps) (run actions d)
        (λ d' h. record {
          producers = h.reported;
          monitors =
              IsServed-kept Keeps d'.state h.serves.0 h.serves.2 d'.publisher.subscriptions
                h.serves.1.served;
        })
        (run-IsStored P Keeps count actions d sound
          (new_dispatcher-IsStored processor store state size count d made c k))

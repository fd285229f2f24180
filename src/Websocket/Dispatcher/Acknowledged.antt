-- ===== src/Websocket/Dispatcher/Acknowledged.antt =====
-- The dispatcher from its creation to the end of Shutdown.
use Prim.Native.Nat.{ℕ, zero, suc, ◌<◌}
use mathlib.Core.Path.{◌≡◌, refl, ap}
use mathlib.Core.Bool.{Bool, true, false}
use mathlib.Core.Option.{Option, none, some}
use mathlib.Core.List.{List, [], ◌∷◌}
use native.Mathlib.Omega.{arith}
use gologger.Prelude.{◌==◌, if◌then◌else◌, length, Succeeds, Succeeds-eq_some}
use gologger.Result.{ok, err, ok_inj}
use gologger.Context.{ContextError}
use gologger.Websocket.Publisher.Delivery.{new_event_publisher-IsServing}
use gologger.Websocket.Worker.{
  Worker, exited, waiting, processing, storing, publishing, replying, start, all_exited,
}
use gologger.Websocket.Counts.{acked, held_by, any_exited, queued-empty}
use gologger.Websocket.Dispatcher.{
  Process, Store, Dispatcher, SetupError, queue_size_not_positive, worker_count_not_positive,
  started, new_dispatcher, shutdown_returns, Action, run,
}
use gologger.Websocket.Dispatcher.Sound.{IsSound, issued, run-IsSound}

module _ (F : Type 0) where
  start-held : (id n : ℕ) → held_by id (start {F = F} n) ≡ 0
  start-held id zero = refl
  start-held id (suc n) = omega (arith, start-held id n)

  start-staying : (n : ℕ) → any_exited (start {F = F} n) ≡ false
  start-staying zero = refl
  start-staying (suc n) = start-staying n

  length-start : (n : ℕ) → length (start {F = F} n) ≡ n
  length-start zero = refl
  length-start (suc n) = ap suc (length-start n)

module _ {F : Type 0} where
  all_exited-held : (id : ℕ) (l : List (Worker F)) → all_exited l ≡ true → held_by id l ≡ 0
  all_exited-held id [] h = refl
  all_exited-held id (exited ∷ rest) h = omega (arith, all_exited-held id rest h)
  all_exited-held id (waiting ∷ rest) h = cc h
  all_exited-held id (processing j ∷ rest) h = cc h
  all_exited-held id (storing j e ∷ rest) h = cc h
  all_exited-held id (publishing j e ∷ rest) h = cc h
  all_exited-held id (replying j r ∷ rest) h = cc h

  all_exited-any : (l : List (Worker F)) → 0 < length l → all_exited l ≡ true → any_exited l ≡ true
  all_exited-any [] some_worker h = absurd (omega (arith, some_worker))
  all_exited-any (exited ∷ rest) some_worker h = refl
  all_exited-any (waiting ∷ rest) some_worker h = cc h
  all_exited-any (processing j ∷ rest) some_worker h = cc h
  all_exited-any (storing j e ∷ rest) some_worker h = cc h
  all_exited-any (publishing j e ∷ rest) some_worker h = cc h
  all_exited-any (replying j r ∷ rest) some_worker h = cc h

module _ {E F S : Type 0} where
  started-IsSound :
      (processor : Process E F) (store : Store E F S) (state : S) (size count : ℕ)
      → IsSound count (started processor store state size count)
  started-IsSound processor store state size count = record {
    closed_once = refl;
    open_accepting = refl;
    bounded = omega arith;
    once_each = λ id. grind (arith, start-held F id count);
    drained = λ left. cc (left, start-staying F count);
    staffed = length-start F count;
    serves = ([], new_event_publisher-IsServing 32);
  }

  pub accepted-if :
      (no_room no_worker : Bool) (e e' : SetupError) {made d : Dispatcher E F S}
      → (if no_room then err e else if no_worker then err e' else ok made) ≡ ok d
      → (no_worker ≡ false) × (made ≡ d)
  accepted-if true no_worker e e' h = cc h
  accepted-if false true e e' h = cc h
  accepted-if false false e e' h = (refl, ok_inj h)

  pub new_dispatcher-IsSound :
      (processor : Option (Process E F)) (store : Option (Store E F S × S)) (size count : ℕ)
      (d : Dispatcher E F S)
      → new_dispatcher processor store size count ≡ ok d
      → IsSound count d × (0 < count)
  unfolding new_dispatcher
  new_dispatcher-IsSound none store size count d h = cc h
  new_dispatcher-IsSound (some processor) none size count d h = cc h
  new_dispatcher-IsSound (some processor) (some (store, state)) size count d h =
      let (positive, same) =
        accepted-if (size == 0) (count == 0) queue_size_not_positive worker_count_not_positive h in
      rw (← same) (started-IsSound processor store state size count, ground (arith, positive))

  shutdown_returns-all_exited :
      (picks_done : Bool) (ctx : Option ContextError) (d : Dispatcher E F S) (left : ℕ)
      → shutdown_returns picks_done ctx d ≡ some (left, none)
      → (all_exited d.workers ≡ true) × (left ≡ 0)
  unfolding shutdown_returns
  shutdown_returns-all_exited picks_done none d left h = ground arith
  shutdown_returns-all_exited picks_done (some failure) d left h = ground arith

  -- A dispatcher that NewDispatcher makes, whatever producers, workers, monitors and shutdowns do,
  -- in whatever order: nothing panics, the queue stays within its size, and each accepted job is
  -- always at exactly one place: in the queue, with one worker, or answered by one result.
  pub dispatcher_keeps_jobs :
      (processor : Option (Process E F)) (store : Option (Store E F S × S)) (size count : ℕ)
      (d : Dispatcher E F S)
      → new_dispatcher processor store size count ≡ ok d
      → (actions : List (Action E)) → Succeeds (IsSound count) (run actions d)
  dispatcher_keeps_jobs processor store size count d made actions =
      run-IsSound count actions d (new_dispatcher-IsSound processor store size count d made).0

  -- When Shutdown returns without an error, the number of jobs that it reports is 0, and every job that
  -- Submit ever accepted has been answered by exactly one result.
  pub shutdown_acknowledges :
      (processor : Option (Process E F)) (store : Option (Store E F S × S)) (size count : ℕ)
      (d d' : Dispatcher E F S) (actions : List (Action E)) (picks_done : Bool)
      (ctx : Option ContextError) (left : ℕ)
      → new_dispatcher processor store size count ≡ ok d
      → run actions d ≡ some d'
      → shutdown_returns picks_done ctx d' ≡ some (left, none)
      → (left ≡ 0) × ((id : ℕ) → acked id d'.acks ≡ issued id d'.submitted)
  shutdown_acknowledges processor store size count d d' actions picks_done ctx left made ran ended =
      let begun = new_dispatcher-IsSound processor store size count d made in
      let c : IsSound count d' =
        Succeeds-eq_some (IsSound count) (run actions d) d' (run-IsSound count actions d begun.0)
          ran in
      let (gone, none_left) = shutdown_returns-all_exited picks_done ctx d' left ended in
      let empty = c.drained (all_exited-any d'.workers (omega (arith, c.staffed, begun.1)) gone) in
      (
        none_left,
        λ id. omega (
          arith,
          c.once_each id,
          all_exited-held id d'.workers gone,
          queued-empty id d'.jobs empty.1,
        ),
      )

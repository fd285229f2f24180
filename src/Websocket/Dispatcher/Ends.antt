-- ===== src/Websocket/Dispatcher/Ends.antt =====
-- After a stop the workers run out of work.
use Prim.Native.Nat.{ℕ, zero, suc, ◌+◌, ◌*◌, ◌≤◌, ◌<◌}
use mathlib.Core.Path.{◌≡◌, refl, sym, ◌∙◌}
use mathlib.Core.Bool.{true, false}
use mathlib.Core.Option.{Option, none, some}
use mathlib.Core.List.{List, [], ◌∷◌}
use native.Mathlib.Omega.{arith}
use gologger.Prelude.{
  length, Succeeds, Succeeds-bind, Succeeds-eq_some, Succeeds-both, Succeeds-elim,
}
use gologger.Contracts.{Event}
use gologger.Websocket.Publisher.{Publisher, publish}
use gologger.Websocket.Publisher
use gologger.Websocket.Publisher.Delivery.{IsServing, act-IsServing}
use gologger.Websocket.Worker.{
  EventJob, Worker, waiting, processing, storing, publishing, replying, exited, receive,
  after_process, after_store, worker_at, put_worker,
}
use gologger.Websocket.Counts.{is_exited}
use gologger.Websocket.Dispatcher.{
  Process, Store, Dispatcher, new_dispatcher, work, Action, works, act, run,
}
use gologger.Websocket.Dispatcher.Sound.{IsSound, act-IsSound, run-IsSound}
use gologger.Websocket.Dispatcher.Acknowledged.{new_dispatcher-IsSound}
use gologger.Result.{ok}

module _ {F : Type 0} where
  -- The steps that a worker has before it is back at the channel, and one to leave.
  abbrev pub weight : Worker F → ℕ
  weight exited = 0
  weight waiting = 1
  weight (replying job result) = 2
  weight (publishing job processed) = 3
  weight (storing job processed) = 4
  weight (processing job) = 5

  abbrev pub weights : List (Worker F) → ℕ
  weights [] = 0
  weights (w ∷ rest) = weight w + weights rest

  weights-le : (l : List (Worker F)) → weights l ≤ 5 * length l
  weights-le [] = omega arith
  weights-le (waiting ∷ rest) = omega (arith, weights-le rest)
  weights-le (processing j ∷ rest) = omega (arith, weights-le rest)
  weights-le (storing j e ∷ rest) = omega (arith, weights-le rest)
  weights-le (publishing j e ∷ rest) = omega (arith, weights-le rest)
  weights-le (replying j r ∷ rest) = omega (arith, weights-le rest)
  weights-le (exited ∷ rest) = omega (arith, weights-le rest)

  weights-put_worker :
      (i : ℕ) (w : Worker F) (l : List (Worker F))
      → is_exited (worker_at i l) ≡ false
      → weights (put_worker i w l) + weight (worker_at i l) ≡ weights l + weight w
  weights-put_worker i w [] h = cc h
  weights-put_worker zero w (v ∷ rest) h = omega arith
  weights-put_worker (suc i) w (v ∷ rest) h = omega (arith, weights-put_worker i w rest h)

  weight-after_process :
      (job : EventJob) (result : Event × Option F) → weight (after_process job result) ≤ 4
  weight-after_process job (processed, none) = omega arith
  weight-after_process job (processed, some failure) = omega arith

  weight-after_store :
      (job : EventJob) (processed : Event) (failure : Option F)
      → weight (after_store job processed failure) ≤ 3
  weight-after_store job processed none = omega arith
  weight-after_store job processed (some failure) = omega arith

module _ (F : Type 0) where
  receive-weight :
      (jobs : List EventJob)
      → let (w, rest) = receive {F = F} true jobs in
        weight w + 5 * length rest < 1 + 5 * length jobs
  receive-weight [] = omega arith
  receive-weight (job ∷ rest) = omega arith

module _ {E F S : Type 0} where
  -- What is left to do after a stop.
  abbrev pub remaining : Dispatcher E F S → ℕ
  remaining d = weights d.workers + 5 * length d.jobs

  Lighter : Dispatcher E F S → Worker F → Worker F × Dispatcher E F S → Type 0
  Lighter d w next =
      (weight next.0 + 5 * length next.1.jobs < weight w + 5 * length d.jobs)
      × (next.1.closed ≡ d.closed)

  work-Lighter :
      (call : E) (w : Worker F) (d : Dispatcher E F S) (history : List Event)
      → IsServing 32 history d.publisher
      → d.closed ≡ true
      → is_exited w ≡ false
      → Succeeds (Lighter d w) (work call w d)
  unfolding work publish Publisher.act Lighter
  work-Lighter call waiting d history serves shut busy = rw shut (receive-weight F d.jobs, refl)
  work-Lighter call (processing job) d history serves shut busy =
      (omega (arith, weight-after_process job (d.processor call job.event)), refl)
  work-Lighter call (storing job processed) d history serves shut busy =
      (omega (arith, weight-after_store job processed (d.store call processed d.state).0), refl)
  work-Lighter call (publishing job processed) d history serves shut busy =
      Succeeds-bind _ _ (publish processed d.publisher) _
        (act-IsServing 32 history (Publisher.publishes processed) d.publisher serves)
        (λ publisher next. (omega arith, refl))
  work-Lighter call (replying job result) d history serves shut busy = (omega arith, refl)
  work-Lighter call exited d history serves shut busy = cc busy

  Nearer : Dispatcher E F S → Dispatcher E F S → Type 0
  Nearer d d' = (remaining d' < remaining d) × (d'.closed ≡ true)

  act-remaining :
      (n i : ℕ) (call : E) (d : Dispatcher E F S)
      → IsSound n d
      → d.closed ≡ true
      → is_exited (worker_at i d.workers) ≡ false
      → Succeeds (Nearer d) (act (works i call) d)
  unfolding act Lighter Nearer
  act-remaining n i call d sound shut busy =
      Succeeds-bind (Lighter d (worker_at i d.workers)) _ (work call (worker_at i d.workers) d) _
        (work-Lighter call (worker_at i d.workers) d sound.serves.0 sound.serves.1 shut busy)
        (λ next k. (omega (arith, k.0, weights-put_worker i next.0 d.workers busy), k.1 ∙ shut))

  -- Steps of workers, each of a worker that has not left its loop.
  abbrev pub Busy : List (ℕ × E) → Dispatcher E F S → Type 0
  Busy [] d = Unit
  Busy ((i, call) ∷ rest) d =
      (is_exited (worker_at i d.workers) ≡ false) × Succeeds (Busy rest) (act (works i call) d)

  Busy-remaining :
      (n : ℕ) (steps : List (ℕ × E)) (d : Dispatcher E F S)
      → IsSound n d
      → d.closed ≡ true
      → Busy steps d
      → length steps ≤ remaining d
  unfolding Nearer
  Busy-remaining n [] d sound shut busy = omega arith
  Busy-remaining n ((i, call) ∷ rest) d sound shut (busy, more) =
      let a = act (works i call) d in
      Succeeds-elim (λ d'. Nearer d d' × (IsSound n d' × Busy rest d')) _ a
        (Succeeds-both (Nearer d) _ a (act-remaining n i call d sound shut busy)
          (Succeeds-both (IsSound n) (Busy rest) a (act-IsSound n (works i call) d sound) more))
        (λ d' k. omega (arith, k.0.0, Busy-remaining n rest d' k.1.0 k.0.1 k.1.1))

  -- After a stop the workers of a dispatcher cannot go on for ever: a sequence of steps, each of a
  -- worker that has not left its loop, has at most five steps for each place of the queue and five
  -- for each worker, whatever the processor and the store return.
  pub stopped_workers_end :
      (processor : Option (Process E F)) (store : Option (Store E F S × S)) (size count : ℕ)
      (d d' : Dispatcher E F S) (actions : List (Action E)) (steps : List (ℕ × E))
      → new_dispatcher processor store size count ≡ ok d
      → run actions d ≡ some d'
      → d'.once ≡ true
      → Busy steps d'
      → length steps ≤ 5 * d'.queue_size + 5 * count
  stopped_workers_end processor store size count d d' actions steps made ran stopped busy =
      let begun = (new_dispatcher-IsSound processor store size count d made).0 in
      let c : IsSound count d' =
        Succeeds-eq_some (IsSound count) (run actions d) d' (run-IsSound count actions d begun)
          ran in
      omega (
        arith,
        Busy-remaining count steps d' c (sym c.closed_once ∙ stopped) busy,
        weights-le d'.workers,
        c.staffed,
        c.bounded,
      )

-- ===== src/Websocket/Dispatcher/Steps.antt =====
-- What a step of a worker keeps.
use Prim.Native.Nat.{ℕ, ◌+◌, ◌≤◌}
use mathlib.Core.Path.{◌≡◌, refl}
use mathlib.Core.Bool.{true, false}
use mathlib.Core.List.{List, [], ◌∷◌, ◌++◌}
use native.Mathlib.Omega.{arith}
use gologger.Prelude.{length, Succeeds, Succeeds-bind}
use gologger.Contracts.{Event}
use gologger.Websocket.Publisher.{Publisher, publish}
use gologger.Websocket.Publisher
use gologger.Websocket.Publisher.Delivery.{IsServing, act-IsServing}
use gologger.Websocket.Worker.{Worker, waiting, processing, storing, publishing, replying, exited}
use gologger.Websocket.Counts.{
  queued, held, acked, is_exited, acked-append, receive-conserved, receive-shrunk, receive-exits,
  after_process-held, after_store-held,
}
use gologger.Websocket.Dispatcher.{Dispatcher, work}

module _ {E F S : Type 0} where
  -- What a worker does not touch.
  abbrev pub Untouched : Dispatcher E F S → Dispatcher E F S → Type 0
  Untouched d d' =
      (d'.closed ≡ d.closed)
      × (d'.once ≡ d.once)
      × (d'.accepting ≡ d.accepting)
      × (d'.submitted ≡ d.submitted)
      × (d'.queue_size ≡ d.queue_size)
      × (d'.workers ≡ d.workers)

  -- A step of a worker at `w`: it moves jobs and never makes or loses one, and a worker leaves its
  -- loop only when the channel is closed and empty.
  pub record Works (d : Dispatcher E F S) (w : Worker F) (next : Worker F × Dispatcher E F S)
      : Type 0 where
    pub conserved :
        (id : ℕ)
        → queued id next.1.jobs + held id next.0 + acked id next.1.acks
          ≡ queued id d.jobs + held id w + acked id d.acks
    pub shrunk : length next.1.jobs ≤ length d.jobs
    pub untouched : Untouched d next.1
    pub stays : is_exited w ≡ true → is_exited next.0 ≡ true
    pub exits :
        is_exited next.0 ≡ true → is_exited w ≡ false → (d.closed ≡ true) × (length next.1.jobs ≡ 0)
    pub serves : (history : List Event) × IsServing 32 history next.1.publisher

  pub work-Works :
      (call : E) (w : Worker F) (d : Dispatcher E F S) (history : List Event)
      → IsServing 32 history d.publisher
      → Succeeds (Works d w) (work call w d)
  unfolding work publish Publisher.act
  work-Works call waiting d history serves = record {
    conserved = λ id. omega (arith, receive-conserved F id d.closed d.jobs);
    shrunk = receive-shrunk F d.closed d.jobs;
    untouched = (refl, refl, refl, refl, refl, refl);
    stays = λ same. cc same;
    exits = λ left was. receive-exits F d.closed d.jobs left;
    serves = (history, serves);
  }
  work-Works call (processing job) d history serves =
      let result = d.processor call job.event in
      record {
        conserved = λ id. rw ((after_process-held id job result).0) refl;
        shrunk = omega arith;
        untouched = (refl, refl, refl, refl, refl, refl);
        stays = λ same. cc same;
        exits = λ left was. cc (left, (after_process-held 0 job result).1);
        serves = (history, serves);
      }
  work-Works call (storing job processed) d history serves =
      let result = d.store call processed d.state in
      record {
        conserved = λ id. rw ((after_store-held id job processed result.0).0) refl;
        shrunk = omega arith;
        untouched = (refl, refl, refl, refl, refl, refl);
        stays = λ same. cc same;
        exits = λ left was. cc (left, (after_store-held 0 job processed result.0).1);
        serves = (history, serves);
      }
  work-Works call (publishing job processed) d history serves =
      Succeeds-bind (IsServing 32 (history ++ processed ∷ [])) _ (publish processed d.publisher) _
        (act-IsServing 32 history (Publisher.publishes processed) d.publisher serves)
        (λ publisher next. record {
          conserved = λ id. refl;
          shrunk = omega arith;
          untouched = (refl, refl, refl, refl, refl, refl);
          stays = λ same. cc same;
          exits = λ left was. cc left;
          serves = (history ++ processed ∷ [], next);
        })
  work-Works call (replying job result) d history serves = record {
    conserved = λ id. omega (arith, acked-append id d.acks job.ack result);
    shrunk = omega arith;
    untouched = (refl, refl, refl, refl, refl, refl);
    stays = λ same. cc same;
    exits = λ left was. cc left;
    serves = (history, serves);
  }
  work-Works call exited d history serves = record {
    conserved = λ id. refl;
    shrunk = omega arith;
    untouched = (refl, refl, refl, refl, refl, refl);
    stays = λ same. refl;
    exits = λ left was. cc was;
    serves = (history, serves);
  }

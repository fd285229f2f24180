-- ===== src/Websocket/Dispatcher/Sound.antt =====
-- What every run of a dispatcher keeps: no job is lost or served twice.
use Prim.Native.Nat.{ℕ, suc, ◌+◌, ◌≤◌}
use mathlib.Core.Path.{◌≡◌, refl, ◌∙◌}
use mathlib.Core.Logic.{inl, inr}
use mathlib.Core.Bool.{Bool, true, false, ◌&&◌, not}
use mathlib.Core.Option.{Option, none, some}
use mathlib.Core.List.{List, [], ◌∷◌, ◌++◌}
use native.Mathlib.Omega.{arith}
use gologger.Prelude.{
  ltb, if◌then◌else◌, length, length-append, ltb→lt, &&-eq-true, Succeeds, Succeeds-bind,
  Succeeds-if,
}
use gologger.Result.{Result}
use gologger.Context.{ContextError}
use gologger.Contracts.{Event}
use gologger.Websocket.Publisher
use gologger.Websocket.Publisher.Delivery.{IsServing, published_by, act-IsServing}
use gologger.Websocket.Worker.{Worker, worker_at, put_worker}
use gologger.Websocket.Counts.{
  hit, queued, acked, held_by, any_exited, queued-append, held_by-put_worker, any_exited-put_worker,
  length-put_worker,
}
use gologger.Websocket.Dispatcher.{
  Dispatcher, SubmitError, send, submit, stop, work, Action, submits, stops, works, monitors,
  on_publisher, act, run,
}
use gologger.Websocket.Dispatcher.Steps.{Works, work-Works}

-- Whether a number has been given to a job.
abbrev pub issued : ℕ → ℕ → ℕ
issued id submitted = if ltb id submitted then 1 else 0

issued-suc : (id n : ℕ) → issued id (suc n) ≡ issued id n + hit id n
issued-suc id n = ground arith

module _ {E F S : Type 0} where
  -- The channel is closed exactly when stopOnce has run and submissions are refused; the queue is
  -- within its size; each accepted job is at one place, and no other is anywhere; a worker has left
  -- only if the channel is closed and empty; the number of workers is `n`; the publisher serves.
  pub record IsSound (n : ℕ) (d : Dispatcher E F S) : Type 0 where
    pub closed_once : d.once ≡ d.closed
    pub open_accepting : not d.accepting ≡ d.closed
    pub bounded : length d.jobs ≤ d.queue_size
    pub once_each :
        (id : ℕ) → queued id d.jobs + held_by id d.workers + acked id d.acks ≡ issued id d.submitted
    pub drained : any_exited d.workers ≡ true → (d.closed ≡ true) × (length d.jobs ≡ 0)
    pub staffed : length d.workers ≡ n
    pub serves : (history : List Event) × IsServing 32 history d.publisher

  send-IsSound :
      (n : ℕ) (event : Event) (d : Dispatcher E F S)
      → d.closed ≡ false
      → ltb (length d.jobs) d.queue_size ≡ true
      → IsSound n d
      → Succeeds (λ reply. IsSound n reply.1) (send event d)
  send-IsSound n event d is_open room c =
      Succeeds-if (λ reply. IsSound n reply.1) d.closed _ _ (λ shut. cc (shut, is_open))
        (λ still. record {
          closed_once = c.closed_once;
          open_accepting = c.open_accepting;
          bounded = omega (arith, length-append d.jobs, ltb→lt (length d.jobs) d.queue_size room);
          once_each = λ id. omega (
            arith,
            queued-append id d.jobs (record { ack = d.submitted; event = event }),
            issued-suc id d.submitted,
            c.once_each id,
          );
          drained = λ left. cc ((c.drained left).0, is_open);
          staffed = c.staffed;
          serves = c.serves;
        })

  submit-IsSound :
      (n : ℕ) (picks_send : Bool) (ctx : Option ContextError) (event : Event) (d : Dispatcher E F S)
      → IsSound n d
      → Succeeds (λ reply. IsSound n reply.1) (submit picks_send ctx event d)
  unfolding submit
  submit-IsSound n picks_send none event d c =
      let test =
        Succeeds-if {A = Result SubmitError ℕ × Dispatcher E F S} (λ reply. IsSound n reply.1) in
      test (not d.accepting) _ _ (λ refused. c)
        (λ accepted.
          test (ltb (length d.jobs) d.queue_size) _ _
            (λ room. send-IsSound n event d (cc (c.open_accepting, accepted)) room c) (λ full. c))
  submit-IsSound n picks_send (some failure) event d c =
      let test =
        Succeeds-if {A = Result SubmitError ℕ × Dispatcher E F S} (λ reply. IsSound n reply.1) in
      test (not d.accepting) _ _ (λ refused. c)
        (λ accepted.
          test (ltb (length d.jobs) d.queue_size && picks_send) _ _
            (λ room.
              send-IsSound n event d (cc (c.open_accepting, accepted))
                ((&&-eq-true (ltb (length d.jobs) d.queue_size) picks_send room).0) c)
            (λ full. c))

  stop-IsSound : (n : ℕ) (d : Dispatcher E F S) → IsSound n d → Succeeds (IsSound n) (stop d)
  unfolding stop
  stop-IsSound n d c =
      let test = Succeeds-if (IsSound n) in
      test d.once _ _ (λ before. c)
        (λ first.
          test d.closed _ _ (λ shut. cc (shut, first, c.closed_once))
            (λ is_open. record {
              closed_once = refl;
              open_accepting = refl;
              bounded = c.bounded;
              once_each = c.once_each;
              drained = λ left. (refl, (c.drained left).1);
              staffed = c.staffed;
              serves = c.serves;
            }))

  -- A worker's step, put back among the workers.
  put-IsSound :
      (n i : ℕ) (d : Dispatcher E F S) (next : Worker F × Dispatcher E F S)
      → IsSound n d
      → Works d (worker_at i d.workers) next
      → IsSound n (record next.1 { workers = put_worker i next.0 d.workers })
  put-IsSound n i d next c k =
      let same = k.untouched in
      record {
        closed_once = cc (same.1, same.0, c.closed_once);
        open_accepting = cc (same.2, same.0, c.open_accepting);
        bounded = omega (arith, k.shrunk, c.bounded, same.4);
        once_each = λ id. rw same.3 (
            omega (
              arith,
              k.conserved id,
              held_by-put_worker id i next.0 d.workers k.stays,
              c.once_each id,
            ));
        drained = λ left. rw same.0 (elim (any_exited-put_worker i next.0 d.workers left) [
          | inl before ↦ ((c.drained before).0, omega (arith, (c.drained before).1, k.shrunk))
          | inr (gone, was) ↦ k.exits gone was
        ]);
        staffed = length-put_worker i next.0 d.workers ∙ c.staffed;
        serves = k.serves;
      }

  pub act-IsSound :
      (n : ℕ) (a : Action E) (d : Dispatcher E F S) → IsSound n d → Succeeds (IsSound n) (act a d)
  unfolding act
  act-IsSound n (submits picks_send ctx event) d c =
      Succeeds-bind _ (IsSound n) (submit picks_send ctx event d) _
        (submit-IsSound n picks_send ctx event d c) (λ reply k. k)
  act-IsSound n stops d c = stop-IsSound n d c
  act-IsSound n (works i call) d c =
      Succeeds-bind (Works d (worker_at i d.workers)) (IsSound n)
        (work call (worker_at i d.workers) d) _
        (work-Works call (worker_at i d.workers) d c.serves.0 c.serves.1)
        (λ next k. put-IsSound n i d next c k)
  act-IsSound n (monitors a) d c =
      Succeeds-bind (IsServing 32 (c.serves.0 ++ published_by (on_publisher a))) (IsSound n)
        (Publisher.act (on_publisher a) d.publisher) _
        (act-IsServing 32 c.serves.0 (on_publisher a) d.publisher c.serves.1)
        (λ p k. record {
          closed_once = c.closed_once;
          open_accepting = c.open_accepting;
          bounded = c.bounded;
          once_each = c.once_each;
          drained = c.drained;
          staffed = c.staffed;
          serves = (c.serves.0 ++ published_by (on_publisher a), k);
        })

  pub run-IsSound :
      (n : ℕ) (actions : List (Action E)) (d : Dispatcher E F S)
      → IsSound n d
      → Succeeds (IsSound n) (run actions d)
  unfolding run
  run-IsSound n [] d c = c
  run-IsSound n (a ∷ rest) d c =
      Succeeds-bind (IsSound n) (IsSound n) (act a d) (run rest) (act-IsSound n a d c)
        (λ d' c'. run-IsSound n rest d' c')

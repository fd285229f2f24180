-- ===== src/Websocket/Dispatcher/Runs.antt =====
-- Every run of a dispatcher keeps that its workers report and publish stored events only.
use Prim.Native.Nat.{ℕ, zero, suc}
use mathlib.Core.Path.{◌≡◌, refl}
use mathlib.Core.Logic.{inl, inr}
use mathlib.Core.Bool.{Bool, false, ◌&&◌, not}
use mathlib.Core.Option.{Option, none, some}
use mathlib.Core.List.{List, [], ◌∷◌, ◌++◌, append-nil}
use gologger.Prelude.{
  ltb, length, Bool-cases, select, All, Subsequence, end, keep, skip, Succeeds, Succeeds-bind,
  Succeeds-if, Succeeds-both,
}
use gologger.Result.{Result}
use gologger.Context.{ContextError}
use gologger.Contracts.{Event}
use gologger.Websocket.Publisher.{Subscription}
use gologger.Websocket.Publisher
use gologger.Websocket.Publisher.Delivery.{IsServing, published_by, act-IsServing}
use gologger.Websocket.Worker.{Worker, waiting, exited, worker_at, put_worker, start}
use gologger.Websocket.Dispatcher.Holding.{Holds}
use gologger.Websocket.Dispatcher.Sound.{IsSound, act-IsSound}
use gologger.Websocket.Dispatcher.Stored.{IsStored, Stores, work-Stores}
use gologger.Websocket.Dispatcher.{
  Dispatcher, SubmitError, send, submit, stop, work, Action, MonitorAction, on_publisher,
  subscribes, closes, receives, submits, stops, works, monitors, act, run,
}

module _ {F : Type 0} (P : Worker F → Type 0) where
  All-worker_at : (i : ℕ) (l : List (Worker F)) → P exited → All P l → P (worker_at i l)
  All-worker_at i [] left h = left
  All-worker_at zero (w ∷ rest) left h = h.0
  All-worker_at (suc i) (w ∷ rest) left h = All-worker_at i rest left h.1

  All-put_worker :
      (i : ℕ) (w : Worker F) (l : List (Worker F)) → P w → All P l → All P (put_worker i w l)
  All-put_worker i w [] new h = tt
  All-put_worker zero w (v ∷ rest) new h = (new, h.1)
  All-put_worker (suc i) w (v ∷ rest) new h = (h.0, All-put_worker i w rest new h.1)

  pub All-start : (n : ℕ) → P waiting → All P (start n)
  All-start zero h = tt
  All-start (suc n) h = (h, All-start n h)

module _ {A : Type 0} (P : A → Type 0) where
  pub All-Subsequence : {xs ys : List A} → Subsequence xs ys → All P ys → All P xs
  All-Subsequence end h = tt
  All-Subsequence (keep x d) h = (h.0, All-Subsequence d h.1)
  All-Subsequence (skip y d) h = All-Subsequence d h.1

  pub All-select : (p : A → Bool) (xs : List A) → All P xs → All P (select p xs)
  All-select p [] h = tt
  All-select p (x ∷ xs) h = elim (Bool-cases (p x)) [
    | inl chosen ↦ rw chosen (h.0, All-select p xs h.1)
    | inr other ↦ rw other (All-select p xs h.1)
  ]

published_by-monitor : (a : MonitorAction) → published_by (on_publisher a) ≡ []
published_by-monitor (subscribes filter) = refl
published_by-monitor (closes i) = refl
published_by-monitor (receives i) = refl

module _ {E F S : Type 0} (P : Event → Type 0) (Keeps : S → Event → Type 0) where
  send-IsStored :
      (event : Event) (d : Dispatcher E F S)
      → d.closed ≡ false
      → IsStored P Keeps d
      → Succeeds (λ reply. IsStored P Keeps reply.1) (send event d)
  send-IsStored event d is_open c =
      Succeeds-if (λ reply. IsStored P Keeps reply.1) d.closed _ _ (λ shut. cc (shut, is_open))
        (λ still. record {
          checks = c.checks;
          keeping = c.keeping;
          held = c.held;
          reported = c.reported;
          serves = c.serves;
        })

  submit-IsStored :
      (picks_send : Bool) (ctx : Option ContextError) (event : Event) (d : Dispatcher E F S)
      → not d.accepting ≡ d.closed
      → IsStored P Keeps d
      → Succeeds (λ reply. IsStored P Keeps reply.1) (submit picks_send ctx event d)
  unfolding submit
  submit-IsStored picks_send none event d open_accepting c =
      let test =
        Succeeds-if {A = Result SubmitError ℕ × Dispatcher E F S}
          (λ reply. IsStored P Keeps reply.1) in
      test (not d.accepting) _ _ (λ refused. c)
        (λ accepted.
          test (ltb (length d.jobs) d.queue_size) _ _
            (λ room. send-IsStored event d (cc (open_accepting, accepted)) c) (λ full. c))
  submit-IsStored picks_send (some failure) event d open_accepting c =
      let test =
        Succeeds-if {A = Result SubmitError ℕ × Dispatcher E F S}
          (λ reply. IsStored P Keeps reply.1) in
      test (not d.accepting) _ _ (λ refused. c)
        (λ accepted.
          test (ltb (length d.jobs) d.queue_size && picks_send) _ _
            (λ room. send-IsStored event d (cc (open_accepting, accepted)) c) (λ full. c))

  stop-IsStored :
      (d : Dispatcher E F S)
      → d.once ≡ d.closed
      → IsStored P Keeps d
      → Succeeds (IsStored P Keeps) (stop d)
  unfolding stop
  stop-IsStored d closed_once c =
      let test = Succeeds-if (IsStored P Keeps) in
      test d.once _ _ (λ before. c)
        (λ first.
          test d.closed _ _ (λ shut. cc (shut, first, closed_once))
            (λ is_open. record {
              checks = c.checks;
              keeping = c.keeping;
              held = c.held;
              reported = c.reported;
              serves = c.serves;
            }))

  act-IsStored :
      (n : ℕ) (a : Action E) (d : Dispatcher E F S)
      → IsSound n d
      → IsStored P Keeps d
      → Succeeds (IsStored P Keeps) (act a d)
  unfolding act
  act-IsStored n (submits picks_send ctx event) d sound c =
      Succeeds-bind _ (IsStored P Keeps) (submit picks_send ctx event d) _
        (submit-IsStored picks_send ctx event d sound.open_accepting c) (λ reply k. k)
  act-IsStored n stops d sound c = stop-IsStored d sound.closed_once c
  act-IsStored n (works i call) d sound c =
      Succeeds-bind (Stores P Keeps d.workers) (IsStored P Keeps)
        (work call (worker_at i d.workers) d) _
        (work-Stores P Keeps call (worker_at i d.workers) d c
          (All-worker_at (Holds P Keeps d.state) i d.workers tt c.held))
        (λ next k. record {
          checks = k.next_checks;
          keeping = k.next_keeping;
          held =
              All-put_worker (Holds P Keeps next.1.state) i next.0 d.workers k.next_held k.others;
          reported = k.next_reported;
          serves = k.next_serves;
        })
  act-IsStored n (monitors a) d sound c =
      let (history, serves, recorded) = c.serves in
      Succeeds-bind (IsServing 32 (history ++ published_by (on_publisher a))) (IsStored P Keeps)
        (Publisher.act (on_publisher a) d.publisher) _
        (act-IsServing 32 history (on_publisher a) d.publisher serves)
        (λ p k. record {
          checks = c.checks;
          keeping = c.keeping;
          held = c.held;
          reported = c.reported;
          serves = (history, rw (published_by-monitor a, append-nil history) at k, recorded);
        })

  pub run-IsStored :
      (n : ℕ) (actions : List (Action E)) (d : Dispatcher E F S)
      → IsSound n d
      → IsStored P Keeps d
      → Succeeds (IsStored P Keeps) (run actions d)
  unfolding run
  run-IsStored n [] d sound c = c
  run-IsStored n (a ∷ rest) d sound c =
      Succeeds-bind (λ d'. IsSound n d' × IsStored P Keeps d') (IsStored P Keeps) (act a d)
        (run rest)
        (Succeeds-both (IsSound n) (IsStored P Keeps) (act a d) (act-IsSound n a d sound)
          (act-IsStored n a d sound c))
        (λ d' both. run-IsStored n rest d' both.0 both.1)

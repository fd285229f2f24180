-- ===== src/Websocket/Counts.antt =====
-- Where the jobs are, counted by number.
use Prim.Native.Nat.{ℕ, zero, suc, ◌+◌, ◌≤◌}
use mathlib.Core.Path.{◌≡◌, refl}
use mathlib.Core.Logic.{◌⊎◌, inl}
use mathlib.Core.Bool.{Bool, true, false}
use mathlib.Core.Option.{Option, none, some}
use mathlib.Core.List.{List, [], ◌∷◌, ◌++◌}
use native.Mathlib.Omega.{arith}
use gologger.Prelude.{◌==◌, if◌then◌else◌, length}
use gologger.Contracts.{Event}
use gologger.Websocket.Worker.{
  EventJob, EventResult, Worker, waiting, processing, storing, publishing, replying, exited,
  receive, after_process, after_store, worker_at, put_worker,
}

-- How often a number is that of a job in the queue, with a worker, or with a result.
abbrev pub hit : ℕ → ℕ → ℕ
hit id n = if n == id then 1 else 0

abbrev pub queued : ℕ → List EventJob → ℕ
queued id [] = 0
queued id (job ∷ rest) = hit id job.ack + queued id rest

module _ {F : Type 0} where
  abbrev pub held : ℕ → Worker F → ℕ
  held id (processing job) = hit id job.ack
  held id (storing job processed) = hit id job.ack
  held id (publishing job processed) = hit id job.ack
  held id (replying job result) = hit id job.ack
  held id waiting = 0
  held id exited = 0

  abbrev pub held_by : ℕ → List (Worker F) → ℕ
  held_by id [] = 0
  held_by id (w ∷ rest) = held id w + held_by id rest

  abbrev pub acked : ℕ → List (ℕ × EventResult F) → ℕ
  acked id [] = 0
  acked id ((n, result) ∷ rest) = hit id n + acked id rest

  abbrev pub is_exited : Worker F → Bool
  is_exited exited = true
  is_exited _ = false

  abbrev pub any_exited : List (Worker F) → Bool
  any_exited [] = false
  any_exited (w ∷ rest) = if is_exited w then true else any_exited rest

  pub acked-append :
      (id : ℕ) (acks : List (ℕ × EventResult F)) (n : ℕ) (result : EventResult F)
      → acked id (acks ++ (n, result) ∷ []) ≡ acked id acks + hit id n
  acked-append id [] n result = omega arith
  acked-append id ((m, r) ∷ rest) n result = omega (arith, acked-append id rest n result)

  held-exited : (id : ℕ) (w : Worker F) → is_exited w ≡ true → held id w ≡ 0
  held-exited id exited h = refl
  held-exited id waiting h = refl
  held-exited id (processing job) h = cc h
  held-exited id (storing job processed) h = cc h
  held-exited id (publishing job processed) h = cc h
  held-exited id (replying job result) h = cc h

  pub held_by-put_worker :
      (id i : ℕ) (w : Worker F) (l : List (Worker F))
      → (is_exited (worker_at i l) ≡ true → is_exited w ≡ true)
      → held_by id (put_worker i w l) + held id (worker_at i l) ≡ held_by id l + held id w
  held_by-put_worker id i w [] h = omega (arith, held-exited id w (h refl))
  held_by-put_worker id zero w (v ∷ rest) h = omega arith
  held_by-put_worker id (suc i) w (v ∷ rest) h = omega (arith, held_by-put_worker id i w rest h)

  pub any_exited-put_worker :
      (i : ℕ) (w : Worker F) (l : List (Worker F))
      → any_exited (put_worker i w l) ≡ true
      → (any_exited l ≡ true) ⊎ ((is_exited w ≡ true) × (is_exited (worker_at i l) ≡ false))
  any_exited-put_worker i w [] h = inl h
  any_exited-put_worker zero w (v ∷ rest) h = ground arith
  any_exited-put_worker (suc i) w (v ∷ rest) h = ground (arith, any_exited-put_worker i w rest)

  pub length-put_worker :
      (i : ℕ) (w : Worker F) (l : List (Worker F)) → length (put_worker i w l) ≡ length l
  length-put_worker i w [] = refl
  length-put_worker zero w (v ∷ rest) = refl
  length-put_worker (suc i) w (v ∷ rest) = omega (arith, length-put_worker i w rest)

pub queued-append :
    (id : ℕ) (jobs : List EventJob) (job : EventJob)
    → queued id (jobs ++ job ∷ []) ≡ queued id jobs + hit id job.ack
queued-append id [] job = omega arith
queued-append id (j ∷ rest) job = omega (arith, queued-append id rest job)

pub queued-empty : (id : ℕ) (jobs : List EventJob) → length jobs ≡ 0 → queued id jobs ≡ 0
queued-empty id [] h = refl
queued-empty id (job ∷ rest) h = omega (arith, h)

module _ (F : Type 0) where
  pub receive-conserved :
      (id : ℕ) (closed : Bool) (jobs : List EventJob)
      → let (w, rest) = receive {F = F} closed jobs in queued id rest + held id w ≡ queued id jobs
  receive-conserved id true [] = refl
  receive-conserved id false [] = refl
  receive-conserved id true (job ∷ rest) = omega arith
  receive-conserved id false (job ∷ rest) = omega arith

  pub receive-shrunk :
      (closed : Bool) (jobs : List EventJob) → length (receive {F = F} closed jobs).1 ≤ length jobs
  receive-shrunk true [] = omega arith
  receive-shrunk false [] = omega arith
  receive-shrunk true (job ∷ rest) = omega arith
  receive-shrunk false (job ∷ rest) = omega arith

  pub receive-exits :
      (closed : Bool) (jobs : List EventJob)
      → is_exited (receive {F = F} closed jobs).0 ≡ true
      → (closed ≡ true) × (length (receive {F = F} closed jobs).1 ≡ 0)
  receive-exits true [] h = (refl, refl)
  receive-exits false [] h = cc h
  receive-exits true (job ∷ rest) h = cc h
  receive-exits false (job ∷ rest) h = cc h

module _ {F : Type 0} where
  pub after_process-held :
      (id : ℕ) (job : EventJob) (result : Event × Option F)
      → (held id (after_process job result) ≡ hit id job.ack)
        × (is_exited (after_process job result) ≡ false)
  after_process-held id job (processed, none) = (refl, refl)
  after_process-held id job (processed, some failure) = (refl, refl)

  pub after_store-held :
      (id : ℕ) (job : EventJob) (processed : Event) (failure : Option F)
      → (held id (after_store job processed failure) ≡ hit id job.ack)
        × (is_exited (after_store job processed failure) ≡ false)
  after_store-held id job processed none = (refl, refl)
  after_store-held id job processed (some failure) = (refl, refl)

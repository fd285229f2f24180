-- ===== src/Websocket/Dispatcher/Holding.antt =====
-- What the store has at each point of a worker's loop.
use Prim.Native.Nat.{ℕ}
use mathlib.Core.Path.{◌≡◌, refl}
use mathlib.Core.Bool.{Bool, true, false}
use mathlib.Core.Option.{Option, none, some}
use mathlib.Core.List.{List, [], ◌∷◌}
use gologger.Prelude.{All}
use gologger.Contracts.{Event}
use gologger.Websocket.Worker.{
  EventJob, EventResult, Worker, waiting, processing, storing, publishing, replying, exited,
  receive, after_process, after_store,
}
use gologger.Websocket.Dispatcher.{Process, Store}

module _ {E F : Type 0} where
  -- Each event that the processor returns without an error has a property.
  abbrev pub IsChecking : (Event → Type 0) → Process E F → Type 0
  IsChecking P processor =
      (call : E) (e : Event) → (processor call e).1 ≡ none → P (processor call e).0

module _ {F S : Type 0} (Keeps : S → Event → Type 0) where
  abbrev pub Reported : S → ℕ × EventResult F → Type 0
  Reported s (ack, result) = result.failure ≡ none → Keeps s result.event

module _ {F S : Type 0} (P : Event → Type 0) (Keeps : S → Event → Type 0) where
  -- An event that has been processed, that a worker is about to publish, or to report as stored.
  abbrev pub Holds : S → Worker F → Type 0
  Holds s (publishing job processed) = Keeps s processed
  Holds s (replying job result) = result.failure ≡ none → Keeps s result.event
  Holds s waiting = Unit
  Holds s (processing job) = Unit
  Holds s (storing job processed) = P processed
  Holds s exited = Unit

  pub Holds-after_process :
      (s : S) (job : EventJob) (result : Event × Option F)
      → (result.1 ≡ none → P result.0)
      → Holds s (after_process job result)
  Holds-after_process s job (processed, none) h = h refl
  Holds-after_process s job (processed, some failure) h = λ same. cc same

  pub Holds-after_store :
      (s : S) (job : EventJob) (processed : Event) (failure : Option F)
      → (failure ≡ none → Keeps s processed)
      → Holds s (after_store job processed failure)
  Holds-after_store s job processed none h = h refl
  Holds-after_store s job processed (some failure) h = λ same. cc same

module _ (F : Type 0) {S : Type 0} (P : Event → Type 0) (Keeps : S → Event → Type 0) where
  pub Holds-receive :
      (s : S) (closed : Bool) (jobs : List EventJob)
      → Holds P Keeps s (receive {F = F} closed jobs).0
  Holds-receive s true [] = tt
  Holds-receive s false [] = tt
  Holds-receive s true (job ∷ rest) = tt
  Holds-receive s false (job ∷ rest) = tt

module _ {E F S : Type 0} (P : Event → Type 0) (Keeps : S → Event → Type 0) where
  -- After a call for a processed event that returns no error the store keeps the event, and it goes on to keep what it has.
  pub record IsKeeping (store : Store E F S) : Type 0 where
    pub keeps :
        (call : E) (e : Event) (s : S)
        → P e
        → (store call e s).0 ≡ none
        → Keeps (store call e s).1 e
    pub kept : (call : E) (e x : Event) (s : S) → Keeps s x → Keeps (store call e s).1 x

  -- What holds of the store goes on to hold.
  module _ (store : Store E F S) (k : IsKeeping store) (call : E) (e : Event) (s : S) where
    pub later-Holds : (w : Worker F) → Holds P Keeps s w → Holds P Keeps (store call e s).1 w
    later-Holds waiting h = tt
    later-Holds exited h = tt
    later-Holds (processing job) h = tt
    later-Holds (storing job processed) h = h
    later-Holds (publishing job processed) h = k.kept call e processed s h
    later-Holds (replying job result) h = λ same. k.kept call e result.event s (h same)

    pub later_workers :
        (l : List (Worker F)) → All (Holds P Keeps s) l → All (Holds P Keeps (store call e s).1) l
    later_workers [] h = tt
    later_workers (w ∷ rest) h = (later-Holds w h.0, later_workers rest h.1)

    pub later_acks :
        (l : List (ℕ × EventResult F))
        → All (Reported Keeps s) l
        → All (Reported Keeps (store call e s).1) l
    later_acks [] h = tt
    later_acks ((ack, result) ∷ rest) h =
        (λ same. k.kept call e result.event s (h.0 same), later_acks rest h.1)

    pub later_events : (l : List Event) → All (Keeps s) l → All (Keeps (store call e s).1) l
    later_events [] h = tt
    later_events (x ∷ rest) h = (k.kept call e x s h.0, later_events rest h.1)

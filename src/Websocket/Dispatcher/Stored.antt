-- ===== src/Websocket/Dispatcher/Stored.antt =====
-- What monitors and producers learn of is in the store.
use mathlib.Core.List.{List, [], ◌∷◌, ◌++◌}
use gologger.Prelude.{All, All-append, Succeeds, Succeeds-bind}
use gologger.Contracts.{Event}
use gologger.Websocket.Publisher.{Publisher, publish}
use gologger.Websocket.Publisher
use gologger.Websocket.Publisher.Delivery.{IsServing, act-IsServing}
use gologger.Websocket.Worker.{Worker, waiting, processing, storing, publishing, replying, exited}
use gologger.Websocket.Dispatcher.Holding.{
  IsChecking, IsKeeping, Holds, Reported, Holds-receive, Holds-after_process, Holds-after_store,
  later_workers, later_acks, later_events,
}
use gologger.Websocket.Dispatcher.{Dispatcher, work}

module _ {E F S : Type 0} (P : Event → Type 0) (Keeps : S → Event → Type 0) where
  -- Every event that a result reports without an error is in the store, and the publisher has
  -- published only events of the store.
  pub record IsStored (d : Dispatcher E F S) : Type 0 where
    pub checks : IsChecking P d.processor
    pub keeping : IsKeeping P Keeps d.store
    pub held : All (Holds P Keeps d.state) d.workers
    pub reported : All (Reported Keeps d.state) d.acks
    pub serves :
        (history : List Event) × IsServing 32 history d.publisher × All (Keeps d.state) history

  -- A worker's step, with the other workers left as they are.
  pub record Stores (workers : List (Worker F)) (next : Worker F × Dispatcher E F S) : Type 0 where
    pub next_held : Holds P Keeps next.1.state next.0
    pub others : All (Holds P Keeps next.1.state) workers
    pub next_checks : IsChecking P next.1.processor
    pub next_keeping : IsKeeping P Keeps next.1.store
    pub next_reported : All (Reported Keeps next.1.state) next.1.acks
    pub next_serves :
        (history : List Event) × IsServing 32 history next.1.publisher
        × All (Keeps next.1.state) history

  pub work-Stores :
      (call : E) (w : Worker F) (d : Dispatcher E F S)
      → IsStored d
      → Holds P Keeps d.state w
      → Succeeds (Stores d.workers) (work call w d)
  unfolding work publish Publisher.act
  work-Stores call waiting d c h = record {
    next_held = Holds-receive F P Keeps d.state d.closed d.jobs;
    others = c.held;
    next_checks = c.checks;
    next_keeping = c.keeping;
    next_reported = c.reported;
    next_serves = c.serves;
  }
  work-Stores call (processing job) d c h = record {
    next_held =
        Holds-after_process P Keeps d.state job (d.processor call job.event)
          (c.checks call job.event);
    others = c.held;
    next_checks = c.checks;
    next_keeping = c.keeping;
    next_reported = c.reported;
    next_serves = c.serves;
  }
  work-Stores call (storing job processed) d c h =
      let k = c.keeping in
      let (history, serves, recorded) = c.serves in
      record {
        next_held =
            Holds-after_store P Keeps (d.store call processed d.state).1 job processed
              (d.store call processed d.state).0 (k.keeps call processed d.state h);
        others = later_workers P Keeps d.store k call processed d.state d.workers c.held;
        next_checks = c.checks;
        next_keeping = k;
        next_reported = later_acks P Keeps d.store k call processed d.state d.acks c.reported;
        next_serves = (
          history,
          serves,
          later_events P Keeps d.store k call processed d.state history recorded,
        );
      }
  work-Stores call (publishing job processed) d c h =
      let (history, serves, recorded) = c.serves in
      Succeeds-bind (IsServing 32 (history ++ processed ∷ [])) _ (publish processed d.publisher) _
        (act-IsServing 32 history (Publisher.publishes processed) d.publisher serves)
        (λ publisher next. record {
          next_held = λ same. h;
          others = c.held;
          next_checks = c.checks;
          next_keeping = c.keeping;
          next_reported = c.reported;
          next_serves = (
            history ++ processed ∷ [],
            next,
            All-append (Keeps d.state) history _ recorded (h, tt),
          );
        })
  work-Stores call (replying job result) d c h = record {
    next_held = tt;
    others = c.held;
    next_checks = c.checks;
    next_keeping = c.keeping;
    next_reported = All-append (Reported Keeps d.state) d.acks _ c.reported (h, tt);
    next_serves = c.serves;
  }
  work-Stores call exited d c h = record {
    next_held = tt;
    others = c.held;
    next_checks = c.checks;
    next_keeping = c.keeping;
    next_reported = c.reported;
    next_serves = c.serves;
  }

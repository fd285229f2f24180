-- ===== src/Storage/Memory/Refines.antt =====
-- MemoryEventStore is an event log.
use mathlib.Core.Path.{◌≡◌, refl, ap, ◌∙◌}
use mathlib.Core.Logic.{inl, inr}
use mathlib.Core.Bool.{Bool, true, false}
use mathlib.Core.Option.{Option, none, some}
use mathlib.Core.List.{List, [], ◌∷◌, ◌++◌, map, map-append}
use native.Mathlib.Omega.{arith}
use gologger.Prelude.{if◌then◌else◌, select, Bool-cases, All, All-append}
use gologger.Result.{ok}
use gologger.Text.{Text, text_eq, is_empty}
use gologger.Context.{ContextError}
use gologger.Contracts.{Event, EventFilter}
use gologger.GoMap.{lookup, put-append, lookup-append, lookup-append_self}
use gologger.Storage.Filter.{matches_filter}
use gologger.Storage.Log
use gologger.Storage.Log.{EventLog, find_event}
use gologger.Storage.Memory.Clone.{clone_event, clone_event_idem}
use gologger.Storage.Memory.{
  EventMap, MemoryEventStore, new_memory_event_store, store, get, collect, query, health, close,
  insert, copy_of,
}

abbrev pub entries : EventMap → List Event
entries = map λ p. p.1

abbrev keys : EventMap → List Text
keys = map λ p. p.0

-- What the store stands for.
abbrev pub view : MemoryEventStore → EventLog
view s = record { entries = entries s.events; closed = s.closed }

-- Each entry is under its identifier, is the entry that a lookup finds, and is a clone; the order
-- of insertion is that of the identifiers.
pub record IsConsistent (s : MemoryEventStore) : Type 0 where
  pub keyed : All (λ p. p.1.event_id ≡ p.0) s.events
  pub found : All (λ p. lookup p.0 s.events ≡ some p.1) s.events
  pub cloned : All (λ p. clone_event p.1 ≡ p.1) s.events
  pub ordered : keys s.events ≡ s.order

lookup-find_event :
    (id : Text) (m : EventMap)
    → All (λ p. p.1.event_id ≡ p.0) m
    → lookup id m ≡ find_event id (entries m)
unfolding lookup
lookup-find_event id [] h = refl
lookup-find_event id ((k, e) ∷ rest) h = rw h.0 (ground (arith, lookup-find_event id rest h.1))

All-map_found :
    (m n rest : EventMap)
    → All (λ p. lookup p.0 m ≡ some p.1) rest
    → All (λ p. lookup p.0 (m ++ n) ≡ some p.1) rest
All-map_found m n [] h = tt
All-map_found m n ((k, e) ∷ rest) h = (lookup-append k m n e h.0, All-map_found m n rest h.1)

-- A new entry at the end keeps the invariant.
append-IsConsistent :
    (s : MemoryEventStore) (e : Event)
    → IsConsistent s
    → clone_event e ≡ e
    → lookup e.event_id s.events ≡ none
    → IsConsistent
        (record s { events = s.events ++ (e.event_id, e) ∷ []; order = s.order ++ e.event_id ∷ [] })
append-IsConsistent s e c same h = record {
  keyed = All-append _ s.events _ c.keyed (refl, tt);
  found =
      All-append _ s.events _ (All-map_found s.events _ s.events c.found)
        (lookup-append_self e.event_id s.events e h, tt);
  cloned = All-append _ s.events _ c.cloned (same, tt);
  ordered = map-append _ s.events _ ∙ ap (λ l. l ++ e.event_id ∷ []) c.ordered;
}

collect-select :
    (filter : EventFilter) (m rest : EventMap)
    → All (λ p. lookup p.0 m ≡ some p.1) rest
    → All (λ p. clone_event p.1 ≡ p.1) rest
    → collect filter m (keys rest) ≡ select (λ e. matches_filter e filter) (entries rest)
unfolding collect
collect-select filter m [] h k = refl
collect-select filter m ((id, e) ∷ rest) h k =
    rw (h.0, collect-select filter m rest h.1 k.1, k.0) refl

-- A call of the store beside the same call of the log.
record Simulates {R : Type 0} (memory : R × MemoryEventStore) (log : R × EventLog) : Type 0 where
  same_reply : memory.0 ≡ log.0
  same_view : view memory.1 ≡ log.1
  consistent : IsConsistent memory.1

Simulates-if :
    {R : Type 0} (b : Bool) {m m' : R × MemoryEventStore} {l l' : R × EventLog}
    → Simulates m l
    → Simulates m' l'
    → Simulates (if b then m else m') (if b then l else l')
Simulates-if true h k = h
Simulates-if false h k = k

insert-Simulates :
    (o : Option Event) (e : Event) (s : MemoryEventStore)
    → IsConsistent s
    → lookup e.event_id s.events ≡ o
    → Simulates (insert o e s) (Log.accept o (clone_event e) (view s))
unfolding insert clone_event
insert-Simulates (some x) e s c h = record { same_reply = refl; same_view = refl; consistent = c }
insert-Simulates none e s c h =
    let appended = put-append e.event_id (clone_event e) s.events h in
    record {
      same_reply = refl;
      same_view =
          rw appended
            (ap (λ l. record { entries = l; closed = s.closed }) (map-append _ s.events _));
      consistent = rw appended (append-IsConsistent s (clone_event e) c (clone_event_idem e) h);
    }

store-Simulates :
    (ctx : Option ContextError) (e : Event) (s : MemoryEventStore)
    → IsConsistent s
    → Simulates (store ctx e s) (Log.store ctx (clone_event e) (view s))
unfolding store clone_event
store-Simulates (some x) e s c = record { same_reply = refl; same_view = refl; consistent = c }
store-Simulates none e s c = rw (← lookup-find_event e.event_id s.events c.keyed) (
    Simulates-if (is_empty e.event_id)
      (record { same_reply = refl; same_view = refl; consistent = c })
      (Simulates-if s.closed (record { same_reply = refl; same_view = refl; consistent = c })
        (insert-Simulates (lookup e.event_id s.events) e s c refl)))

copy_of-lookup :
    (id : Text) (m : EventMap)
    → All (λ p. clone_event p.1 ≡ p.1) m
    → copy_of (lookup id m) ≡ Log.found (lookup id m)
unfolding lookup
copy_of-lookup id [] h = refl
copy_of-lookup id ((k, e) ∷ rest) h = elim (Bool-cases (text_eq k id)) [
  | inl same ↦ rw same (ap ok h.0)
  | inr other ↦ rw other (copy_of-lookup id rest h.1)
]

get-eq :
    (ctx : Option ContextError) (id : Text) (s : MemoryEventStore)
    → IsConsistent s
    → get ctx id s ≡ Log.get ctx id (view s)
unfolding get
get-eq (some x) id s c = refl
get-eq none id s c =
    rw (← lookup-find_event id s.events c.keyed, copy_of-lookup id s.events c.cloned) refl

query-eq :
    (ctx : Option ContextError) (filter : EventFilter) (s : MemoryEventStore)
    → IsConsistent s
    → query ctx filter s ≡ Log.query ctx filter (view s)
unfolding query
query-eq (some x) filter s c = refl
query-eq none filter s c =
    rw (← c.ordered, collect-select filter s.events s.events c.found c.cloned) refl

health-eq :
    (ctx : Option ContextError) (s : MemoryEventStore) → health ctx s ≡ Log.health ctx (view s)
unfolding health
health-eq (some x) s = refl
health-eq none s = refl

close-view : (s : MemoryEventStore) → view (close s) ≡ Log.close (view s)
unfolding close
close-view s = ground arith

close-IsConsistent : (s : MemoryEventStore) → IsConsistent s → IsConsistent (close s)
unfolding close
close-IsConsistent s c = elim (Bool-cases s.closed) [
  | inl shut ↦ simp shut c
  | inr live ↦
      simp live
        (record { keyed = c.keyed; found = c.found; cloned = c.cloned; ordered = c.ordered })
]

-- The calls of the interface EventStore on the store in memory.
abbrev pub step : Log.Call → MemoryEventStore → Log.Reply × MemoryEventStore
step (Log.stores ctx e) s = let (r, s') = store ctx e s in (Log.done r, s')
step (Log.gets ctx id) s = (Log.event (get ctx id s), s)
step (Log.queries ctx filter) s = (Log.events (query ctx filter s), s)
step (Log.asks_health ctx) s = (Log.done (health ctx s), s)
step Log.closes s = (Log.done (ok tt), close s)

abbrev pub replies : List Log.Call → MemoryEventStore → List Log.Reply
replies [] s = []
replies (c ∷ cs) s = let (r, s') = step c s in r ∷ replies cs s'

-- The call with a clone of its event.
abbrev pub cloned_call : Log.Call → Log.Call
cloned_call (Log.stores ctx e) = Log.stores ctx (clone_event e)
cloned_call c = c

step-Simulates :
    (c : Log.Call) (s : MemoryEventStore)
    → IsConsistent s
    → Simulates (step c s) (Log.step (cloned_call c) (view s))
step-Simulates (Log.stores ctx e) s i =
    let sim = store-Simulates ctx e s i in
    record {
      same_reply = ap Log.done sim.same_reply;
      same_view = sim.same_view;
      consistent = sim.consistent;
    }
step-Simulates (Log.gets ctx id) s i = record {
  same_reply = ap Log.event (get-eq ctx id s i);
  same_view = refl;
  consistent = i;
}
step-Simulates (Log.queries ctx filter) s i = record {
  same_reply = ap Log.events (query-eq ctx filter s i);
  same_view = refl;
  consistent = i;
}
step-Simulates (Log.asks_health ctx) s i = record {
  same_reply = ap Log.done (health-eq ctx s);
  same_view = refl;
  consistent = i;
}
step-Simulates Log.closes s i = record {
  same_reply = refl;
  same_view = close-view s;
  consistent = close-IsConsistent s i;
}

replies-view :
    (cs : List Log.Call) (s : MemoryEventStore)
    → IsConsistent s
    → replies cs s ≡ Log.replies (map cloned_call cs) (view s)
replies-view [] s i = refl
replies-view (c ∷ cs) s i =
    let sim = step-Simulates c s i in
    rw (sim.same_reply, replies-view cs (step c s).1 sim.consistent, sim.same_view) refl

-- Whatever calls are made of a new store in memory, in whatever order and with whatever contexts,
-- every reply is the one that the event log gives to the same calls with cloned events.
pub memory_refines_log :
    (cs : List Log.Call)
    → replies cs new_memory_event_store
      ≡ Log.replies (map cloned_call cs) (record { entries = []; closed = false })
memory_refines_log cs =
    replies-view cs new_memory_event_store
      (record { keyed = tt; found = tt; cloned = tt; ordered = refl })

-- ===== src/Websocket/Connection/Drained.antt =====
-- writePump, as long as it can write.
use Prim.Native.Nat.{ℕ, zero, suc, ◌≤◌}
use mathlib.Core.Path.{◌≡◌, refl, ◌∙◌}
use mathlib.Core.Bool.{Bool, true, false}
use mathlib.Core.Option.{some}
use mathlib.Core.List.{List, [], ◌∷◌, ◌++◌, append-nil, append_assoc}
use native.Mathlib.Omega.{arith}
use gologger.Prelude.{if◌then◌else◌, length}
use gologger.Websocket.Message.{OutboundMessage}
use gologger.Websocket.Protocol.{Json}
use gologger.Websocket.Connection.{Connection, pump, Action, pumps, act, act_all}

-- So many rounds of writePump, each of which can write.
abbrev pub rounds : ℕ → List Action
rounds zero = []
rounds (suc n) = pumps true ∷ rounds n

-- A round that has nothing to write.
record Idle (c next : Connection) : Type 0 where
  still_empty : next.outbound ≡ []
  same_written : next.written ≡ c.written

Idle-if : (b : Bool) (c x y : Connection) → Idle c x → Idle c y → Idle c (if b then x else y)
Idle-if true c x y h k = h
Idle-if false c x y h k = k

pump-Idle :
    (writes : Bool) (queue : List OutboundMessage) (c : Connection)
    → c.outbound ≡ queue
    → queue ≡ []
    → Idle c (pump writes queue c)
pump-Idle writes [] c queued empty =
    Idle-if c.closed c _ _ (record { still_empty = queued; same_written = refl })
      (record { still_empty = queued; same_written = refl })
pump-Idle writes (message ∷ rest) c queued empty = absurd (cc empty)

module _ (json : Json) where
  -- The state after rounds that have written everything.
  record Drains (n : ℕ) (c : Connection) (all : List OutboundMessage) : Type 0 where
    after : Connection
    runs : act_all json (rounds n) c ≡ some after
    empty : after.outbound ≡ []
    all_written : after.written ≡ all

  idle-Drains : (n : ℕ) (c : Connection) → c.outbound ≡ [] → Drains n c c.written
  unfolding act_all act
  idle-Drains zero c queued = record { after = c; runs = refl; empty = queued; all_written = refl }
  idle-Drains (suc n) c queued =
      let idle =
        Idle-if c.pumping c _ c
          (pump-Idle (if c.socket_closed then false else true) c.outbound c refl queued)
          (record { still_empty = queued; same_written = refl }) in
      let d = idle-Drains n _ idle.still_empty in
      record {
        after = d.after;
        runs = d.runs;
        empty = d.empty;
        all_written = d.all_written ∙ idle.same_written;
      }

  pump_round :
      (c : Connection) (message : OutboundMessage) (rest : List OutboundMessage)
      → c.outbound ≡ message ∷ rest
      → c.pumping ≡ true
      → c.socket_closed ≡ false
      → act json (pumps true) c
        ≡ some (record c { outbound = rest; written = c.written ++ message ∷ [] })
  unfolding act
  pump_round c message rest queued alive is_open = rw (queued, alive, is_open) refl

  and_then-Drains :
      (n : ℕ) (c next : Connection) (all : List OutboundMessage)
      → act json (pumps true) c ≡ some next
      → Drains n next all
      → Drains (suc n) c all
  unfolding act_all
  and_then-Drains n c next all steps d = record {
    after = d.after;
    runs = rw steps d.runs;
    empty = d.empty;
    all_written = d.all_written;
  }

  queue-Drains :
      (n : ℕ) (queue : List OutboundMessage) (c : Connection)
      → c.outbound ≡ queue
      → c.pumping ≡ true
      → c.socket_closed ≡ false
      → length queue ≤ n
      → Drains n c (c.written ++ queue)
  queue-Drains n [] c queued alive is_open enough =
      rw (append-nil c.written) (idle-Drains n c queued)
  queue-Drains zero (message ∷ rest) c queued alive is_open enough = absurd (omega (arith, enough))
  queue-Drains (suc n) (message ∷ rest) c queued alive is_open enough =
      let next : Connection = record c { outbound = rest; written = c.written ++ message ∷ [] } in
      let steps : act json (pumps true) c ≡ some next =
        pump_round c message rest queued alive is_open in
      let d = queue-Drains n rest next refl alive is_open (omega (arith, enough)) in
      and_then-Drains n c next (c.written ++ message ∷ rest) steps
        (rw (append_assoc c.written (message ∷ []) rest) at d)

  -- While writePump runs and the socket is open, rounds that can write, as many as there are messages in
  -- the queue or more, write all of them after what was written, in their order, and leave the queue
  -- empty.
  pub write_pump-drains :
      (n : ℕ) (c : Connection)
      → c.pumping ≡ true
      → c.socket_closed ≡ false
      → length c.outbound ≤ n
      → (after : Connection) × (act_all json (rounds n) c ≡ some after)
        × (after.outbound ≡ [])
        × (after.written ≡ c.written ++ c.outbound)
  write_pump-drains n c alive is_open enough =
      let d = queue-Drains n c.outbound c refl alive is_open enough in
      (d.after, d.runs, d.empty, d.all_written)

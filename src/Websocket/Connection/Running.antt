-- ===== src/Websocket/Connection/Running.antt =====
-- Every state of a connection, whatever its steps.
use Prim.Native.Nat.{ℕ, ◌≤◌}
use mathlib.Core.Path.{◌≡◌, refl, ap}
use mathlib.Core.Logic.{◌⊎◌, inl, inr}
use mathlib.Core.Bool.{Bool, true, false}
use mathlib.Core.Option.{Option, some}
use mathlib.Core.List.{List, [], ◌∷◌, ◌++◌}
use native.Mathlib.Omega.{arith}
use gologger.Prelude.{All, All-append, length}
use gologger.Result.{Result}
use gologger.Text.{Text}
use gologger.Clock.{Time}
use gologger.Contracts.{Event}
use gologger.Websocket.Message.{type_event, OutboundMessage, event_message}
use gologger.Websocket.Protocol.{Bytes, GoError, Json, Payload, read_protocol_message}
use gologger.Websocket.Greeting.{perform_handshake}
use gologger.Websocket.Replies.{Submission}
use gologger.Websocket.Connection.{
  Phase, producing, awaiting, following, leaving, returned, Connection, leave, pump, ping, Action,
  reads, delivers, unsubscribes, pumps, pings, returns, on_read, deliver, unsubscribe, return_from,
  act, act_all, run,
}
use gologger.Websocket.Connection.Sendable.{
  IsSendable, Told, IsOver, IsSane, Lives, leave-IsSane, stay_if_sent-Lives,
}
use gologger.Websocket.Connection.Beginning.{perform_handshake-IsSendable, begin-Lives}
use gologger.Websocket.Connection.Reading.{
  PickIf, here, read_producer-Lives, read_monitor-Lives, in_loop,
}

module _ (K : Event → Type 0) where
  module _ (c : Connection) (s : IsSane K c) where
    on_read-Lives :
        (phase : Phase) (read : Result GoError (Text × Payload)) (submission : Submission)
        (now : Time)
        → c.phase ≡ phase
        → (c.closed ≡ false) ⊎ IsOver phase
        → Told K submission
        → Lives K (on_read phase read submission now c)
    on_read-Lives producing read submission now at o h =
        read_producer-Lives K c s (in_loop c.closed producing o (λ e. cc e) (λ e. cc e)) read
          submission now h
    on_read-Lives awaiting read submission now at o h =
        read_monitor-Lives K c s (in_loop c.closed awaiting o (λ e. cc e) (λ e. cc e)) read
    on_read-Lives (following filter) read submission now at o h =
        here K c s (inl (in_loop c.closed (following filter) o (λ e. cc e) (λ e. cc e)))
    on_read-Lives leaving read submission now at o h = here K c s (inr (inl at))
    on_read-Lives returned read submission now at o h = here K c s (inr (inr at))

    deliver-Lives :
        (phase : Phase) (e : Event)
        → c.phase ≡ phase
        → (c.closed ≡ false) ⊎ IsOver phase
        → K e
        → Lives K (deliver phase e c)
    unfolding deliver
    deliver-Lives (following filter) e at o h =
        let message =
          event_message (record { message_type = type_event; request_id = []; event = e }) in
        stay_if_sent-Lives K message c (refl, h) s
          (in_loop c.closed (following filter) o (λ e. cc e) (λ e. cc e))
    deliver-Lives producing e at o h =
        here K c s (inl (in_loop c.closed producing o (λ e. cc e) (λ e. cc e)))
    deliver-Lives awaiting e at o h =
        here K c s (inl (in_loop c.closed awaiting o (λ e. cc e) (λ e. cc e)))
    deliver-Lives leaving e at o h = here K c s (inr (inl at))
    deliver-Lives returned e at o h = here K c s (inr (inr at))

    unsubscribe-Lives :
        (phase : Phase)
        → c.phase ≡ phase
        → (c.closed ≡ false) ⊎ IsOver phase
        → Lives K (some (unsubscribe phase c))
    unsubscribe-Lives (following filter) at o =
        here K (leave c) (leave-IsSane K c s) (inr (inl refl))
    unsubscribe-Lives producing at o =
        here K c s (inl (in_loop c.closed producing o (λ e. cc e) (λ e. cc e)))
    unsubscribe-Lives awaiting at o =
        here K c s (inl (in_loop c.closed awaiting o (λ e. cc e) (λ e. cc e)))
    unsubscribe-Lives leaving at o = here K c s (inr (inl at))
    unsubscribe-Lives returned at o = here K c s (inr (inr at))

    return_from-Lives :
        (phase : Phase)
        → c.phase ≡ phase
        → (c.closed ≡ false) ⊎ IsOver phase
        → Lives K (some (return_from phase c))
    return_from-Lives leaving at o = record {
      next = record c { phase = returned; socket_closed = true };
      lives = refl;
      sane = record { queued = s.queued; sendable = s.sendable; bounded = s.bounded };
      open_until = inr (inr refl);
    }
    return_from-Lives (following filter) at o =
        here K c s (inl (in_loop c.closed (following filter) o (λ e. cc e) (λ e. cc e)))
    return_from-Lives producing at o =
        here K c s (inl (in_loop c.closed producing o (λ e. cc e) (λ e. cc e)))
    return_from-Lives awaiting at o =
        here K c s (inl (in_loop c.closed awaiting o (λ e. cc e) (λ e. cc e)))
    return_from-Lives returned at o = here K c s (inr (inr at))

    stop-Lives :
        (write_failed : Bool)
        → (c.closed ≡ false) ⊎ IsOver c.phase
        → Lives K (some (record c { pumping = false; write_failed = write_failed }))
    stop-Lives write_failed o = record {
      next = record c { pumping = false; write_failed = write_failed };
      lives = refl;
      sane = record { queued = s.queued; sendable = s.sendable; bounded = s.bounded };
      open_until = o;
    }

    pump-Lives :
        (writes : Bool) (queue : List OutboundMessage)
        → c.outbound ≡ queue
        → (c.closed ≡ false) ⊎ IsOver c.phase
        → Lives K (some (pump writes queue c))
    pump-Lives writes [] queued o =
        PickIf K c.closed _ _ (stop-Lives c.write_failed o) (here K c s o)
    pump-Lives true (message ∷ rest) queued o =
        let good = (rw queued at s.queued) in
        record {
          next = record c { outbound = rest; written = c.written ++ message ∷ [] };
          lives = refl;
          sane = record {
            queued = good.1;
            sendable = All-append (IsSendable K) c.written (message ∷ []) s.sendable (good.0, tt);
            bounded = omega (arith, s.bounded, ap length queued);
          };
          open_until = o;
        }
    pump-Lives false (message ∷ rest) queued o =
        let good = (rw queued at s.queued) in
        record {
          next = record c { outbound = rest; pumping = false; write_failed = true };
          lives = refl;
          sane = record {
            queued = good.1;
            sendable = s.sendable;
            bounded = omega (arith, s.bounded, ap length queued);
          };
          open_until = o;
        }

    ping-Lives :
        (writes : Bool) → (c.closed ≡ false) ⊎ IsOver c.phase → Lives K (some (ping writes c))
    ping-Lives true o = here K c s o
    ping-Lives false o = stop-Lives true o

  -- K holds of the event that comes from the subscription, and of that of a result without an error.
  abbrev pub IsHonest : Action → Type 0
  IsHonest (reads read submission now) = Told K submission
  IsHonest (delivers e) = K e
  IsHonest unsubscribes = Unit
  IsHonest (pumps writes) = Unit
  IsHonest (pings writes) = Unit
  IsHonest returns = Unit

  module _ (json : Json) where
    act-Lives :
        (a : Action) (c : Connection)
        → IsHonest a
        → IsSane K c
        → (c.closed ≡ false) ⊎ IsOver c.phase
        → Lives K (act json a c)
    unfolding act
    act-Lives (reads read submission now) c h s o =
        on_read-Lives c s c.phase (read_protocol_message json read) submission now refl o h
    act-Lives (delivers e) c h s o = deliver-Lives c s c.phase e refl o h
    act-Lives unsubscribes c h s o = unsubscribe-Lives c s c.phase refl o
    act-Lives (pumps writes) c h s o =
        PickIf K c.pumping _ _ (pump-Lives c s _ c.outbound refl o) (here K c s o)
    act-Lives (pings writes) c h s o = PickIf K c.pumping _ _ (ping-Lives c s _ o) (here K c s o)
    act-Lives returns c h s o = return_from-Lives c s c.phase refl o

    act_all-Lives :
        (actions : List Action) (c : Connection)
        → All IsHonest actions
        → IsSane K c
        → (c.closed ≡ false) ⊎ IsOver c.phase
        → Lives K (act_all json actions c)
    unfolding act_all
    act_all-Lives [] c h s o = here K c s o
    act_all-Lives (a ∷ rest) c h s o =
        let step = act-Lives a c h.0 s o in
        rw step.lives (act_all-Lives rest step.next h.1 step.sane step.open_until)

    -- Let a property hold of every event that comes from the subscription and of the event of every
    -- result without an error. Then of a connection, whatever is read, and however its goroutines and the
    -- subscription take turns: nothing sends on a closed channel, the queue has at most its size, and all
    -- that is written or queued is a ready message, an event with the property, an acknowledgement with
    -- the status "accepted" and the identifier of an event with the property, or an error with the public
    -- text of its code, which is INVALID_JSON, INVALID_MESSAGE, MISSING_REQUIRED_FIELD,
    -- STORAGE_UNAVAILABLE or INTERNAL_ERROR.
    pub run-Lives :
        (write_queue_size : ℕ) (first : Result GoError (Bool × Bytes)) (id : Text) (now : Time)
        (failure : Option GoError) (writes : Bool) (actions : List Action)
        → All IsHonest actions
        → (after : Connection) × (run json write_queue_size first id now failure writes actions
            ≡ some after)
          × All (IsSendable K) (after.written ++ after.outbound)
          × (length after.outbound ≤ after.queue_size)
    run-Lives write_queue_size first id now failure writes actions h =
        let read = read_protocol_message json first in
        let b =
          begin-Lives K (perform_handshake read id now failure) writes write_queue_size
            (perform_handshake-IsSendable K read id now failure) in
        let t = act_all-Lives actions b.next h b.sane b.open_until in
        (
          t.next,
          rw b.lives t.lives,
          All-append (IsSendable K) t.next.written t.next.outbound t.sane.sendable t.sane.queued,
          t.sane.bounded,
        )

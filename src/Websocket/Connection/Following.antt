-- ===== src/Websocket/Connection/Following.antt =====
-- Messages on their way: what is written and queued of those that were to be sent.
use mathlib.Core.Path.{◌≡◌, refl, ap, sym, ◌∙◌}
use mathlib.Core.Logic.{inl, inr}
use mathlib.Core.Bool.{Bool, true, false}
use mathlib.Core.Option.{some}
use mathlib.Core.List.{List, [], ◌∷◌, ◌++◌, append-nil, append_assoc}
use gologger.Prelude.{
  ltb, if◌then◌else◌, Bool-cases, length, Subsequence, end, keep, skip, Subsequence-refl,
  Subsequence-trans, append-Subsequence,
}
use gologger.Websocket.Message.{OutboundMessage}
use gologger.Websocket.Connection.{Connection, send, pump, ping}

-- The state after messages `h` were to be sent: some may be missing, after a full queue or a failed write.
pub record Follows (c : Connection) (h : List OutboundMessage) : Type 0 where
  pub some_of : Subsequence (c.written ++ c.outbound) h
  pub all_of : c.turned_away ≡ false → c.write_failed ≡ false → c.written ++ c.outbound ≡ h

-- A send of a message, and the same state but for the queue.
pub record Sent (message : OutboundMessage) (c : Connection) (h : List OutboundMessage)
    : Type 0 where
  pub sent : Bool
  pub next : Connection
  pub sends : send message c ≡ some (sent, next)
  pub follows : Follows next (h ++ message ∷ [])
  pub same_phase : next.phase ≡ c.phase
  pub still_open : next.closed ≡ false

pub send-Sent :
    (message : OutboundMessage) (c : Connection) (h : List OutboundMessage)
    → c.closed ≡ false
    → Follows c h
    → Sent message c h
unfolding send
send-Sent message c h is_open f = elim (Bool-cases (ltb (length c.outbound) c.queue_size)) [
  | inl room ↦ record {
    sent = true;
    next = record c { outbound = c.outbound ++ message ∷ [] };
    sends = rw (room, is_open) refl;
    follows = record {
      some_of =
          rw (← append_assoc c.written c.outbound (message ∷ []))
            (append-Subsequence f.some_of (keep message end));
      all_of = λ t p.
          sym (append_assoc c.written c.outbound (message ∷ []))
          ∙ ap (λ l. l ++ message ∷ []) (f.all_of t p);
    };
    same_phase = refl;
    still_open = is_open;
  }
  | inr full ↦ record {
    sent = false;
    next = record c { turned_away = true };
    sends = rw (full, is_open) refl;
    follows = record {
      some_of =
          rw (append-nil (c.written ++ c.outbound)) at
            (append-Subsequence f.some_of (skip message end));
      all_of = λ t p. absurd (cc t);
    };
    same_phase = refl;
    still_open = is_open;
  }
]

-- What writePump does leaves the messages, or loses the one that it cannot write.
pub record Pumped (c next : Connection) (h : List OutboundMessage) : Type 0 where
  pub follows : Follows next h
  pub same_phase : next.phase ≡ c.phase
  pub same_closed : next.closed ≡ c.closed

pub unchanged : (c : Connection) (h : List OutboundMessage) → Follows c h → Pumped c c h
unchanged c h f = record { follows = f; same_phase = refl; same_closed = refl }

ended :
    (c : Connection) (h : List OutboundMessage)
    → Follows c h
    → Pumped c (record c { pumping = false }) h
ended c h f = record {
  follows = record { some_of = f.some_of; all_of = f.all_of };
  same_phase = refl;
  same_closed = refl;
}

without_one :
    (front : List OutboundMessage) (message : OutboundMessage) (rest h : List OutboundMessage)
    → Subsequence (front ++ message ∷ rest) h
    → Subsequence (front ++ rest) h
without_one front message rest h s =
    Subsequence-trans s
      (append-Subsequence (Subsequence-refl front) (skip message (Subsequence-refl rest)))

pub PumpedIf :
    (c : Connection) (h : List OutboundMessage) (b : Bool) (x y : Connection)
    → Pumped c x h
    → Pumped c y h
    → Pumped c (if b then x else y) h
PumpedIf c h true x y p q = p
PumpedIf c h false x y p q = q

pub pump-Pumped :
    (writes : Bool) (queue : List OutboundMessage) (c : Connection) (h : List OutboundMessage)
    → c.outbound ≡ queue
    → Follows c h
    → Pumped c (pump writes queue c) h
pump-Pumped writes [] c h queued f = PumpedIf c h c.closed _ _ (ended c h f) (unchanged c h f)
pump-Pumped true (message ∷ rest) c h queued f =
    let same_messages : (c.written ++ message ∷ []) ++ rest ≡ c.written ++ c.outbound =
      append_assoc c.written (message ∷ []) rest ∙ ap (λ l. c.written ++ l) (sym queued) in
    record {
      follows = record {
        some_of = rw same_messages f.some_of;
        all_of = λ t p. same_messages ∙ f.all_of t p;
      };
      same_phase = refl;
      same_closed = refl;
    }
pump-Pumped false (message ∷ rest) c h queued f = record {
  follows = record {
    some_of = without_one c.written message rest h (rw queued at f.some_of);
    all_of = λ t p. absurd (cc p);
  };
  same_phase = refl;
  same_closed = refl;
}

pub ping-Pumped :
    (writes : Bool) (c : Connection) (h : List OutboundMessage)
    → Follows c h
    → Pumped c (ping writes c) h
ping-Pumped true c h f = unchanged c h f
ping-Pumped false c h f = record {
  follows = record { some_of = f.some_of; all_of = λ t p. absurd (cc p) };
  same_phase = refl;
  same_closed = refl;
}

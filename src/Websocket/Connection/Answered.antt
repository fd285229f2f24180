-- ===== src/Websocket/Connection/Answered.antt =====
-- What a producer is answered.
use Prim.Native.Nat.{ℕ}
use mathlib.Core.Path.{◌≡◌, refl, ap, sym, ◌∙◌}
use mathlib.Core.Logic.{◌⊎◌, inl, inr}
use mathlib.Core.Bool.{Bool, true, false}
use mathlib.Core.Option.{Option, some}
use mathlib.Core.List.{List, [], ◌∷◌, ◌++◌, append-nil, append_assoc}
use gologger.Prelude.{if◌then◌else◌, Bool-cases, Subsequence, Subsequence-refl}
use gologger.Result.{Result, ok}
use gologger.Text.{Text, text_eq}
use gologger.Clock.{Time}
use gologger.Contracts.{Event}
use gologger.Websocket.Message.{mode_producer, HelloMessage, OutboundMessage}
use gologger.Websocket.Protocol.{Bytes, GoError, Json, read_protocol_message}
use gologger.Websocket.Greeting.{perform_handshake}
use gologger.Websocket.Replies.{Submission}
use gologger.Websocket.Connection.{
  Phase, producing, awaiting, following, leaving, returned, Connection, leave, Action, reads,
  delivers, unsubscribes, pumps, pings, returns, new_connection, run, deliver, unsubscribe,
  return_from, act, act_all,
}
use gologger.Websocket.Connection.Answer.{answer, on_read-producing, on_read-over}
use gologger.Websocket.Connection.Following.{
  Follows, send-Sent, Pumped, unchanged, PumpedIf, pump-Pumped, ping-Pumped,
}

-- The goroutine of run, on a connection of a producer.
data IsProducer (c : Connection) : Type 0 where
  in_loop : c.phase ≡ producing → c.closed ≡ false → IsProducer c
  over : (c.phase ≡ leaving) ⊎ (c.phase ≡ returned) → IsProducer c

IsProducer-same :
    (c next : Connection)
    → next.phase ≡ c.phase
    → next.closed ≡ c.closed
    → IsProducer c
    → IsProducer next
IsProducer-same c next same_phase same_closed (in_loop loops is_open) =
    in_loop (same_phase ∙ loops) (same_closed ∙ is_open)
IsProducer-same c next same_phase same_closed (over (inl leaves)) = over (inl (same_phase ∙ leaves))
IsProducer-same c next same_phase same_closed (over (inr gone)) = over (inr (same_phase ∙ gone))

-- No loop over the events of a subscription.
not_following :
    (phase : Phase) (c : Connection)
    → (phase ≡ producing) ⊎ ((phase ≡ leaving) ⊎ (phase ≡ returned))
    → ((e : Event) → deliver phase e c ≡ some c) × (unsubscribe phase c ≡ c)
unfolding deliver
not_following phase c (inl loops) = rw loops (λ e. refl, refl)
not_following phase c (inr (inl leaves)) = rw leaves (λ e. refl, refl)
not_following phase c (inr (inr gone)) = rw gone (λ e. refl, refl)

producer_phase :
    (c : Connection)
    → IsProducer c
    → (c.phase ≡ producing) ⊎ ((c.phase ≡ leaving) ⊎ (c.phase ≡ returned))
producer_phase c (in_loop loops is_open) = inl loops
producer_phase c (over ended) = inr ended

module _ (json : Json) where
  -- The answers to the frames that are read, up to the first one after which no more are read.
  abbrev pub answers : List Action → List OutboundMessage
  answers [] = []
  answers (reads read submission now ∷ rest) =
      let later = answers rest in
      let (message, more) = answer (read_protocol_message json read) submission now in
      message ∷ (if more then later else [])
  answers (action ∷ rest) = answers rest

  abbrev expects : Phase → List Action → List OutboundMessage
  expects producing actions = answers actions
  expects phase actions = []

  -- A step, and what it adds to the messages that were to be sent.
  record Steps (a : Action) (c : Connection) (h : List OutboundMessage) : Type 0 where
    next : Connection
    added : List OutboundMessage
    steps : act json a c ≡ some next
    follows : Follows next (h ++ added)
    producer : IsProducer next
    adds : (rest : List Action) → expects c.phase (a ∷ rest) ≡ added ++ expects next.phase rest

  -- A step that sends nothing new.
  quiet :
      (a : Action) (c next : Connection) (h : List OutboundMessage)
      → act json a c ≡ some next
      → Follows next h
      → IsProducer next
      → ((rest : List Action) → expects c.phase (a ∷ rest) ≡ expects next.phase rest)
      → Steps a c h
  quiet a c next h steps f p same_rest = record {
    next = next;
    added = [];
    steps = steps;
    follows = rw (append-nil h) f;
    producer = p;
    adds = same_rest;
  }

  leave-Follows : (c : Connection) (h : List OutboundMessage) → Follows c h → Follows (leave c) h
  leave-Follows c h f = record { some_of = f.some_of; all_of = f.all_of }

  read-Steps :
      (read : Result GoError (Bool × Bytes)) (submission : Submission) (now : Time) (c : Connection)
      (h : List OutboundMessage)
      → c.phase ≡ producing
      → c.closed ≡ false
      → Follows c h
      → Steps (reads read submission now) c h
  unfolding act
  read-Steps read submission now c h loops is_open f =
      let frame = read_protocol_message json read in
      let message = (answer frame submission now).0 in
      let s = send-Sent message c h is_open f in
      elim (Bool-cases ((answer frame submission now).1)) [
        | inl more ↦ record {
          next = s.next;
          added = message ∷ [];
          steps = on_read-producing c.phase frame submission now c loops ∙ rw (more, s.sends) refl;
          follows = s.follows;
          producer = in_loop (s.same_phase ∙ loops) s.still_open;
          adds = λ rest. rw (s.same_phase, loops, more) refl;
        }
        | inr last ↦ record {
          next = leave s.next;
          added = message ∷ [];
          steps = on_read-producing c.phase frame submission now c loops ∙ rw (last, s.sends) refl;
          follows = leave-Follows s.next (h ++ message ∷ []) s.follows;
          producer = over (inl refl);
          adds = λ rest. rw (loops, last) refl;
        }
      ]

  -- An action that is not a read changes nothing of what is expected.
  expects-skip :
      (phase : Phase) (a : Action) (rest : List Action)
      → answers (a ∷ rest) ≡ answers rest
      → expects phase (a ∷ rest) ≡ expects phase rest
  expects-skip producing a rest h = h
  expects-skip awaiting a rest h = refl
  expects-skip (following filter) a rest h = refl
  expects-skip leaving a rest h = refl
  expects-skip returned a rest h = refl

  pumped-Steps :
      (a : Action) (c next : Connection) (h : List OutboundMessage)
      → act json a c ≡ some next
      → ((rest : List Action) → answers (a ∷ rest) ≡ answers rest)
      → IsProducer c
      → Pumped c next h
      → Steps a c h
  pumped-Steps a c next h steps skips p pumped =
      quiet a c next h steps pumped.follows
        (IsProducer-same c next pumped.same_phase pumped.same_closed p)
        (λ rest.
          expects-skip c.phase a rest (skips rest)
          ∙ ap (λ q. expects q rest) (sym pumped.same_phase))

  expects-nil : (phase : Phase) → expects phase [] ≡ []
  expects-nil producing = refl
  expects-nil awaiting = refl
  expects-nil (following filter) = refl
  expects-nil leaving = refl
  expects-nil returned = refl

  expects-over :
      (phase : Phase) (rest : List Action)
      → (phase ≡ leaving) ⊎ (phase ≡ returned)
      → expects phase rest ≡ []
  expects-over phase rest (inl leaves) = rw leaves refl
  expects-over phase rest (inr gone) = rw gone refl

  ended-Steps :
      (a : Action) (c next : Connection) (h : List OutboundMessage)
      → act json a c ≡ some next
      → (c.phase ≡ leaving) ⊎ (c.phase ≡ returned)
      → (next.phase ≡ leaving) ⊎ (next.phase ≡ returned)
      → Follows next h
      → Steps a c h
  ended-Steps a c next h steps before after f =
      quiet a c next h steps f (over after)
        (λ rest. expects-over c.phase (a ∷ rest) before ∙ sym (expects-over next.phase rest after))

  step-Steps :
      (a : Action) (c : Connection) (h : List OutboundMessage)
      → IsProducer c
      → Follows c h
      → Steps a c h
  unfolding act
  step-Steps (reads read submission now) c h (in_loop loops is_open) f =
      read-Steps read submission now c h loops is_open f
  step-Steps (reads read submission now) c h (over ended) f =
      ended-Steps (reads read submission now) c c h
        (on_read-over c.phase (read_protocol_message json read) submission now c ended) ended ended
        f
  step-Steps (delivers e) c h p f =
      pumped-Steps (delivers e) c c h ((not_following c.phase c (producer_phase c p)).0 e)
        (λ rest. refl) p (unchanged c h f)
  step-Steps unsubscribes c h p f =
      pumped-Steps unsubscribes c c h (ap some (not_following c.phase c (producer_phase c p)).1)
        (λ rest. refl) p (unchanged c h f)
  step-Steps (pumps writes) c h p f =
      pumped-Steps (pumps writes) c _ h refl (λ rest. refl) p
        (PumpedIf c h c.pumping _ _ (pump-Pumped _ c.outbound c h refl f) (unchanged c h f))
  step-Steps (pings writes) c h p f =
      pumped-Steps (pings writes) c _ h refl (λ rest. refl) p
        (PumpedIf c h c.pumping _ _ (ping-Pumped _ c h f) (unchanged c h f))
  step-Steps returns c h (in_loop loops is_open) f =
      pumped-Steps returns c c h (ap (λ q. some (return_from q c)) loops) (λ rest. refl)
        (in_loop loops is_open) (unchanged c h f)
  step-Steps returns c h (over (inl leaves)) f =
      ended-Steps returns c _ h (ap (λ q. some (return_from q c)) leaves) (inl leaves) (inr refl)
        (record { some_of = f.some_of; all_of = f.all_of })
  step-Steps returns c h (over (inr gone)) f =
      ended-Steps returns c c h (ap (λ q. some (return_from q c)) gone) (inr gone) (inr gone) f

  -- A run of steps from a state of a producer.
  act_all-Follows :
      (actions : List Action) (c : Connection) (h : List OutboundMessage)
      → IsProducer c
      → Follows c h
      → (after : Connection) × (act_all json actions c ≡ some after)
        × Follows after (h ++ expects c.phase actions)
        × IsProducer after
  unfolding act_all
  act_all-Follows [] c h p f = (c, refl, rw (expects-nil c.phase, append-nil h) f, p)
  act_all-Follows (a ∷ rest) c h p f =
      let s = step-Steps a c h p f in
      let (after, ran, follows, producer) =
        act_all-Follows rest s.next (h ++ s.added) s.producer s.follows in
      (
        after,
        rw (s.steps, ran) refl,
        rw (s.adds rest, ← append_assoc h s.added (expects s.next.phase rest)) follows,
        producer,
      )

  -- A producer whose handshake has succeeded is never answered out of turn, whatever it sends, whatever
  -- becomes of its events, and however the goroutines take turns: nothing panics, and what is written,
  -- followed by what is queued, is the ready message and one answer to each frame in the order of the
  -- frames, up to the first frame after which the connection reads no more; some may be missing. None
  -- is, as long as no answer has met a full queue and no write of writePump has failed, also when
  -- writePump has returned since the queue was closed and empty.
  pub producer_answered :
      (write_queue_size : ℕ) (first : Result GoError (Bool × Bytes)) (id : Text) (now : Time)
      (failure : Option GoError) (writes : Bool) (message : HelloMessage)
      (sent : List OutboundMessage) (actions : List Action)
      → perform_handshake (read_protocol_message json first) id now failure ≡ (ok message, sent)
      → text_eq message.mode mode_producer ≡ true
      → (after : Connection) × (run json write_queue_size first id now failure writes actions
          ≡ some after)
        × Subsequence (after.written ++ after.outbound) (sent ++ answers actions)
        × (after.turned_away ≡ false
            → after.write_failed ≡ false
            → after.written ++ after.outbound ≡ sent ++ answers actions)
  unfolding new_connection
  producer_answered write_queue_size first id now failure writes message sent actions greeted
        is_producer =
      let c : Connection = record (new_connection write_queue_size) {
        written = sent;
        pumping = true;
        phase = producing;
      } in
      let all : sent ++ [] ≡ sent = append-nil sent in
      let (after, ran, follows, producer) =
        act_all-Follows actions c sent (in_loop refl refl)
          (record { some_of = rw all (Subsequence-refl sent); all_of = λ t p. all }) in
      (after, rw (greeted, is_producer) ran, follows.some_of, follows.all_of)

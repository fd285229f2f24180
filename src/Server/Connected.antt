-- ===== src/Server/Connected.antt =====
-- What the connections of a server tell its clients.
use Prim.Native.Nat.{ℕ, ◌≤◌}
use mathlib.Core.Path.{◌≡◌, refl}
use mathlib.Core.Bool.{Bool}
use mathlib.Core.Option.{Option, none, some}
use mathlib.Core.Option
use mathlib.Core.List.{List, [], ◌∷◌, ◌++◌, Memᴰ}
use mathlib.Core.List.Memᴰ
use gologger.Prelude.{All, length, Succeeds-eq_some}
use gologger.Result.{Result, ok}
use gologger.Text.{Text, Unicode}
use gologger.Clock.{Time}
use gologger.Contracts.{Event}
use gologger.Config.{Viper}
use gologger.Storage.Codec.{Codec}
use gologger.Storage.Files.{Directory}
use gologger.Storage.JsonFile.{JsonFileStorage}
use gologger.Websocket.Worker.{EventResult}
use gologger.Websocket.Publisher.{Subscription}
use gologger.Websocket.Protocol.{Bytes, GoError, Json}
use gologger.Websocket.Replies.{Submission, refused, outcome, channel_closed, timed_out}
use gologger.Websocket.Dispatcher.{Dispatcher}
use gologger.Websocket.Dispatcher
use gologger.Websocket.Dispatcher.Told.{IsTold}
use gologger.Websocket.Dispatcher.InFiles.{Failure, Call, IsLogged}
use gologger.Websocket.Connection.{
  Connection, Action, reads, delivers, unsubscribes, pumps, pings, returns, run,
}
use gologger.Websocket.Connection.Sendable.{IsSendable, Told}
use gologger.Websocket.Connection.Running.{IsHonest, run-Lives}
use gologger.Server.Boot.{Server, boot}
use gologger.Server.Started.{server_tells-IsLogged}

-- An error of the dispatcher as handleEvent reads it.
module _ (to_go : Failure → GoError) where
  abbrev pub as_go : EventResult Failure → EventResult GoError
  as_go result = record { event = result.event; failure = Option.map to_go result.failure }

module _ (to_go : Failure → GoError) (d : Dispatcher Call Failure JsonFileStorage) where
  -- A result that a connection gets is one that a worker has sent.
  abbrev pub IsAnswered : Submission → Type 0
  IsAnswered (outcome result) =
      (ack : ℕ) × (sent : EventResult Failure) × Memᴰ (ack, sent) d.acks
      × (result ≡ as_go to_go sent)
  IsAnswered (refused e) = Unit
  IsAnswered channel_closed = Unit
  IsAnswered timed_out = Unit

  -- So is an event that a connection gets one that its subscription has had in its channel.
  abbrev pub IsSupplied : Action → Type 0
  IsSupplied (reads read submission now) = IsAnswered submission
  IsSupplied (delivers e) =
      (s : Subscription) × Memᴰ s d.publisher.subscriptions × Memᴰ e s.received
  IsSupplied unsubscribes = Unit
  IsSupplied (pumps writes) = Unit
  IsSupplied (pings writes) = Unit
  IsSupplied returns = Unit

module _ {A : Type 0} (P : A → Type 0) where
  All-Memᴰ : (x : A) (l : List A) → Memᴰ x l → All P l → P x
  All-Memᴰ x [] m h = absurd (Memᴰ.not-nil m)
  All-Memᴰ x (y ∷ l) (Memᴰ.head same) h = rw same h.0
  All-Memᴰ x (y ∷ l) (Memᴰ.tail m) h = All-Memᴰ x l m h.1

map-none : {A B : Type 0} (f : A → B) (o : Option A) → Option.map f o ≡ none → o ≡ none
map-none f none h = refl
map-none f (some value) h = absurd (cc h)

module _ (Keeps : JsonFileStorage → Event → Type 0) (to_go : Failure → GoError)
    (d : Dispatcher Call Failure JsonFileStorage) (told : IsTold Keeps d) where
  answered-Told :
      (submission : Submission) → IsAnswered to_go d submission → Told (Keeps d.state) submission
  answered-Told (refused e) h = tt
  answered-Told channel_closed h = tt
  answered-Told timed_out h = tt
  answered-Told (outcome result) (ack, sent, member, same) =
      let reported = All-Memᴰ _ (ack, sent) d.acks member told.producers in
      rw same (λ works. reported (map-none to_go sent.failure works))

  supplied-IsHonest : (a : Action) → IsSupplied to_go d a → IsHonest (Keeps d.state) a
  supplied-IsHonest (reads read submission now) h = answered-Told submission h
  supplied-IsHonest (delivers e) (s, subscribed, got) =
      let events = All-Memᴰ _ s d.publisher.subscriptions subscribed told.monitors in
      All-Memᴰ _ e (s.received ++ s.events) (Memᴰ.append_left s.events got) events
  supplied-IsHonest unsubscribes h = tt
  supplied-IsHonest (pumps writes) h = tt
  supplied-IsHonest (pings writes) h = tt
  supplied-IsHonest returns h = tt

  supplied-All :
      (actions : List Action)
      → All (IsSupplied to_go d) actions
      → All (IsHonest (Keeps d.state)) actions
  supplied-All [] h = tt
  supplied-All (a ∷ rest) h = (supplied-IsHonest a h.0, supplied-All rest h.1)

-- Let a server have started, and its dispatcher have come to a state by whatever steps. Take a
-- connection whose results are some that the workers have sent, and whose events are some that a
-- subscription has had in its channel. Whatever is read, and whatever else happens on it, it does not
-- panic, and every event that it sends, and the event whose identifier is in an acknowledgement that it
-- sends, has gone through ProcessEvent with all that it promises, is known to the store, and has its
-- line in a file of the store.
pub connection_tells-IsLogged :
    (u : Unicode) (codec : Codec) (viper : Viper) (api_key : Text) (mkdir_fails : Bool)
    (opens : Text → Bool) (files : Directory) (server : Server)
    (d d' : Dispatcher Call Failure JsonFileStorage) (earlier : List (Dispatcher.Action Call))
    (to_go : Failure → GoError) (json : Json) (first : Result GoError (Bool × Bytes)) (id : Text)
    (now : Time) (failure : Option GoError) (writes : Bool) (actions : List Action)
    → boot u codec viper api_key mkdir_fails opens files ≡ ok server
    → server.handler.dispatcher ≡ some d
    → Dispatcher.run earlier d ≡ some d'
    → All (IsSupplied to_go d') actions
    → (after : Connection) × (run json server.handler.write_queue_size first id now failure writes
          actions
        ≡ some after)
      × All (IsSendable (IsLogged u codec d'.state)) (after.written ++ after.outbound)
      × (length after.outbound ≤ after.queue_size)
connection_tells-IsLogged u codec viper api_key mkdir_fails opens files server d d' earlier to_go
      json first id now failure writes actions booted same ran supplied =
    let told =
      Succeeds-eq_some (IsTold (IsLogged u codec)) (Dispatcher.run earlier d) d'
        (server_tells-IsLogged u codec viper api_key mkdir_fails opens files server d booted same
          earlier)
        ran in
    run-Lives (IsLogged u codec d'.state) json server.handler.write_queue_size first id now failure
      writes actions (supplied-All (IsLogged u codec) to_go d' told actions supplied)

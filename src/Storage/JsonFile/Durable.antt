-- ===== src/Storage/JsonFile/Durable.antt =====
-- A stored event is found, in the same process and after a restart.
use Prim.Native.Nat.{◌<◌}
use mathlib.Core.Path.{◌≡◌, refl, sym, ◌∙◌}
use mathlib.Core.Logic.{inl, inr}
use mathlib.Core.Bool.{true, false}
use mathlib.Core.Option.{none, some}
use mathlib.Core.List.{List, [], ◌∷◌, ◌++◌}
use gologger.Prelude.{Bool-cases, length}
use gologger.Result.{ok}
use gologger.Text.{Text, text_eq, is_empty, trim_space}
use gologger.Text.Laws.{text_eq_refl}
use gologger.Clock.{Time}
use gologger.Contracts.{Event}
use gologger.Storage.Log
use gologger.Storage.Log.{EventLog, find_event}
use gologger.Storage.Codec.{Codec, IsCodec, IsSame}
use gologger.Storage.Files.Names.{max_index}
use gologger.Storage.JsonFile.{JsonFileStorage, store, get}
use gologger.Storage.JsonFile.Sound.{no_faults, saved_form, IsStorable, IsSound}
use gologger.Storage.JsonFile.Stores.{storable-HasLine, store-Simulates}
use gologger.Storage.JsonFile.Answers.{get-log}
use gologger.Storage.JsonFile.Refines.{Settings, restarts, step, restart-Follows}

find_event-last :
    (id : Text) (back : Event) (entries : List Event)
    → find_event id entries ≡ none
    → back.event_id ≡ id
    → find_event id (entries ++ back ∷ []) ≡ some back
find_event-last id back [] h same_id = rw (same_id, text_eq_refl id) refl
find_event-last id back (x ∷ entries) h same_id = elim (Bool-cases (text_eq x.event_id id)) [
  | inl match ↦ cc (rw match at h)
  | inr other ↦ rw other (find_event-last id back entries (rw other at h) same_id)
]

-- The log after a new event.
store-log :
    (back : Event) (log : EventLog)
    → is_empty back.event_id ≡ false
    → log.closed ≡ false
    → find_event back.event_id log.entries ≡ none
    → Log.store none back log ≡ (ok tt, record log { entries = log.entries ++ back ∷ [] })
store-log back log filled is_open fresh = rw (filled, fresh, is_open) refl

module _ (codec : Codec) (lawful : IsCodec codec) (settings : Settings)
    (named : is_empty (trim_space settings.data_dir) ≡ false) where
  -- Let an open store with a named directory of fewer than 10 ^ 19 files be sound. Without faults of
  -- the system, a Store of an event that json.Marshal accepts, in UTF-8 and with a line that is shorter
  -- than the buffer of the scanner (1 MiB), with an identifier that is not empty and new,
  -- succeeds. A Get of the identifier then returns an event with the identifier, level, service, type
  -- and time of the one stored, and after a restart of the process it returns the same.
  pub store-get :
      (event : Event) (now : Time) (s : JsonFileStorage) (log : EventLog)
      → length s.files < max_index
      → IsStorable codec event
      → IsSound codec s log
      → is_empty event.event_id ≡ false
      → s.closed ≡ false
      → find_event event.event_id log.entries ≡ none
      → let after = (store codec none event now no_faults s).1 in
        ((store codec none event now no_faults s).0 ≡ ok tt)
        × (back : Event) × IsSame event back
        × (get codec none event.event_id (λ n. true) after ≡ ok back)
        × (get codec none event.event_id (λ n. true) (step codec settings restarts after).1
            ≡ ok back)
  store-get event now s log bound h c filled is_open fresh =
      let back = saved_form codec event in
      let alike = (storable-HasLine codec lawful event h).same_event in
      let sim = store-Simulates codec lawful none event now s log bound h c in
      let after = (store codec none event now no_faults s).1 in
      let logged =
        store-log back log (rw alike.same_id filled) (sym c.same_closed ∙ is_open)
          (rw alike.same_id fresh) in
      let log' : EventLog = record log { entries = log.entries ++ back ∷ [] } in
      let sound : IsSound codec after log' = (rw logged at sim.sound) in
      let last = find_event-last event.event_id back log.entries fresh alike.same_id in
      let reopened = restart-Follows codec lawful settings named after log' sound in
      (
        sim.same_reply ∙ rw logged refl,
        back,
        alike,
        get-log codec after log' sound none event.event_id
            ∙ rw (last, sym c.same_closed ∙ is_open) refl,
        get-log codec (step codec settings restarts after).1 (record log' { closed = false })
              reopened.sound none event.event_id
            ∙ rw last refl,
      )

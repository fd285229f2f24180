-- ===== src/Tests/Files.antt =====
-- The store of files at concrete calls, with a codec of one event.
use Prim.Native.Nat.{ℕ, ◌+◌, ◌-◌, ◌*◌, ◌%◌, ◌≤◌, ◌<◌}
use mathlib.Core.Path.{◌≡◌, refl}
use mathlib.Core.Logic.{◌↔◌, inl, inr}
use mathlib.Core.Bool.{Bool, true, false, ◌&&◌}
use mathlib.Core.Option.{none, some}
use mathlib.Core.List.{List, [], ◌∷◌, ◌++◌}
use native.Mathlib.Omega.{arith}
use gologger.Prelude.{◌==◌, ==_iff, if◌then◌else◌, Bool-cases, select, Reorder, same}
use gologger.Result.{ok, err}
use gologger.Text.{Text, text_eq, is_empty, codes, trim_space, trim_right, trim_left, is_space}
use gologger.Text.Laws.{text_eq_iff}
use gologger.GoMap.{lookup}
use gologger.Clock.{Time, day}
use gologger.Contracts.{Event, EventFilter}
use gologger.Storage.{duplicate_event, event_not_found}
use gologger.Storage.Filter.{matches_filter}
use gologger.Text.Decimal.{padded, two_digits}
use gologger.Storage.Codec.{Bytes, Codec, IsCodec, IsSame}
use gologger.Storage.Week.{start_of_week, weekday, format_date, start_of_week_lem}
use gologger.Storage.Lines.{invalid_event}
use gologger.Storage.Files.{File, file_name, sort_events}
use gologger.Storage.Files.Sorted.{InOrder, at_time, sort_events-IsStable}
use gologger.Storage.JsonFile.{
  JsonFileStorage, store_error, read_error, write_failed, file_from, file_for_write, store, get,
  query,
}
use gologger.Storage.JsonFile.Upkeep.{removable, is_expired, rotate}
use gologger.Storage.JsonFile.Placement.{Ends, file_for_write-Ends}
use gologger.Storage.JsonFile.Sound.{no_faults, saved_form, IsStorable, IsSound}
use gologger.Storage.JsonFile.Refines.{
  step, Call, stores, gets, queries, asks_health, closes, restarts, Settings, opened, replies,
  log_replies, AllAgree, json_file_refines_log,
}
use gologger.Storage.JsonFile.Durable.{store-get}
use gologger.Storage.JsonFile.Sizes.{AllWithin, store-AllWithin}
use gologger.Storage.JsonFile.Torn.{part_written, store-torn}
use gologger.Storage.JsonFile.Retried.{sync_failing, store-twice}
use gologger.Storage.JsonFile.Expired.{rotate-expired, rotate-forgets}
use gologger.Tests.Samples.{noon, stored_order}

abbrev line : Bytes
line = codes "{}"

abbrev pub looks_like : Event → Event → Bool
looks_like back e =
    text_eq back.event_id e.event_id
    && (text_eq back.level e.level
        && (text_eq back.service e.service
            && (text_eq back.event_type e.event_type
                && back.timestamp.instant == e.timestamp.instant)))

pub looks_like-IsSame : (back e : Event) → looks_like back e ≡ true → IsSame e back
looks_like-IsSame back e h =
    let id = text_eq_iff back.event_id e.event_id in
    let level = text_eq_iff back.level e.level in
    let service = text_eq_iff back.service e.service in
    let event_type = text_eq_iff back.event_type e.event_type in
    let instant = ==_iff back.timestamp.instant e.timestamp.instant in
    record {
      same_id = ground arith;
      same_level = ground arith;
      same_service = ground arith;
      same_event_type = ground arith;
      same_instant = ground arith;
    }

-- A codec that accepts the stored order alone.
abbrev pub toy : Codec
toy = record {
  encode = λ e. if looks_like stored_order e then some line else none;
  decode = λ bytes. if text_eq bytes line then some stored_order else none;
}

toy-line :
    (e : Event) (bytes : Bytes)
    → toy.encode e ≡ some bytes
    → (bytes ≡ line) × (looks_like stored_order e ≡ true)
toy-line e bytes h = elim (Bool-cases (looks_like stored_order e)) [
  | inl chosen ↦ (cc (rw chosen at h), chosen)
  | inr other ↦ cc (rw other at h)
]

toy-beginning :
    (e : Event) (c d : ℕ) (front rest : Bytes)
    → (c ∷ front ++ d ∷ rest) ≡ line
    → toy.decode (c ∷ front) ≡ none
toy-beginning e c d [] rest h = ground arith
toy-beginning e c d (x ∷ []) rest h = cc h
toy-beginning e c d (x ∷ y ∷ front) rest h = cc h

toy-IsCodec : IsCodec toy
toy-IsCodec = record {
  plain = λ e bytes h. rw (toy-line e bytes h).0 (omega arith, (omega arith, tt));
  filled = λ e h. cc (toy-line e [] h).0;
  decodes = λ e bytes h valid.
      let (same_line, chosen) = toy-line e bytes h in
      (stored_order, rw same_line refl, looks_like-IsSame stored_order e chosen);
  beginning_fails = λ e c d front rest h. toy-beginning e c d front rest (toy-line e _ h).0;
}

stored_order-IsStorable : IsStorable toy stored_order
stored_order-IsStorable = record { line = line; encoded = refl; fits = refl; valid = refl }

abbrev pub settings : Settings
settings = record { data_dir = codes "./data"; max_file_size = 0; retention_days = 0 }

pub settings_named : is_empty (trim_space settings.data_dir) ≡ false
unfolding trim_space trim_right trim_left is_space
settings_named = refl

abbrev everything : EventFilter
everything = record { levels = []; services = []; event_types = [] }

abbrev calls : List Call
calls =
    stores none stored_order noon
    ∷ stores none stored_order noon
    ∷ closes
    ∷ restarts
    ∷ gets none stored_order.event_id
    ∷ queries none everything
    ∷ asks_health none
    ∷ []

json_file_refines_log_example :
    (s : JsonFileStorage) × (opened toy settings [] ≡ ok s)
    × AllAgree
        (replies toy settings calls s)
        (log_replies toy settings calls (record { entries = []; closed = false }))
json_file_refines_log_example =
    json_file_refines_log toy toy-IsCodec settings settings_named calls (omega arith)
      (stored_order-IsStorable, (stored_order-IsStorable, (tt, (tt, (tt, (tt, (tt, tt)))))))

-- A store whose one file has the order.
abbrev full_file : File
full_file = record { bytes = codes "{}\n"; modified = noon.instant }

abbrev one_file : JsonFileStorage
one_file = record {
  max_file_size = 5;
  retention_days = 30;
  known_ids = stored_order.event_id ∷ [];
  closed = false;
  files = (file_name noon 0, full_file) ∷ [];
}

abbrev pub empty_store : JsonFileStorage
empty_store = record {
  max_file_size = 5;
  retention_days = 30;
  known_ids = [];
  closed = false;
  files = [];
}

-- The record of 3 bytes has no room in the first file.
second_file : file_for_write no_faults 3 noon one_file ≡ ok (codes "events_19991227_01.jsonl")
unfolding file_from lookup start_of_week format_date padded two_digits
second_file = refl

file_for_write-Ends_example : Ends 3 one_file (file_for_write no_faults 3 noon one_file)
file_for_write-Ends_example = file_for_write-Ends no_faults 3 noon one_file (omega arith)

abbrev next_day : Time
next_day = record noon { instant = noon.instant + day }

start_of_week_lem_example :
    let start = start_of_week noon in
    (weekday start.instant ≡ 1)
    × (start.instant % day ≡ 0)
    × (start.instant ≤ noon.instant)
    × (noon.instant < start.instant + 7 * day)
    × ((start_of_week next_day ≡ start)
        ↔ ((start.instant ≤ next_day.instant) × (next_day.instant < start.instant + 7 * day)))
start_of_week_lem_example = start_of_week_lem noon next_day (omega arith) (omega arith)

sorted_by_time :
    let l = stored_order ∷ stored_order ∷ [] in
    InOrder (sort_events l)
    × Reorder (sort_events l) l
    × ((t : ℕ) → at_time t (sort_events l) ≡ at_time t l)
sorted_by_time = sort_events-IsStable (stored_order ∷ stored_order ∷ [])

store-AllWithin_example :
    AllWithin 5 (store toy none stored_order noon (part_written 1) empty_store).1.files
store-AllWithin_example =
    store-AllWithin toy 5 none stored_order noon (part_written 1) empty_store (omega arith)
      (λ bytes h. rw (toy-line stored_order bytes h).0 (omega arith)) tt

store-torn_example :
    (after : JsonFileStorage) × (store toy none stored_order noon (part_written 1) empty_store
      ≡ (err write_failed, after))
    × ((filter : EventFilter)
        → query toy none filter (λ n. true) after ≡ err (read_error invalid_event))
    × (opened toy settings after.files ≡ err (read_error invalid_event))
store-torn_example =
    store-torn toy toy-IsCodec stored_order [] [] b'{' b'}' refl refl noon empty_store settings refl
      refl refl (omega arith) tt tt settings_named

empty_store-IsSound : IsSound toy empty_store (record { entries = []; closed = false })
empty_store-IsSound = record {
  same_closed = refl;
  distinct = tt;
  readable = tt;
  known = λ id. refl;
  held = same [];
  unique = tt;
  named = tt;
}

store-twice_example :
    (failed : JsonFileStorage) × (tried : JsonFileStorage) × (store toy none stored_order noon
        sync_failing empty_store
      ≡ (err write_failed, failed))
    × (store toy none stored_order next_day no_faults failed ≡ (ok tt, tried))
    × ((filter : EventFilter)
        → (answer : List Event) × (query toy none filter (λ n. true) tried ≡ ok answer)
          × Reorder answer (
              select
                (λ e. matches_filter e filter)
                ([] ++ saved_form toy stored_order ∷ saved_form toy stored_order ∷ [])))
store-twice_example =
    store-twice toy toy-IsCodec stored_order stored_order-IsStorable noon next_day empty_store
      (record { entries = []; closed = false }) refl refl refl (omega arith) empty_store-IsSound

-- Forty days later.
abbrev later : Time
later = record noon { instant = noon.instant + 40 * day }

rotate-expired_example :
    ((rotate none later (λ n. removable) one_file).0 ≡ ok tt)
    × ((name : Text)
        → lookup name (rotate none later (λ n. removable) one_file).1.files ≡ (
            let file = lookup name one_file.files in
            if is_expired (later.instant - one_file.retention_days * day) file then none else file))
rotate-expired_example = rotate-expired later one_file refl

one_file_only :
    (name : Text) (file : File) → lookup name one_file.files ≡ some file → file ≡ full_file
unfolding lookup
one_file_only name file h = elim (Bool-cases (text_eq (file_name noon 0) name)) [
  | inl match ↦ cc (rw match at h)
  | inr other ↦ cc (rw other at h)
]

rotate-forgets_example :
    let after = (rotate none later (λ n. removable) one_file).1 in
    (get toy none stored_order.event_id (λ n. true) after ≡ err (store_error event_not_found))
    × (store toy none stored_order later no_faults after
        ≡ (err (store_error duplicate_event), after))
rotate-forgets_example =
    rotate-forgets toy later later no_faults one_file stored_order line refl
      (λ name file h. rw (one_file_only name file h) (omega arith)) refl refl refl

store-get_example :
    let after = (store toy none stored_order noon no_faults empty_store).1 in
    ((store toy none stored_order noon no_faults empty_store).0 ≡ ok tt)
    × (back : Event) × IsSame stored_order back
    × (get toy none stored_order.event_id (λ n. true) after ≡ ok back)
    × (get toy none stored_order.event_id (λ n. true) (step toy settings restarts after).1
        ≡ ok back)
store-get_example =
    store-get toy toy-IsCodec settings settings_named stored_order noon empty_store
      (record { entries = []; closed = false }) (omega arith) stored_order-IsStorable
      empty_store-IsSound refl refl refl

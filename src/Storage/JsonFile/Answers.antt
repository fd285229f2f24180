-- ===== src/Storage/JsonFile/Answers.antt =====
-- Get, Query and a restart of the store of files, beside the event log.
use mathlib.Core.Path.{◌≡◌, refl, ap, ◌∙◌}
use mathlib.Core.Logic.{inl, inr}
use mathlib.Core.Bool.{Bool, true, false, not}
use mathlib.Core.Option.{Option, none, some}
use mathlib.Core.List.{List, [], ◌∷◌, map}
use native.Mathlib.Omega.{arith}
use gologger.Prelude.{
  if◌then◌else◌, Bool-cases, All, select, Reorder, same, behind, swap, chain, Reorder-sym,
  Reorder-select,
}
use gologger.Result.{Result, ok, err}
use gologger.Text.{Text, is_empty, mem_text}
use gologger.Context.{ContextError}
use gologger.Contracts.{Event, EventFilter}
use gologger.Storage.{StoreError, event_not_found, store_closed, context_error}
use gologger.Storage.Filter.{matches_filter}
use gologger.Storage.Log
use gologger.Storage.Log.{EventLog, find_event}
use gologger.Storage.Log.Find.{Unique-Reorder, find_event-Reorder, is_found}
use gologger.Storage.Codec.{Codec}
use gologger.Storage.Files.{event_files}
use gologger.Storage.Files.Sorted.{InOrder, sort_events-InOrder, sort_events-Reorder}
use gologger.Storage.JsonFile.{
  FileError, store_error, JsonFileStorage, get, get_from, query, load_event_ids,
}
use gologger.Storage.JsonFile.Contents.{gather, read_all-gather, found, get_from-gather}
use gologger.Storage.JsonFile.Appended.{event_files-IsThere, gather-event_files}
use gologger.Storage.JsonFile.Sound.{lifted, IsSound}

All-Reorder : (P : Event → Type 0) {xs ys : List Event} → Reorder xs ys → All P xs → All P ys
All-Reorder P (same xs) h = h
All-Reorder P (behind x r) h = (h.0, All-Reorder P r h.1)
All-Reorder P (swap x y xs) h = (h.1.0, (h.0, h.1.1))
All-Reorder P (chain r s) h = All-Reorder P s (All-Reorder P r h)

select-All : (p : Event → Bool) (l : List Event) → All (λ e. p e ≡ true) l → select p l ≡ l
select-All p [] h = refl
select-All p (e ∷ rest) h = rw (h.0, select-All p rest h.1) refl

All-not :
    (l : List Event)
    → All (λ e. is_empty e.event_id ≡ false) l
    → All (λ e. not (is_empty e.event_id) ≡ true) l
All-not [] h = tt
All-not (e ∷ rest) h = (rw h.0 refl, All-not rest h.1)

mem_text-ids :
    (id : Text) (l : List Event)
    → mem_text id (map (λ e. e.event_id) l) ≡ is_found (find_event id l)
mem_text-ids id [] = refl
mem_text-ids id (e ∷ rest) = ground (arith, mem_text-ids id rest)

pub data QueryAgrees : Result FileError (List Event) → Result StoreError (List Event) → Type 0 where
  refuses : (failure : StoreError) → QueryAgrees (err (store_error failure)) (err failure)
  answers : {xs ys : List Event} → Reorder xs ys → InOrder xs → QueryAgrees (ok xs) (ok ys)

module _ (codec : Codec) (s : JsonFileStorage) (log : EventLog) (c : IsSound codec s log) where
  -- The events of the files, read in the order of the names, are those of the log.
  gathered : Reorder (gather codec s.files (event_files s.files)) log.entries
  gathered = chain (gather-event_files codec s.files c.distinct) c.held

  gathered-find_event :
      (id : Text)
      → find_event id (gather codec s.files (event_files s.files)) ≡ find_event id log.entries
  gathered-find_event id =
      find_event-Reorder id gathered (Unique-Reorder (Reorder-sym gathered) c.unique)

  get_from-log :
      (id : Text)
      → get_from codec (λ n. true) s.files id (event_files s.files)
        ≡ found codec (find_event id log.entries)
  get_from-log id =
      get_from-gather codec id s.files (event_files s.files)
        (event_files-IsThere codec s.files c.distinct c.readable)
      ∙ ap (found codec) (gathered-find_event id)

  guarded :
      (o : Option Event)
      → (if is_found o then found codec o else err (store_error event_not_found))
        ≡ lifted (Log.found o)
  guarded none = refl
  guarded (some event) = refl

  pub get-log :
      (ctx : Option ContextError) (id : Text)
      → get codec ctx id (λ n. true) s ≡ lifted (Log.get ctx id log)
  unfolding get
  get-log (some failure) id = refl
  get-log none id = elim (Bool-cases log.closed) [
    | inl shut ↦ rw (c.same_closed, shut) refl
    | inr is_open ↦
        rw (c.same_closed, is_open, c.known id, get_from-log id)
          (guarded (find_event id log.entries))
  ]

  pub query-log :
      (ctx : Option ContextError) (filter : EventFilter)
      → QueryAgrees (query codec ctx filter (λ n. true) s) (Log.query ctx filter log)
  unfolding query
  query-log (some failure) filter = refuses (context_error failure)
  query-log none filter = elim (Bool-cases log.closed) [
    | inl shut ↦ rw (c.same_closed, shut) (refuses store_closed)
    | inr is_open ↦
        let keep : Event → Bool = λ e. matches_filter e filter in
        let chosen = select keep (gather codec s.files (event_files s.files)) in
        rw
          (
            c.same_closed,
            is_open,
            read_all-gather codec keep s.files (event_files s.files)
                (event_files-IsThere codec s.files c.distinct c.readable),
          )
          (answers (chain (sort_events-Reorder chosen) (Reorder-select keep gathered))
            (sort_events-InOrder chosen))
  ]

  -- All the events are loaded, since all have identifiers.
  pub load_event_ids-log :
      load_event_ids codec (λ n. true) s.files
      ≡ ok (map (λ e. e.event_id) (gather codec s.files (event_files s.files)))
  unfolding load_event_ids
  load_event_ids-log =
      rw
        (
          read_all-gather codec (λ e. not (is_empty e.event_id)) s.files (event_files s.files)
              (event_files-IsThere codec s.files c.distinct c.readable),
          select-All (λ e. not (is_empty e.event_id)) (gather codec s.files (event_files s.files))
              (All-not _
                (All-Reorder (λ e. is_empty e.event_id ≡ false) (Reorder-sym gathered) c.named)),
        )
        refl

  pub loaded-known :
      (id : Text)
      → mem_text id (map (λ e. e.event_id) (gather codec s.files (event_files s.files)))
        ≡ is_found (find_event id log.entries)
  loaded-known id =
      mem_text-ids id (gather codec s.files (event_files s.files))
      ∙ ap is_found (gathered-find_event id)

-- ===== src/EventProcessor/Utf8.antt =====
-- The error ErrInvalidUTF8 behind the redaction, which writes invalid bytes as U+FFFD.
use Prim.Native.Nat.{ℕ, suc}
use mathlib.Core.Path.{◌≡◌, refl}
use mathlib.Core.Logic.{◌↔◌, inl, inr, ◌≢◌}
use mathlib.Core.Bool.{Bool, true, false, ◌&&◌, not}
use mathlib.Core.List.{List, [], ◌∷◌}
use mathlib.Core.Option.{Option, none, some}
use native.Mathlib.Omega.{arith}
use gologger.Prelude.{leb, ltb, if◌then◌else◌, Bool-cases, Option-cases}
use gologger.Result.{Result, ok, err, ◌>>=◌, fail_if}
use gologger.Text.{Text, codes, is_empty, trim_space, rune_count, valid_string, Unicode}
use gologger.Text.Clean.{IsClean, IsClean-valid_string, sanitize_text}
use gologger.Contracts.{Event}
use gologger.Clock.{is_zero, before_2000}
use gologger.Contracts.Value.{
  Value, nil_value, nil_object, text_value, scalar, unsupported, object, array, Items, no_items,
  item, Fields, no_fields, field, put_field,
}
use gologger.Contracts.Value.Every.{Every, EveryItems, EveryFields, EveryMap}
use gologger.Security.Redaction.{redact_event}
use gologger.Security.Redaction.Clean.{redact_map-Every, HasCleanTexts, redact_event-HasCleanTexts}
use gologger.EventProcessor.Errors.{
  Error, invalid_utf8, nested_too_deep, sensitive_field, missing_required_field,
  unsupported_event_level, too_long, invalid_timestamp, metadata_too_large,
}
use gologger.EventProcessor.Metadata.{
  sanitize_value, sanitize_items, sanitize_fields, sanitize_map, max_map_depth, is_prohibited,
}
use gologger.EventProcessor.Metadata.Size.{payload_size, validate_metadata_size, max_metadata_bytes}
use gologger.EventProcessor.{
  Environment, max_component_length, RequiredField, required_fields, check_fields, is_canonical,
  map_event_level, check_level, validate_event, normalize, process_redacted, process_event,
}

-- A call that does not end in ErrInvalidUTF8.
abbrev NotUtf8 {ℓ} : {A : Type ℓ} → Result Error A → Type 0
NotUtf8 (ok a) = Unit {0}
NotUtf8 (err invalid_utf8) = ⊥
NotUtf8 (err e) = Unit {0}

NotUtf8-bind {ℓ κ} :
    {A : Type ℓ} {B : Type κ} (m : Result Error A) (f : A → Result Error B)
    → NotUtf8 m
    → ((a : A) → NotUtf8 (f a))
    → NotUtf8 (m >>= f)
NotUtf8-bind (ok a) f h k = k a
NotUtf8-bind (err invalid_utf8) f h k = h
NotUtf8-bind (err e) f h k = tt

NotUtf8-fail_if : (b : Bool) (e : Error) → NotUtf8 {A = Unit {0}} (err e) → NotUtf8 (fail_if b e)
NotUtf8-fail_if true e h = h
NotUtf8-fail_if false e h = tt

NotUtf8-valid : (t : Text) → IsClean t → NotUtf8 (fail_if (not (valid_string t)) invalid_utf8)
NotUtf8-valid t h = rw (IsClean-valid_string t h) tt

module _ (u : Unicode) where
  mutual
    unfolding sanitize_value

    value-NotUtf8 : (v : Value) (d : ℕ) → Every IsClean IsClean v → NotUtf8 (sanitize_value u v d)
    value-NotUtf8 nil_value d h = tt
    value-NotUtf8 nil_object d h = tt
    value-NotUtf8 (text_value t) d h =
        NotUtf8-bind (fail_if (not (valid_string t)) invalid_utf8) _ (NotUtf8-valid t h) (λ _. tt)
    value-NotUtf8 (scalar x) d h = tt
    value-NotUtf8 (unsupported n) d h = tt
    value-NotUtf8 (object fs) d h =
        NotUtf8-bind (fail_if (leb max_map_depth d) nested_too_deep) _
          (NotUtf8-fail_if (leb max_map_depth d) nested_too_deep tt)
          λ _.
            NotUtf8-bind (sanitize_fields u fs d no_fields) _ (fields-NotUtf8 fs d no_fields h)
              (λ s. tt)
    value-NotUtf8 (array xs) d h =
        NotUtf8-bind (fail_if (leb max_map_depth d) nested_too_deep) _
          (NotUtf8-fail_if (leb max_map_depth d) nested_too_deep tt)
          λ _. NotUtf8-bind (sanitize_items u xs d) _ (items-NotUtf8 xs d h) (λ s. tt)

    items-NotUtf8 :
        (xs : Items) (d : ℕ) → EveryItems IsClean IsClean xs → NotUtf8 (sanitize_items u xs d)
    items-NotUtf8 no_items d h = tt
    items-NotUtf8 (item x xs) d h =
        NotUtf8-bind (sanitize_value u x (suc d)) _ (value-NotUtf8 x (suc d) h.0)
          λ y. NotUtf8-bind (sanitize_items u xs d) _ (items-NotUtf8 xs d h.1) (λ s. tt)

    fields-NotUtf8 :
        (fs : Fields) (d : ℕ) (acc : Fields)
        → EveryFields IsClean IsClean fs
        → NotUtf8 (sanitize_fields u fs d acc)
    fields-NotUtf8 no_fields d acc h = tt
    fields-NotUtf8 (field key v rest) d acc h =
        NotUtf8-bind (fail_if (not (valid_string key)) invalid_utf8) _ (NotUtf8-valid key h.0) λ _.
          NotUtf8-bind (fail_if (is_prohibited u key) (sensitive_field key)) _
            (NotUtf8-fail_if (is_prohibited u key) (sensitive_field key) tt)
            λ _.
              NotUtf8-bind (sanitize_value u v (suc d)) _ (value-NotUtf8 v (suc d) h.1)
                (λ w. fields-NotUtf8 rest d (put_field (sanitize_text key) w acc) h.2)

  map-NotUtf8 : (m : Option Fields) → EveryMap IsClean IsClean m → NotUtf8 (sanitize_map u m 0)
  unfolding sanitize_map
  map-NotUtf8 none h = tt
  map-NotUtf8 (some fs) h =
      NotUtf8-bind (sanitize_fields u fs 0 no_fields) _ (fields-NotUtf8 fs 0 no_fields h) (λ s. tt)

NotUtf8-if {ℓ} :
    {A : Type ℓ} (b : Bool) (m n : Result Error A)
    → NotUtf8 m
    → NotUtf8 n
    → NotUtf8 (if b then m else n)
NotUtf8-if true m n hm hn = hm
NotUtf8-if false m n hm hn = hn

check_fields-NotUtf8 : (fs : List RequiredField) → NotUtf8 (check_fields fs)
unfolding check_fields
check_fields-NotUtf8 [] = tt
check_fields-NotUtf8 ((name, value, limit) ∷ rest) =
    NotUtf8-bind (fail_if (is_empty (trim_space value)) (missing_required_field name)) _
      (NotUtf8-fail_if (is_empty (trim_space value)) (missing_required_field name) tt)
      λ _.
        NotUtf8-bind (fail_if (ltb limit (rune_count value)) (too_long name)) _
          (NotUtf8-fail_if (ltb limit (rune_count value)) (too_long name) tt)
          (λ _. check_fields-NotUtf8 rest)

check_level-NotUtf8 : (u : Unicode) (level : Text) → NotUtf8 (check_level u level)
unfolding check_level
check_level-NotUtf8 u level = NotUtf8-if (is_canonical (map_event_level u level)) (ok tt) _ tt (
    NotUtf8-if (is_empty level) (err (missing_required_field (codes "level")))
      (err (unsupported_event_level level)) tt tt)

validate_metadata_size-NotUtf8 : (c m : Option Fields) → NotUtf8 (validate_metadata_size c m)
unfolding validate_metadata_size
validate_metadata_size-NotUtf8 c m = elim (Option-cases (payload_size c m)) [
  | inl e ↦ rw (e, validate_metadata_size) tt
  | inr (n, e) ↦
      rw (e, validate_metadata_size)
        (NotUtf8-if (ltb max_metadata_bytes n) (err metadata_too_large) (ok tt) tt tt)
]

-- The test that validateEvent makes first, on texts that sanitize has returned.
utf8_test :
    (event : Event)
    → HasCleanTexts event
    → (valid_string event.level
        && valid_string event.service
        && valid_string event.event_type
        && valid_string event.message)
      ≡ valid_string event.level
utf8_test event t =
    rw
      (
        IsClean-valid_string event.service t.service,
        IsClean-valid_string event.event_type t.event_type,
        IsClean-valid_string event.message t.message,
      )
      (ground arith)

validate_event-NotUtf8 :
    (u : Unicode) (event : Event)
    → HasCleanTexts event
    → valid_string event.level ≡ true
    → NotUtf8 (validate_event u event)
unfolding validate_event
validate_event-NotUtf8 u event t h =
    rw (utf8_test event t, h)
      (NotUtf8-bind (check_level u event.level) _ (check_level-NotUtf8 u event.level) λ _.
        NotUtf8-bind (check_fields (required_fields event)) _
          (check_fields-NotUtf8 (required_fields event))
          λ _.
            let wide = ltb max_component_length (rune_count event.component) in
            let old = not (is_zero event.timestamp) && before_2000 event.timestamp in
            NotUtf8-bind (fail_if wide (too_long (codes "component"))) _
              (NotUtf8-fail_if wide (too_long (codes "component")) tt)
              (λ _. NotUtf8-fail_if old invalid_timestamp tt))

process_event-NotUtf8 :
    (u : Unicode) (env : Environment) (event : Event)
    → valid_string event.level ≡ true
    → NotUtf8 (process_event u env event)
unfolding process_event process_redacted normalize redact_event
process_event-NotUtf8 u env event h =
    let e = redact_event event in
    NotUtf8-bind (validate_event u e) _
      (validate_event-NotUtf8 u e (redact_event-HasCleanTexts event) h)
      λ _.
        NotUtf8-bind (sanitize_map u e.context 0) _
          (map-NotUtf8 u e.context (redact_map-Every event.context))
          λ c.
            NotUtf8-bind (sanitize_map u e.metadata 0) _
              (map-NotUtf8 u e.metadata (redact_map-Every event.metadata))
              λ m.
                NotUtf8-bind (validate_metadata_size c m) _ (validate_metadata_size-NotUtf8 c m)
                  (λ _. tt)

NotUtf8-ne : (r : Result Error Event) → NotUtf8 r → r ≢ err invalid_utf8
NotUtf8-ne r h e = rw e at h

process_event-Utf8 :
    (u : Unicode) (env : Environment) (event : Event)
    → valid_string event.level ≡ false
    → process_event u env event ≡ err invalid_utf8
unfolding process_event process_redacted validate_event redact_event
process_event-Utf8 u env event h =
    rw (utf8_test (redact_event event) (redact_event-HasCleanTexts event), h) refl

-- ErrInvalidUTF8 is returned exactly when the level is not valid UTF-8: invalid bytes in a service,
-- an event type, a message, or a key or text of the maps are never reported.
pub process_event-invalid_utf8_iff :
    (u : Unicode) (env : Environment) (event : Event)
    → (process_event u env event ≡ err invalid_utf8) ↔ (valid_string event.level ≡ false)
process_event-invalid_utf8_iff u env event = (
  λ e. elim (Bool-cases (valid_string event.level)) [
    | inl valid ↦
        absurd (NotUtf8-ne (process_event u env event) (process_event-NotUtf8 u env event valid) e)
    | inr invalid ↦ invalid
  ],
  process_event-Utf8 u env event,
)

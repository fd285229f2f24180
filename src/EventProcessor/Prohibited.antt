-- ===== src/EventProcessor/Prohibited.antt =====
-- Keys that sanitizeMap prohibits, behind the redaction.
use Prim.Native.Nat.{ℕ, suc}
use mathlib.Core.Path.{◌≡◌}
use mathlib.Core.Logic.{inl, inr, ◌⊎◌, ◌≢◌}
use mathlib.Core.Bool.{true, not}
use mathlib.Core.Option.{Option, none, some}
use gologger.Prelude.{Bool-cases}
use gologger.Result.{ok, fail_if, >>=-eq-ok, fail_if-eq-ok}
use gologger.Text.{Text, text_eq, valid_string, Unicode}
use gologger.Text.Laws.{text_eq_refl, text_eq_iff}
use gologger.Text.Clean.{sanitize_text}
use gologger.Contracts.{Event}
use gologger.Contracts.Value.{Value, Fields, no_fields, field, get_field, put_field}
use gologger.Security.Redaction.{sanitize, redact_value, redact_fields, redact_map, redact_event}
use gologger.EventProcessor.Errors.{invalid_utf8, sensitive_field}
use gologger.EventProcessor.Metadata.{is_prohibited, sanitize_value, sanitize_fields, sanitize_map}
use gologger.EventProcessor.Accepted.{process_redacted-Parts}
use gologger.EventProcessor.{Environment, process_event}

-- The map has the key.
abbrev pub HasKey : Text → Fields → Type 0
HasKey key fs = (v : Value) × (get_field key fs ≡ some v)

abbrev pub HasKeyMap : Text → Option Fields → Type 0
HasKeyMap key none = ⊥
HasKeyMap key (some fs) = HasKey key fs

HasKey-put_field_self : (key : Text) (v : Value) (fs : Fields) → HasKey key (put_field key v fs)
unfolding get_field put_field
HasKey-put_field_self key v no_fields = (v, rw (text_eq_refl key))
HasKey-put_field_self key v (field k w rest) = elim (Bool-cases (text_eq k key)) [
  | inl same ↦ rw same (v, rw same)
  | inr other ↦ rw other (let (x, e) = HasKey-put_field_self key v rest in (x, rw other e))
]

HasKey-put_field :
    (key j : Text) (v : Value) (fs : Fields) → HasKey j fs → HasKey j (put_field key v fs)
unfolding get_field put_field
HasKey-put_field key j v no_fields (x, e) = cc
HasKey-put_field key j v (field k w rest) (x, e) = elim (Bool-cases (text_eq k j)) [
  | inl here ↦ elim (Bool-cases (text_eq k key)) [
    | inl same ↦ rw same (v, rw here)
    | inr other ↦ rw other (w, rw here)
  ]
  | inr there ↦ elim (Bool-cases (text_eq k key)) [
    | inl same ↦ rw same (x, rw there (rw (there, get_field) at e))
    | inr other ↦ rw other (
        let (y, e') = HasKey-put_field key j v rest (x, rw (there, get_field) at e) in
        (y, rw there e'))
  ]
]

HasKey-redact_fields_acc :
    (j : Text) (fs acc : Fields) → HasKey j acc → HasKey j (redact_fields fs acc)
unfolding redact_value
HasKey-redact_fields_acc j no_fields acc h = h
HasKey-redact_fields_acc j (field k v rest) acc h =
    HasKey-redact_fields_acc j rest _ (HasKey-put_field (sanitize k) j (redact_value v k) acc h)

HasKey-redact_fields :
    (key : Text) (fs acc : Fields) → HasKey key fs → HasKey (sanitize key) (redact_fields fs acc)
unfolding redact_value get_field
HasKey-redact_fields key no_fields acc (x, e) = cc
HasKey-redact_fields key (field k v rest) acc (x, e) = elim (Bool-cases (text_eq k key)) [
  | inl same ↦ HasKey-redact_fields_acc (sanitize key) rest _ (
      rw (← (text_eq_iff k key).0 same) (HasKey-put_field_self (sanitize k) (redact_value v k) acc))
  | inr other ↦ HasKey-redact_fields key rest _ (x, rw (other, get_field) at e)
]

module _ (u : Unicode) where
  sanitize_fields-refuses :
      (key : Text) (fs : Fields) (d : ℕ) (acc gs : Fields)
      → is_prohibited u key ≡ true
      → HasKey key fs
      → sanitize_fields u fs d acc ≡ ok gs
      → ⊥
  unfolding sanitize_value get_field
  sanitize_fields-refuses key no_fields d acc gs p (x, h) e = cc
  sanitize_fields-refuses key (field k v rest) d acc gs p (x, h) e =
      let (_, a, e1) = >>=-eq-ok (fail_if (not (valid_string k)) invalid_utf8) _ e in
      let (_, b, e2) = >>=-eq-ok (fail_if (is_prohibited u k) (sensitive_field k)) _ e1 in
      let (w, c, e3) = >>=-eq-ok (sanitize_value u v (suc d)) _ e2 in
      let allowed = fail_if-eq-ok (is_prohibited u k) (sensitive_field k) b in
      elim (Bool-cases (text_eq k key)) [
        | inl same ↦ cc (p, rw ((text_eq_iff k key).0 same) at allowed)
        | inr other ↦
            sanitize_fields-refuses key rest d (put_field (sanitize_text k) w acc) gs p
              (x, rw (other, get_field) at h) e3
      ]

  redacted-refused :
      (key : Text) (m r : Option Fields)
      → HasKeyMap key m
      → is_prohibited u (sanitize key) ≡ true
      → sanitize_map u (redact_map m) 0 ≡ ok r
      → ⊥
  unfolding sanitize_map redact_map
  redacted-refused key none r h p e = h
  redacted-refused key (some fs) r h p e =
      let (s, b, e2) = >>=-eq-ok (sanitize_fields u (redact_fields fs no_fields) 0 no_fields) _ e in
      sanitize_fields-refuses (sanitize key) (redact_fields fs no_fields) 0 no_fields s p
        (HasKey-redact_fields key fs no_fields h) b

-- An event whose context or metadata has, at the top, a key whose sanitized form is prohibited is
-- never accepted, though the redaction has replaced its value.
pub process_event_refuses :
    (u : Unicode) (env : Environment) (event result : Event) (key : Text)
    → is_prohibited u (sanitize key) ≡ true
    → HasKeyMap key event.context ⊎ HasKeyMap key event.metadata
    → process_event u env event ≢ ok result
unfolding process_event redact_event
process_event_refuses u env event result key p (inl h) e =
    let parts = process_redacted-Parts u env (redact_event event) result e in
    redacted-refused u key event.context parts.new_context h p parts.context
process_event_refuses u env event result key p (inr h) e =
    let parts = process_redacted-Parts u env (redact_event event) result e in
    redacted-refused u key event.metadata parts.new_metadata h p parts.metadata

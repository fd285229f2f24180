-- ===== src/EventProcessor/Validation.antt =====
-- When validateEvent accepts an event.
use Prim.Native.Nat.{ℕ, ◌≤◌}
use mathlib.Core.Path.{◌≡◌, refl}
use mathlib.Core.Logic.{◌↔◌}
use mathlib.Core.Bool.{Bool, true, false, ◌&&◌, not}
use mathlib.Core.List.{List, [], ◌∷◌}
use native.Mathlib.Omega.{arith}
use gologger.Prelude.{ltb, if◌then◌else◌}
use gologger.Result.{ok, err, fail_if, >>=-eq-ok, fail_if-eq-ok}
use gologger.Text.{Text, codes, is_empty, valid_string, rune_count, trim_space, Unicode}
use gologger.Contracts.{Event}
use gologger.Clock.{is_zero, before_2000}
use gologger.EventProcessor.Errors.{
  Error, invalid_utf8, missing_required_field, unsupported_event_level, too_long, invalid_timestamp,
}
use gologger.EventProcessor.{
  is_canonical, max_component_length, max_service_length, max_event_type_length, max_message_length,
  RequiredField, required_fields, check_fields, map_event_level, check_level, validate_event,
}

-- A text that is not blank and has at most so many characters.
pub record IsFilled (limit : ℕ) (value : Text) : Type 0 where
  pub shown : is_empty (trim_space value) ≡ false
  pub fits : rune_count value ≤ limit

pub record IsValid (u : Unicode) (event : Event) : Type 0 where
  pub level_utf8 : valid_string event.level ≡ true
  pub service_utf8 : valid_string event.service ≡ true
  pub event_type_utf8 : valid_string event.event_type ≡ true
  pub message_utf8 : valid_string event.message ≡ true
  pub level : is_canonical (map_event_level u event.level) ≡ true
  pub service : IsFilled max_service_length event.service
  pub event_type : IsFilled max_event_type_length event.event_type
  pub message : IsFilled max_message_length event.message
  pub component : rune_count event.component ≤ max_component_length
  pub timestamp : not (is_zero event.timestamp) && before_2000 event.timestamp ≡ false

-- The fields that `required_fields` lists meet their limits.
abbrev AllFilled : List RequiredField → Type 0
AllFilled [] = Unit {0}
AllFilled ((name, value, limit) ∷ rest) = IsFilled limit value × AllFilled rest

check_fields-AllFilled :
    (fs : List RequiredField) (x : Unit {0}) → check_fields fs ≡ ok x → AllFilled fs
unfolding check_fields
check_fields-AllFilled [] x e = tt
check_fields-AllFilled ((name, value, limit) ∷ rest) x e =
    let (_, a, e1) =
      >>=-eq-ok (fail_if (is_empty (trim_space value)) (missing_required_field name)) _ e in
    let (_, b, e2) = >>=-eq-ok (fail_if (ltb limit (rune_count value)) (too_long name)) _ e1 in
    let shown = fail_if-eq-ok (is_empty (trim_space value)) (missing_required_field name) a in
    let short = fail_if-eq-ok (ltb limit (rune_count value)) (too_long name) b in
    (record { shown = shown; fits = ground arith }, check_fields-AllFilled rest x e2)

AllFilled-check_fields : (fs : List RequiredField) → AllFilled fs → check_fields fs ≡ ok tt
unfolding check_fields
AllFilled-check_fields [] h = refl
AllFilled-check_fields ((name, value, limit) ∷ rest) (h, hs) =
    let short : ltb limit (rune_count value) ≡ false = ground (arith, h.fits) in
    rw (h.shown, short) (AllFilled-check_fields rest hs)

level_test-eq-ok :
    (b c : Bool) (e f : Error) (x : Unit {0})
    → (if b then ok tt else if c then err e else err f) ≡ ok x
    → b ≡ true
level_test-eq-ok true c e f x h = refl
level_test-eq-ok false true e f x h = cc
level_test-eq-ok false false e f x h = cc

check_level-eq-ok :
    (u : Unicode) (level : Text) (x : Unit {0})
    → check_level u level ≡ ok x
    → is_canonical (map_event_level u level) ≡ true
unfolding check_level
check_level-eq-ok u level x e =
    level_test-eq-ok (is_canonical (map_event_level u level)) (is_empty level)
      (missing_required_field (codes "level")) (unsupported_event_level level) x e

eq_true_of_not : (b : Bool) → not b ≡ false → b ≡ true
eq_true_of_not true h = refl
eq_true_of_not false h = cc

four :
    (a b c d : Bool) → (a && b && c && d) ≡ true → (a ≡ true) × (b ≡ true) × (c ≡ true) × (d ≡ true)
four a b c d h = ground arith

module _ (u : Unicode) (event : Event) where
  validate_event-IsValid : (x : Unit {0}) → validate_event u event ≡ ok x → IsValid u event
  unfolding validate_event
  validate_event-IsValid x e =
      let texts =
        valid_string event.level
        && valid_string event.service
        && valid_string event.event_type
        && valid_string event.message in
      let (_, a, e1) = >>=-eq-ok (fail_if (not texts) invalid_utf8) _ e in
      let (y, b, e2) = >>=-eq-ok (check_level u event.level) _ e1 in
      let (z, c, e3) = >>=-eq-ok (check_fields (required_fields event)) _ e2 in
      let wide = ltb max_component_length (rune_count event.component) in
      let (_, d, e4) = >>=-eq-ok (fail_if wide (too_long (codes "component"))) _ e3 in
      let narrow = fail_if-eq-ok wide (too_long (codes "component")) d in
      let utf8 = four _ _ _ _ (eq_true_of_not texts (fail_if-eq-ok (not texts) invalid_utf8 a)) in
      let filled = check_fields-AllFilled (required_fields event) z c in
      record {
        level_utf8 = utf8.0;
        service_utf8 = utf8.1;
        event_type_utf8 = utf8.2;
        message_utf8 = utf8.3;
        level = check_level-eq-ok u event.level y b;
        service = filled.0;
        event_type = filled.1.0;
        message = filled.1.1.0;
        component = ground arith;
        timestamp =
            fail_if-eq-ok (not (is_zero event.timestamp) && before_2000 event.timestamp)
              invalid_timestamp e4;
      }

  IsValid-validate_event : IsValid u event → validate_event u event ≡ ok tt
  unfolding validate_event check_level
  IsValid-validate_event v =
      let filled =
        AllFilled-check_fields (required_fields event)
          (v.service, (v.event_type, (v.message, tt))) in
      let narrow : ltb max_component_length (rune_count event.component) ≡ false =
        ground (arith, v.component) in
      rw
        (
          v.level_utf8, v.service_utf8, v.event_type_utf8, v.message_utf8, v.level, filled, narrow,
          v.timestamp,
        )
        refl

-- validateEvent accepts an event exactly when its four checked texts are valid UTF-8, its level is
-- one of the canonical ones after mapping, service, event type and message are not blank and
-- within their limits, the component is within its limit, and the timestamp is zero or not
-- before the year 2000.
pub validate_event_iff :
    (u : Unicode) (event : Event) → (validate_event u event ≡ ok tt) ↔ IsValid u event
validate_event_iff u event = (validate_event-IsValid u event tt, IsValid-validate_event u event)

-- ===== src/Tests/Processor.antt =====
-- The event processor at concrete events.
use mathlib.Core.Path.{◌≡◌, refl}
use mathlib.Core.Logic.{inr, ◌≢◌, ◌↔◌}
use mathlib.Core.Bool.{true, false}
use mathlib.Core.Option.{some}
use mathlib.Core.List.{[], ◌∷◌}
use gologger.Result.{Result, ok, err}
use gologger.Text.{
  codes, valid_string, is_space, trim_left, trim_right, trim_space, remove_all, to_lower,
}
use gologger.Text.Clean.{strip_controls, sanitize_text}
use gologger.Text.Decimal.{decimal}
use gologger.Contracts.{Event}
use gologger.Contracts.Value.{no_fields, field, text_value, get_field, put_field}
use gologger.Security.Pattern.{
  fold, keyword, is_blank, skip_blanks, some_blanks, separator, skip_joiner, is_value_char,
  skip_value, some_value, bearer, assigned, api_key, assigned_api_key, sensitive_value,
  replace_from, replace_sensitive, sensitive_key_here, sensitive_key,
}
use gologger.Security.Redaction.{sanitize, redact_value, redact_map, redact_event}
use gologger.EventProcessor.Errors.{Error, invalid_utf8}
use gologger.EventProcessor.Metadata.{
  normalize_field_name, is_prohibited, sanitize_value, sanitize_map,
}
use gologger.EventProcessor.Metadata.Size.{
  utf8_size, escaped_size, escaped_sizes, quoted_size, scalar_size, value_size, payload_size,
  validate_metadata_size,
}
use gologger.EventProcessor.Validation.{IsValid, validate_event_iff}
use gologger.EventProcessor.Accepted.{IsAccepted, process_event-IsAccepted}
use gologger.EventProcessor.Kept.{IsProcessed, process_event-IsProcessed}
use gologger.EventProcessor.Prohibited.{process_event_refuses}
use gologger.EventProcessor.Utf8.{process_event-invalid_utf8_iff}
use gologger.EventProcessor.{
  hex_encode, generate_event_id, check_fields, is_canonical, map_event_level, check_level,
  validate_event, normalize, process_redacted, process_event,
}
use gologger.Tests.Samples.{ascii, env, order, stored_order}

-- The processor with all that it calls unfolded.
unfoldable pub run : Event → Result Error Event
unfolding is_space trim_left trim_right trim_space remove_all to_lower strip_controls sanitize_text
    put_field fold keyword is_blank skip_blanks some_blanks separator skip_joiner is_value_char
    skip_value some_value bearer assigned api_key assigned_api_key sensitive_value replace_from
    replace_sensitive sensitive_key_here sensitive_key sanitize redact_value redact_map redact_event
    normalize_field_name is_prohibited sanitize_value sanitize_map utf8_size escaped_size
    escaped_sizes quoted_size scalar_size value_size payload_size validate_metadata_size hex_encode
    decimal generate_event_id check_fields is_canonical map_event_level check_level validate_event
    normalize process_redacted process_event
run event = process_event ascii env event

order_stored : process_event ascii env order ≡ ok stored_order
unfolding run
order_stored = refl

process_event-IsAccepted_example : IsAccepted ascii stored_order
process_event-IsAccepted_example =
    process_event-IsAccepted ascii env order stored_order refl order_stored

process_event-IsProcessed_example : IsProcessed ascii env order stored_order
process_event-IsProcessed_example =
    process_event-IsProcessed ascii env order stored_order order_stored

validate_event_iff_example : (validate_event ascii order ≡ ok tt) ↔ IsValid ascii order
validate_event_iff_example = validate_event_iff ascii order

-- A level with a stray byte.
abbrev broken : Event
broken = record order { level = 0x1100ff ∷ [] }

process_event-invalid_utf8_iff_example :
    (process_event ascii env broken ≡ err invalid_utf8) ↔ (valid_string broken.level ≡ false)
process_event-invalid_utf8_iff_example = process_event-invalid_utf8_iff ascii env broken

broken_refused : process_event ascii env broken ≡ err invalid_utf8
broken_refused = process_event-invalid_utf8_iff_example.1 refl

-- A password among the metadata, which the redaction has replaced.
abbrev with_password : Event
with_password = record order {
  metadata = some (field (codes "Pass-Word") (text_value (codes "hunter2")) no_fields);
}

password_prohibited : is_prohibited ascii (sanitize (codes "Pass-Word")) ≡ true
unfolding run
password_prohibited = refl

password_present :
    (v : _) × (get_field
        (codes "Pass-Word")
        (field (codes "Pass-Word") (text_value (codes "hunter2")) no_fields)
      ≡ some v)
unfolding get_field
password_present = (text_value (codes "hunter2"), refl)

process_event_refuses_example : process_event ascii env with_password ≢ ok stored_order
process_event_refuses_example =
    process_event_refuses ascii env with_password stored_order (codes "Pass-Word")
      password_prohibited (inr password_present)

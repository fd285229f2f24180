-- ===== src/Tests/Redaction.antt =====
-- The redaction at concrete texts.
use mathlib.Core.Path.{◌≡◌, refl}
use mathlib.Core.Option.{some}
use gologger.Text.{Text, codes, is_space, trim_left, trim_right, trim_space}
use gologger.Text.Clean.{IsClean, strip_controls, sanitize_text, sanitize_text-IsClean}
use gologger.Contracts.Value.{
  Fields, no_fields, field, text_value, object, array, no_items, item, put_field,
}
use gologger.Security.Pattern.{
  fold, keyword, is_blank, skip_blanks, some_blanks, separator, skip_joiner, is_value_char,
  skip_value, some_value, bearer, assigned, api_key, assigned_api_key, sensitive_value,
  replace_from, replace_sensitive, sensitive_key_here, sensitive_key,
}
use gologger.Security.Pattern.Complete.{NoMatch, NoMatch-replace_sensitive}
use gologger.Security.Redaction.{sanitize, redact_value, redact_fields}
use gologger.Security.Redaction.Marked.{IsRedactedFields, redact_fields-IsRedacted}
use gologger.Security.Redaction.Bypass.{disguised, sanitize_leaks}

-- The redaction with all that it calls unfolded.
run : Fields → Fields
unfolding is_space trim_left trim_right trim_space strip_controls sanitize_text put_field fold
    keyword is_blank skip_blanks some_blanks separator skip_joiner is_value_char skip_value
    some_value bearer assigned api_key assigned_api_key sensitive_value replace_from
    replace_sensitive sensitive_key_here sensitive_key sanitize redact_value
run fs = redact_fields fs no_fields

abbrev log_line : Text
log_line = codes "failed token=abc123, API_KEY : x Bearer  zz;k"

log_line_redacted : replace_sensitive log_line ≡ codes "failed [REDACTED], [REDACTED] [REDACTED];k"
unfolding run
log_line_redacted = refl

NoMatch-replace_sensitive_example : NoMatch (replace_sensitive log_line)
NoMatch-replace_sensitive_example = NoMatch-replace_sensitive log_line

abbrev request : Fields
request =
    field (codes "headers")
      (object (field (codes "Cookie") (array (item (text_value (codes "a=b")) no_items)) no_fields))
      (field (codes "path") (text_value (codes "/orders")) no_fields)

request_redacted :
    redact_fields request no_fields
    ≡ field
        (codes "headers")
        (object (field (codes "Cookie") (text_value (codes "[REDACTED]")) no_fields))
        (field (codes "path") (text_value (codes "/orders")) no_fields)
unfolding run
request_redacted = refl

redact_fields-IsRedacted_example : IsRedactedFields (redact_fields request no_fields)
unfolding run
redact_fields-IsRedacted_example =
    redact_fields-IsRedacted request (refl, (refl, (tt, tt), tt), (refl, tt, tt))

abbrev secret : Text
secret = codes "abc123"

secret-IsClean : IsClean secret
unfolding run
secret-IsClean = sanitize_text-IsClean secret

secret-NoMatch : NoMatch secret
unfolding run
secret-NoMatch = NoMatch-replace_sensitive secret

sanitize_leaks_example :
    (sanitize (disguised secret) ≡ codes "token=abc123")
    × ((r : Text) × (sensitive_value (sanitize (disguised secret)) ≡ some r))
unfolding run
sanitize_leaks_example = sanitize_leaks b'a' (codes "bc123") refl secret-IsClean secret-NoMatch

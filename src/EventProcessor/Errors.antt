-- ===== src/EventProcessor/Errors.antt =====
-- The errors of internal/domain/services/event_processor.go. A constructor stands for the error
-- value that is wrapped and for the text that `fmt.Errorf` puts behind it.
use Prim.Native.Nat.{ℕ}
use gologger.Text.{Text}
use gologger.Context.{ContextError}

-- `too_long`, `invalid_timestamp`, `not_encodable` and `unsupported_value` wrap ErrInvalidEvent.
pub data Error : Type 0 where
  invalid_utf8 metadata_too_large nested_too_deep invalid_timestamp not_encodable : Error
  missing_required_field : Text → Error
  unsupported_event_level : Text → Error
  too_long : Text → Error
  unsupported_value : ℕ → Error
  sensitive_field : Text → Error
  context_error : ContextError → Error

-- ===== src/Context.antt =====
-- Package context: what `ctx.Err()` returns, context.Canceled or context.DeadlineExceeded.
pub data ContextError : Type 0 where
  cancelled deadline_exceeded : ContextError

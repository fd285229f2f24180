-- ===== src/Storage.antt =====
-- internal/adapters/storage: event stores, the filters of queries, and the errors.
pub mod Filter
pub mod Log
pub mod Memory
pub mod Week
pub mod Codec
pub mod Lines
pub mod Files
pub mod JsonFile
use gologger.Context.{ContextError}

-- ErrEventNotFound, ErrStoreClosed, ErrDuplicateEvent, the error "event ID is required", and what
-- the context of a call reports.
pub data StoreError : Type 0 where
  event_not_found store_closed duplicate_event event_id_required : StoreError
  context_error : ContextError → StoreError

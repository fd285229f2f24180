-- ===== src/Prelude.antt =====
-- The names that the other modules share.
pub mod Tests
pub mod Lists
pub mod Partial
pub mod Reordering
pub use Tests.*
unfoldable pub use Lists.*
pub use Partial.*
pub use Reordering.*

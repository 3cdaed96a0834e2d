-- ===== src/Engine/Scheduler.antt =====
-- software/core/engine/async_scheduler.py: the tokens that bound the attempts under way.
pub mod Defs
pub mod Tokens
pub mod Order
mod Tests
pub use Defs.{Token, Scheduler}
unfoldable pub use Defs.{start, acquire, release, wake, close}

-- ===== src/Task/Distribution.antt =====
-- The running answer distribution: the distribution methods of
-- software/core/task/distribution_state.py.
mod Defs
pub mod Totals
pub mod Append
mod Tests
pub use Defs.{Bucket, Choice, Distribution}
unfoldable pub use Defs.{empty, snapshot, reset_pending, append_pending, commit_pending}

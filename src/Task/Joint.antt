-- ===== src/Task/Joint.antt =====
-- The joint psychometric plan's sample slots: the locked sections of the `joint_sample` methods of
-- software/core/task/distribution_state.py.
pub mod Defs
pub mod Slots
pub mod Expiry
mod Tests
pub use Defs.{Joint}
unfoldable pub use Defs.{
  empty, reserve_locked, mark_answering_locked, expire_locked, quota_exhausted, release_locked,
  commit_locked, peek_locked,
}

-- ===== src/Task/ReverseFill.antt =====
-- The reverse-fill rows: software/core/reverse_fill/schema.py and runtime.py, and the locked
-- sections of software/core/task/reverse_fill_state.py.
pub mod Defs
pub mod Conservation
pub mod Invariant
pub mod Retries
mod Tests
pub use Defs.{Kind, Answer, Sample, Spec, Runtime, Status, AcquireResult}
unfoldable pub use Defs.{
  create, possible_total, acquire_locked, release_locked, commit_locked, fail_locked, answer_locked,
  unreachable,
}

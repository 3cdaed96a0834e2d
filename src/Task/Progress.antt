-- ===== src/Task/Progress.antt =====
-- The progress rows of the workers: software/core/task/progress_state.py.
pub mod Defs
pub mod Rows
pub mod Snapshot
pub mod Shown
mod Tests
pub use Defs.{ThreadProgress}
unfoldable pub use Defs.{
  Threads, resolve_thread_index, ensure_worker_threads, update_thread_status, update_thread_step,
  increment_thread_success, increment_thread_fail, mark_thread_finished,
}

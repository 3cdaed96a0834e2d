-- ===== src/Engine/StopPolicy.antt =====
-- software/core/engine/run_stop_policy.py
pub mod Defs
mod Frame
pub mod Success
pub mod Terminal
pub mod Failure
mod Tests
pub use Defs.{FailureReason, Failing}
unfoldable pub use Defs.{
  failure_threshold, proxy_unavailable_threshold, record_failure, record_success,
  trigger_target_reached_stop,
}

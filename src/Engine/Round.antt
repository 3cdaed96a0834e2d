-- ===== src/Engine/Round.antt =====
-- One attempt of a slot: software/core/engine/async_round_resources.py, runtime_error_handlers.py
-- and async_proxy_session.py.
pub mod Resources
pub mod Handlers
unfoldable pub use Resources.{
  Shared, slot_caller, is_set, is_reached, should_stop_loop, release_joint, release_row,
  release_round_resources, prepare_iteration, update_status, update_step, on_state, state_of,
  retry_ticks, stop_with,
}
pub use Resources.{Prepared}
pub use Handlers.{Raised}
unfoldable pub use Handlers.{has_proxy, handle_raised, block_http_runtime, handle_proxy_unavailable}

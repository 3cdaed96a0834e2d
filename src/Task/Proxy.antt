-- ===== src/Task/Proxy.antt =====
-- The proxy leases of the workers: the locked sections of software/core/task/proxy_state.py.
mod Defs
pub mod Cooldown
mod Tests
pub use Defs.{ProxyLease, Proxies}
unfoldable pub use Defs.{
  until_of, expired_addresses, erase_all, empty, register_waiter, unregister_waiter,
  mark_in_use_locked, purge_expired, is_in_cooldown_locked, mark_in_cooldown_locked,
  active_addresses, successful_addresses, blocked_addresses, is_address_in_use,
  mark_successful_locked, is_successful, release_in_use_locked,
}

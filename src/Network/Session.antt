-- ===== src/Network/Session.antt =====
-- software/network/session_policy.py, with the lease checks of software/network/proxy/pool/pool.py.
mod Leases
mod Defs
mod Selection
mod Cooling
pub mod Pool
pub mod Handout
pub mod Merge
pub mod Requests
pub mod Frame
mod Tests
pub use Leases.{Entry, Item}
unfoldable pub use Selection.{
  merge_prefetched_leases, use_lease, should_continue_prefetch, select_pooled,
}
unfoldable pub use Leases.{coerce_item, has_sufficient_ttl}
unfoldable pub use Defs.{
  purge_unusable_pool, pop_available_lease, merge_fetched_leases, discard_unresponsive, request_num,
  prefetch_request_count, mark_temporarily_bad,
}

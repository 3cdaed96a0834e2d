-- ===== src/Network/Session/Selection.antt =====
-- The remaining steps of software/network/session_policy.py that a worker's selection is made of.
use fuck_wjx.Common.{
  ℕ, ◌-◌, Bool, false, not, ◌||◌, List, [], ◌∷◌, Option, none, some, if◌then◌else◌, ltb, length,
  ◌==◌,
}
use fuck_wjx.Common.Text.{Text, is_empty}
use fuck_wjx.Task.Proxy.{ProxyLease}
use fuck_wjx.Task.State.{ExecutionState, notify}
use fuck_wjx.Task.Methods.{notify_if, mark_proxy_in_use}
use fuck_wjx.Network.Session.Leases.{Item}
use fuck_wjx.Network.Session.Defs.{merge_fetched_leases, remaining_to_start, pop_available_lease}

-- The number of leases that went into the pool.
unfoldable pub merge_prefetched_leases :
    (Text → ℕ) → ℕ → ℕ → List Item → ExecutionState → ExecutionState × ℕ
unfolding merge_fetched_leases notify
merge_prefetched_leases expire_of now required [] s = (s, 0)
merge_prefetched_leases expire_of now required (item ∷ items) s =
    let s' = (merge_fetched_leases expire_of now required (item ∷ items) false s).0 in
    let merged = length s'.config.proxy_ip_pool - length s.config.proxy_ip_pool in
    (notify_if (not (merged == 0)) s', merged)

-- `_mark_proxy_in_use`: the address that the worker uses.
unfoldable pub use_lease : Text → Option ProxyLease → ExecutionState → ExecutionState × Option Text
unfolding mark_proxy_in_use
use_lease thread_name none s = (s, none)
use_lease thread_name (some lease) s =
    (if is_empty thread_name then s else mark_proxy_in_use thread_name lease s, some lease.address)

-- `_should_stop_proxy_wait`: the signal of the caller, and the event of the run.
abbrev pub should_stop_wait : Option Bool → Bool → Bool
should_stop_wait none stop_event = stop_event
should_stop_wait (some b) stop_event = b || stop_event

unfoldable pub should_continue_prefetch : Bool → ExecutionState → Bool
should_continue_prefetch stop_event s =
    if not s.config.random_proxy_ip_enabled
    then false
    else if should_stop_wait (some stop_event) stop_event
    then false
    else ltb 0 (remaining_to_start s)

-- The selection of `_select_proxy_for_session_async` before it waits: none without random proxies.
unfoldable pub select_pooled : Text → ℕ → ℕ → ExecutionState → ExecutionState × Option Text
unfolding pop_available_lease use_lease
select_pooled thread_name now required s =
    if not s.config.random_proxy_ip_enabled
    then (s, none)
    else let (s', lease) = pop_available_lease now required s in use_lease thread_name lease s'

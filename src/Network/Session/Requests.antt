-- ===== src/Network/Session/Requests.antt =====
-- How many leases are asked for.
use fuck_wjx.Common.{◌+◌, ◌*◌, ◌≤◌, ◌≡◌, false, not, arith, ltb, length, min, max, ◌&&◌}
use fuck_wjx.Task.State.{ExecutionState}
use fuck_wjx.Network.Session.Defs.{
  proxy_max_proxies, fetch_max_batch_size, remaining_to_start, request_num, prefetch_request_count,
}

-- A worker that fetches asks for at least one lease exactly when a submission is left to start,
-- and never for more than are left to start, nor for more than the largest batch of the run; below
-- these bounds it asks for a lease for each worker that waits. The largest batch is between 20 and
-- 80, and twice the number of workers where that is in between.
pub request_num-bounds :
    (s : ExecutionState)
    → (ltb 0 (request_num s) ≡ ltb 0 (remaining_to_start s))
      × (request_num s ≤ remaining_to_start s)
      × (request_num s ≤ fetch_max_batch_size s.config)
      × (min s.proxies.waiting_threads (min (remaining_to_start s) (fetch_max_batch_size s.config))
          ≤ request_num s)
      × (20 ≤ fetch_max_batch_size s.config)
      × (fetch_max_batch_size s.config ≤ proxy_max_proxies)
      × (min proxy_max_proxies (s.config.num_threads * 2) ≤ fetch_max_batch_size s.config)
      × (fetch_max_batch_size s.config ≤ max 20 (max 1 s.config.num_threads * 2))
unfolding request_num fetch_max_batch_size
request_num-bounds s = ground arith

-- Prefetching never fills the pool beyond the submissions that are left to start and twice the
-- number of workers, unless the pool is larger already, and asks for nothing without random
-- proxies.
prefetch-bounds :
    (s : ExecutionState)
    → (length s.config.proxy_ip_pool + prefetch_request_count s
        ≤ max
            (length s.config.proxy_ip_pool)
            (min (remaining_to_start s) (max 1 s.config.num_threads * 2)))
      × ((ltb 0 (prefetch_request_count s) && not s.config.random_proxy_ip_enabled) ≡ false)
unfolding prefetch_request_count
prefetch-bounds s = ground arith

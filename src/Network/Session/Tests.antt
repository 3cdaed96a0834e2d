-- ===== src/Network/Session/Tests.antt =====
-- A pool of two leases and one address in cooldown.
use fuck_wjx.Common.{
  ℕ, ◌≤◌, ◌≡◌, refl, true, false, not, ◌&&◌, List, [], ◌∷◌, some, none, arith, ltb, min, max, ◌*◌,
}
use fuck_wjx.Common.Text.{Text, codes, strip, text_eq}
use fuck_wjx.Common.Dict.{has, unique, text_key_eq}
use fuck_wjx.Common.Sets.{member}
use fuck_wjx.Task.Proxy
use fuck_wjx.Task.Proxy.{ProxyLease}
use fuck_wjx.Task.State.{ExecutionConfig, ExecutionState, new_state}
use fuck_wjx.Network.Session.Leases.{Item, address, has_sufficient_ttl}
use fuck_wjx.Network.Session.Defs.{
  purge_unusable_pool, pop_available_lease, merge_fetched_leases, discard_unresponsive,
  mark_temporarily_bad, holds_address, request_num, remaining_to_start, proxy_max_proxies,
  fetch_max_batch_size,
}
use fuck_wjx.Network.Session.Cooling.{cools}
use fuck_wjx.Network.Session.Pool.{at_address, no_repeats, all_fit, purge-all_fit}
use fuck_wjx.Network.Session.Handout.{pop-usable, discard-exact, with_pool, bad-not_popped}
use fuck_wjx.Network.Session.Merge.{is_usable, merge-selected}
use fuck_wjx.Network.Session.Requests.{request_num-bounds}

abbrev first_address : Text
first_address = codes "http://a:1"

abbrev second_address : Text
second_address = codes "http://b:2"

abbrev lease_at : Text → ℕ → ProxyLease
lease_at a expire_ts = record {
  address = a;
  expire_at = [];
  expire_ts = expire_ts;
  poolable = true;
  source = [];
}

abbrev config : ExecutionConfig
config = record {
  target_num = 9;
  num_threads = 2;
  fail_threshold = 3;
  stop_on_fail_enabled = true;
  random_proxy_ip_enabled = true;
  reverse_fill_spec = none;
  proxy_ip_pool = lease_at first_address 500 ∷ lease_at second_address 0 ∷ [];
}

-- The first address cools down until 150.
abbrev run_state : ExecutionState
run_state = record (new_state config) {
  proxies = record Proxy.empty { cooldown_until = (first_address, 150) ∷ [] };
}

cooldown-unique : unique run_state.proxies.cooldown_until ≡ true
unfolding unique has
cooldown-unique = refl

no_expiry : Text → ℕ
no_expiry a = 0

purge-all_fit_example :
    let r = purge_unusable_pool 100 60 run_state in
    (no_repeats r.0.config.proxy_ip_pool ≡ true)
    × (all_fit 100 60 run_state.proxies r.0.config.proxy_ip_pool ≡ true)
    × (member second_address r.1 ≡ at_address second_address r.0.config.proxy_ip_pool)
purge-all_fit_example = purge-all_fit 100 60 run_state second_address cooldown-unique

popped : (pop_available_lease 100 60 run_state).1 ≡ some (lease_at second_address 0)
unfolding pop_available_lease text_eq
popped = refl

pop-usable_example :
    (has_sufficient_ttl 100 60 (lease_at second_address 0) ≡ true)
    × (cools 100 second_address run_state.proxies ≡ false)
    × (member second_address (Proxy.blocked_addresses [] run_state.proxies) ≡ false)
pop-usable_example = pop-usable 100 60 run_state (lease_at second_address 0) cooldown-unique popped

discard-exact_example :
    at_address second_address (discard_unresponsive first_address run_state).config.proxy_ip_pool
    ≡ (not (text_eq (strip first_address) second_address)
        && holds_address second_address run_state.config.proxy_ip_pool)
discard-exact_example = discard-exact first_address second_address run_state refl

-- The second address is bad until 280; at 160 the first one has cooled down. The second one has
-- come back to the head of the pool meanwhile.
abbrev marked : ExecutionState
marked = mark_temporarily_bad second_address 180 100 run_state

abbrev refilled : List ProxyLease
refilled = lease_at second_address 0 ∷ lease_at first_address 500 ∷ []

popped_other :
    (pop_available_lease 160 60 (with_pool refilled marked)).1 ≡ some (lease_at first_address 500)
unfolding pop_available_lease mark_temporarily_bad with_pool text_eq
popped_other = refl

bad-not_popped_example : text_eq (strip first_address) (strip (strip second_address)) ≡ false
unfolding strip
bad-not_popped_example =
    bad-not_popped second_address 180 100 160 60 run_state refilled (lease_at first_address 500)
      cooldown-unique refl refl (omega arith) (omega arith) popped_other

-- A known address, and a new one without a scheme.
abbrev fetched : List Item
fetched = address second_address ∷ address (codes " c:3") ∷ []

merged :
    (merge_fetched_leases no_expiry 100 60 fetched true run_state).1
    ≡ some (lease_at (codes "http://c:3") 0)
unfolding merge_fetched_leases text_eq no_expiry
merged = refl

merge-selected_example :
    (is_usable 100 60
        (Proxy.blocked_addresses [] run_state.proxies)
        run_state.proxies
        (lease_at (codes "http://c:3") 0)
      ≡ true)
    × (at_address
          (codes "http://c:3")
          (merge_fetched_leases no_expiry 100 60 fetched true run_state).0.config.proxy_ip_pool
        ≡ false)
merge-selected_example =
    merge-selected no_expiry 100 60 fetched true run_state (lease_at (codes "http://c:3") 0)
      cooldown-unique merged

request_num-bounds_example :
    (ltb 0 (request_num run_state) ≡ ltb 0 (remaining_to_start run_state))
    × (request_num run_state ≤ remaining_to_start run_state)
    × (request_num run_state ≤ fetch_max_batch_size run_state.config)
    × (min run_state.proxies.waiting_threads
          (min (remaining_to_start run_state) (fetch_max_batch_size run_state.config))
        ≤ request_num run_state)
    × (20 ≤ fetch_max_batch_size run_state.config)
    × (fetch_max_batch_size run_state.config ≤ proxy_max_proxies)
    × (min proxy_max_proxies (run_state.config.num_threads * 2)
        ≤ fetch_max_batch_size run_state.config)
    × (fetch_max_batch_size run_state.config ≤ max 20 (max 1 run_state.config.num_threads * 2))
request_num-bounds_example = request_num-bounds run_state

-- ===== src/Engine/Slot/Selection.antt =====
-- The selection of a proxy by a slot: `_select_proxy_for_session_async` of session_policy.py.
use fuck_wjx.Common.{ℕ, Bool, true, not, List, [], ◌∷◌, Option, none, some, if◌then◌else◌, ltb}
use fuck_wjx.Common.Text.{Text}
use fuck_wjx.Task.Proxy.{ProxyLease}
use fuck_wjx.Network.Session.{
  Item, pop_available_lease, merge_fetched_leases, use_lease, request_num,
}
use fuck_wjx.Engine.Round.{is_set}
use fuck_wjx.Engine.Slot.Steps.{
  Stage, entering, polling, locking, fetching, selecting, World, put, set_shared, selected,
}

-- A lease that was found is marked as the slot's, and ends the selection; otherwise it goes on.
unfoldable pub offered : Stage → ℕ → Text → ℕ → ℕ → Option ProxyLease → World → World
unfolding use_lease selected put
offered next sample_count slot_label token_id now none w =
    put slot_label (selecting next token_id) none w
offered next sample_count slot_label token_id now (some lease) w =
    let (s, address) = use_lease slot_label (some lease) w.shared.0 in
    selected sample_count slot_label address token_id now (set_shared (s, w.shared.1) w)

-- One cycle of the loop, up to its wait. A selection that the stop ends finds no proxy.
unfoldable pub poll_cycle : ℕ → ℕ → Text → ℕ → Bool → ℕ → World → World
unfolding pop_available_lease offered selected
poll_cycle required sample_count slot_label token_id busy now w =
    if is_set w.shared.1
    then selected sample_count slot_label none token_id now w
    else let (s, lease) = pop_available_lease now required w.shared.0 in
      offered (if busy then polling else locking) sample_count slot_label token_id now lease
        (set_shared (s, w.shared.1) w)

unfoldable pub first_offered : ℕ → ℕ → Text → ℕ → Bool → ℕ → Option ProxyLease → World → World
unfolding poll_cycle offered
first_offered required sample_count slot_label token_id busy now none w =
    poll_cycle required sample_count slot_label token_id busy now w
first_offered required sample_count slot_label token_id busy now (some lease) w =
    offered entering sample_count slot_label token_id now (some lease) w

-- The first look at the pool, which a stop does not prevent, and the first cycle.
unfoldable pub poll_pool : ℕ → ℕ → Text → ℕ → Bool → ℕ → World → World
unfolding pop_available_lease first_offered selected
poll_pool required sample_count slot_label token_id busy now w =
    if not w.shared.0.config.random_proxy_ip_enabled
    then selected sample_count slot_label none token_id now w
    else let (s, lease) = pop_available_lease now required w.shared.0 in
      first_offered required sample_count slot_label token_id busy now lease
        (set_shared (s, w.shared.1) w)

-- With the lock, the pool is read once more, and leases are fetched if any are to be asked for.
unfoldable pub locked_poll : ℕ → ℕ → Text → ℕ → ℕ → World → World
unfolding pop_available_lease offered request_num
locked_poll required sample_count slot_label token_id now w =
    let (s, lease) = pop_available_lease now required w.shared.0 in
    offered (if ltb 0 (request_num s) then fetching else polling) sample_count slot_label token_id
      now lease (set_shared (s, w.shared.1) w)

-- The wait for the lock is given up now and then, and tried again unless the run is stopped.
unfoldable pub retry_lock : ℕ → Text → ℕ → ℕ → World → World
unfolding selected put
retry_lock sample_count slot_label token_id now w =
    if is_set w.shared.1
    then selected sample_count slot_label none token_id now w
    else put slot_label (selecting locking token_id) none w

-- A fetch that fails brings no leases.
unfoldable pub merge_fetch : (Text → ℕ) → ℕ → ℕ → List Item → Text → ℕ → ℕ → World → World
unfolding merge_fetched_leases offered put
merge_fetch expire_of required sample_count [] slot_label token_id now w =
    put slot_label (selecting polling token_id) none w
merge_fetch expire_of required sample_count (item ∷ items) slot_label token_id now w =
    let (s, lease) = merge_fetched_leases expire_of now required (item ∷ items) true w.shared.0 in
    offered polling sample_count slot_label token_id now lease (set_shared (s, w.shared.1) w)

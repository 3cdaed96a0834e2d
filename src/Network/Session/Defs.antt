-- ===== src/Network/Session/Defs.antt =====
-- The pool of leases: software/network/session_policy.py. Each function runs under the lock and
-- reads the clock once, `now`; `required` is the time that a lease must still have.
use fuck_wjx.Common.{
  ℕ, ◌+◌, ◌-◌, ◌*◌, Bool, true, false, not, ◌&&◌, ◌||◌, List, [], ◌∷◌, ◌++◌, Option, none, some,
  if◌then◌else◌, leb, length, min, max, ◌==◌,
}
use fuck_wjx.Common.Text.{Text, strip, is_empty, text_eq}
use fuck_wjx.Common.Dict.{text_key_eq}
use fuck_wjx.Common.Sets.{member, add}
use fuck_wjx.Task.Proxy
use fuck_wjx.Task.Proxy.{ProxyLease, Proxies}
use fuck_wjx.Task.State.{ExecutionConfig, ExecutionState, notify}
use fuck_wjx.Task.Methods.{notify_if, mark_proxy_in_cooldown}
use fuck_wjx.Network.Session.Leases.{Item, coerce_lease, coerce_item, has_sufficient_ttl}

-- Whether the purge keeps a lease; the check for a cooldown changes the state.
unfoldable pub purge_keeps : ℕ → ℕ → ProxyLease → Proxies → List Text → Proxies × Bool
unfolding member Proxy.is_in_cooldown_locked has_sufficient_ttl
purge_keeps now required lease p seen =
    if not lease.poolable
    then (p, false)
    else if member lease.address seen
    then (p, false)
    else let (p', cooling) = Proxy.is_in_cooldown_locked lease.address now p in
      (p', not cooling && has_sufficient_ttl now required lease)

pub record Purged : Type 0 where
  pub proxies : Proxies
  pub kept : List ProxyLease
  pub seen : List Text
  pub removed : ℕ

-- The loop of the purge.
unfoldable pub purge_loop : ℕ → ℕ → List ProxyLease → Proxies → List Text → Purged
unfolding coerce_lease purge_keeps add
purge_loop now required [] p seen = record { proxies = p; kept = []; seen = seen; removed = 0 }
purge_loop now required (item ∷ pool) p seen = elim (coerce_lease item) [
  | none ↦
      let rest = purge_loop now required pool p seen in record rest { removed = rest.removed + 1 }
  | some lease ↦
      let (p', keep) = purge_keeps now required lease p seen in
      let rest = purge_loop now required pool p' (if keep then add lease.address seen else seen) in
      if keep
      then record rest { kept = lease ∷ rest.kept }
      else record rest { removed = rest.removed + 1 }
]

abbrev set_pool : List ProxyLease → ExecutionState → ExecutionState
set_pool pool s = record s { config = record s.config { proxy_ip_pool = pool } }

-- The addresses that are left in the pool come with the state.
unfoldable pub purge_unusable_pool : ℕ → ℕ → ExecutionState → ExecutionState × List Text
unfolding Proxy.purge_expired purge_loop notify
purge_unusable_pool now required s =
    let r = purge_loop now required s.config.proxy_ip_pool (Proxy.purge_expired now s.proxies) [] in
    (notify_if (not (r.removed == 0)) (set_pool r.kept (record s { proxies = r.proxies })), r.seen)

-- Whether a lease of the pool may be handed out.
unfoldable pub pop_takes : ℕ → ℕ → List Text → ProxyLease → Proxies → Proxies × Bool
unfolding member Proxy.is_in_cooldown_locked has_sufficient_ttl
pop_takes now required blocked lease p =
    if not (has_sufficient_ttl now required lease)
    then (p, false)
    else let (p', cooling) = Proxy.is_in_cooldown_locked lease.address now p in
      (p', not cooling && not (member lease.address blocked))

pub record Popped : Type 0 where
  pub proxies : Proxies
  pub pool : List ProxyLease
  pub lease : Option ProxyLease

unfoldable pub pop_loop : ℕ → ℕ → List Text → List ProxyLease → Proxies → Popped
unfolding coerce_lease pop_takes
pop_loop now required blocked [] p = record { proxies = p; pool = []; lease = none }
pop_loop now required blocked (item ∷ pool) p = elim (coerce_lease item) [
  | none ↦ pop_loop now required blocked pool p
  | some lease ↦
      let (p', takes) = pop_takes now required blocked lease p in
      elim takes [
        | true ↦ record { proxies = p'; pool = pool; lease = some lease }
        | false ↦ pop_loop now required blocked pool p'
      ]
]

unfoldable pub pop_available_lease : ℕ → ℕ → ExecutionState → ExecutionState × Option ProxyLease
unfolding Proxy.blocked_addresses purge_unusable_pool pop_loop
pop_available_lease now required s =
    let blocked = Proxy.blocked_addresses [] s.proxies in
    let purged = (purge_unusable_pool now required s).0 in
    let r = pop_loop now required blocked purged.config.proxy_ip_pool purged.proxies in
    (set_pool r.pool (record purged { proxies = r.proxies }), r.lease)

pub record Merged : Type 0 where
  pub proxies : Proxies
  pub pool : List ProxyLease
  pub existing : List Text
  pub selected : Option ProxyLease
  pub changed : Bool

abbrev is_none : Option ProxyLease → Bool
is_none none = true
is_none (some l) = false

-- Where a new lease goes.
pub data Place : Type 0 where
  skipped chosen pooled : Place

-- One fetched lease: it may be selected for the caller, put into the pool or left out.
unfoldable pub merge_place : ℕ → ℕ → Bool → ProxyLease → Merged → Proxies × Place
unfolding pop_takes
merge_place now required select_first lease m =
    let (p, takes) = pop_takes now required m.existing lease m.proxies in
    (
      p,
      if not takes
          then skipped
          else if select_first && is_none m.selected
          then chosen
          else if not lease.poolable
          then skipped
          else pooled,
    )

unfoldable pub merge_lease : ℕ → ℕ → Bool → ProxyLease → Merged → Merged
unfolding merge_place add
merge_lease now required select_first lease m =
    let (p, place) = merge_place now required select_first lease m in
    elim place [
      | skipped ↦ record m { proxies = p }
      | chosen ↦ record m {
        proxies = p;
        selected = some lease;
        existing = add lease.address m.existing;
      }
      | pooled ↦ record m {
        proxies = p;
        pool = m.pool ++ lease ∷ [];
        existing = add lease.address m.existing;
        changed = true;
      }
    ]

-- The loop over the fetched items.
unfoldable pub merge_loop : (Text → ℕ) → ℕ → ℕ → Bool → List Item → Merged → Merged
unfolding coerce_item merge_lease
merge_loop expire_of now required select_first [] m = m
merge_loop expire_of now required select_first (item ∷ items) m =
    merge_loop expire_of now required select_first items (elim (coerce_item expire_of item) [
      | none ↦ m
      | some lease ↦ merge_lease now required select_first lease m
    ])

-- `existing.update(blocked)`
unfoldable pub union : List Text → List Text → List Text
unfolding add
union [] acc = acc
union (a ∷ rest) acc = union rest (add a acc)

unfoldable pub merge_fetched_leases :
    (Text → ℕ) → ℕ → ℕ → List Item → Bool → ExecutionState → ExecutionState × Option ProxyLease
unfolding Proxy.blocked_addresses purge_unusable_pool union merge_loop notify
merge_fetched_leases expire_of now required fetched select_first s =
    let blocked = Proxy.blocked_addresses [] s.proxies in
    let (purged, seen) = purge_unusable_pool now required s in
    let m = merge_loop expire_of now required select_first fetched (record {
      proxies = purged.proxies;
      pool = purged.config.proxy_ip_pool;
      existing = union blocked seen;
      selected = none;
      changed = false;
    }) in
    (
      notify_if (m.changed || not (is_none m.selected))
          (set_pool m.pool (record purged { proxies = m.proxies })),
      m.selected,
    )

-- The leases of the pool at another address, normalized.
unfoldable pub retain_others : Text → List ProxyLease → List ProxyLease
unfolding coerce_lease
retain_others address [] = []
retain_others address (item ∷ pool) =
    let rest = retain_others address pool in
    elim (coerce_lease item) [
      | none ↦ rest
      | some lease ↦ if text_eq lease.address address then rest else lease ∷ rest
    ]

-- Whether a lease of the pool stands at the address: `removed`.
unfoldable pub holds_address : Text → List ProxyLease → Bool
unfolding coerce_lease
holds_address address [] = false
holds_address address (item ∷ pool) =
    let rest = holds_address address pool in
    elim (coerce_lease item) [ none ↦ rest | some lease ↦ text_eq lease.address address || rest ]

unfoldable pub discard_unresponsive : Text → ExecutionState → ExecutionState
unfolding strip retain_others holds_address notify
discard_unresponsive proxy_address s =
    let pool = s.config.proxy_ip_pool in
    if is_empty proxy_address
    then s
    else notify_if (holds_address (strip proxy_address) pool)
        (set_pool (retain_others (strip proxy_address) pool) s)

-- `_mark_proxy_temporarily_bad`
unfoldable pub mark_temporarily_bad : Text → ℕ → ℕ → ExecutionState → ExecutionState
unfolding strip mark_proxy_in_cooldown discard_unresponsive
mark_temporarily_bad proxy_address seconds now s =
    let normalized = strip proxy_address in
    if is_empty normalized
    then s
    else discard_unresponsive normalized (mark_proxy_in_cooldown normalized seconds now s)

-- `PROXY_MAX_PROXIES` of software/app/config.py.
abbrev pub proxy_max_proxies : ℕ
proxy_max_proxies = 80

unfoldable pub fetch_max_batch_size : ExecutionConfig → ℕ
fetch_max_batch_size config =
    let dynamic_limit = max 20 (max 1 config.num_threads * 2) in
    max 1 (min proxy_max_proxies dynamic_limit)

-- The submissions that are neither counted nor under way.
abbrev pub remaining_to_start : ExecutionState → ℕ
remaining_to_start s = s.config.target_num - s.cur_num - length s.proxies.in_use

-- `_resolve_proxy_request_num_locked`
unfoldable pub request_num : ExecutionState → ℕ
unfolding fetch_max_batch_size
request_num s =
    let waiting = max 1 s.proxies.waiting_threads in
    let idle = max 1 s.config.num_threads - length s.proxies.in_use in
    if leb (remaining_to_start s) 0
    then 0
    else max 1
        (min (max waiting (idle * 2)) (min (remaining_to_start s) (fetch_max_batch_size s.config)))

-- `resolve_proxy_prefetch_request_count`
unfoldable pub prefetch_request_count : ExecutionState → ℕ
unfolding fetch_max_batch_size
prefetch_request_count s =
    if not s.config.random_proxy_ip_enabled || leb (remaining_to_start s) 0
    then 0
    else min (max 1 s.config.num_threads * 2)
        (min (remaining_to_start s) (fetch_max_batch_size s.config))
      - length s.config.proxy_ip_pool

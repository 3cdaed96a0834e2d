-- ===== src/Network/Session/Handout.antt =====
-- Which leases a worker can be given.
use fuck_wjx.Common.{
  ℕ, ◌+◌, ◌<◌, ◌≡◌, inl, inr, true, false, not, ◌&&◌, List, [], ◌∷◌, some, arith, Option-cases,
  Bool-cases, max,
}
use fuck_wjx.Common.Text.{Text, strip, is_empty, text_eq, text_eq_iff}
use fuck_wjx.Common.Dict.{lookup, unique, text_key_eq, lookup-insert, unique-insert}
use fuck_wjx.Common.Sets.{member}
use fuck_wjx.Task.Proxy
use fuck_wjx.Task.Proxy.{ProxyLease, Proxies, until_of}
use fuck_wjx.Task.State.{ExecutionState, notify}
use fuck_wjx.Task.Methods.{mark_proxy_in_cooldown}
use fuck_wjx.Network.Session.Leases.{coerce_lease, has_sufficient_ttl}
use fuck_wjx.Network.Session.Defs.{
  purge_unusable_pool, pop_takes, pop_loop, pop_available_lease, retain_others, holds_address,
  discard_unresponsive, mark_temporarily_bad,
}
use fuck_wjx.Network.Session.Cooling.{cools, Agree, Agree-refl, check-Agree, check-cools}
use fuck_wjx.Network.Session.Pool.{at_address, purge_pool-Agree}

pub takes-Agree :
    (now required : ℕ) (blocked : List Text) (l : ProxyLease) (p : Proxies)
    → unique p.cooldown_until ≡ true
    → Agree now p (pop_takes now required blocked l p).0
unfolding pop_takes
takes-Agree now required blocked l p u = elim (Bool-cases (has_sufficient_ttl now required l)) [
  | inr e ↦ rw (e, pop_takes) (Agree-refl now p u)
  | inl e ↦ rw (e, pop_takes) (check-Agree l.address now p u)
]

pub takes-exact :
    (now required : ℕ) (blocked : List Text) (l : ProxyLease) (p : Proxies)
    → unique p.cooldown_until ≡ true
    → (pop_takes now required blocked l p).1 ≡ (
        has_sufficient_ttl now required l
        && not (cools now l.address p)
        && not (member l.address blocked))
unfolding pop_takes
takes-exact now required blocked l p u = ground (arith, check-cools l.address now p u)

pop_loop-usable :
    (now required : ℕ) (blocked : List Text) (pool : List ProxyLease) (p : Proxies) (l : ProxyLease)
    → unique p.cooldown_until ≡ true
    → (pop_loop now required blocked pool p).lease ≡ some l
    → (has_sufficient_ttl now required l
        && not (cools now l.address p)
        && not (member l.address blocked))
      ≡ true
unfolding pop_loop
pop_loop-usable now required blocked [] p l u e = ground arith
pop_loop-usable now required blocked (item ∷ pool) p l u e =
    elim (Option-cases (coerce_lease item)) [
      | inl c ↦ ground (arith, c, pop_loop-usable now required blocked pool p l u)
      | inr (k, c) ↦
          let g = takes-Agree now required blocked k p u in
          let p' = (pop_takes now required blocked k p).0 in
          ground (
            arith,
            c,
            takes-exact now required blocked k p u,
            g.same l.address,
            pop_loop-usable now required blocked pool p' l g.keys,
          )
    ]

-- A lease that a worker is given has the time required, does not cool down, and is neither held
-- by a worker nor used with success before. (The cooldowns are kept under different addresses.)
pub pop-usable :
    (now required : ℕ) (s : ExecutionState) (l : ProxyLease)
    → unique s.proxies.cooldown_until ≡ true
    → (pop_available_lease now required s).1 ≡ some l
    → (has_sufficient_ttl now required l ≡ true)
      × (cools now l.address s.proxies ≡ false)
      × (member l.address (Proxy.blocked_addresses [] s.proxies) ≡ false)
unfolding pop_available_lease
pop-usable now required s l u e =
    let purged = (purge_unusable_pool now required s).0 in
    let g = purge_pool-Agree now required s u in
    let blocked = Proxy.blocked_addresses [] s.proxies in
    let usable =
      pop_loop-usable now required blocked purged.config.proxy_ip_pool purged.proxies l g.keys e in
    (ground (arith, usable), ground (arith, usable, g.same l.address), ground (arith, usable))

retain-exact :
    (a b : Text) (pool : List ProxyLease)
    → at_address b (retain_others a pool) ≡ (not (text_eq a b) && holds_address b pool)
unfolding retain_others holds_address
retain-exact a b [] = ground arith
retain-exact a b (item ∷ pool) = elim (Option-cases (coerce_lease item)) [
  | inl c ↦ ground (arith, c, retain-exact a b pool)
  | inr (l, c) ↦ ground (
    arith,
    c,
    text_eq_iff l.address a,
    text_eq_iff l.address b,
    text_eq_iff a b,
    retain-exact a b pool,
  )
]

-- Discarding an address takes its leases out of the pool and no others. (The address is not empty.)
pub discard-exact :
    (a b : Text) (s : ExecutionState)
    → is_empty a ≡ false
    → at_address b (discard_unresponsive a s).config.proxy_ip_pool
      ≡ (not (text_eq (strip a) b) && holds_address b s.config.proxy_ip_pool)
unfolding discard_unresponsive notify
discard-exact a b s filled = ground (arith, retain-exact (strip a) b s.config.proxy_ip_pool)

discard-proxies : (a : Text) (s : ExecutionState) → (discard_unresponsive a s).proxies ≡ s.proxies
unfolding discard_unresponsive notify
discard-proxies a s = ground arith

bad-cooldown :
    (a : Text) (seconds start : ℕ) (s : ExecutionState)
    → is_empty (strip a) ≡ false
    → is_empty (strip (strip a)) ≡ false
    → 0 < seconds
    → (mark_temporarily_bad a seconds start s).proxies
      ≡ Proxy.mark_in_cooldown_locked (strip (strip a)) start seconds s.proxies
unfolding mark_temporarily_bad mark_proxy_in_cooldown notify
bad-cooldown a seconds start s h h' pos =
    ground (arith, discard-proxies (strip a) (mark_proxy_in_cooldown (strip a) seconds start s))

marked-cools :
    (k a : Text) (seconds start now : ℕ) (p : Proxies)
    → strip a ≡ k
    → is_empty k ≡ false
    → now < start + seconds
    → cools now a (Proxy.mark_in_cooldown_locked k start seconds p) ≡ true
unfolding Proxy.mark_in_cooldown_locked
marked-cools k a seconds start now p e h lt = ground (
  arith,
  e,
  text_eq_iff k k,
  lookup-insert k k (max (until_of (lookup k p.cooldown_until)) (start + seconds)) p.cooldown_until,
)

marked-unique :
    (k : Text) (seconds start : ℕ) (p : Proxies)
    → unique p.cooldown_until ≡ true
    → unique (Proxy.mark_in_cooldown_locked k start seconds p).cooldown_until ≡ true
unfolding Proxy.mark_in_cooldown_locked
marked-unique k seconds start p u = unique-insert k _ p.cooldown_until u

-- The state with another pool.
unfoldable pub with_pool : List ProxyLease → ExecutionState → ExecutionState
with_pool pool s = record s { config = record s.config { proxy_ip_pool = pool } }

-- Once an address is marked as bad for some seconds, no worker is given a lease at it until they
-- have passed, whatever leases the pool holds by then, such as a new one at that address. (The
-- address is not blank, and the cooldowns are kept under different addresses.)
pub bad-not_popped :
    (a : Text) (seconds start now required : ℕ) (s : ExecutionState) (pool : List ProxyLease)
    (l : ProxyLease)
    → unique s.proxies.cooldown_until ≡ true
    → is_empty (strip (strip a)) ≡ false
    → is_empty (strip a) ≡ false
    → 0 < seconds
    → now < start + seconds
    → (pop_available_lease now required (with_pool pool (mark_temporarily_bad a seconds start s))).1
      ≡ some l
    → text_eq (strip l.address) (strip (strip a)) ≡ false
unfolding with_pool
bad-not_popped a seconds start now required s pool l u h' h pos lt e =
    let k = strip (strip a) in
    let marked = bad-cooldown a seconds start s h h' pos in
    let bad = mark_temporarily_bad a seconds start s in
    let kept : unique bad.proxies.cooldown_until ≡ true =
      rw marked (marked-unique k seconds start s.proxies u) in
    ground (
      arith,
      marked,
      text_eq_iff (strip l.address) k,
      pop-usable now required (with_pool pool bad) l kept e,
      marked-cools k l.address seconds start now s.proxies,
    )

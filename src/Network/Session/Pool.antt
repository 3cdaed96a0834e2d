-- ===== src/Network/Session/Pool.antt =====
-- Which leases the pool keeps and hands out.
use fuck_wjx.Common.{
  ℕ, ◌≡◌, refl, inl, inr, Bool, true, false, not, ◌&&◌, ◌||◌, List, [], ◌∷◌, arith, Option-cases,
  Bool-cases, ◌==◌,
}
use fuck_wjx.Common.Text.{Text, text_eq, text_eq_iff}
use fuck_wjx.Common.Dict.{unique, text_key_eq}
use fuck_wjx.Common.Sets.{member, add, member-nil, member-add}
use fuck_wjx.Task.Proxy
use fuck_wjx.Task.Proxy.{ProxyLease, Proxies}
use fuck_wjx.Task.State.{ExecutionState, notify}
use fuck_wjx.Network.Session.Leases.{coerce_lease, has_sufficient_ttl}
use fuck_wjx.Network.Session.Defs.{purge_keeps, Purged, purge_loop, purge_unusable_pool}
use fuck_wjx.Network.Session.Cooling.{
  cools, Agree, Agree-refl, Agree-trans, purge-Agree, check-Agree, check-cools,
}

-- Whether a lease of the list stands at the address.
abbrev pub at_address : Text → List ProxyLease → Bool
at_address a [] = false
at_address a (l ∷ ls) = text_eq l.address a || at_address a ls

-- No two leases stand at the same address.
abbrev pub no_repeats : List ProxyLease → Bool
no_repeats [] = true
no_repeats (l ∷ ls) = not (at_address l.address ls) && no_repeats ls

-- Poolable, with enough time left and not cooling down.
abbrev pub is_fit : ℕ → ℕ → Proxies → ProxyLease → Bool
is_fit now required p l =
    l.poolable && has_sufficient_ttl now required l && not (cools now l.address p)

abbrev pub all_fit : ℕ → ℕ → Proxies → List ProxyLease → Bool
all_fit now required p [] = true
all_fit now required p (l ∷ ls) = is_fit now required p l && all_fit now required p ls

keeps-Agree :
    (now required : ℕ) (l : ProxyLease) (p : Proxies) (seen : List Text)
    → unique p.cooldown_until ≡ true
    → Agree now p (purge_keeps now required l p seen).0
unfolding purge_keeps
keeps-Agree now required l p seen u = elim (Bool-cases l.poolable) [
  | inr e ↦ rw (e, purge_keeps) (Agree-refl now p u)
  | inl e ↦ elim (Bool-cases (member l.address seen)) [
    | inl m ↦ rw (e, m, purge_keeps) (Agree-refl now p u)
    | inr m ↦ rw (e, m, purge_keeps) (check-Agree l.address now p u)
  ]
]

keeps-fit :
    (now required : ℕ) (l : ProxyLease) (p : Proxies) (seen : List Text)
    → unique p.cooldown_until ≡ true
    → (purge_keeps now required l p seen).1
      ≡ (is_fit now required p l && not (member l.address seen))
unfolding purge_keeps
keeps-fit now required l p seen u = ground (arith, check-cools l.address now p u)

all_fit-Agree :
    (now required : ℕ) (p q : Proxies) (ls : List ProxyLease)
    → Agree now p q
    → all_fit now required q ls ≡ all_fit now required p ls
all_fit-Agree now required p q [] g = refl
all_fit-Agree now required p q (l ∷ ls) g =
    ground (arith, g.same l.address, all_fit-Agree now required p q ls g)

-- What the loop of the purge leaves: fit leases at different addresses that were not seen before,
-- and the addresses seen.
record Left (now required : ℕ) (p : Proxies) (seen : List Text) (r : Purged) : Type 0 where
  agree : Agree now p r.proxies
  fit : all_fit now required p r.kept ≡ true
  fresh : (a : Text) → (at_address a r.kept && member a seen) ≡ false
  once : no_repeats r.kept ≡ true
  exact : (a : Text) → member a r.seen ≡ (member a seen || at_address a r.kept)

purge_loop-Left :
    (now required : ℕ) (pool : List ProxyLease) (p : Proxies) (seen : List Text)
    → unique p.cooldown_until ≡ true
    → Left now required p seen (purge_loop now required pool p seen)
unfolding purge_loop
purge_loop-Left now required [] p seen u = record {
  agree = Agree-refl now p u;
  fit = refl;
  fresh = λ a. refl;
  once = refl;
  exact = λ a. ground arith;
}
purge_loop-Left now required (item ∷ pool) p seen u = elim (Option-cases (coerce_lease item)) [
  | inl e ↦
      let rest = purge_loop-Left now required pool p seen u in
      rw (e, purge_loop)
        (record {
          agree = rest.agree;
          fit = rest.fit;
          fresh = rest.fresh;
          once = rest.once;
          exact = rest.exact;
        })
  | inr (l, e) ↦
      let g = keeps-Agree now required l p seen u in
      let k = keeps-fit now required l p seen u in
      let p' = (purge_keeps now required l p seen).0 in
      elim (Bool-cases (purge_keeps now required l p seen).1) [
        | inl keep ↦
            let rest = purge_loop-Left now required pool p' (add l.address seen) g.keys in
            let r = purge_loop now required pool p' (add l.address seen) in
            rw (e, keep, purge_loop)
              (record {
                agree = Agree-trans now p p' r.proxies g rest.agree;
                fit = ground (arith, keep, k, rest.fit, all_fit-Agree now required p p' r.kept g);
                fresh = λ a. ground (
                  arith,
                  keep,
                  k,
                  text_eq_iff l.address a,
                  rest.fresh a,
                  member-add l.address a seen,
                );
                once = ground (
                  arith,
                  rest.once,
                  text_eq_iff l.address l.address,
                  rest.fresh l.address,
                  member-add l.address l.address seen,
                );
                exact = λ a. ground (arith, rest.exact a, member-add l.address a seen);
              })
        | inr drop ↦
            let rest = purge_loop-Left now required pool p' seen g.keys in
            let r = purge_loop now required pool p' seen in
            rw (e, drop, purge_loop)
              (record {
                agree = Agree-trans now p p' r.proxies g rest.agree;
                fit = ground (arith, rest.fit, all_fit-Agree now required p p' r.kept g);
                fresh = rest.fresh;
                once = rest.once;
                exact = rest.exact;
              })
      ]
]

-- After a purge the leases of the pool stand at different addresses, each is poolable, has the time
-- required and does not cool down, and the addresses that the purge reports are those of the pool.
-- (The cooldowns are kept under different addresses.)
pub purge-all_fit :
    (now required : ℕ) (s : ExecutionState) (a : Text)
    → unique s.proxies.cooldown_until ≡ true
    → let r = purge_unusable_pool now required s in
      (no_repeats r.0.config.proxy_ip_pool ≡ true)
      × (all_fit now required s.proxies r.0.config.proxy_ip_pool ≡ true)
      × (member a r.1 ≡ at_address a r.0.config.proxy_ip_pool)
unfolding purge_unusable_pool notify
purge-all_fit now required s a u =
    let p = Proxy.purge_expired now s.proxies in
    let g = purge-Agree now s.proxies u in
    let left = purge_loop-Left now required s.config.proxy_ip_pool p [] g.keys in
    let r = purge_loop now required s.config.proxy_ip_pool p [] in
    (
      ground (arith, left.once),
      ground (arith, left.fit, all_fit-Agree now required s.proxies p r.kept g),
      ground (arith, left.exact a, member-nil a),
    )

-- The purge leaves the cooldowns that have not passed.
pub purge_pool-Agree :
    (now required : ℕ) (s : ExecutionState)
    → unique s.proxies.cooldown_until ≡ true
    → Agree now s.proxies (purge_unusable_pool now required s).0.proxies
unfolding purge_unusable_pool notify
purge_pool-Agree now required s u =
    let p = Proxy.purge_expired now s.proxies in
    let g = purge-Agree now s.proxies u in
    let left = purge_loop-Left now required s.config.proxy_ip_pool p [] g.keys in
    let r = purge_loop now required s.config.proxy_ip_pool p [] in
    let h = Agree-trans now s.proxies p r.proxies g left.agree in
    elim (Bool-cases (not (r.removed == 0))) [ inl e ↦ rw e h | inr e ↦ rw e h ]

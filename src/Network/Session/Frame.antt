-- ===== src/Network/Session/Frame.antt =====
-- What the operations of the pool leave alone, and that a lease that is handed out has an address.
use fuck_wjx.Common.{
  ℕ, ◌≡◌, refl, Bool, true, false, List, [], ◌∷◌, none, some, arith, Option-cases, inl, inr,
}
use fuck_wjx.Common.Text.{Text, is_empty}
use fuck_wjx.Common.Sets.{add}
use fuck_wjx.Common.Dict.{text_key_eq}
use fuck_wjx.Task.Proxy
use fuck_wjx.Task.Proxy.{Proxies, ProxyLease}
use fuck_wjx.Task.State.{ExecutionState, notify}
use fuck_wjx.Network.Session.Leases.{
  Item, coerce_lease, coerce_item, build_lease, normalize_address, entry_address,
}
use fuck_wjx.Network.Session.Defs.{
  purge_keeps, purge_loop, purge_unusable_pool, pop_takes, pop_loop, pop_available_lease, Merged,
  merge_place, merge_lease, merge_loop, union, merge_fetched_leases,
}

check-in_use :
    (a : Text) (now : ℕ) (p : Proxies) → (Proxy.is_in_cooldown_locked a now p).0.in_use ≡ p.in_use
unfolding Proxy.is_in_cooldown_locked Proxy.purge_expired
check-in_use a now p = ground arith

keeps-in_use :
    (now required : ℕ) (l : ProxyLease) (p : Proxies) (seen : List Text)
    → (purge_keeps now required l p seen).0.in_use ≡ p.in_use
unfolding purge_keeps
keeps-in_use now required l p seen = ground (arith, check-in_use l.address now p)

takes-in_use :
    (now required : ℕ) (blocked : List Text) (l : ProxyLease) (p : Proxies)
    → (pop_takes now required blocked l p).0.in_use ≡ p.in_use
unfolding pop_takes
takes-in_use now required blocked l p = ground (arith, check-in_use l.address now p)

purge_loop-in_use :
    (now required : ℕ) (pool : List ProxyLease) (p : Proxies) (seen : List Text)
    → (purge_loop now required pool p seen).proxies.in_use ≡ p.in_use
unfolding purge_loop
purge_loop-in_use now required [] p seen = refl
purge_loop-in_use now required (item ∷ pool) p seen = elim (Option-cases (coerce_lease item)) [
  | inl e ↦ ground (arith, e, purge_loop-in_use now required pool p seen)
  | inr (l, e) ↦
      let p' = (purge_keeps now required l p seen).0 in
      ground (
        arith,
        e,
        keeps-in_use now required l p seen,
        purge_loop-in_use now required pool p' seen,
        purge_loop-in_use now required pool p' (add l.address seen),
      )
]

-- The workers' leases, what they hold otherwise, and the numbers of the run stay.
pub record Kept (s t : ExecutionState) : Type 0 where
  pub target : t.config.target_num ≡ s.config.target_num
  pub cur_num : t.cur_num ≡ s.cur_num
  pub joint : t.joint ≡ s.joint
  pub reverse_fill : t.reverse_fill ≡ s.reverse_fill
  pub in_use : t.proxies.in_use ≡ s.proxies.in_use

purge-Kept : (now required : ℕ) (s : ExecutionState) → Kept s (purge_unusable_pool now required s).0
unfolding purge_unusable_pool Proxy.purge_expired notify
purge-Kept now required s = ground (
  arith,
  purge_loop-in_use now required s.config.proxy_ip_pool (Proxy.purge_expired now s.proxies) [],
)

pop_loop-in_use :
    (now required : ℕ) (blocked : List Text) (pool : List ProxyLease) (p : Proxies)
    → (pop_loop now required blocked pool p).proxies.in_use ≡ p.in_use
unfolding pop_loop
pop_loop-in_use now required blocked [] p = refl
pop_loop-in_use now required blocked (item ∷ pool) p = elim (Option-cases (coerce_lease item)) [
  | inl e ↦ ground (arith, e, pop_loop-in_use now required blocked pool p)
  | inr (l, e) ↦
      let p' = (pop_takes now required blocked l p).0 in
      ground (
        arith,
        e,
        takes-in_use now required blocked l p,
        pop_loop-in_use now required blocked pool p',
      )
]

pub pop-Kept :
    (now required : ℕ) (s : ExecutionState) → Kept s (pop_available_lease now required s).0
unfolding pop_available_lease
pop-Kept now required s =
    let t = (purge_unusable_pool now required s).0 in
    ground (
      arith,
      purge-Kept now required s,
      pop_loop-in_use now required (Proxy.blocked_addresses [] s.proxies) t.config.proxy_ip_pool
          t.proxies,
    )

merge_lease-in_use :
    (now required : ℕ) (first : Bool) (l : ProxyLease) (m : Merged)
    → (merge_lease now required first l m).proxies.in_use ≡ m.proxies.in_use
unfolding merge_lease merge_place
merge_lease-in_use now required first l m =
    ground (arith, takes-in_use now required m.existing l m.proxies)

merge_loop-in_use :
    (expire_of : Text → ℕ) (now required : ℕ) (first : Bool) (items : List Item) (m : Merged)
    → (merge_loop expire_of now required first items m).proxies.in_use ≡ m.proxies.in_use
unfolding merge_loop
merge_loop-in_use expire_of now required first [] m = refl
merge_loop-in_use expire_of now required first (item ∷ items) m =
    elim (Option-cases (coerce_item expire_of item)) [
      | inl e ↦ ground (arith, e, merge_loop-in_use expire_of now required first items m)
      | inr (l, e) ↦ ground (
        arith,
        e,
        merge_lease-in_use now required first l m,
        merge_loop-in_use expire_of now required first items (merge_lease now required first l m),
      )
    ]

pub merge-Kept :
    (expire_of : Text → ℕ) (now required : ℕ) (items : List Item) (first : Bool)
    (s : ExecutionState)
    → Kept s (merge_fetched_leases expire_of now required items first s).0
unfolding merge_fetched_leases notify
merge-Kept expire_of now required items first s =
    let (t, seen) = purge_unusable_pool now required s in
    ground (
      arith,
      purge-Kept now required s,
      merge_loop-in_use expire_of now required first items (record {
        proxies = t.proxies;
        pool = t.config.proxy_ip_pool;
        existing = union (Proxy.blocked_addresses [] s.proxies) seen;
        selected = none;
        changed = false;
      }),
    )

normalize-filled : (a b : Text) → normalize_address a ≡ some b → is_empty b ≡ false
unfolding normalize_address
normalize-filled a b e = ground arith

coerce-filled : (l k : ProxyLease) → coerce_lease l ≡ some k → is_empty k.address ≡ false
unfolding coerce_lease
coerce-filled l k e = elim (Option-cases (normalize_address l.address)) [
  | inl n ↦ absurd (ground (arith, n))
  | inr (a, n) ↦ ground (arith, n, normalize-filled l.address a n)
]

build-filled :
    (expire_of : Text → ℕ) (a x : Text) (b : Bool) (src : Text) (k : ProxyLease)
    → build_lease expire_of a x b src ≡ some k
    → is_empty k.address ≡ false
unfolding build_lease
build-filled expire_of a x b src k e = elim (Option-cases (normalize_address a)) [
  | inl n ↦ absurd (ground (arith, n))
  | inr (c, n) ↦ ground (arith, n, normalize-filled a c n)
]

item-filled :
    (expire_of : Text → ℕ) (i : Item) (k : ProxyLease)
    → coerce_item expire_of i ≡ some k
    → is_empty k.address ≡ false
unfolding coerce_item
item-filled expire_of (Item.lease l) k e = coerce-filled l k e
item-filled expire_of (Item.address a) k e = build-filled expire_of a [] true [] k e
item-filled expire_of (Item.entry x) k e =
    build-filled expire_of (entry_address x) x.expire_at x.poolable x.source k e
item-filled expire_of Item.other k e = ground arith

pop_loop-filled :
    (now required : ℕ) (blocked : List Text) (pool : List ProxyLease) (p : Proxies) (l : ProxyLease)
    → (pop_loop now required blocked pool p).lease ≡ some l
    → is_empty l.address ≡ false
unfolding pop_loop
pop_loop-filled now required blocked [] p l e = ground arith
pop_loop-filled now required blocked (item ∷ pool) p l e = elim (Option-cases (coerce_lease item)) [
  | inl c ↦ ground (arith, c, pop_loop-filled now required blocked pool p l)
  | inr (k, c) ↦ ground (
    arith,
    c,
    coerce-filled item k c,
    pop_loop-filled now required blocked pool (pop_takes now required blocked k p).0 l,
  )
]

-- A lease from the pool has an address.
pub pop-filled :
    (now required : ℕ) (s : ExecutionState) (l : ProxyLease)
    → (pop_available_lease now required s).1 ≡ some l
    → is_empty l.address ≡ false
unfolding pop_available_lease
pop-filled now required s l e =
    let t = (purge_unusable_pool now required s).0 in
    pop_loop-filled now required (Proxy.blocked_addresses [] s.proxies) t.config.proxy_ip_pool
      t.proxies l e

merge_lease-filled :
    (now required : ℕ) (first : Bool) (l k : ProxyLease) (m : Merged)
    → is_empty l.address ≡ false
    → ((j : ProxyLease) → m.selected ≡ some j → is_empty j.address ≡ false)
    → (merge_lease now required first l m).selected ≡ some k
    → is_empty k.address ≡ false
unfolding merge_lease merge_place
merge_lease-filled now required first l k m f h e = ground (arith, h k)

merge_loop-filled :
    (expire_of : Text → ℕ) (now required : ℕ) (first : Bool) (items : List Item) (m : Merged)
    → ((j : ProxyLease) → m.selected ≡ some j → is_empty j.address ≡ false)
    → (k : ProxyLease) → (merge_loop expire_of now required first items m).selected ≡ some k
    → is_empty k.address ≡ false
unfolding merge_loop
merge_loop-filled expire_of now required first [] m h k e = h k e
merge_loop-filled expire_of now required first (item ∷ items) m h k e =
    elim (Option-cases (coerce_item expire_of item)) [
      | inl c ↦ ground (arith, c, merge_loop-filled expire_of now required first items m h k)
      | inr (l, c) ↦
          let rest =
            merge_loop-filled expire_of now required first items
              (merge_lease now required first l m)
              (λ j. merge_lease-filled now required first l j m (item-filled expire_of item l c) h)
              k in
          ground (arith, c, rest)
    ]

-- A fetched lease that is selected has an address.
pub merge-filled :
    (expire_of : Text → ℕ) (now required : ℕ) (items : List Item) (first : Bool)
    (s : ExecutionState) (l : ProxyLease)
    → (merge_fetched_leases expire_of now required items first s).1 ≡ some l
    → is_empty l.address ≡ false
unfolding merge_fetched_leases
merge-filled expire_of now required items first s l e =
    merge_loop-filled expire_of now required first items _ (λ j f. ground (arith, f)) l e

-- ===== src/Network/Session/Merge.antt =====
-- What becomes of the leases that a fetch returns.
use fuck_wjx.Common.{
  ℕ, ◌≡◌, refl, ◌⊎◌, inl, inr, Bool, true, false, not, ◌&&◌, ◌||◌, List, [], ◌∷◌, ◌++◌, none, some,
  arith, Option-cases, Bool-cases,
}
use fuck_wjx.Common.Text.{Text, text_eq, text_eq_iff}
use fuck_wjx.Common.Dict.{unique, text_key_eq}
use fuck_wjx.Common.Sets.{member, add, member-nil, member-cons, member-add}
use fuck_wjx.Task.Proxy
use fuck_wjx.Task.Proxy.{ProxyLease, Proxies}
use fuck_wjx.Task.State.{ExecutionState, notify}
use fuck_wjx.Network.Session.Leases.{Item, coerce_item, has_sufficient_ttl}
use fuck_wjx.Network.Session.Defs.{
  purge_unusable_pool, pop_takes, Merged, Place, skipped, chosen, pooled, merge_place, merge_lease,
  merge_loop, union, merge_fetched_leases,
}
use fuck_wjx.Network.Session.Cooling.{cools, Agree, Agree-trans}
use fuck_wjx.Network.Session.Pool.{at_address, no_repeats, purge_pool-Agree, purge-all_fit}
use fuck_wjx.Network.Session.Handout.{takes-Agree, takes-exact}

at_address-snoc :
    (a : Text) (ls : List ProxyLease) (l : ProxyLease)
    → at_address a (ls ++ l ∷ []) ≡ (at_address a ls || text_eq l.address a)
at_address-snoc a [] l = ground arith
at_address-snoc a (k ∷ ls) l = ground (arith, at_address-snoc a ls l)

no_repeats-snoc :
    (ls : List ProxyLease) (l : ProxyLease)
    → no_repeats ls ≡ true
    → at_address l.address ls ≡ false
    → no_repeats (ls ++ l ∷ []) ≡ true
no_repeats-snoc [] l h f = refl
no_repeats-snoc (k ∷ ls) l h f = ground (
  arith,
  at_address-snoc k.address ls l,
  text_eq_iff l.address k.address,
  text_eq_iff k.address l.address,
  no_repeats-snoc ls l,
)

-- A lease may be given to the worker that fetched it.
abbrev pub is_usable : ℕ → ℕ → List Text → Proxies → ProxyLease → Bool
is_usable now required blocked p l =
    has_sufficient_ttl now required l
    && not (cools now l.address p)
    && not (member l.address blocked)

-- The pool stands at different addresses, all of them and the blocked ones are known, and the
-- selected lease is usable, known and not in the pool.
record Sound (now required : ℕ) (blocked : List Text) (p : Proxies) (m : Merged) : Type 0 where
  agree : Agree now p m.proxies
  known : (a : Text) → at_address a m.pool ≡ true → member a m.existing ≡ true
  blocks : (a : Text) → member a blocked ≡ true → member a m.existing ≡ true
  once : no_repeats m.pool ≡ true
  free :
      (l : ProxyLease)
      → m.selected ≡ some l
      → (at_address l.address m.pool ≡ false)
        × (member l.address m.existing ≡ true)
        × (is_usable now required blocked p l ≡ true)

Place-cases : (x : Place) → (x ≡ skipped) ⊎ (x ≡ chosen) ⊎ (x ≡ pooled)
Place-cases skipped = inl refl
Place-cases chosen = inr (inl refl)
Place-cases pooled = inr (inr refl)

module _ (now required : ℕ) (first : Bool) (l : ProxyLease) (m : Merged) where
  place_state :
      (merge_place now required first l m).0 ≡ (pop_takes now required m.existing l m.proxies).0
  unfolding merge_place
  place_state = refl

  place_takes :
      ((merge_place now required first l m).1 ≡ skipped)
      ⊎ ((pop_takes now required m.existing l m.proxies).1 ≡ true)
  unfolding merge_place
  place_takes = elim (Bool-cases (pop_takes now required m.existing l m.proxies).1) [
    | inl e ↦ inr e
    | inr e ↦ inl (rw e refl)
  ]

module _ (now required : ℕ) (blocked : List Text) (p : Proxies) (first : Bool) (l : ProxyLease)
    (m : Merged) (v : Sound now required blocked p m) where
  next : Agree now p (merge_place now required first l m).0
  next =
      Agree-trans now p m.proxies _ v.agree
        (rw place_state (takes-Agree now required m.existing l m.proxies v.agree.keys))

  -- A lease that is not skipped is usable and new.
  taken :
      (pop_takes now required m.existing l m.proxies).1 ≡ true
      → (is_usable now required blocked p l ≡ true) × (member l.address m.existing ≡ false)
  taken t = ground (
    arith,
    t,
    takes-exact now required m.existing l m.proxies v.agree.keys,
    v.agree.same l.address,
    v.blocks l.address,
  )

  chosen-Sound :
      (merge_place now required first l m).1 ≡ chosen
      → (pop_takes now required m.existing l m.proxies).1 ≡ true
      → Sound now required blocked p (merge_lease now required first l m)
  unfolding merge_lease
  chosen-Sound e t =
      rw (e, merge_lease)
        (record {
          agree = next;
          known = λ a h. ground (arith, v.known a, member-add l.address a m.existing);
          blocks = λ a h. ground (arith, v.blocks a, member-add l.address a m.existing);
          once = v.once;
          free = λ k s. ground (
            arith,
            s,
            taken t,
            v.known l.address,
            text_eq_iff l.address l.address,
            member-add l.address l.address m.existing,
          );
        })

  pooled-Sound :
      (merge_place now required first l m).1 ≡ pooled
      → (pop_takes now required m.existing l m.proxies).1 ≡ true
      → Sound now required blocked p (merge_lease now required first l m)
  unfolding merge_lease
  pooled-Sound e t =
      rw (e, merge_lease)
        (record {
          agree = next;
          known = λ a h.
              ground
                (arith, v.known a, at_address-snoc a m.pool l, member-add l.address a m.existing);
          blocks = λ a h. ground (arith, v.blocks a, member-add l.address a m.existing);
          once = no_repeats-snoc m.pool l v.once (ground (arith, taken t, v.known l.address));
          free = λ k s. ground (
            arith,
            taken t,
            v.free k s,
            at_address-snoc k.address m.pool l,
            text_eq_iff l.address k.address,
            member-add l.address k.address m.existing,
          );
        })

  lease-Sound : Sound now required blocked p (merge_lease now required first l m)
  unfolding merge_lease
  lease-Sound = elim (Place-cases (merge_place now required first l m).1) [
    | inl e ↦
        rw (e, merge_lease)
          (record {
            agree = next;
            known = v.known;
            blocks = v.blocks;
            once = v.once;
            free = v.free;
          })
    | inr (inl e) ↦ elim (place_takes now required first l m) [
      | inl s ↦ absurd (ground (arith, e, s))
      | inr t ↦ chosen-Sound e t
    ]
    | inr (inr e) ↦ elim (place_takes now required first l m) [
      | inl s ↦ absurd (ground (arith, e, s))
      | inr t ↦ pooled-Sound e t
    ]
  ]

loop-Sound :
    (expire_of : Text → ℕ) (now required : ℕ) (blocked : List Text) (p : Proxies) (first : Bool)
    (items : List Item) (m : Merged)
    → Sound now required blocked p m
    → Sound now required blocked p (merge_loop expire_of now required first items m)
unfolding merge_loop
loop-Sound expire_of now required blocked p first [] m v = v
loop-Sound expire_of now required blocked p first (item ∷ items) m v =
    elim (Option-cases (coerce_item expire_of item)) [
      | inl e ↦ rw (e, merge_loop) (loop-Sound expire_of now required blocked p first items m v)
      | inr (l, e) ↦
          rw (e, merge_loop)
            (loop-Sound expire_of now required blocked p first items
              (merge_lease now required first l m) (lease-Sound now required blocked p first l m v))
    ]

union-member :
    (a : Text) (bs acc : List Text) → member a (union bs acc) ≡ (member a bs || member a acc)
unfolding union
union-member a [] acc = ground (arith, member-nil a)
union-member a (b ∷ bs) acc =
    ground (arith, member-cons a b bs, member-add b a acc, union-member a bs (add b acc))

merged-Sound :
    (expire_of : Text → ℕ) (now required : ℕ) (fetched : List Item) (first : Bool)
    (s : ExecutionState)
    → unique s.proxies.cooldown_until ≡ true
    → let (purged, seen) = purge_unusable_pool now required s in
      Sound now required (Proxy.blocked_addresses [] s.proxies) s.proxies (
        merge_loop expire_of now required first fetched (record {
          proxies = purged.proxies;
          pool = purged.config.proxy_ip_pool;
          existing = union (Proxy.blocked_addresses [] s.proxies) seen;
          selected = none;
          changed = false;
        }))
merged-Sound expire_of now required fetched first s u =
    let (purged, seen) = purge_unusable_pool now required s in
    let blocked = Proxy.blocked_addresses [] s.proxies in
    loop-Sound expire_of now required blocked s.proxies first fetched _ (record {
      agree = purge_pool-Agree now required s u;
      known = λ a h. ground (arith, purge-all_fit now required s a u, union-member a blocked seen);
      blocks = λ a h. ground (arith, union-member a blocked seen);
      once = (purge-all_fit now required s [] u).0;
      free = λ l e. ground (arith, e);
    })

-- After fetched items are merged, the leases of the pool stand at different addresses. (The
-- cooldowns are kept under different addresses.)
merge-no_repeats :
    (expire_of : Text → ℕ) (now required : ℕ) (fetched : List Item) (first : Bool)
    (s : ExecutionState)
    → unique s.proxies.cooldown_until ≡ true
    → no_repeats
        (merge_fetched_leases expire_of now required fetched first s).0.config.proxy_ip_pool
      ≡ true
unfolding merge_fetched_leases notify
merge-no_repeats expire_of now required fetched first s u =
    let v = merged-Sound expire_of now required fetched first s u in ground (arith, v.once)

-- A fetched lease that the worker is given has the time required, does not cool down, was not
-- blocked, and does not stand in the pool for another worker. (The cooldowns are kept under
-- different addresses.)
pub merge-selected :
    (expire_of : Text → ℕ) (now required : ℕ) (fetched : List Item) (first : Bool)
    (s : ExecutionState) (l : ProxyLease)
    → unique s.proxies.cooldown_until ≡ true
    → (merge_fetched_leases expire_of now required fetched first s).1 ≡ some l
    → (is_usable now required (Proxy.blocked_addresses [] s.proxies) s.proxies l ≡ true)
      × (at_address l.address
            (merge_fetched_leases expire_of now required fetched first s).0.config.proxy_ip_pool
          ≡ false)
unfolding merge_fetched_leases notify
merge-selected expire_of now required fetched first s l u e =
    let v = merged-Sound expire_of now required fetched first s u in
    (ground (arith, v.free l e), ground (arith, v.free l e))

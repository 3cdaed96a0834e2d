-- ===== src/Task/Proxy/Cooldown.antt =====
-- What the address sets hold, and when an address cools down.
use fuck_wjx.Common.{
  ℕ, ◌+◌, ◌≤◌, ◌<◌, ◌≡◌, refl, ◌↔◌, inl, inr, Bool, true, false, not, ◌&&◌, ◌||◌, List, [], ◌∷◌,
  Option, none, some, arith, if◌then◌else◌, leb, ltb, max, Bool-cases,
}
use fuck_wjx.Common.Text.{Text, strip, is_empty, text_eq, text_eq_iff}
use fuck_wjx.Common.Dict.{
  lookup, erase, unique, text_key_eq, lookup-erase, lookup-insert, has-lookup, unique-insert,
}
use fuck_wjx.Common.Sets.{member, member-nil, member-cons, member-add}
use fuck_wjx.Task.Proxy.Defs.{
  Proxies, ProxyLease, expired_addresses, erase_all, purge_expired, until_of, is_in_cooldown_locked,
  mark_in_cooldown_locked, active_from, active_addresses, stripped_set, successful_addresses,
  add_all, blocked_addresses,
}

abbrev pub passed : ℕ → Option ℕ → Bool
passed now none = false
passed now (some t) = leb t now

expired-member :
    (now : ℕ) (a : Text) (d : List (Text × ℕ))
    → unique d ≡ true
    → member a (expired_addresses now d) ≡ passed now (lookup a d)
unfolding expired_addresses lookup unique
expired-member now a [] u = ground (arith, member-nil a)
expired-member now a ((b, t) ∷ d) u = ground (
  arith,
  text_eq_iff b a,
  member-cons a b (expired_addresses now d),
  has-lookup a d,
  expired-member now a d,
)

erase_all-lookup :
    (bs : List Text) (a : Text) (d : List (Text × ℕ))
    → lookup a (erase_all bs d) ≡ (if member a bs then none else lookup a d)
unfolding erase_all
erase_all-lookup [] a d = ground (arith, member-nil a)
erase_all-lookup (b ∷ bs) a d =
    ground (arith, member-cons a b bs, lookup-erase b a d, erase_all-lookup bs a (erase b d))

-- A purge drops exactly the cooldowns that have passed.
pub purge-lookup :
    (now : ℕ) (a : Text) (p : Proxies)
    → unique p.cooldown_until ≡ true
    → lookup a (purge_expired now p).cooldown_until
      ≡ (if passed now (lookup a p.cooldown_until) then none else lookup a p.cooldown_until)
unfolding purge_expired
purge-lookup now a p u = ground (
  arith,
  erase_all-lookup (expired_addresses now p.cooldown_until) a p.cooldown_until,
  expired-member now a p.cooldown_until u,
)

-- An address is in cooldown at a time exactly when it has been put there until later, and the check
-- of one address forgets exactly the cooldowns, of any address, that have passed. (The address is
-- not blank, and the cooldowns are kept under different addresses.)
pub is_in_cooldown-exact :
    (a other : Text) (now : ℕ) (p : Proxies)
    → unique p.cooldown_until ≡ true
    → is_empty (strip a) ≡ false
    → ((is_in_cooldown_locked a now p).1 ≡ ltb now (until_of (lookup (strip a) p.cooldown_until)))
      × (lookup other (is_in_cooldown_locked a now p).0.cooldown_until ≡ (
          if passed now (lookup other p.cooldown_until)
          then none
          else lookup other p.cooldown_until))
unfolding is_in_cooldown_locked
is_in_cooldown-exact a other now p u filled =
    (ground (arith, purge-lookup now (strip a) p u), ground (arith, purge-lookup now other p u))

marked-unique :
    (b : Text) (start seconds : ℕ) (p : Proxies)
    → unique p.cooldown_until ≡ true
    → unique (mark_in_cooldown_locked b start seconds p).cooldown_until ≡ true
unfolding mark_in_cooldown_locked
marked-unique b start seconds p u = unique-insert b _ p.cooldown_until u

marked-lookup :
    (b : Text) (start seconds : ℕ) (p : Proxies)
    → lookup b (mark_in_cooldown_locked b start seconds p).cooldown_until
      ≡ some (max (until_of (lookup b p.cooldown_until)) (start + seconds))
unfolding mark_in_cooldown_locked
marked-lookup b start seconds p = ground (
  arith,
  text_eq_iff b b,
  lookup-insert b b (max (until_of (lookup b p.cooldown_until)) (start + seconds)) p.cooldown_until,
)

-- After an address is put into cooldown for some seconds it stays there until then at least, and a
-- shorter cooldown never cuts a longer one. (The address is not blank, and the cooldowns are kept
-- under different addresses.)
pub mark-in_cooldown :
    (a : Text) (start seconds now : ℕ) (p : Proxies)
    → unique p.cooldown_until ≡ true
    → is_empty (strip a) ≡ false
    → (is_in_cooldown_locked a now (mark_in_cooldown_locked (strip a) start seconds p)).1
      ≡ (ltb now (start + seconds) || ltb now (until_of (lookup (strip a) p.cooldown_until)))
mark-in_cooldown a start seconds now p u filled =
    let marked = mark_in_cooldown_locked (strip a) start seconds p in
    ground (
      arith,
      (is_in_cooldown-exact a a now marked (marked-unique (strip a) start seconds p u) filled).0,
      marked-lookup (strip a) start seconds p,
    )

-- Whether a worker, other than the excluded one, holds a lease on this address.
abbrev pub holds : Text → Text → List (Text × ProxyLease) → Bool
holds excluded a [] = false
holds excluded a ((thread_name, lease) ∷ rest) =
    (not (not (is_empty excluded) && text_eq (strip thread_name) excluded)
      && not (is_empty (strip lease.address))
      && text_eq (strip lease.address) a)
    || holds excluded a rest

active_from-member :
    (excluded a : Text) (d : List (Text × ProxyLease)) (acc : List Text)
    → member a (active_from excluded d acc) ≡ (holds excluded a d || member a acc)
unfolding active_from
active_from-member excluded a [] acc = refl
active_from-member excluded a ((k, lease) ∷ d) acc =
    let address = strip lease.address in
    ground (
      arith,
      member-add address a acc,
      active_from-member excluded a d acc,
      active_from-member excluded a d (fuck_wjx.Common.Sets.add address acc),
    )

-- Whether an address was used with success.
abbrev pub listed : Text → List Text → Bool
listed a [] = false
listed a (b ∷ bs) = (not (is_empty (strip b)) && text_eq (strip b) a) || listed a bs

stripped-member :
    (a : Text) (bs acc : List Text) → member a (stripped_set bs acc) ≡ (listed a bs || member a acc)
unfolding stripped_set
stripped-member a [] acc = refl
stripped-member a (b ∷ bs) acc = ground (
  arith,
  member-add (strip b) a acc,
  stripped-member a bs acc,
  stripped-member a bs (fuck_wjx.Common.Sets.add (strip b) acc),
)

add_all-member :
    (a : Text) (bs acc : List Text) → member a (add_all bs acc) ≡ (member a bs || member a acc)
unfolding add_all
add_all-member a [] acc = ground (arith, member-nil a)
add_all-member a (b ∷ bs) acc = ground (
  arith,
  member-cons a b bs,
  member-add b a acc,
  add_all-member a bs (fuck_wjx.Common.Sets.add b acc),
)

-- An address is blocked exactly when another worker holds it or it was used with success.
pub blocked-exact :
    (excluded a : Text) (p : Proxies)
    → member a (blocked_addresses excluded p)
      ≡ (holds (strip excluded) a p.in_use || listed a p.successful)
unfolding blocked_addresses active_addresses successful_addresses
blocked-exact excluded a p = ground (
  arith,
  member-nil a,
  add_all-member a (stripped_set p.successful []) (active_from (strip excluded) p.in_use []),
  stripped-member a p.successful [],
  active_from-member (strip excluded) a p.in_use [],
)

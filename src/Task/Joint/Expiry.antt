-- ===== src/Task/Joint/Expiry.antt =====
-- Which reservations expire.
use fuck_wjx.Common.{
  ℕ, ◌+◌, ◌<◌, ◌≡◌, Bool, true, false, not, ◌&&◌, List, [], ◌∷◌, Option, none, some, arith,
  if◌then◌else◌, leb,
}
use fuck_wjx.Common.Text.{Text, text_eq_iff, text_eq}
use fuck_wjx.Common.Dict.{lookup, erase, has, unique, text_key_eq, lookup-erase, has-lookup}
use fuck_wjx.Common.Sets.{member, member-nil, member-cons}
use fuck_wjx.Task.Joint.Defs.{Joint, stamp, scan, drop_slot, drop_slots, expire_locked}

-- A lease taken at this time is over.
abbrev pub is_old : ℕ → ℕ → Option ℕ → Bool
is_old now max_age none = false
is_old now max_age (some reserved_at) = leb (stamp reserved_at now + max_age) now

-- A worker's lease has expired: it has not begun to answer, it holds a slot, and took it
-- `max_age` or longer ago.
abbrev pub has_expired : ℕ → ℕ → Text → Joint → Bool
has_expired now max_age key j =
    not (member key j.answering)
    && has key j.reserved
    && is_old now max_age (lookup key j.started_at)

scan-member :
    (now max_age : ℕ) (j : Joint) (key : Text) (items started : List (Text × ℕ))
    → unique items ≡ true
    → member key (scan now max_age j items started).1 ≡ (
        not (member key j.answering) && has key j.reserved && is_old now max_age (lookup key items))
unfolding scan lookup unique
scan-member now max_age j key [] started u = ground (arith, member-nil key)
scan-member now max_age j key ((k, at) ∷ items) started u =
    let started' =
      if not (member k j.answering) && not (has k j.reserved) then erase k started else started in
    ground (
      arith,
      text_eq_iff k key,
      member-cons key k (scan now max_age j items started').1,
      has-lookup key items,
      scan-member now max_age j key items started',
    )

drop_slot-lookup :
    (k key : Text) (j : Joint)
    → lookup key (drop_slot k j).reserved ≡ (if text_eq k key then none else lookup key j.reserved)
unfolding drop_slot
drop_slot-lookup k key j = lookup-erase k key j.reserved

drop_slots-lookup :
    (keys : List Text) (key : Text) (j : Joint)
    → lookup key (drop_slots keys j).reserved
      ≡ (if member key keys then none else lookup key j.reserved)
unfolding drop_slots
drop_slots-lookup [] key j = ground (arith, member-nil key)
drop_slots-lookup (k ∷ keys) key j = ground (
  arith,
  member-cons key k keys,
  drop_slot-lookup k key j,
  drop_slots-lookup keys key (drop_slot k j),
)

-- Expiry takes a slot away from exactly the workers whose lease is over and that have not begun to
-- answer; every other worker keeps what it held. (The maximal age is positive, and the start times
-- are kept under different keys.)
pub expire-lookup :
    (now max_age : ℕ) (key : Text) (j : Joint)
    → 0 < max_age
    → unique j.started_at ≡ true
    → lookup key (expire_locked now max_age j).0.reserved
      ≡ (if has_expired now max_age key j then none else lookup key j.reserved)
unfolding expire_locked
expire-lookup now max_age key j pos u =
    let (started', expired) = scan now max_age j j.started_at j.started_at in
    ground (
      arith,
      drop_slots-lookup expired key (record j { started_at = started' }),
      scan-member now max_age j key j.started_at j.started_at u,
    )

-- ===== src/Task/Joint/Defs.antt =====
-- A slot is reserved by a worker, given back, left to expire or committed. Times are natural
-- numbers of clock ticks.
use fuck_wjx.Common.{
  ℕ, ◌+◌, Bool, true, false, not, ◌&&◌, ◌||◌, List, [], ◌∷◌, Option, none, some, if◌then◌else◌,
  ◌==◌, leb, length, range,
}
use fuck_wjx.Common.Text.{Text}
use fuck_wjx.Common.Dict.{lookup, insert, erase, has, values, text_key_eq}
use fuck_wjx.Common.Sets.{member, add, discard}
use fuck_wjx.Common.Member.{elem, set_add}

pub record Joint : Type 0 where
  pub reserved : List (Text × ℕ)
  pub started_at : List (Text × ℕ)
  pub committed : List ℕ
  pub answering : List Text

abbrev pub empty : Joint
empty = record { reserved = []; started_at = []; committed = []; answering = [] }

-- The first index of the list that is neither reserved nor committed.
unfoldable pub first_free : List ℕ → List ℕ → List ℕ → Option ℕ
unfolding elem
first_free reserved_values committed [] = none
first_free reserved_values committed (i ∷ rest) =
    elim (elem i reserved_values || elem i committed) [
      | true ↦ first_free reserved_values committed rest
      | false ↦ some i
    ]

unfoldable pub reserve_locked : ℕ → ℕ → Text → Joint → Joint × Option ℕ
unfolding lookup insert first_free
reserve_locked total now key j = if leb total 0 then (j, none) else elim (lookup key j.reserved) [
  | some index ↦ (j, some index)
  | none ↦ elim (first_free (values j.reserved) j.committed (range total)) [
    | none ↦ (j, none)
    | some index ↦ (
      record j { reserved = insert key index j.reserved; started_at = insert key now j.started_at },
      some index,
    )
  ]
]

unfoldable pub peek_locked : Text → Joint → Option ℕ
unfolding lookup
peek_locked key j = lookup key j.reserved

unfoldable pub mark_answering_locked : Text → Joint → Joint × Bool
unfolding has add
mark_answering_locked key j =
    if has key j.reserved then (record j { answering = add key j.answering }, true) else (j, false)

-- `float(reserved_at or now)`
abbrev pub stamp : ℕ → ℕ → ℕ
stamp reserved_at now = if reserved_at == 0 then now else reserved_at

-- The scan over the reservations: the start times that are left, and the keys that expired.
unfoldable pub scan :
    ℕ → ℕ → Joint → List (Text × ℕ) → List (Text × ℕ) → List (Text × ℕ) × List Text
unfolding member has erase
scan now max_age j [] started = (started, [])
scan now max_age j ((key, reserved_at) ∷ items) started =
    let idle = not (member key j.answering) in
    let orphan = idle && not (has key j.reserved) in
    let old = idle && has key j.reserved && leb (stamp reserved_at now + max_age) now in
    let (started', expired) =
      scan now max_age j items (if orphan then erase key started else started) in
    (started', if old then key ∷ expired else expired)

unfoldable pub drop_slot : Text → Joint → Joint
unfolding erase discard
drop_slot key j = record {
  reserved = erase key j.reserved;
  started_at = erase key j.started_at;
  committed = j.committed;
  answering = discard key j.answering;
}

unfoldable pub drop_slots : List Text → Joint → Joint
unfolding drop_slot
drop_slots [] j = j
drop_slots (key ∷ keys) j = drop_slots keys (drop_slot key j)

-- The keys of the slots that were given up.
unfoldable pub expire_locked : ℕ → ℕ → Joint → Joint × List Text
unfolding scan drop_slots
expire_locked now max_age j =
    if leb max_age 0
    then (j, [])
    else let (started', expired) = scan now max_age j j.started_at j.started_at in
      (drop_slots expired (record j { started_at = started' }), expired)

unfoldable pub quota_exhausted : ℕ → Joint → Bool
quota_exhausted total j = if leb total 0 then false else leb total (length j.committed)

unfoldable pub release_locked : Text → Joint → Joint × Option ℕ
unfolding drop_slot lookup
release_locked key j = (drop_slot key j, lookup key j.reserved)

unfoldable pub commit_locked : Text → Joint → Joint × Option ℕ
unfolding drop_slot lookup set_add
commit_locked key j =
    let dropped = drop_slot key j in
    elim (lookup key j.reserved) [
      | none ↦ (dropped, none)
      | some index ↦ (record dropped { committed = set_add index dropped.committed }, some index)
    ]

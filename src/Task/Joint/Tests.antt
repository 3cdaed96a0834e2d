-- ===== src/Task/Joint/Tests.antt =====
-- Three slots and two workers.
use fuck_wjx.Common.{ℕ, ◌≡◌, refl, false, List, [], ◌∷◌, some, none, arith, if◌then◌else◌}
use fuck_wjx.Common.Text.{Text, codes, text_eq}
use fuck_wjx.Common.Dict.{lookup, unique, text_key_eq}
use fuck_wjx.Common.Member.{elem}
use fuck_wjx.Task.Joint.Defs.{Joint, empty, reserve_locked, expire_locked}
use fuck_wjx.Task.Joint.Slots.{Op, reserve, commit, run, run-slot_inj, reserve-succeeds}
use fuck_wjx.Task.Joint.Expiry.{has_expired, expire-lookup}

abbrev worker_a : Text
worker_a = codes "Slot-1"

abbrev worker_b : Text
worker_b = codes "Slot-2"

-- Slot 0 is committed and slot 1 is held.
abbrev history : List Op
history = reserve 3 10 worker_a ∷ commit worker_a ∷ reserve 3 20 worker_a ∷ []

abbrev later : Joint
later = run history empty

run-slot_inj_example : (worker_a ≡ worker_a) × (elem 1 later.committed ≡ false)
unfolding run lookup text_eq
run-slot_inj_example = run-slot_inj history 1 worker_a worker_a refl refl

reserve-succeeds_example : (i : ℕ) × ((reserve_locked 3 30 worker_b later).1 ≡ some i)
unfolding run text_eq
reserve-succeeds_example = reserve-succeeds 3 30 worker_b later (omega arith)

expire-lookup_example :
    lookup worker_a (expire_locked 50 30 later).0.reserved
    ≡ (if has_expired 50 30 worker_a later then none else lookup worker_a later.reserved)
unfolding run unique text_eq
expire-lookup_example = expire-lookup 50 30 worker_a later (omega arith) refl

-- The slot taken at 20 is free again at 50.
expired_example : lookup worker_a (expire_locked 50 30 later).0.reserved ≡ none
unfolding run lookup expire_locked text_eq
expired_example = refl

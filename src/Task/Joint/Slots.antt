-- ===== src/Task/Joint/Slots.antt =====
-- Who holds which slot: a slot is reserved by one worker at most, and never after it is committed.
use fuck_wjx.Common.{
  ℕ, zero, suc, ◌+◌, ◌≤◌, ◌<◌, ◌≡◌, refl, inl, inr, true, false, ◌||◌, List, [], ◌∷◌, ◌++◌, none,
  some, arith, ==_iff, leb, Bool-cases, Option-cases, count, length, range, range_from,
  length-append, length-range_from,
}
use fuck_wjx.Common.Text.{Text}
use fuck_wjx.Common.Dict.{
  lookup, unique, values, text_key_eq, unique-insert, unique-erase, count-values-insert,
  count-values-erase, lookup-absent, erase_absent, count-one-key, lookup-count, length-values,
}
use fuck_wjx.Common.Member.{
  elem, elem-append, elem-range_from, distinct-range_from, elem-count, not-elem-count,
  count-set_add, length-le_of_subset,
}
use fuck_wjx.Task.Joint.Defs.{
  Joint, empty, first_free, reserve_locked, mark_answering_locked, scan, drop_slot, drop_slots,
  expire_locked, release_locked, commit_locked,
}

-- How often a slot is reserved or committed.
abbrev pub tally : ℕ → Joint → ℕ
tally a j = count a (values j.reserved) + count a j.committed

pub record Inv (j : Joint) : Type 0 where
  pub once : (a : ℕ) → tally a j ≤ 1
  pub keys : unique j.reserved ≡ true

pub data Op : Type 0 where
  reserve : (total now : ℕ) (key : Text) → Op
  mark : (key : Text) → Op
  expire : (now max_age : ℕ) → Op
  release : (key : Text) → Op
  commit : (key : Text) → Op

unfoldable pub step : Op → Joint → Joint
unfolding reserve_locked mark_answering_locked expire_locked release_locked commit_locked
step (reserve total now key) j = (reserve_locked total now key j).0
step (mark key) j = (mark_answering_locked key j).0
step (expire now max_age) j = (expire_locked now max_age j).0
step (release key) j = (release_locked key j).0
step (commit key) j = (commit_locked key j).0

unfoldable pub run : List Op → Joint → Joint
unfolding step
run [] j = j
run (op ∷ ops) j = run ops (step op j)

first_free-free :
    (vs cs xs : List ℕ) (i : ℕ)
    → first_free vs cs xs ≡ some i
    → (elem i xs ≡ true) × (elem i vs ≡ false) × (elem i cs ≡ false)
unfolding elem first_free
first_free-free vs cs [] i e = ground arith
first_free-free vs cs (x ∷ xs) i e = ground (arith, ==_iff i x, first_free-free vs cs xs i)

first_free-none :
    (vs cs xs : List ℕ) (i : ℕ)
    → first_free vs cs xs ≡ none
    → elem i xs ≡ true
    → (elem i vs || elem i cs) ≡ true
unfolding elem first_free
first_free-none vs cs [] i e h = ground arith
first_free-none vs cs (x ∷ xs) i e h = ground (arith, ==_iff i x, first_free-none vs cs xs i)

first_free-least :
    (vs cs : List ℕ) (a n i k : ℕ)
    → first_free vs cs (range_from a n) ≡ some i
    → a ≤ k
    → k < i
    → (elem k vs || elem k cs) ≡ true
unfolding first_free
first_free-least vs cs a zero i k e le lt = ground arith
first_free-least vs cs a (suc n) i k e le lt =
    ground (arith, ==_iff a k, first_free-least vs cs (suc a) n i k)

-- Giving up a slot only takes its value away.
drop-tally :
    (key : Text) (j : Joint) (a : ℕ)
    → unique j.reserved ≡ true
    → tally a (drop_slot key j) ≤ tally a j
unfolding drop_slot
drop-tally key j a u = elim (Option-cases (lookup key j.reserved)) [
  | inl e ↦ ground (arith, erase_absent key j.reserved (lookup-absent key j.reserved e))
  | inr (i, e) ↦ ground (arith, count-values-erase a key i j.reserved u e)
]

drop-Inv : (key : Text) (j : Joint) → Inv j → Inv (drop_slot key j)
unfolding drop_slot
drop-Inv key j v = record {
  once = λ a. omega (arith, drop-tally key j a v.keys, v.once a);
  keys = unique-erase key j.reserved v.keys;
}

drops-Inv : (keys : List Text) (j : Joint) → Inv j → Inv (drop_slots keys j)
unfolding drop_slots
drops-Inv [] j v = v
drops-Inv (key ∷ keys) j v = drops-Inv keys (drop_slot key j) (drop-Inv key j v)

expire-Inv : (now max_age : ℕ) (j : Joint) → Inv j → Inv (expire_locked now max_age j).0
unfolding expire_locked
expire-Inv now max_age j v =
    let (started', expired) = scan now max_age j j.started_at j.started_at in
    let dropped =
      drops-Inv expired (record j { started_at = started' })
        (record { once = v.once; keys = v.keys }) in
    elim (Bool-cases (leb max_age 0)) [ inl e ↦ rw e v | inr e ↦ rw e dropped ]

reserve-Inv :
    (total now : ℕ) (key : Text) (j : Joint) → Inv j → Inv (reserve_locked total now key j).0
unfolding reserve_locked
reserve-Inv total now key j v = elim (Option-cases (lookup key j.reserved)) [
  | inr (i, e) ↦ record { once = λ a. ground (arith, e, v.once a); keys = ground (arith, e) }
  | inl e ↦ elim (Option-cases (first_free (values j.reserved) j.committed (range total))) [
    | inl f ↦ record { once = λ a. ground (arith, e, f, v.once a); keys = ground (arith, e, f) }
    | inr (i, f) ↦ record {
      once = λ a. ground (
        arith,
        e,
        f,
        v.once a,
        ==_iff a i,
        first_free-free (values j.reserved) j.committed (range total) i f,
        not-elem-count i (values j.reserved),
        not-elem-count i j.committed,
        count-values-insert a key i j.reserved (lookup-absent key j.reserved e),
      );
      keys = ground (arith, e, f, unique-insert key i j.reserved v.keys);
    }
  ]
]

commit-Inv : (key : Text) (j : Joint) → Inv j → Inv (commit_locked key j).0
unfolding commit_locked
commit-Inv key j v = elim (Option-cases (lookup key j.reserved)) [
  | inl e ↦ rw (e, commit_locked) (drop-Inv key j v)
  | inr (i, e) ↦ record {
    once = λ a.
        unfold drop_slot in
        ground (
          arith,
          e,
          v.once a,
          v.once i,
          ==_iff a i,
          ==_iff i i,
          count-values-erase a key i j.reserved v.keys e,
          count-values-erase i key i j.reserved v.keys e,
          count-set_add a i j.committed,
        );
    keys = ground (arith, e, unique-erase key j.reserved v.keys);
  }
]

mark-Inv : (key : Text) (j : Joint) → Inv j → Inv (mark_answering_locked key j).0
unfolding mark_answering_locked
mark-Inv key j v = record { once = λ a. ground (arith, v.once a); keys = ground arith }

-- Every call keeps each slot with one worker at most, and the committed slots apart.
step-Inv : (op : Op) (j : Joint) → Inv j → Inv (step op j)
unfolding step release_locked
step-Inv (reserve total now key) j v = reserve-Inv total now key j v
step-Inv (mark key) j v = mark-Inv key j v
step-Inv (expire now max_age) j v = expire-Inv now max_age j v
step-Inv (release key) j v = drop-Inv key j v
step-Inv (commit key) j v = commit-Inv key j v

pub run-Inv : (ops : List Op) (j : Joint) → Inv j → Inv (run ops j)
unfolding run
run-Inv [] j v = v
run-Inv (op ∷ ops) j v = run-Inv ops (step op j) (step-Inv op j v)

pub empty-Inv : Inv empty
unfolding unique
empty-Inv = record { once = λ a. omega arith; keys = refl }

-- After any history, two workers that hold the same slot are one, and the slot is not among the
-- committed ones.
pub run-slot_inj :
    (ops : List Op) (i : ℕ) (key other : Text)
    → lookup key (run ops empty).reserved ≡ some i
    → lookup other (run ops empty).reserved ≡ some i
    → (key ≡ other) × (elem i (run ops empty).committed ≡ false)
run-slot_inj ops i key other e f =
    let j = run ops empty in
    let v = run-Inv ops empty empty-Inv in
    (
      count-one-key key other i j.reserved (omega (arith, v.once i)) e f,
      ground (arith, v.once i, lookup-count key i j.reserved e, elem-count i j.committed),
    )

-- A worker without a slot gets the least index below the total that is neither reserved nor
-- committed, and none only if every index is taken. (The total is positive.)
reserve-least :
    (total now : ℕ) (key : Text) (j : Joint) (k : ℕ)
    → 0 < total
    → lookup key j.reserved ≡ none
    → k < total
    → (elem k (values j.reserved) || elem k j.committed) ≡ false
    → (i : ℕ) × ((reserve_locked total now key j).1 ≡ some i)
      × (i ≤ k)
      × ((elem i (values j.reserved) || elem i j.committed) ≡ false)
unfolding reserve_locked
reserve-least total now key j k pos e lt free =
    elim (Option-cases (first_free (values j.reserved) j.committed (range total))) [
      | inl f ↦ absurd (
          ground (
            arith,
            elem-range_from k 0 total,
            first_free-none (values j.reserved) j.committed (range total) k f,
          ))
      | inr (i, f) ↦ (
        i,
        ground (arith, e, f),
        ground (arith, first_free-least (values j.reserved) j.committed 0 total i k f),
        ground (arith, first_free-free (values j.reserved) j.committed (range total) i f),
      )
    ]

-- As long as fewer slots are reserved and committed than there are, a worker gets one.
pub reserve-succeeds :
    (total now : ℕ) (key : Text) (j : Joint)
    → length j.reserved + length j.committed < total
    → (i : ℕ) × ((reserve_locked total now key j).1 ≡ some i)
unfolding reserve_locked
reserve-succeeds total now key j h = elim (Option-cases (lookup key j.reserved)) [
  | inr (i, e) ↦ (i, ground (arith, e))
  | inl e ↦ elim (Option-cases (first_free (values j.reserved) j.committed (range total))) [
    | inr (i, f) ↦ (i, ground (arith, e, f))
    | inl f ↦ absurd (
        omega (
          arith,
          length-range_from 0 total,
          length-append (values j.reserved) j.committed,
          length-values j.reserved,
          length-le_of_subset (range total) (values j.reserved ++ j.committed)
              (distinct-range_from 0 total)
              (λ x m. ground (
                arith,
                elem-append x (values j.reserved) j.committed,
                first_free-none (values j.reserved) j.committed (range total) x f,
              )),
        ))
  ]
]

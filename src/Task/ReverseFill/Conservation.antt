-- ===== src/Task/ReverseFill/Conservation.antt =====
-- Where the rows are: in the queue, with a worker, committed or discarded. The operations move
-- rows between these places.
use fuck_wjx.Common.{
  ℕ, ◌+◌, ◌≤◌, ◌≡◌, refl, inl, inr, true, false, List, [], ◌∷◌, none, some, arith, ==_iff,
  Option-cases, count,
}
use fuck_wjx.Common.Text.{Text}
use fuck_wjx.Common.Dict.{
  lookup, has, unique, values, nat_eq, text_key_eq, count-values-insert, count-values-erase,
  lookup-count, lookup-absent,
}
use fuck_wjx.Common.Member.{elem, elem-count, count-set_add}
use fuck_wjx.Task.ReverseFill.Defs.{
  Runtime, pop_queued, take_row, acquire_locked, release_locked, commit_locked, fail_locked,
}

-- How often a row stands in the four places together.
abbrev pub tally : ℕ → Runtime → ℕ
tally a rt =
    count a rt.queued + count a (values rt.reserved) + count a rt.committed + count a rt.discarded

-- Each row stands in one place at most, each worker holds one row, and the rows that can still be
-- handed out have a sample.
pub record Inv (rt : Runtime) : Type 0 where
  pub once : (a : ℕ) → tally a rt ≤ 1
  pub keys : unique rt.reserved ≡ true
  pub known :
      (a : ℕ)
      → 1 ≤ count a rt.queued + count a (values rt.reserved)
      → has a rt.samples_by_row ≡ true

pub data Op : Type 0 where
  acquire : (cur_num target_num : ℕ) (key : Text) → Op
  release : (key : Text) → Op
  commit : (key : Text) → Op
  fail : (key : Text) (max_retries : ℕ) → Op

-- One call of a worker; `release` is the call with `requeue=True`.
unfoldable pub step : Op → Runtime → Runtime
unfolding acquire_locked release_locked commit_locked fail_locked
step (acquire cur_num target_num key) rt = (acquire_locked cur_num target_num key rt).0
step (release key) rt = (release_locked key true rt).0
step (commit key) rt = (commit_locked key rt).0
step (fail key max_retries) rt = (fail_locked key max_retries rt).0

unfoldable pub run : List Op → Runtime → Runtime
unfolding step
run [] rt = rt
run (op ∷ ops) rt = run ops (step op rt)

module _ (rt : Runtime) (key : Text) (v : Inv rt) where
  -- A reserved row is in no other place.
  reserved_apart :
      (row : ℕ)
      → lookup key rt.reserved ≡ some row
      → (count row rt.committed ≤ 0) × (count row rt.discarded ≤ 0)
  reserved_apart row e =
      ground
        (arith, v.once row, ==_iff row row, count-values-erase row key row rt.reserved v.keys e)

  pub reserved_elsewhere :
      (row : ℕ)
      → lookup key rt.reserved ≡ some row
      → (elem row rt.committed ≡ false) × (elem row rt.discarded ≡ false)
  reserved_elsewhere row e =
      ground (arith, reserved_apart row e, elem-count row rt.committed, elem-count row rt.discarded)

  release-tally : (a : ℕ) → tally a (release_locked key true rt).0 ≡ tally a rt
  unfolding release_locked
  release-tally a = elim (Option-cases (lookup key rt.reserved)) [
    | inl e ↦ ground (arith, e)
    | inr (row, e) ↦
        ground
          (arith, e, reserved_elsewhere row e, count-values-erase a key row rt.reserved v.keys e)
  ]

  commit-tally : (a : ℕ) → tally a (commit_locked key rt).0 ≡ tally a rt
  unfolding commit_locked
  commit-tally a = elim (Option-cases (lookup key rt.reserved)) [
    | inl e ↦ ground (arith, e)
    | inr (row, e) ↦ ground (
      arith,
      e,
      count-set_add a row rt.committed (reserved_apart row e).0,
      count-values-erase a key row rt.reserved v.keys e,
    )
  ]

  fail-tally : (max_retries a : ℕ) → tally a (fail_locked key max_retries rt).0 ≡ tally a rt
  unfolding fail_locked
  fail-tally max_retries a = elim (Option-cases (lookup key rt.reserved)) [
    | inl e ↦ ground (arith, e)
    | inr (row, e) ↦ ground (
      arith,
      e,
      count-set_add a row rt.discarded (reserved_apart row e).1,
      count-values-erase a key row rt.reserved v.keys e,
    )
  ]

  -- A row whose sample is known is handed to a worker that holds none.
  take_row-tally :
      (queue : List ℕ)
      → rt.queued ≡ queue
      → lookup key rt.reserved ≡ none
      → (cur_num target_num a : ℕ) → tally a (take_row cur_num target_num key rt).0 ≡ tally a rt
  unfolding take_row pop_queued
  take_row-tally [] q e cur target a = ground (arith, q)
  take_row-tally (row ∷ queue) q e cur target a =
      elim (Option-cases (lookup row rt.samples_by_row)) [
        | inl missing ↦
            ground
              (arith, q, ==_iff row row, v.known row, lookup-absent row rt.samples_by_row missing)
        | inr (sample, found) ↦ ground (
          arith,
          q,
          found,
          count-values-insert a key row rt.reserved (lookup-absent key rt.reserved e),
        )
      ]

  acquire-tally :
      (cur_num target_num a : ℕ) → tally a (acquire_locked cur_num target_num key rt).0 ≡ tally a rt
  unfolding acquire_locked
  acquire-tally cur target a = elim (Option-cases (lookup key rt.reserved)) [
    | inl e ↦ ground (arith, e, take_row-tally rt.queued refl e cur target a)
    | inr (row, e) ↦ elim (Option-cases (lookup row rt.samples_by_row)) [
      | inl missing ↦ ground (
        arith,
        v.known row,
        lookup-absent row rt.samples_by_row missing,
        lookup-count key row rt.reserved e,
      )
      | inr (sample, found) ↦ ground (arith, e, found)
    ]
  ]

-- No operation loses a row or makes a copy of one.
pub step-tally : (op : Op) (rt : Runtime) → Inv rt → (a : ℕ) → tally a (step op rt) ≡ tally a rt
unfolding step
step-tally (acquire cur target key) rt v a = acquire-tally rt key v cur target a
step-tally (release key) rt v a = release-tally rt key v a
step-tally (commit key) rt v a = commit-tally rt key v a
step-tally (fail key max_retries) rt v a = fail-tally rt key v max_retries a

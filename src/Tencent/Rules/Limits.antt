-- ===== src/Tencent/Rules/Limits.antt =====
-- What the selection that `apply_multiple_constraints` returns promises.
use fuck_wjx.Common.{
  ℕ, zero, suc, ◌≤◌, ◌<◌, ◌≡◌, refl, true, false, ◌&&◌, List, [], ◌∷◌, ◌++◌, map, arith, ltb, leb,
  length, take, range, ℤ, pos,
}
use fuck_wjx.Common.Member.{elem, distinct, elem-append, elem-range_from, length-le_of_subset}
use fuck_wjx.Common.Sorted.{increasing, increasing-distinct}
use fuck_wjx.Tencent.Rules.Normal.{
  normalize_selected_indices, mentions, elem-normalize, increasing-normalize,
}
use fuck_wjx.Tencent.Rules.Steps.{trim, fill, cut, clamp_limit, merged, apply_multiple_constraints}
use fuck_wjx.Tencent.Rules.StepLaws.{
  length-normalize, elem-normal, elem-merged, increasing-merged, length-trim, increasing-trim,
  elem-trim, trim-elem,
}
use fuck_wjx.Tencent.Rules.FillLaws.{
  fill-elem, elem-fill, length-fill, distinct-fill, fill_short, length-cut, elem-cut, cut_fits,
}

pub take_all : (n : ℕ) (xs : List ℕ) → length xs ≤ n → take n xs ≡ xs
take_all zero [] h = refl
take_all zero (x ∷ xs) h = absurd (omega arith)
take_all (suc n) [] h = refl
take_all (suc n) (x ∷ xs) h = ground (arith, take_all n xs)

module _ (selected : List ℤ) (count min_required max_allowed : ℕ) (required blocked : List ℤ)
    (priority : List ℕ) where
  abbrev lower : ℕ
  lower = clamp_limit min_required count

  abbrev upper : ℕ
  upper = clamp_limit max_allowed count

  abbrev blocks : List ℕ
  blocks = normalize_selected_indices blocked count

  abbrev requires : List ℕ
  requires = normalize_selected_indices required count

  abbrev start : List ℕ
  start = merged selected count required blocked

  abbrev trimmed : List ℕ
  trimmed = trim count upper requires start

  abbrev filled : List ℕ
  filled = fill lower blocks (priority ++ range count) trimmed

  abbrev result : List ℕ
  result =
      apply_multiple_constraints selected count min_required max_allowed required blocked priority

  elem-result : (x : ℕ) → elem x result ≡ (elem x (cut upper filled) && ltb x count)
  unfolding apply_multiple_constraints
  elem-result x = elem-normal x (cut upper filled) count

  length-result : length result ≤ length (cut upper filled)
  unfolding apply_multiple_constraints
  length-result = length-normalize (cut upper filled) count

  increasing-result : increasing result ≡ true
  unfolding apply_multiple_constraints
  increasing-result = increasing-normalize count (map pos (cut upper filled))

  elem-trimmed : (x : ℕ) → elem x trimmed ≡ true → elem x start ≡ true
  elem-trimmed x = elem-trim count upper requires start x (λ r.
      ground
        (arith, elem-normalize x count required, elem-merged x selected count required blocked))

  distinct-trimmed : distinct trimmed ≡ true
  distinct-trimmed = increasing-distinct trimmed (
      increasing-trim count upper requires start
        (increasing-merged selected count required blocked))

  trimmed-requires :
      (x : ℕ)
      → length requires ≤ upper
      → mentions x required ≡ true
      → x < count
      → elem x trimmed ≡ true
  trimmed-requires x fits r lt =
      trim-elem count upper requires start x lt
        (ground (arith, take_all upper requires fits, elem-normalize x count required))
        (ground (arith, elem-merged x selected count required blocked))

  length-filled : lower ≤ upper → length filled ≤ upper
  length-filled h =
      length-fill lower blocks (priority ++ range count) trimmed upper h
        (length-trim count upper requires start)

  filled_below :
      ((y : ℕ) → elem y priority ≡ true → y < count) → (x : ℕ) → elem x filled ≡ true → x < count
  filled_below inside x h = ground (
    arith,
    elem-fill lower blocks (priority ++ range count) trimmed x h,
    elem-append x priority (range count),
    elem-range_from x 0 count,
    inside x,
    elem-trimmed x,
    elem-merged x selected count required blocked,
  )

  -- The last normalisation drops nothing.
  filled_kept :
      lower ≤ upper → ((y : ℕ) → elem y priority ≡ true → y < count) → length filled ≤ length result
  filled_kept le inside =
      length-le_of_subset filled result
        (distinct-fill lower blocks (priority ++ range count) trimmed distinct-trimmed)
        (λ x h.
          ground (
            arith,
            cut_fits upper filled (length-filled le),
            elem-result x,
            filled_below inside x h,
          ))

-- The returned selection is in increasing order, so without repetition, holds option indices only,
-- and is never longer than the clamped maximum.
pub apply-shape :
    (selected : List ℤ) (count min_required max_allowed : ℕ) (required blocked : List ℤ)
    (priority : List ℕ) (x : ℕ)
    → let result =
        apply_multiple_constraints selected count min_required max_allowed required blocked
          priority in
      (increasing result ≡ true)
      × ((elem x result && leb count x) ≡ false)
      × (length result ≤ clamp_limit max_allowed count)
apply-shape selected count lo hi required blocked priority x = (
  increasing-result selected count lo hi required blocked priority,
  ground (arith, elem-result selected count lo hi required blocked priority x),
  omega (
    arith,
    length-result selected count lo hi required blocked priority,
    length-cut (upper selected count lo hi required blocked priority)
        (filled selected count lo hi required blocked priority),
  ),
)

-- A blocked option is returned only if it is also required.
pub apply-unblocked :
    (selected : List ℤ) (count min_required max_allowed : ℕ) (required blocked : List ℤ)
    (priority : List ℕ) (x : ℕ)
    → elem x (
        apply_multiple_constraints selected count min_required max_allowed required blocked
          priority)
      ≡ true
    → mentions x blocked ≡ true
    → mentions x required ≡ true
apply-unblocked selected count lo hi required blocked priority x h b =
    let trimmed' = trimmed selected count lo hi required blocked priority in
    let filled' = filled selected count lo hi required blocked priority in
    let upper' = upper selected count lo hi required blocked priority in
    let lower' = lower selected count lo hi required blocked priority in
    let blocks' = blocks selected count lo hi required blocked priority in
    ground (
      arith,
      elem-result selected count lo hi required blocked priority x,
      elem-cut upper' filled' x,
      elem-fill lower' blocks' (priority ++ range count) trimmed' x,
      elem-trimmed selected count lo hi required blocked priority x,
      elem-merged x selected count required blocked,
      elem-normalize x count blocked,
    )

-- When the required options fit the maximum and the minimum does not exceed it, every required
-- option of the question is returned.
pub apply-required :
    (selected : List ℤ) (count min_required max_allowed : ℕ) (required blocked : List ℤ)
    (priority : List ℕ) (x : ℕ)
    → length (normalize_selected_indices required count) ≤ clamp_limit max_allowed count
    → clamp_limit min_required count ≤ clamp_limit max_allowed count
    → mentions x required ≡ true
    → x < count
    → elem x (
        apply_multiple_constraints selected count min_required max_allowed required blocked
          priority)
      ≡ true
apply-required selected count lo hi required blocked priority x fits le r lt =
    let trimmed' = trimmed selected count lo hi required blocked priority in
    let filled' = filled selected count lo hi required blocked priority in
    let upper' = upper selected count lo hi required blocked priority in
    let lower' = lower selected count lo hi required blocked priority in
    let blocks' = blocks selected count lo hi required blocked priority in
    ground (
      arith,
      elem-result selected count lo hi required blocked priority x,
      cut_fits upper' filled' (length-filled selected count lo hi required blocked priority le),
      fill-elem lower' blocks' (priority ++ range count) trimmed' x
          (trimmed-requires selected count lo hi required blocked priority x fits r lt),
    )

-- The selection is shorter than the clamped minimum only when no option is left to add: then every
-- option of the question that is not blocked is returned. (The minimum does not exceed the
-- maximum, and the priorities are options of the question.)
apply-short :
    (selected : List ℤ) (count min_required max_allowed : ℕ) (required blocked : List ℤ)
    (priority : List ℕ) (x : ℕ)
    → clamp_limit min_required count ≤ clamp_limit max_allowed count
    → ((y : ℕ) → elem y priority ≡ true → y < count)
    → length (
        apply_multiple_constraints selected count min_required max_allowed required blocked
          priority)
      < clamp_limit min_required count
    → x < count
    → mentions x blocked ≡ false
    → elem x (
        apply_multiple_constraints selected count min_required max_allowed required blocked
          priority)
      ≡ true
apply-short selected count lo hi required blocked priority x le inside short lt free =
    let trimmed' = trimmed selected count lo hi required blocked priority in
    let filled' = filled selected count lo hi required blocked priority in
    let upper' = upper selected count lo hi required blocked priority in
    let lower' = lower selected count lo hi required blocked priority in
    let blocks' = blocks selected count lo hi required blocked priority in
    let whole =
      cut_fits upper' filled' (length-filled selected count lo hi required blocked priority le) in
    ground (
      arith,
      whole,
      filled_kept selected count lo hi required blocked priority le inside,
      elem-result selected count lo hi required blocked priority x,
      fill_short lower' blocks' (priority ++ range count) trimmed' x,
      elem-append x priority (range count),
      elem-range_from x 0 count,
      elem-normalize x count blocked,
    )

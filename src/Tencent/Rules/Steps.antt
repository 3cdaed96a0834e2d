-- ===== src/Tencent/Rules/Steps.antt =====
-- `apply_multiple_constraints` of tencent/provider/answering_rules.py. Python's integers appear as
-- ℤ where the code tests for a negative index; the limits and the priorities are counts and
-- indices that the callers compute, so natural numbers.
use fuck_wjx.Common.{
  ℕ, true, false, not, ◌||◌, List, [], ◌∷◌, ◌++◌, map, if◌then◌else◌, ltb, leb, length, keep, take,
  range, ℤ, pos, min, max,
}
use fuck_wjx.Common.Member.{elem}
use fuck_wjx.Tencent.Rules.Normal.{normalize_selected_indices}

-- `for idx in required: if idx not in selected: selected.append(idx)`
unfoldable pub add_required : List ℕ → List ℕ → List ℕ
unfolding elem
add_required [] selected = selected
add_required (idx ∷ required) selected =
    add_required required (if elem idx selected then selected else selected ++ idx ∷ [])

-- The loop that refills `kept` up to the limit; the test for the limit is `break`.
unfoldable pub keep_upto : ℕ → List ℕ → List ℕ → List ℕ
unfolding elem
keep_upto max_allowed kept [] = kept
keep_upto max_allowed kept (idx ∷ selected) = elim (elem idx kept) [
  | true ↦ keep_upto max_allowed kept selected
  | false ↦ elim (leb max_allowed (length kept)) [
    | true ↦ kept
    | false ↦ keep_upto max_allowed (kept ++ idx ∷ []) selected
  ]
]

unfoldable pub trim : ℕ → ℕ → List ℕ → List ℕ → List ℕ
unfolding keep_upto normalize_selected_indices
trim option_count max_allowed required selected =
    if ltb max_allowed (length selected)
    then normalize_selected_indices
        (map pos (keep_upto max_allowed (take max_allowed required) selected)) option_count
    else selected

-- The loop over the priorities and then all options, which stops once the minimum is met.
unfoldable pub fill_loop : ℕ → List ℕ → List ℕ → List ℕ → List ℕ
unfolding elem
fill_loop min_required blocked selected [] = selected
fill_loop min_required blocked selected (idx ∷ rest) =
    elim (elem idx blocked || elem idx selected) [
      | true ↦ fill_loop min_required blocked selected rest
      | false ↦ elim (leb min_required (length (selected ++ idx ∷ []))) [
        | true ↦ selected ++ idx ∷ []
        | false ↦ fill_loop min_required blocked (selected ++ idx ∷ []) rest
      ]
    ]

unfoldable pub fill : ℕ → List ℕ → List ℕ → List ℕ → List ℕ
unfolding fill_loop
fill min_required blocked candidates selected =
    if ltb (length selected) min_required
    then fill_loop min_required blocked selected candidates
    else selected

unfoldable pub cut : ℕ → List ℕ → List ℕ
cut max_allowed selected =
    if ltb max_allowed (length selected) then take max_allowed selected else selected

-- `max(1, min(limit, option_count))`
abbrev pub clamp_limit : ℕ → ℕ → ℕ
clamp_limit limit option_count = max 1 (min limit option_count)

-- The selection before the limits apply: unblocked choices, and every required one.
unfoldable pub merged : List ℤ → ℕ → List ℤ → List ℤ → List ℕ
unfolding elem normalize_selected_indices add_required
merged selected_indices option_count required_indices blocked_indices =
    let blocked = normalize_selected_indices blocked_indices option_count in
    let selected =
      keep (λ idx. not (elem idx blocked))
        (normalize_selected_indices selected_indices option_count) in
    let required = normalize_selected_indices required_indices option_count in
    normalize_selected_indices (map pos (add_required required selected)) option_count

unfoldable pub apply_multiple_constraints : List ℤ → ℕ → ℕ → ℕ → List ℤ → List ℤ → List ℕ → List ℕ
unfolding merged trim fill cut normalize_selected_indices
apply_multiple_constraints selected_indices option_count min_required max_allowed required_indices
      blocked_indices positive_priority_indices =
    let blocked = normalize_selected_indices blocked_indices option_count in
    let required = normalize_selected_indices required_indices option_count in
    let selected = merged selected_indices option_count required_indices blocked_indices in
    let max_allowed' = clamp_limit max_allowed option_count in
    let min_required' = clamp_limit min_required option_count in
    let trimmed = trim option_count max_allowed' required selected in
    let filled =
      fill min_required' blocked (positive_priority_indices ++ range option_count) trimmed in
    normalize_selected_indices (map pos (cut max_allowed' filled)) option_count

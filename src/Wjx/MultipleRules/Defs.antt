-- ===== src/Wjx/MultipleRules/Defs.antt =====
-- The rules for a multiple-choice question. `random.shuffle` is a parameter for each call of it.
use fuck_wjx.Common.{
  ℕ, ◌-◌, Bool, true, false, not, ◌&&◌, List, [], ◌∷◌, ◌++◌, map, none, some, if◌then◌else◌, ltb,
  length, keep, take, range, ℤ, pos, index_below,
}
use fuck_wjx.Common.Member.{elem}
use fuck_wjx.Common.Sorted.{sort}

-- The indices of options, each the first time it stands in the list.
unfoldable pub first_times : ℕ → List ℤ → List ℕ → List ℕ
unfolding elem
first_times option_count [] seen = []
first_times option_count (z ∷ zs) seen = elim (index_below option_count z) [
  | none ↦ first_times option_count zs seen
  | some i ↦ elim (elem i seen) [
    | true ↦ first_times option_count zs seen
    | false ↦ i ∷ first_times option_count zs (i ∷ seen)
  ]
]

unfoldable pub normalize_selected_indices : List ℤ → ℕ → List ℕ
unfolding first_times
normalize_selected_indices indices option_count = first_times option_count indices []

-- The required options in order, and the blocked ones that are not required.
unfoldable pub resolve_rule_sets : List ℤ → List ℤ → ℕ → List ℕ × List ℕ
unfolding first_times sort elem
resolve_rule_sets must_select must_not_select option_count =
    let required = sort (first_times option_count must_select []) in
    (required, keep (λ i. not (elem i required)) (first_times option_count must_not_select []))

abbrev pub is_free : List ℕ → List ℕ → ℕ → Bool
is_free blocked required i = not (elem i blocked) && not (elem i required)

-- What fills the selection up: the preferred options, then the others shuffled.
unfoldable pub fill_pool : (List ℕ → List ℕ) → ℕ → List ℕ → List ℕ → List ℕ → List ℤ → List ℕ
unfolding elem first_times
fill_pool shuffle option_count required blocked filtered priority_indices =
    let priority =
      keep (λ i. is_free blocked required i && not (elem i filtered))
        (first_times option_count priority_indices []) in
    let fallback =
      keep (λ i. is_free blocked required i && not (elem i priority) && not (elem i filtered))
        (range option_count) in
    priority ++ shuffle fallback

-- The required options first, then others as far as the maximum allows.
unfoldable pub cut_resolved : ℕ → List ℕ → List ℕ → List ℕ
unfolding elem
cut_resolved max_allowed required resolved =
    let keep_required = keep (λ i. elem i required) resolved in
    let keep_optional = keep (λ i. not (elem i required)) resolved in
    if ltb max_allowed (length resolved)
    then take max_allowed keep_required ++ take (max_allowed - length keep_required) keep_optional
    else resolved

unfoldable pub apply_rule_constraints :
    (List ℕ → List ℕ) → (List ℕ → List ℕ) → List ℤ → ℕ → ℕ → ℕ → List ℤ → List ℕ → List ℤ → List ℕ
unfolding normalize_selected_indices fill_pool cut_resolved elem
apply_rule_constraints shuffle_selected shuffle_fallback selected option_count min_required
      max_allowed required_indices blocked priority =
    let all_required = normalize_selected_indices required_indices option_count in
    let required =
      if ltb max_allowed (length all_required)
      then take max_allowed all_required
      else all_required in
    let free = keep (is_free blocked required) (normalize_selected_indices selected option_count) in
    let capacity = max_allowed - length required in
    let filtered =
      if ltb capacity (length free) then take capacity (shuffle_selected free) else free in
    let base = required ++ filtered in
    let resolved =
      if ltb (length base) min_required
      then base
        ++ take (min_required - length base)
            (fill_pool shuffle_fallback option_count required blocked filtered priority)
      else base in
    normalize_selected_indices (map pos (cut_resolved max_allowed required resolved)) option_count

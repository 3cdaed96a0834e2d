-- ===== src/Tencent/Rules/Tests.antt =====
-- Small inputs.
use fuck_wjx.Common.{
  ℕ, ◌≤◌, ◌<◌, ◌≡◌, refl, true, false, ◌&&◌, List, [], ◌∷◌, pos, negsuc, arith, leb, length,
}
use fuck_wjx.Common.Member.{elem}
use fuck_wjx.Common.Sorted.{increasing}
use fuck_wjx.Tencent.Rules.Normal.{normalize_selected_indices, mentions}
use fuck_wjx.Tencent.Rules.Steps.{apply_multiple_constraints, clamp_limit}
use fuck_wjx.Tencent.Rules.Limits.{apply-shape, apply-unblocked, apply-required}

filled_example :
    apply_multiple_constraints
      (pos 2 ∷ negsuc 0 ∷ pos 2 ∷ [])
      5
      3
      4
      (pos 4 ∷ [])
      (pos 0 ∷ [])
      (3 ∷ [])
    ≡ 2 ∷ 3 ∷ 4 ∷ []
unfolding apply_multiple_constraints
filled_example = refl

trimmed_example :
    apply_multiple_constraints (pos 0 ∷ pos 1 ∷ pos 2 ∷ []) 5 1 2 (pos 4 ∷ []) [] [] ≡ 0 ∷ 4 ∷ []
unfolding apply_multiple_constraints
trimmed_example = refl

-- Five options, at least three and at most four; the last is required, the first is blocked.
abbrev selection : List ℕ
selection = apply_multiple_constraints (pos 2 ∷ []) 5 3 4 (pos 4 ∷ []) (pos 0 ∷ []) (3 ∷ [])

apply-shape_example :
    (increasing selection ≡ true)
    × ((elem 4 selection && leb 5 4) ≡ false)
    × (length selection ≤ clamp_limit 4 5)
apply-shape_example = apply-shape (pos 2 ∷ []) 5 3 4 (pos 4 ∷ []) (pos 0 ∷ []) (3 ∷ []) 4

-- The only option is required and blocked.
apply-unblocked_example : mentions 0 (pos 0 ∷ []) ≡ true
unfolding apply_multiple_constraints elem mentions
apply-unblocked_example = apply-unblocked [] 1 1 1 (pos 0 ∷ []) (pos 0 ∷ []) [] 0 refl refl

apply-required_example : elem 4 selection ≡ true
unfolding normalize_selected_indices mentions
apply-required_example =
    apply-required (pos 2 ∷ []) 5 3 4 (pos 4 ∷ []) (pos 0 ∷ []) (3 ∷ []) 4 (omega arith)
      (omega arith) refl (omega arith)

-- Two options are open and three are asked for.
abbrev short_selection : List ℕ
short_selection = apply_multiple_constraints [] 3 3 3 [] (pos 0 ∷ []) []

short_selection-length : length short_selection < clamp_limit 3 3
unfolding apply_multiple_constraints
short_selection-length = omega arith

no_priority : (y : ℕ) → elem y [] ≡ true → y < 3
unfolding elem
no_priority y h = ground arith

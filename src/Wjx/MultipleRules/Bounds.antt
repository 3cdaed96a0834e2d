-- ===== src/Wjx/MultipleRules/Bounds.antt =====
-- What the returned selection is like, however the lists are shuffled.
use fuck_wjx.Common.{
  ℕ, ◌-◌, ◌≤◌, ◌≡◌, refl, true, false, not, ◌&&◌, List, [], ◌∷◌, map, some, arith, leb, ==_iff,
  length, keep, take, ℤ, pos, negsuc, index_below, length-append, length-take, inl, inr,
  Option-cases,
}
use fuck_wjx.Common.Member.{elem, distinct}
use fuck_wjx.Wjx.MultipleRules.Defs.{
  first_times, normalize_selected_indices, cut_resolved, apply_rule_constraints,
}

length-first_times :
    (n : ℕ) (zs : List ℤ) (seen : List ℕ) → length (first_times n zs seen) ≤ length zs
unfolding first_times
length-first_times n [] seen = omega arith
length-first_times n (z ∷ zs) seen = elim (Option-cases (index_below n z)) [
  | inl e ↦ ground (arith, e, length-first_times n zs seen)
  | inr (i, e) ↦ ground (arith, e, length-first_times n zs seen, length-first_times n zs (i ∷ seen))
]

index_below-lt : (n : ℕ) (z : ℤ) (i : ℕ) → index_below n z ≡ some i → leb n i ≡ false
index_below-lt n (pos m) i e = ground arith
index_below-lt n (negsuc m) i e = ground arith

first_times-new :
    (x n : ℕ) (zs : List ℤ) (seen : List ℕ)
    → elem x (first_times n zs seen) ≡ true
    → (elem x seen ≡ false) × (leb n x ≡ false)
unfolding first_times elem
first_times-new x n [] seen h = absurd (ground arith)
first_times-new x n (z ∷ zs) seen h = elim (Option-cases (index_below n z)) [
  | inl e ↦ first_times-new x n zs seen (ground (arith, e))
  | inr (i, e) ↦ (
    ground (arith, e, ==_iff x i, first_times-new x n zs seen, first_times-new x n zs (i ∷ seen)),
    ground (
      arith,
      e,
      ==_iff x i,
      index_below-lt n z i e,
      first_times-new x n zs seen,
      first_times-new x n zs (i ∷ seen),
    ),
  )
]

distinct-first_times :
    (n : ℕ) (zs : List ℤ) (seen : List ℕ) → distinct (first_times n zs seen) ≡ true
unfolding first_times elem distinct
distinct-first_times n [] seen = refl
distinct-first_times n (z ∷ zs) seen = elim (Option-cases (index_below n z)) [
  | inl e ↦ ground (arith, e, distinct-first_times n zs seen)
  | inr (i, e) ↦ ground (
    arith,
    e,
    ==_iff i i,
    distinct-first_times n zs seen,
    distinct-first_times n zs (i ∷ seen),
    first_times-new i n zs (i ∷ seen),
  )
]

length-map_pos : (xs : List ℕ) → length (map pos xs) ≡ length xs
length-map_pos [] = refl
length-map_pos (x ∷ xs) = omega (arith, length-map_pos xs)

length-cut : (hi : ℕ) (required resolved : List ℕ) → length (cut_resolved hi required resolved) ≤ hi
unfolding cut_resolved
length-cut hi required resolved =
    let r = keep (λ i. elem i required) resolved in
    let o = keep (λ i. not (elem i required)) resolved in
    ground (
      arith,
      length-append (take hi r) (take (hi - length r) o),
      length-take hi r,
      length-take (hi - length r) o,
    )

-- However the lists are shuffled, the returned selection repeats no option, holds option indices
-- only, and is never longer than the maximum allowed.
pub constraints-shape :
    (shuffle_selected shuffle_fallback : List ℕ → List ℕ) (selected : List ℤ) (count lo hi : ℕ)
    (required : List ℤ) (blocked : List ℕ) (priority : List ℤ) (x : ℕ)
    → let result =
        apply_rule_constraints shuffle_selected shuffle_fallback selected count lo hi required
          blocked priority in
      (distinct result ≡ true) × ((elem x result && leb count x) ≡ false) × (length result ≤ hi)
unfolding apply_rule_constraints
constraints-shape f g selected count lo hi required blocked priority x =
    let shaped : (req res : List ℕ)
        → (distinct (normalize_selected_indices (map pos (cut_resolved hi req res)) count) ≡ true)
          × ((elem x (normalize_selected_indices (map pos (cut_resolved hi req res)) count)
                && leb count x)
              ≡ false)
          × (length (normalize_selected_indices (map pos (cut_resolved hi req res)) count) ≤ hi) =
      λ req res.
        let c = cut_resolved hi req res in
        (
          distinct-first_times count (map pos c) [],
          ground (arith, first_times-new x count (map pos c) []),
          omega (
            arith,
            length-first_times count (map pos c) [],
            length-map_pos c,
            length-cut hi req res,
          ),
        ) in
    shaped _ _

-- ===== src/Tencent/Rules/FillLaws.antt =====
-- Laws of the loop of `apply_multiple_constraints` that fills up to the minimum.
use fuck_wjx.Common.{
  ℕ, ◌≤◌, ◌<◌, ◌≡◌, refl, true, false, not, ◌&&◌, ◌||◌, List, [], ◌∷◌, ◌++◌, arith, ==_iff, length,
  length-append, length-take, min,
}
use fuck_wjx.Common.Member.{elem, distinct, elem-append, elem-take, distinct-append, distinct-take}
use fuck_wjx.Tencent.Rules.Steps.{fill_loop, fill, cut}

module _ (m : ℕ) (blocked : List ℕ) where
  fill_loop-elem :
      (x : ℕ) (selected rest : List ℕ)
      → elem x selected ≡ true
      → elem x (fill_loop m blocked selected rest) ≡ true
  unfolding elem fill_loop
  fill_loop-elem x selected [] h = h
  fill_loop-elem x selected (y ∷ ys) h = ground (
    arith,
    elem-append x selected (y ∷ []),
    fill_loop-elem x selected ys,
    fill_loop-elem x (selected ++ y ∷ []) ys,
  )

  elem-fill_loop :
      (x : ℕ) (selected rest : List ℕ)
      → elem x (fill_loop m blocked selected rest) ≡ true
      → elem x selected ≡ false
      → (elem x rest && not (elem x blocked)) ≡ true
  unfolding elem fill_loop
  elem-fill_loop x selected [] h n = ground arith
  elem-fill_loop x selected (y ∷ ys) h n = ground (
    arith,
    ==_iff x y,
    elem-append x selected (y ∷ []),
    elem-fill_loop x selected ys,
    elem-fill_loop x (selected ++ y ∷ []) ys,
  )

  length-fill_loop :
      (selected rest : List ℕ)
      → length selected < m
      → length (fill_loop m blocked selected rest) ≤ m
  unfolding fill_loop
  length-fill_loop selected [] h = omega arith
  length-fill_loop selected (y ∷ ys) h = ground (
    arith,
    length-append selected (y ∷ []),
    length-fill_loop selected ys,
    length-fill_loop (selected ++ y ∷ []) ys,
  )

  distinct-snoc :
      (y : ℕ) (selected : List ℕ)
      → distinct selected ≡ true
      → elem y selected ≡ false
      → distinct (selected ++ y ∷ []) ≡ true
  unfolding elem distinct
  distinct-snoc y selected d n =
      distinct-append selected (y ∷ []) d refl (λ x h. ground (arith, ==_iff x y))

  distinct-fill_loop :
      (selected rest : List ℕ)
      → distinct selected ≡ true
      → distinct (fill_loop m blocked selected rest) ≡ true
  unfolding fill_loop
  distinct-fill_loop selected [] d = d
  distinct-fill_loop selected (y ∷ ys) d = ground (
    arith,
    distinct-snoc y selected d,
    distinct-fill_loop selected ys,
    distinct-fill_loop (selected ++ y ∷ []) ys,
  )

  -- The loop ends below the minimum only when no candidate is left.
  fill_loop_short :
      (x : ℕ) (selected rest : List ℕ)
      → length (fill_loop m blocked selected rest) < m
      → elem x rest ≡ true
      → (elem x blocked || elem x (fill_loop m blocked selected rest)) ≡ true
  unfolding elem fill_loop
  fill_loop_short x selected [] h e = ground arith
  fill_loop_short x selected (y ∷ ys) h e = ground (
    arith,
    ==_iff x y,
    elem-append x selected (y ∷ []),
    fill_loop-elem x selected ys,
    fill_loop-elem x (selected ++ y ∷ []) ys,
    fill_loop_short x selected ys,
    fill_loop_short x (selected ++ y ∷ []) ys,
  )

  module _ (candidates selected : List ℕ) where
    pub fill-elem :
        (x : ℕ) → elem x selected ≡ true → elem x (fill m blocked candidates selected) ≡ true
    unfolding fill
    fill-elem x h = ground (arith, fill_loop-elem x selected candidates)

    pub elem-fill :
        (x : ℕ)
        → elem x (fill m blocked candidates selected) ≡ true
        → elem x selected ≡ false
        → (elem x candidates && not (elem x blocked)) ≡ true
    unfolding fill
    elem-fill x h n = ground (arith, elem-fill_loop x selected candidates)

    pub length-fill :
        (k : ℕ) → m ≤ k → length selected ≤ k → length (fill m blocked candidates selected) ≤ k
    unfolding fill
    length-fill k h l = ground (arith, length-fill_loop selected candidates)

    pub distinct-fill :
        distinct selected ≡ true → distinct (fill m blocked candidates selected) ≡ true
    unfolding fill
    distinct-fill d = ground (arith, distinct-fill_loop selected candidates d)

    pub fill_short :
        (x : ℕ)
        → length (fill m blocked candidates selected) < m
        → elem x candidates ≡ true
        → (elem x blocked || elem x (fill m blocked candidates selected)) ≡ true
    unfolding fill
    fill_short x h e = ground (arith, fill_loop_short x selected candidates)

module _ (k : ℕ) (xs : List ℕ) where
  pub length-cut : length (cut k xs) ≡ min k (length xs)
  unfolding cut
  length-cut = ground (arith, length-take k xs)

  pub elem-cut : (x : ℕ) → elem x (cut k xs) ≡ true → elem x xs ≡ true
  unfolding cut
  elem-cut x h = ground (arith, elem-take x k xs)

  pub distinct-cut : distinct xs ≡ true → distinct (cut k xs) ≡ true
  unfolding cut
  distinct-cut d = ground (arith, distinct-take k xs d)

  pub cut_fits : length xs ≤ k → cut k xs ≡ xs
  unfolding cut
  cut_fits h = ground arith

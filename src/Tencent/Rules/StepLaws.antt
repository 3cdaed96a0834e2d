-- ===== src/Tencent/Rules/StepLaws.antt =====
-- Laws of the steps of `apply_multiple_constraints`.
use fuck_wjx.Common.{
  ℕ, zero, suc, ◌+◌, ◌≤◌, ◌<◌, ◌≡◌, refl, ◌⊎◌, Bool, true, false, not, ◌&&◌, ◌||◌, List, [], ◌∷◌,
  ◌++◌, map, arith, if◌then◌else◌, ◌==◌, ==_iff, ltb, leb, length, length-append, length-take, take,
  ℤ, pos, negsuc, min,
}
use fuck_wjx.Common.Member.{elem, elem-append, elem-take, elem-keep}
use fuck_wjx.Common.Sorted.{increasing, length-sort}
use fuck_wjx.Tencent.Rules.Normal.{
  dedupe, normalize_selected_indices, mentions, elem-normalize, increasing-normalize,
  mentions-map-pos,
}
use fuck_wjx.Tencent.Rules.Steps.{add_required, keep_upto, trim, merged}

length-dedupe : (c : ℕ) (seen : List ℕ) (zs : List ℤ) → length (dedupe c seen zs) ≤ length zs
unfolding dedupe
length-dedupe c seen [] = omega arith
length-dedupe c seen (negsuc n ∷ zs) = omega (arith, length-dedupe c seen zs)
length-dedupe c seen (pos n ∷ zs) =
    ground (arith, length-dedupe c seen zs, length-dedupe c (n ∷ seen) zs)

length-map-pos : (xs : List ℕ) → length (map pos xs) ≡ length xs
length-map-pos [] = refl
length-map-pos (x ∷ xs) = omega (arith, length-map-pos xs)

pub length-normalize :
    (xs : List ℕ) (c : ℕ) → length (normalize_selected_indices (map pos xs) c) ≤ length xs
unfolding normalize_selected_indices
length-normalize xs c = omega (
  arith,
  length-sort (dedupe c [] (map pos xs)),
  length-dedupe c [] (map pos xs),
  length-map-pos xs,
)

pub elem-normal :
    (x : ℕ) (xs : List ℕ) (c : ℕ)
    → elem x (normalize_selected_indices (map pos xs) c) ≡ (elem x xs && ltb x c)
elem-normal x xs c = ground (arith, elem-normalize x c (map pos xs), mentions-map-pos x xs)

elem-add_required :
    (x : ℕ) (required selected : List ℕ)
    → elem x (add_required required selected) ≡ (elem x required || elem x selected)
unfolding elem add_required
elem-add_required x [] selected = refl
elem-add_required x (r ∷ required) selected = ground (
  arith,
  ==_iff x r,
  elem-append x selected (r ∷ []),
  elem-add_required x required selected,
  elem-add_required x required (selected ++ r ∷ []),
)

-- The merged selection: the required options, and the chosen ones that are not blocked.
pub elem-merged :
    (x : ℕ) (zs : List ℤ) (c : ℕ) (required blocked : List ℤ)
    → elem x (merged zs c required blocked)
      ≡ (ltb x c && (mentions x required || (mentions x zs && not (mentions x blocked))))
unfolding merged
elem-merged x zs c required blocked =
    let bs = normalize_selected_indices blocked c in
    let rs = normalize_selected_indices required c in
    let ns = normalize_selected_indices zs c in
    let ks = fuck_wjx.Common.keep (λ idx. not (elem idx bs)) ns in
    ground (
      arith,
      elem-normal x (add_required rs ks) c,
      elem-add_required x rs ks,
      elem-keep x (λ idx. not (elem idx bs)) ns,
      elem-normalize x c zs,
      elem-normalize x c required,
      elem-normalize x c blocked,
    )

pub increasing-merged :
    (zs : List ℤ) (c : ℕ) (required blocked : List ℤ)
    → increasing (merged zs c required blocked) ≡ true
unfolding merged
increasing-merged zs c required blocked =
    let bs = normalize_selected_indices blocked c in
    let rs = normalize_selected_indices required c in
    let ns = normalize_selected_indices zs c in
    increasing-normalize c
      (map pos (add_required rs (fuck_wjx.Common.keep (λ idx. not (elem idx bs)) ns)))

pub elem-keep_upto :
    (x m : ℕ) (kept selected : List ℕ)
    → elem x (keep_upto m kept selected) ≡ true
    → (elem x kept || elem x selected) ≡ true
unfolding elem keep_upto
elem-keep_upto x m kept [] h = ground arith
elem-keep_upto x m kept (y ∷ ys) h = ground (
  arith,
  elem-append x kept (y ∷ []),
  elem-keep_upto x m kept ys,
  elem-keep_upto x m (kept ++ y ∷ []) ys,
)

pub keep_upto-elem :
    (x m : ℕ) (kept selected : List ℕ)
    → elem x kept ≡ true
    → elem x (keep_upto m kept selected) ≡ true
unfolding elem keep_upto
keep_upto-elem x m kept [] h = h
keep_upto-elem x m kept (y ∷ ys) h = ground (
  arith,
  elem-append x kept (y ∷ []),
  keep_upto-elem x m kept ys,
  keep_upto-elem x m (kept ++ y ∷ []) ys,
)

pub length-keep_upto :
    (m : ℕ) (kept selected : List ℕ) → length kept ≤ m → length (keep_upto m kept selected) ≤ m
unfolding keep_upto
length-keep_upto m kept [] h = h
length-keep_upto m kept (y ∷ ys) h = ground (
  arith,
  length-append kept (y ∷ []),
  length-keep_upto m kept ys,
  length-keep_upto m (kept ++ y ∷ []) ys,
)

module _ (c m : ℕ) (required selected : List ℕ) where
  pub length-trim : length (trim c m required selected) ≤ m
  unfolding trim
  length-trim = ground (
    arith,
    length-normalize (keep_upto m (take m required) selected) c,
    length-keep_upto m (take m required) selected,
    length-take m required,
  )

  pub increasing-trim : increasing selected ≡ true → increasing (trim c m required selected) ≡ true
  unfolding trim
  increasing-trim h =
      ground (arith, increasing-normalize c (map pos (keep_upto m (take m required) selected)))

  -- Trimming only takes away, when the required options are selected already.
  pub elem-trim :
      (x : ℕ)
      → (elem x required ≡ true → elem x selected ≡ true)
      → elem x (trim c m required selected) ≡ true
      → elem x selected ≡ true
  unfolding trim
  elem-trim x h t = ground (
    arith,
    elem-normal x (keep_upto m (take m required) selected) c,
    elem-keep_upto x m (take m required) selected,
    elem-take x m required,
  )

  -- The required options that fit the limit stay.
  pub trim-elem :
      (x : ℕ)
      → x < c
      → elem x (take m required) ≡ true
      → elem x selected ≡ true
      → elem x (trim c m required selected) ≡ true
  unfolding trim
  trim-elem x lt r s = ground (
    arith,
    elem-normal x (keep_upto m (take m required) selected) c,
    keep_upto-elem x m (take m required) selected,
  )

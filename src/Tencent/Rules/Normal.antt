-- ===== src/Tencent/Rules/Normal.antt =====
-- `normalize_selected_indices`: the valid indices, each once, in increasing order.
use fuck_wjx.Common.{
  ℕ, ◌≡◌, refl, Bool, true, false, not, ◌&&◌, ◌||◌, List, [], ◌∷◌, map, none, some, arith, ◌==◌,
  ==_iff, ltb, ℤ, pos, negsuc, index_below,
}
use fuck_wjx.Common.Member.{elem, distinct}
use fuck_wjx.Common.Sorted.{sort, increasing, elem-sort, increasing-sort}

-- The loop: an index out of range or seen before is skipped.
unfoldable pub dedupe : ℕ → List ℕ → List ℤ → List ℕ
unfolding elem
dedupe option_count seen [] = []
dedupe option_count seen (raw ∷ rest) = elim (index_below option_count raw) [
  | none ↦ dedupe option_count seen rest
  | some idx ↦ elim (elem idx seen) [
    | true ↦ dedupe option_count seen rest
    | false ↦ idx ∷ dedupe option_count (idx ∷ seen) rest
  ]
]

unfoldable pub normalize_selected_indices : List ℤ → ℕ → List ℕ
unfolding dedupe sort
normalize_selected_indices indices option_count = sort (dedupe option_count [] indices)

-- Whether an integer of the list is the index `x`.
unfoldable pub mentions : ℕ → List ℤ → Bool
mentions x [] = false
mentions x (pos n ∷ zs) = x == n || mentions x zs
mentions x (negsuc n ∷ zs) = mentions x zs

elem-dedupe :
    (x option_count : ℕ) (seen : List ℕ) (zs : List ℤ)
    → elem x (dedupe option_count seen zs)
      ≡ (mentions x zs && ltb x option_count && not (elem x seen))
unfolding elem dedupe mentions
elem-dedupe x c seen [] = refl
elem-dedupe x c seen (negsuc n ∷ zs) = elem-dedupe x c seen zs
elem-dedupe x c seen (pos n ∷ zs) =
    ground (arith, ==_iff x n, elem-dedupe x c seen zs, elem-dedupe x c (n ∷ seen) zs)

distinct-dedupe :
    (option_count : ℕ) (seen : List ℕ) (zs : List ℤ) → distinct (dedupe option_count seen zs) ≡ true
unfolding distinct dedupe
distinct-dedupe c seen [] = refl
distinct-dedupe c seen (negsuc n ∷ zs) = distinct-dedupe c seen zs
distinct-dedupe c seen (pos n ∷ zs) = ground (
  arith,
  ==_iff n n,
  elem-dedupe n c (n ∷ seen) zs,
  distinct-dedupe c seen zs,
  distinct-dedupe c (n ∷ seen) zs,
)

pub elem-normalize :
    (x option_count : ℕ) (zs : List ℤ)
    → elem x (normalize_selected_indices zs option_count) ≡ (mentions x zs && ltb x option_count)
unfolding normalize_selected_indices elem
elem-normalize x c zs = ground (arith, elem-sort x (dedupe c [] zs), elem-dedupe x c [] zs)

pub increasing-normalize :
    (option_count : ℕ) (zs : List ℤ)
    → increasing (normalize_selected_indices zs option_count) ≡ true
unfolding normalize_selected_indices
increasing-normalize c zs = increasing-sort (dedupe c [] zs) (distinct-dedupe c [] zs)

pub mentions-map-pos : (x : ℕ) (xs : List ℕ) → mentions x (map pos xs) ≡ elem x xs
unfolding elem mentions
mentions-map-pos x [] = refl
mentions-map-pos x (y ∷ xs) = ground (arith, mentions-map-pos x xs)

-- ===== src/Common/Sorted.antt =====
-- Python's `sorted` on numbers, as an insertion sort.
use fuck_wjx.Common.{
  ℕ, suc, ◌≤◌, ◌<◌, ◌≡◌, refl, Bool, true, false, ◌&&◌, ◌||◌, List, [], ◌∷◌, arith, if◌then◌else◌,
  ◌==◌, ltb, leb, length,
}
use fuck_wjx.Common.Member.{elem, distinct}

unfoldable pub sort_insert : ℕ → List ℕ → List ℕ
sort_insert x [] = x ∷ []
sort_insert x (y ∷ ys) = if leb x y then x ∷ y ∷ ys else y ∷ sort_insert x ys

unfoldable pub sort : List ℕ → List ℕ
unfolding sort_insert
sort [] = []
sort (x ∷ xs) = sort_insert x (sort xs)

elem-sort_insert : (z x : ℕ) (xs : List ℕ) → elem z (sort_insert x xs) ≡ (z == x || elem z xs)
unfolding elem sort_insert
elem-sort_insert z x [] = refl
elem-sort_insert z x (y ∷ ys) = ground (arith, elem-sort_insert z x ys)

pub elem-sort : (z : ℕ) (xs : List ℕ) → elem z (sort xs) ≡ elem z xs
unfolding elem sort
elem-sort z [] = refl
elem-sort z (x ∷ xs) = ground (arith, elem-sort_insert z x (sort xs), elem-sort z xs)

length-sort_insert : (x : ℕ) (xs : List ℕ) → length (sort_insert x xs) ≡ suc (length xs)
unfolding sort_insert
length-sort_insert x [] = refl
length-sort_insert x (y ∷ ys) = ground (arith, length-sort_insert x ys)

pub length-sort : (xs : List ℕ) → length (sort xs) ≡ length xs
unfolding sort
length-sort [] = refl
length-sort (x ∷ xs) = ground (arith, length-sort_insert x (sort xs), length-sort xs)

-- Each number stands above the one before it.
abbrev pub above : ℕ → List ℕ → Bool
above x [] = true
above x (y ∷ ys) = ltb x y && above y ys

abbrev pub increasing : List ℕ → Bool
increasing [] = true
increasing (x ∷ xs) = above x xs

above-sort_insert :
    (a x : ℕ) (xs : List ℕ)
    → a < x
    → above a xs ≡ true
    → elem x xs ≡ false
    → above a (sort_insert x xs) ≡ true
unfolding elem sort_insert
above-sort_insert a x [] h s m = ground arith
above-sort_insert a x (y ∷ ys) h s m = ground (arith, above-sort_insert y x ys)

increasing-sort_insert :
    (x : ℕ) (xs : List ℕ)
    → increasing xs ≡ true
    → elem x xs ≡ false
    → increasing (sort_insert x xs) ≡ true
unfolding elem sort_insert
increasing-sort_insert x [] s m = refl
increasing-sort_insert x (y ∷ ys) s m = ground (arith, above-sort_insert y x ys)

pub increasing-sort : (xs : List ℕ) → distinct xs ≡ true → increasing (sort xs) ≡ true
unfolding distinct sort
increasing-sort [] h = refl
increasing-sort (x ∷ xs) h =
    ground (arith, increasing-sort xs, elem-sort x xs, increasing-sort_insert x (sort xs))

above-not-elem : (z a : ℕ) (xs : List ℕ) → above a xs ≡ true → z ≤ a → elem z xs ≡ false
unfolding elem
above-not-elem z a [] h le = refl
above-not-elem z a (x ∷ xs) h le = ground (arith, above-not-elem z x xs)

above-distinct : (a : ℕ) (xs : List ℕ) → above a xs ≡ true → distinct xs ≡ true
unfolding distinct
above-distinct a [] h = refl
above-distinct a (x ∷ xs) h = ground (arith, above-not-elem x x xs, above-distinct x xs)

pub increasing-distinct : (xs : List ℕ) → increasing xs ≡ true → distinct xs ≡ true
unfolding distinct
increasing-distinct [] h = refl
increasing-distinct (x ∷ xs) h = ground (arith, above-not-elem x x xs, above-distinct x xs)

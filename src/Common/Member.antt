-- ===== src/Common/Member.antt =====
-- Membership and distinctness of lists of numbers as Boolean tests.
use mathlib.Core.List.{Perm, Permᴰ}
use mathlib.Core.Logic.{∥∥₁_elim}
use mathlib.Core.Bool.{Bool-set}
use native.Mathlib.Nat.{ℕ_set}
use fuck_wjx.Common.{
  ℕ, zero, suc, ◌+◌, ◌≤◌, ◌<◌, ◌≡◌, refl, ◌∙◌, Bool, true, false, not, ◌&&◌, ◌||◌, List, [], ◌∷◌,
  ◌++◌, arith, if◌then◌else◌, ◌==◌, ==_iff, ltb, leb, length, keep, take, range_from, count,
  count-append,
}

unfoldable pub elem : ℕ → List ℕ → Bool
elem x [] = false
elem x (y ∷ ys) = x == y || elem x ys

unfoldable pub distinct : List ℕ → Bool
unfolding elem
distinct [] = true
distinct (x ∷ xs) = not (elem x xs) && distinct xs

pub elem-append : (x : ℕ) (xs ys : List ℕ) → elem x (xs ++ ys) ≡ (elem x xs || elem x ys)
unfolding elem
elem-append x [] ys = refl
elem-append x (y ∷ xs) ys = ground (arith, elem-append x xs ys)

pub elem-keep : (x : ℕ) (p : ℕ → Bool) (xs : List ℕ) → elem x (keep p xs) ≡ (elem x xs && p x)
unfolding elem
elem-keep x p [] = refl
elem-keep x p (y ∷ xs) = ground (arith, ==_iff x y, elem-keep x p xs)

pub elem-take : (x n : ℕ) (xs : List ℕ) → elem x (take n xs) ≡ true → elem x xs ≡ true
unfolding elem
elem-take x zero xs h = ground arith
elem-take x (suc n) [] h = ground arith
elem-take x (suc n) (y ∷ xs) h = ground (arith, elem-take x n xs)

pub elem-range_from : (x a n : ℕ) → elem x (range_from a n) ≡ (leb a x && ltb x (a + n))
unfolding elem
elem-range_from x a zero = ground arith
elem-range_from x a (suc n) = ground (arith, elem-range_from x (suc a) n)

pub distinct-keep : (p : ℕ → Bool) (xs : List ℕ) → distinct xs ≡ true → distinct (keep p xs) ≡ true
unfolding distinct
distinct-keep p [] h = refl
distinct-keep p (x ∷ xs) h = ground (arith, elem-keep x p xs, distinct-keep p xs)

pub distinct-range_from : (a n : ℕ) → distinct (range_from a n) ≡ true
unfolding distinct
distinct-range_from a zero = refl
distinct-range_from a (suc n) =
    ground (arith, elem-range_from a (suc a) n, distinct-range_from (suc a) n)

not-elem-take : (x n : ℕ) (xs : List ℕ) → elem x xs ≡ false → elem x (take n xs) ≡ false
unfolding elem
not-elem-take x zero xs h = refl
not-elem-take x (suc n) [] h = refl
not-elem-take x (suc n) (y ∷ xs) h = ground (arith, not-elem-take x n xs)

pub distinct-take : (n : ℕ) (xs : List ℕ) → distinct xs ≡ true → distinct (take n xs) ≡ true
unfolding distinct
distinct-take zero xs h = refl
distinct-take (suc n) [] h = refl
distinct-take (suc n) (x ∷ xs) h = ground (arith, not-elem-take x n xs, distinct-take n xs)

-- Two lists with nothing in common.
abbrev pub Apart : List ℕ → List ℕ → Type 0
Apart xs ys = (x : ℕ) → elem x xs ≡ true → elem x ys ≡ false

pub distinct-append :
    (xs ys : List ℕ)
    → distinct xs ≡ true
    → distinct ys ≡ true
    → Apart xs ys
    → distinct (xs ++ ys) ≡ true
unfolding distinct
distinct-append [] ys hx hy ap = hy
distinct-append (x ∷ xs) ys hx hy ap = ground (
  arith,
  elem-append x xs ys,
  ap x (ground arith),
  distinct-append xs ys (ground arith) hy (λ y m. ap y (ground arith)),
)

-- The list with every copy of `x` taken out.
without : ℕ → List ℕ → List ℕ
without x ys = keep (λ y. not (x == y)) ys

length-without : (x : ℕ) (ys : List ℕ) → length (without x ys) ≤ length ys
unfolding without
length-without x [] = omega arith
length-without x (y ∷ ys) = ground (arith, length-without x ys)

length-without_lt : (x : ℕ) (ys : List ℕ) → elem x ys ≡ true → length (without x ys) < length ys
unfolding without elem
length-without_lt x [] h = ground arith
length-without_lt x (y ∷ ys) h = ground (arith, length-without x ys, length-without_lt x ys)

-- The pigeonhole principle.
pub length-le_of_subset :
    (xs ys : List ℕ)
    → distinct xs ≡ true
    → ((x : ℕ) → elem x xs ≡ true → elem x ys ≡ true)
    → length xs ≤ length ys
unfolding distinct
length-le_of_subset [] ys d s = omega arith
length-le_of_subset (x ∷ xs) ys d s = ground (
  arith,
  s x (ground (arith, ==_iff x x)),
  length-without_lt x ys,
  length-le_of_subset xs (without x ys) (ground arith) inside,
)
  where
    inside : (z : ℕ) → elem z xs ≡ true → elem z (without x ys) ≡ true
    inside z m =
        unfold without in
        ground (arith, elem-keep z (λ y. not (x == y)) ys, ==_iff x z, s z (ground arith))

-- What a permutation leaves alone.
elem-Permᴰ : (x : ℕ) {xs ys : List ℕ} → Permᴰ xs ys → elem x xs ≡ elem x ys
unfolding elem
elem-Permᴰ x Permᴰ.nil = refl
elem-Permᴰ x (Permᴰ.cons e p) = ground (arith, e, elem-Permᴰ x p)
elem-Permᴰ x (Permᴰ.swap e f) = ground (arith, e, f)
elem-Permᴰ x (Permᴰ.trans p q) = elem-Permᴰ x p ∙ elem-Permᴰ x q

length-Permᴰ : {xs ys : List ℕ} → Permᴰ xs ys → length xs ≡ length ys
length-Permᴰ Permᴰ.nil = refl
length-Permᴰ (Permᴰ.cons e p) = omega (arith, length-Permᴰ p)
length-Permᴰ (Permᴰ.swap e f) = refl
length-Permᴰ (Permᴰ.trans p q) = length-Permᴰ p ∙ length-Permᴰ q

distinct-Permᴰ : {xs ys : List ℕ} → Permᴰ xs ys → distinct xs ≡ distinct ys
unfolding distinct
distinct-Permᴰ Permᴰ.nil = refl
distinct-Permᴰ (Permᴰ.cons {a = a} e p) = ground (arith, e, elem-Permᴰ a p, distinct-Permᴰ p)
distinct-Permᴰ (Permᴰ.swap {a = a} {b = b} e f) = ground (arith, e, f, ==_iff a b, ==_iff b a)
distinct-Permᴰ (Permᴰ.trans p q) = distinct-Permᴰ p ∙ distinct-Permᴰ q

pub elem-perm : (x : ℕ) (xs ys : List ℕ) → Perm xs ys → elem x xs ≡ elem x ys
elem-perm x xs ys p = ∥∥₁_elim p (Bool-set _ _) (elem-Permᴰ x)

pub length-perm : (xs ys : List ℕ) → Perm xs ys → length xs ≡ length ys
length-perm xs ys p = ∥∥₁_elim p (ℕ_set _ _) length-Permᴰ

pub distinct-perm : (xs ys : List ℕ) → Perm xs ys → distinct xs ≡ distinct ys
distinct-perm xs ys p = ∥∥₁_elim p (Bool-set _ _) distinct-Permᴰ

-- `set.add` on a set of numbers kept as a list.
unfoldable pub set_add : ℕ → List ℕ → List ℕ
unfolding elem
set_add x xs = if elem x xs then xs else xs ++ x ∷ []

pub elem-count : (x : ℕ) (xs : List ℕ) → elem x xs ≡ true → 1 ≤ count x xs
unfolding elem
elem-count x [] h = ground arith
elem-count x (y ∷ xs) h = ground (arith, elem-count x xs)

pub not-elem-count : (a : ℕ) (xs : List ℕ) → elem a xs ≡ false → count a xs ≡ 0
unfolding elem
not-elem-count a [] h = refl
not-elem-count a (x ∷ xs) h = ground (arith, not-elem-count a xs)

pub count-set_add :
    (a x : ℕ) (xs : List ℕ)
    → count x xs ≤ 0
    → count a (set_add x xs) ≡ (if a == x then 1 else 0) + count a xs
unfolding set_add
count-set_add a x xs h = ground (arith, elem-count x xs, count-append a xs (x ∷ []))

pub count-set_add_mono : (a x : ℕ) (xs : List ℕ) → count a xs ≤ count a (set_add x xs)
unfolding set_add
count-set_add_mono a x xs = ground (arith, count-append a xs (x ∷ []))

pub count-set_add_self : (x : ℕ) (xs : List ℕ) → 1 ≤ count x (set_add x xs)
unfolding set_add
count-set_add_self x xs = ground (arith, elem-count x xs, ==_iff x x, count-append x xs (x ∷ []))

pub elem-set_add : (z x : ℕ) (xs : List ℕ) → elem z (set_add x xs) ≡ (z == x || elem z xs)
unfolding elem set_add
elem-set_add z x xs = ground (arith, ==_iff z x, elem-append z xs (x ∷ []))

pub count-distinct : (a : ℕ) (xs : List ℕ) → distinct xs ≡ true → count a xs ≤ 1
unfolding elem distinct
count-distinct a [] h = omega arith
count-distinct a (x ∷ xs) h = ground (arith, count-distinct a xs, not-elem-count x xs)

pub distinct-count : (xs : List ℕ) → ((a : ℕ) → count a xs ≤ 1) → distinct xs ≡ true
unfolding elem distinct
distinct-count [] h = refl
distinct-count (x ∷ xs) h =
    ground (arith, h x, ==_iff x x, elem-count x xs, distinct-count xs (λ a. ground (arith, h a)))

-- ===== src/Common/Dict.antt =====
-- Python's `dict` as an association list in insertion order: an assignment replaces the value in
-- place or appends, `pop` removes the key.
use fuck_wjx.Common.{
  ℕ, ◌+◌, ◌≤◌, ◌≡◌, refl, ◌↔◌, Bool, true, false, not, ◌&&◌, ◌||◌, List, [], ◌∷◌, Option, none,
  some, arith, ◌==◌, ==_iff, if◌then◌else◌, count, length,
}
use fuck_wjx.Common.Text.{Text, text_eq, text_eq_iff}

pub record Key {ℓ} (A : Type ℓ) : Type ℓ where
  pub eqb : A → A → Bool
  pub eqb_iff : (a b : A) → (eqb a b ≡ true) ↔ (a ≡ b)

instance abbrev pub nat_eq : Key ℕ
nat_eq = record { eqb = ◌==◌; eqb_iff = ==_iff }

instance abbrev pub text_key_eq : Key Text
text_key_eq = record { eqb = text_eq; eqb_iff = text_eq_iff }

abbrev pub values : {K V : Type 0} → List (K × V) → List V
values [] = []
values ((j, w) ∷ m) = w ∷ values m

module _ {K : Type 0} ⦃e : Key K⦄ {V : Type 0} where
  unfoldable pub lookup : K → List (K × V) → Option V
  lookup k [] = none
  lookup k ((j, v) ∷ m) = if e.eqb j k then some v else lookup k m

  unfoldable pub insert : K → V → List (K × V) → List (K × V)
  insert k v [] = (k, v) ∷ []
  insert k v ((j, w) ∷ m) = if e.eqb j k then (j, v) ∷ m else (j, w) ∷ insert k v m

  unfoldable pub erase : K → List (K × V) → List (K × V)
  erase k [] = []
  erase k ((j, w) ∷ m) = let rest = erase k m in if e.eqb j k then rest else (j, w) ∷ rest

  -- Whether the key is there: `k in d`.
  unfoldable pub has : K → List (K × V) → Bool
  has k [] = false
  has k ((j, w) ∷ m) = e.eqb j k || has k m

  -- No key stands twice.
  unfoldable pub unique : List (K × V) → Bool
  unique [] = true
  unique ((j, w) ∷ m) = not (has j m) && unique m

  pub lookup-insert :
      (k j : K) (v : V) (m : List (K × V))
      → lookup j (insert k v m) ≡ (if e.eqb k j then some v else lookup j m)
  unfolding lookup insert
  lookup-insert k j v [] = refl
  lookup-insert k j v ((h, _) ∷ rest) =
      ground (arith, e.eqb_iff k j, e.eqb_iff h k, e.eqb_iff h j, lookup-insert k j v rest)

  pub lookup-erase :
      (k j : K) (m : List (K × V)) → lookup j (erase k m) ≡ (if e.eqb k j then none else lookup j m)
  unfolding lookup erase
  lookup-erase k j [] = ground arith
  lookup-erase k j ((i, w) ∷ m) =
      ground (arith, e.eqb_iff k j, e.eqb_iff i k, e.eqb_iff i j, lookup-erase k j m)

  pub has-insert :
      (k j : K) (v : V) (m : List (K × V)) → has j (insert k v m) ≡ (e.eqb k j || has j m)
  unfolding has insert
  has-insert k j v [] = refl
  has-insert k j v ((i, w) ∷ m) =
      ground (arith, e.eqb_iff k j, e.eqb_iff i k, e.eqb_iff i j, has-insert k j v m)

  pub has-erase : (k j : K) (m : List (K × V)) → has j (erase k m) ≡ (not (e.eqb k j) && has j m)
  unfolding has erase
  has-erase k j [] = ground arith
  has-erase k j ((i, w) ∷ m) =
      ground (arith, e.eqb_iff k j, e.eqb_iff i k, e.eqb_iff i j, has-erase k j m)

  pub has-lookup : (k : K) (m : List (K × V)) → has k m ≡ false → lookup k m ≡ none
  unfolding has lookup
  has-lookup k [] h = refl
  has-lookup k ((i, w) ∷ m) h = ground (arith, has-lookup k m)

  pub lookup-has : (k : K) (m : List (K × V)) (v : V) → lookup k m ≡ some v → has k m ≡ true
  unfolding has lookup
  lookup-has k [] v h = ground arith
  lookup-has k ((i, w) ∷ m) v h = ground (arith, lookup-has k m v)

  pub lookup-absent : (k : K) (m : List (K × V)) → lookup k m ≡ none → has k m ≡ false
  unfolding has lookup
  lookup-absent k [] h = refl
  lookup-absent k ((i, w) ∷ m) h = ground (arith, lookup-absent k m)

  pub unique-insert :
      (k : K) (v : V) (m : List (K × V)) → unique m ≡ true → unique (insert k v m) ≡ true
  unfolding has unique insert
  unique-insert k v [] h = refl
  unique-insert k v ((i, w) ∷ m) h =
      ground (arith, e.eqb_iff i k, e.eqb_iff k i, has-insert k i v m, unique-insert k v m)

  pub unique-erase : (k : K) (m : List (K × V)) → unique m ≡ true → unique (erase k m) ≡ true
  unfolding unique erase
  unique-erase k [] h = refl
  unique-erase k ((i, w) ∷ m) h = ground (arith, has-erase k i m, unique-erase k m)

  pub erase_absent : (k : K) (m : List (K × V)) → has k m ≡ false → erase k m ≡ m
  unfolding has erase
  erase_absent k [] h = refl
  erase_absent k ((i, w) ∷ m) h = ground (arith, erase_absent k m)

  pub length-erase :
      (k : K) (m : List (K × V)) (v : V)
      → unique m ≡ true
      → lookup k m ≡ some v
      → length m ≡ length (erase k m) + 1
  unfolding unique erase lookup
  length-erase k [] v u h = ground arith
  length-erase k ((i, w) ∷ m) v u h =
      ground (arith, e.eqb_iff i k, erase_absent k m, length-erase k m v)

  pub length-insert_absent :
      (k : K) (v : V) (m : List (K × V)) → has k m ≡ false → length (insert k v m) ≡ length m + 1
  unfolding has insert
  length-insert_absent k v [] h = ground arith
  length-insert_absent k v ((i, w) ∷ m) h = ground (arith, length-insert_absent k v m)

pub length-values : {K V : Type 0} (m : List (K × V)) → length (values m) ≡ length m
length-values [] = refl
length-values ((k, v) ∷ m) = omega (arith, length-values m)

-- How often a number stands among the values.
module _ {K : Type 0} ⦃e : Key K⦄ where
  pub count-values-insert :
      (a : ℕ) (k : K) (v : ℕ) (m : List (K × ℕ))
      → has k m ≡ false
      → count a (values (insert k v m)) ≡ (if a == v then 1 else 0) + count a (values m)
  unfolding has insert
  count-values-insert a k v [] h = ground arith
  count-values-insert a k v ((i, w) ∷ m) h = ground (arith, count-values-insert a k v m)

  pub count-values-erase :
      (a : ℕ) (k : K) (v : ℕ) (m : List (K × ℕ))
      → unique m ≡ true
      → lookup k m ≡ some v
      → count a (values m) ≡ (if a == v then 1 else 0) + count a (values (erase k m))
  unfolding unique erase lookup
  count-values-erase a k v [] u h = ground arith
  count-values-erase a k v ((i, w) ∷ m) u h =
      ground (arith, e.eqb_iff i k, erase_absent k m, count-values-erase a k v m)

  pub lookup-count :
      (k : K) (v : ℕ) (m : List (K × ℕ)) → lookup k m ≡ some v → 1 ≤ count v (values m)
  unfolding lookup
  lookup-count k v [] h = ground arith
  lookup-count k v ((i, w) ∷ m) h = ground (arith, lookup-count k v m)

  -- A value that stands once belongs to one key.
  pub count-one-key :
      (j k : K) (v : ℕ) (m : List (K × ℕ))
      → count v (values m) ≤ 1
      → lookup j m ≡ some v
      → lookup k m ≡ some v
      → j ≡ k
  unfolding lookup
  count-one-key j k v [] c p q = ground arith
  count-one-key j k v ((i, w) ∷ m) c p q = ground (
    arith,
    e.eqb_iff i j,
    e.eqb_iff i k,
    lookup-count j v m,
    lookup-count k v m,
    count-one-key j k v m,
  )

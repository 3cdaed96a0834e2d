-- ===== src/Common/Sets.antt =====
-- Python's `set` as a list without repetitions.
use fuck_wjx.Common.{
  ◌≡◌, refl, Bool, false, not, ◌&&◌, ◌||◌, List, [], ◌∷◌, ◌++◌, arith, if◌then◌else◌,
}
use fuck_wjx.Common.Dict.{Key}

module _ {K : Type 0} ⦃e : Key K⦄ where
  unfoldable pub member : K → List K → Bool
  member k [] = false
  member k (j ∷ s) = e.eqb j k || member k s

  unfoldable pub add : K → List K → List K
  unfolding member
  add k s = if member k s then s else s ++ k ∷ []

  unfoldable pub discard : K → List K → List K
  discard k [] = []
  discard k (j ∷ s) = let rest = discard k s in if e.eqb j k then rest else j ∷ rest

  pub member-nil : (k : K) → member k [] ≡ false
  unfolding member
  member-nil k = refl

  pub member-cons : (k j : K) (s : List K) → member k (j ∷ s) ≡ (e.eqb j k || member k s)
  unfolding member
  member-cons k j s = refl

  member-append : (k j : K) (s : List K) → member j (s ++ k ∷ []) ≡ (e.eqb k j || member j s)
  unfolding member
  member-append k j [] = refl
  member-append k j (i ∷ s) = ground (arith, member-append k j s)

  pub member-add : (k j : K) (s : List K) → member j (add k s) ≡ (e.eqb k j || member j s)
  unfolding add
  member-add k j s = ground (arith, e.eqb_iff k j, member-append k j s)

  pub member-discard :
      (k j : K) (s : List K) → member j (discard k s) ≡ (not (e.eqb k j) && member j s)
  unfolding member discard
  member-discard k j [] = ground arith
  member-discard k j (i ∷ s) =
      ground (arith, e.eqb_iff k j, e.eqb_iff i k, e.eqb_iff i j, member-discard k j s)

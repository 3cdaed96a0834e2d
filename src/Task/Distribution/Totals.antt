-- ===== src/Task/Distribution/Totals.antt =====
-- What a commit adds to the counts.
use fuck_wjx.Common.{
  ℕ, zero, suc, ◌+◌, ◌<◌, ◌≡◌, refl, false, ◌&&◌, ◌||◌, List, [], ◌∷◌, some, arith, if◌then◌else◌,
  ◌==◌, leb, length, get_or, sum, inl, inr, Option-cases,
}
use fuck_wjx.Common.Text.{Text, text_eq, text_eq_iff}
use fuck_wjx.Common.Dict.{lookup, text_key_eq, lookup-insert}
use fuck_wjx.Task.Distribution.Defs.{
  Bucket, Choice, Distribution, normalize_counts, bucket_at, choices_of, bump, commit_choice,
  commit_choices, commit_pending,
}

length-normalize : (raw : List ℕ) (n : ℕ) → length (normalize_counts raw n) ≡ n
unfolding normalize_counts
length-normalize raw zero = refl
length-normalize [] (suc n) = omega (arith, length-normalize [] n)
length-normalize (c ∷ raw) (suc n) = omega (arith, length-normalize raw n)

normalize_same : (raw : List ℕ) (n : ℕ) → length raw ≡ n → normalize_counts raw n ≡ raw
unfolding normalize_counts
normalize_same [] zero h = refl
normalize_same [] (suc n) h = absurd (omega arith)
normalize_same (c ∷ raw) zero h = absurd (omega arith)
normalize_same (c ∷ raw) (suc n) h = ground (arith, normalize_same raw n)

normalize_nil : (n x : ℕ) → get_or (normalize_counts [] n) x 0 ≡ 0
unfolding normalize_counts
normalize_nil zero x = refl
normalize_nil (suc n) zero = refl
normalize_nil (suc n) (suc x) = normalize_nil n x

sum-normalize_nil : (n : ℕ) → sum (normalize_counts [] n) ≡ 0
unfolding normalize_counts
sum-normalize_nil zero = refl
sum-normalize_nil (suc n) = omega (arith, sum-normalize_nil n)

length-bump : (i : ℕ) (cs : List ℕ) → length (bump i cs) ≡ length cs
unfolding bump
length-bump i [] = refl
length-bump zero (c ∷ cs) = refl
length-bump (suc i) (c ∷ cs) = omega (arith, length-bump i cs)

get-bump :
    (i x : ℕ) (cs : List ℕ)
    → i < length cs
    → get_or (bump i cs) x 0 ≡ get_or cs x 0 + (if i == x then 1 else 0)
unfolding bump
get-bump i x [] h = absurd (omega arith)
get-bump zero zero (c ∷ cs) h = omega arith
get-bump zero (suc x) (c ∷ cs) h = ground arith
get-bump (suc i) zero (c ∷ cs) h = ground arith
get-bump (suc i) (suc x) (c ∷ cs) h = ground (arith, get-bump i x cs)

sum-bump : (i : ℕ) (cs : List ℕ) → i < length cs → sum (bump i cs) ≡ sum cs + 1
unfolding bump
sum-bump i [] h = absurd (omega arith)
sum-bump zero (c ∷ cs) h = omega arith
sum-bump (suc i) (c ∷ cs) h = omega (arith, sum-bump i cs)

-- With one number of options for each question, a bucket has a count for each option, and its
-- counts add up to its total.
pub record IsCounted (size : Text → ℕ) (stats : List (Text × Bucket)) : Type 0 where
  pub sized : (k : Text) (b : Bucket) → lookup k stats ≡ some b → length b.counts ≡ size k
  pub summed : (k : Text) → sum (bucket_at k stats).counts ≡ (bucket_at k stats).total

-- The choices are of options that their questions have.
abbrev pub AreChoices : (Text → ℕ) → List Choice → Type 0
AreChoices size [] = Unit
AreChoices size (c ∷ cs) =
    (c.option_count ≡ size c.stat_key) × (c.option_index < c.option_count) × AreChoices size cs

-- How many choices of the list are of this option, and how many of this question.
abbrev pub chosen : Text → ℕ → List Choice → ℕ
chosen k x [] = 0
chosen k x (c ∷ cs) =
    (if text_eq c.stat_key k && (c.option_index == x) then 1 else 0) + chosen k x cs

abbrev pub answered : Text → List Choice → ℕ
answered k [] = 0
answered k (c ∷ cs) = (if text_eq c.stat_key k then 1 else 0) + answered k cs

module _ (size : Text → ℕ) (c : Choice) (stats : List (Text × Bucket)) (v : IsCounted size stats)
    (sizes : c.option_count ≡ size c.stat_key) (inside : c.option_index < c.option_count) where
  -- The counts that the choice is added to.
  abbrev base : List ℕ
  base = normalize_counts (bucket_at c.stat_key stats).counts c.option_count

  base-length : length base ≡ c.option_count
  base-length = length-normalize _ c.option_count

  base-get : (x : ℕ) → get_or base x 0 ≡ get_or (bucket_at c.stat_key stats).counts x 0
  base-get x = elim (Option-cases (lookup c.stat_key stats)) [
    | inl e ↦ ground (arith, e, normalize_nil c.option_count x)
    | inr (b, e) ↦ ground (arith, e, normalize_same b.counts c.option_count, v.sized c.stat_key b e)
  ]

  base-sum : sum base ≡ (bucket_at c.stat_key stats).total
  base-sum = elim (Option-cases (lookup c.stat_key stats)) [
    | inl e ↦ ground (arith, e, sum-normalize_nil c.option_count)
    | inr (b, e) ↦ ground (
      arith,
      e,
      normalize_same b.counts c.option_count,
      v.sized c.stat_key b e,
      v.summed c.stat_key,
    )
  ]

  lookup-commit :
      (k : Text)
      → lookup k (commit_choice c stats) ≡ (
          if text_eq c.stat_key k
          then some (record {
            total = (bucket_at c.stat_key stats).total + 1;
            counts = bump c.option_index base;
          })
          else lookup k stats)
  unfolding commit_choice
  lookup-commit k = lookup-insert c.stat_key k _ stats

  commit-counts :
      (k : Text) (x : ℕ)
      → get_or (bucket_at k (commit_choice c stats)).counts x 0
        ≡ get_or (bucket_at k stats).counts x 0
          + (if text_eq c.stat_key k && (c.option_index == x) then 1 else 0)
  commit-counts k x = ground (
    arith,
    text_eq_iff c.stat_key k,
    lookup-commit k,
    base-get x,
    base-length,
    get-bump c.option_index x base,
  )

  commit-total :
      (k : Text)
      → (bucket_at k (commit_choice c stats)).total
        ≡ (bucket_at k stats).total + (if text_eq c.stat_key k then 1 else 0)
  commit-total k = ground (arith, text_eq_iff c.stat_key k, lookup-commit k)

  commit-IsCounted : IsCounted size (commit_choice c stats)
  commit-IsCounted = record {
    sized = λ k b e. ground (
      arith,
      text_eq_iff c.stat_key k,
      lookup-commit k,
      base-length,
      length-bump c.option_index base,
      v.sized k b,
    );
    summed = λ k. ground (
      arith,
      text_eq_iff c.stat_key k,
      lookup-commit k,
      base-length,
      base-sum,
      sum-bump c.option_index base,
      v.summed k,
    );
  }

module _ (size : Text → ℕ) where
  commit_choices-IsCounted :
      (cs : List Choice) (stats : List (Text × Bucket))
      → IsCounted size stats
      → AreChoices size cs
      → IsCounted size (commit_choices cs stats).0
  unfolding commit_choices
  commit_choices-IsCounted [] stats v h = v
  commit_choices-IsCounted (c ∷ cs) stats v h = rw (no_skip c h.1) (
      commit_choices-IsCounted cs (commit_choice c stats) (commit-IsCounted size c stats v h.0 h.1)
        h.2)
    where
      no_skip :
          (c : Choice)
          → c.option_index < c.option_count
          → (leb c.option_count 0 || leb c.option_count c.option_index) ≡ false
      no_skip c l = ground arith

  commit_choices-counts :
      (cs : List Choice) (stats : List (Text × Bucket)) (k : Text) (x : ℕ)
      → IsCounted size stats
      → AreChoices size cs
      → (get_or (bucket_at k (commit_choices cs stats).0).counts x 0
          ≡ get_or (bucket_at k stats).counts x 0 + chosen k x cs)
        × ((bucket_at k (commit_choices cs stats).0).total
            ≡ (bucket_at k stats).total + answered k cs)
        × ((commit_choices cs stats).1 ≡ length cs)
  unfolding commit_choices
  commit_choices-counts [] stats k x v h = (omega arith, omega arith, omega arith)
  commit_choices-counts (c ∷ cs) stats k x v h =
      let ih =
        commit_choices-counts cs (commit_choice c stats) k x
          (commit-IsCounted size c stats v h.0 h.1) h.2 in
      let here = commit-counts size c stats v h.0 h.1 k x in
      let all = commit-total size c stats v h.0 h.1 k in
      (ground (arith, ih.0, here), ground (arith, ih.1, all), ground (arith, ih.2))

-- Committing a round adds to each option of each question exactly the number of the worker's
-- choices of it, adds the number of answers to the question's total, reports how many choices
-- there were, and leaves the worker with none. (The buckets are counted and the choices are of
-- options that their questions have, as `append_pending` ensures.)
pub commit-counts_all :
    (size : Text → ℕ) (key : Text) (d : Distribution) (k : Text) (x : ℕ)
    → IsCounted size d.stats
    → AreChoices size (choices_of (lookup key d.pending))
    → let after = commit_pending key d in
      let round = choices_of (lookup key d.pending) in
      (get_or (bucket_at k after.0.stats).counts x 0
        ≡ get_or (bucket_at k d.stats).counts x 0 + chosen k x round)
      × ((bucket_at k after.0.stats).total ≡ (bucket_at k d.stats).total + answered k round)
      × (after.1 ≡ length round)
      × (lookup key after.0.pending ≡ some [])
unfolding commit_pending
commit-counts_all size key d k x v h =
    let round = choices_of (lookup key d.pending) in
    let (c, t, n) = commit_choices-counts size round d.stats k x v h in
    (c, t, n, ground (arith, text_eq_iff key key, lookup-insert key key [] d.pending))

-- A commit keeps the buckets counted: a count for each option, and their sum the total.
commit-keeps-IsCounted :
    (size : Text → ℕ) (key : Text) (d : Distribution)
    → IsCounted size d.stats
    → AreChoices size (choices_of (lookup key d.pending))
    → IsCounted size (commit_pending key d).0.stats
unfolding commit_pending
commit-keeps-IsCounted size key d v h =
    commit_choices-IsCounted size (choices_of (lookup key d.pending)) d.stats v h

-- ===== src/Task/Distribution/Defs.antt =====
-- Each worker gathers the choices of its round; only a successful round adds them to the counts.
use fuck_wjx.Common.{
  ℕ, zero, suc, ◌+◌, ◌||◌, List, [], ◌∷◌, ◌++◌, Option, none, some, if◌then◌else◌, leb, ℤ,
  index_below, to_ℕ,
}
use fuck_wjx.Common.Text.{Text}
use fuck_wjx.Common.Dict.{lookup, insert, text_key_eq}

pub record Bucket : Type 0 where
  pub total : ℕ
  pub counts : List ℕ

-- `(stat_key, option_index, option_count)`
pub record Choice : Type 0 where
  pub stat_key : Text
  pub option_index : ℕ
  pub option_count : ℕ

pub record Distribution : Type 0 where
  pub stats : List (Text × Bucket)
  pub pending : List (Text × List Choice)

abbrev pub empty : Distribution
empty = record { stats = []; pending = [] }

-- `_normalize_distribution_counts`: cut or padded with zeros to the number of options.
unfoldable pub normalize_counts : List ℕ → ℕ → List ℕ
normalize_counts raw zero = []
normalize_counts [] (suc n) = 0 ∷ normalize_counts [] n
normalize_counts (c ∷ raw) (suc n) = c ∷ normalize_counts raw n

abbrev pub bucket_of : Option Bucket → Bucket
bucket_of none = record { total = 0; counts = [] }
bucket_of (some b) = b

abbrev pub bucket_at : Text → List (Text × Bucket) → Bucket
bucket_at k stats = bucket_of (lookup k stats)

unfoldable pub snapshot : Text → ℕ → Distribution → ℕ × List ℕ
unfolding lookup normalize_counts
snapshot stat_key option_count d =
    let bucket = bucket_at stat_key d.stats in
    (bucket.total, normalize_counts bucket.counts option_count)

unfoldable pub reset_pending : Text → Distribution → Distribution
unfolding insert
reset_pending key d = record d { pending = insert key [] d.pending }

abbrev pub choices_of : Option (List Choice) → List Choice
choices_of none = []
choices_of (some cs) = cs

-- A choice out of range is dropped before the lock is taken.
unfoldable pub append_pending : Text → Text → ℤ → ℤ → Distribution → Distribution
unfolding lookup insert
append_pending key stat_key option_index option_count d =
    elim (index_below (to_ℕ option_count) option_index) [
      | none ↦ d
      | some index ↦
          let choice =
            let c : Choice = record {
              stat_key = stat_key;
              option_index = index;
              option_count = to_ℕ option_count;
            } in
            c in
          record d {
            pending = insert key (choices_of (lookup key d.pending) ++ choice ∷ []) d.pending;
          }
    ]

-- `counts[i] += 1`
unfoldable pub bump : ℕ → List ℕ → List ℕ
bump i [] = []
bump zero (c ∷ cs) = suc c ∷ cs
bump (suc i) (c ∷ cs) = c ∷ bump i cs

unfoldable pub commit_choice : Choice → List (Text × Bucket) → List (Text × Bucket)
unfolding lookup insert bump normalize_counts
commit_choice c stats =
    let bucket = bucket_at c.stat_key stats in
    insert c.stat_key
      (record {
        total = bucket.total + 1;
        counts = bump c.option_index (normalize_counts bucket.counts c.option_count);
      })
      stats

-- The loop of `commit_pending_distribution`, with the number of choices committed.
unfoldable pub commit_choices : List Choice → List (Text × Bucket) → List (Text × Bucket) × ℕ
unfolding commit_choice
commit_choices [] stats = (stats, 0)
commit_choices (c ∷ cs) stats =
    let skip = leb c.option_count 0 || leb c.option_count c.option_index in
    let (stats', n) = commit_choices cs (if skip then stats else commit_choice c stats) in
    (stats', if skip then n else n + 1)

unfoldable pub commit_pending : Text → Distribution → Distribution × ℕ
unfolding lookup insert commit_choices
commit_pending key d =
    let pending = choices_of (lookup key d.pending) in
    let (stats', n) = commit_choices pending d.stats in
    (record { stats = stats'; pending = insert key [] d.pending }, n)

-- ===== src/Task/Distribution/Tests.antt =====
-- One question with two options.
use fuck_wjx.Common.{ℕ, ◌+◌, ◌≡◌, refl, [], some, arith, length, get_or, pos}
use fuck_wjx.Common.Text.{Text, codes, text_eq}
use fuck_wjx.Common.Dict.{lookup, text_key_eq}
use fuck_wjx.Task.Distribution.Defs.{
  Distribution, empty, append_pending, commit_pending, choices_of, bucket_at,
}
use fuck_wjx.Task.Distribution.Totals.{IsCounted, AreChoices, chosen, answered, commit-counts_all}

abbrev worker : Text
worker = codes "Slot-1"

abbrev question : Text
question = codes "q:3"

abbrev two : Text → ℕ
two k = 2

-- One round with one choice, the second option.
abbrev answered_once : Distribution
answered_once = append_pending worker question (pos 1) (pos 2) empty

no_stats-IsCounted : IsCounted two []
unfolding lookup text_eq
no_stats-IsCounted = record { sized = λ k b e. ground (arith, e); summed = λ k. refl }

answered_once-AreChoices : AreChoices two (choices_of (lookup worker answered_once.pending))
unfolding append_pending lookup text_eq
answered_once-AreChoices = (refl, omega arith, tt)

commit-counts_all_example :
    let after = commit_pending worker answered_once in
    let round = choices_of (lookup worker answered_once.pending) in
    (get_or (bucket_at question after.0.stats).counts 1 0
      ≡ get_or (bucket_at question answered_once.stats).counts 1 0 + chosen question 1 round)
    × ((bucket_at question after.0.stats).total
        ≡ (bucket_at question answered_once.stats).total + answered question round)
    × (after.1 ≡ length round)
    × (lookup worker after.0.pending ≡ some [])
unfolding append_pending text_eq
commit-counts_all_example =
    commit-counts_all two worker answered_once question 1 no_stats-IsCounted
      answered_once-AreChoices

-- ===== src/Task/Distribution/Append.antt =====
-- Which choices a worker can append.
use fuck_wjx.Common.{
  ℕ, ◌<◌, ◌≡◌, List, [], ◌∷◌, ◌++◌, some, arith, ℤ, pos, negsuc, index_below, to_ℕ, inl, inr,
  Bool-cases, Option-cases,
}
use fuck_wjx.Common.Text.{Text, text_eq}
use fuck_wjx.Common.Dict.{lookup, text_key_eq, lookup-insert}
use fuck_wjx.Task.Distribution.Defs.{Choice, Distribution, choices_of, append_pending}
use fuck_wjx.Task.Distribution.Totals.{AreChoices}

AreChoices-snoc :
    (size : Text → ℕ) (cs : List Choice) (c : Choice)
    → AreChoices size cs
    → c.option_count ≡ size c.stat_key
    → c.option_index < c.option_count
    → AreChoices size (cs ++ c ∷ [])
AreChoices-snoc size [] c h e l = (e, l, tt)
AreChoices-snoc size (x ∷ cs) c h e l = (h.0, h.1, AreChoices-snoc size cs c h.2 e l)

index_below-lt : (n : ℕ) (z : ℤ) (i : ℕ) → index_below n z ≡ some i → i < n
index_below-lt n (pos m) i e = ground arith
index_below-lt n (negsuc m) i e = ground arith

-- What a worker appends, in range or not, keeps every worker's choices of options that their
-- questions have.
append-AreChoices :
    (size : Text → ℕ) (key stat_key : Text) (index option_count : ℤ) (d : Distribution)
    (other : Text)
    → to_ℕ option_count ≡ size stat_key
    → AreChoices size (choices_of (lookup key d.pending))
    → AreChoices size (choices_of (lookup other d.pending))
    → AreChoices size
        (choices_of (lookup other (append_pending key stat_key index option_count d).pending))
unfolding append_pending
append-AreChoices size key stat_key index n d other e mine theirs =
    elim (Option-cases (index_below (to_ℕ n) index)) [
      | inl out ↦ rw (out, append_pending) theirs
      | inr (i, within) ↦ elim (Bool-cases (text_eq key other)) [
        | inl same ↦
            rw (within, append_pending, lookup-insert, same)
              (AreChoices-snoc size (choices_of (lookup key d.pending)) _ mine e
                (index_below-lt (to_ℕ n) index i within))
        | inr differ ↦ rw (within, append_pending, lookup-insert, differ) theirs
      ]
    ]

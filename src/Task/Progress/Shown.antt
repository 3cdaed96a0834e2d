-- ===== src/Task/Progress/Shown.antt =====
-- What the snapshot of the progress rows shows: each worker's row, in the order of the sort.
use fuck_wjx.Common.{
  Bool, true, false, not, ◌&&◌, ◌||◌, List, [], ◌∷◌, some, ltb, leb, ◌==◌, ==_iff, ◌≡◌, refl, arith,
  Bool-cases, inl, inr,
}
use fuck_wjx.Common.Text.{Text, text_eq, text_eq_iff}
use fuck_wjx.Common.Dict.{lookup, text_key_eq}
use fuck_wjx.Task.Progress.Defs.{ThreadProgress, Threads}
use fuck_wjx.Task.Progress.Snapshot.{Row, row_of, row_before, insert_row, snapshot}

abbrev same_flag : Bool → Bool → Bool
same_flag true b = b
same_flag false b = not b

-- Whether a row shows what is stored of a worker; of the steps done it shows no more than there are,
-- where there are any.
unfoldable pub shows : ThreadProgress → Row → Bool
unfolding text_eq
shows t r =
    text_eq r.thread_name t.thread_name
    && r.thread_index == t.thread_index
    && r.success_count == t.success_count
    && r.fail_count == t.fail_count
    && r.step_total == t.step_total
    && (r.step_current == t.step_current
        || (ltb 0 t.step_total
            && ltb t.step_total t.step_current
            && r.step_current == t.step_total))
    && (t.step_total == 0 || leb r.step_current t.step_total)
    && text_eq r.status_text t.status_text
    && same_flag r.running t.running
    && r.last_update_ts == t.last_update_ts

unfoldable pub is_shown : ThreadProgress → List Row → Bool
unfolding shows
is_shown t [] = false
is_shown t (r ∷ rs) = shows t r || is_shown t rs

row_of-shows : (t : ThreadProgress) → shows t (row_of t) ≡ true
unfolding shows row_of
row_of-shows t = ground (
  arith,
  text_eq_iff t.thread_name t.thread_name,
  text_eq_iff t.status_text t.status_text,
  ==_iff t.thread_index t.thread_index,
  ==_iff t.success_count t.success_count,
  ==_iff t.fail_count t.fail_count,
  ==_iff t.step_total t.step_total,
  ==_iff t.last_update_ts t.last_update_ts,
  ==_iff t.step_current t.step_current,
)

insert_row-is_shown :
    (t : ThreadProgress) (r : Row) (rs : List Row)
    → is_shown t (insert_row r rs) ≡ (shows t r || is_shown t rs)
unfolding is_shown insert_row
insert_row-is_shown t r [] = refl
insert_row-is_shown t r (q ∷ qs) = ground (arith, insert_row-is_shown t r qs)

-- The snapshot has a row for each worker, which shows its name, index, counts, status and time as they
-- are stored, and of its steps no more done than there are, where there are any.
pub snapshot-is_shown :
    (threads : Threads) (k : Text) (t : ThreadProgress)
    → lookup k threads ≡ some t
    → is_shown t (snapshot threads) ≡ true
unfolding lookup snapshot
snapshot-is_shown [] k t e = ground (arith, e)
snapshot-is_shown ((key, u) ∷ threads) k t e = elim (Bool-cases (text_eq key k)) [
  | inl same ↦
      let found : u ≡ t = ground (arith, same, e) in
      ground (
        arith,
        found,
        row_of-shows t,
        row_of-shows u,
        insert_row-is_shown t (row_of u) (snapshot threads),
      )
  | inr other ↦ ground (
    arith,
    snapshot-is_shown threads k t (ground (arith, other, e)),
    insert_row-is_shown t (row_of u) (snapshot threads),
  )
]

-- No row stands behind one that it comes before.
unfoldable pub in_order : List Row → Bool
unfolding row_before
in_order [] = true
in_order (r ∷ []) = true
in_order (r ∷ q ∷ rs) = not (row_before q r) && in_order (q ∷ rs)

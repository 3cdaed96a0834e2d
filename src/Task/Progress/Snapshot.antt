-- ===== src/Task/Progress/Snapshot.antt =====
-- The rows as the user interface shows them: `snapshot_thread_progress`, sorted by index and name.
use fuck_wjx.Common.{
  ℕ, Bool, true, false, ◌&&◌, ◌||◌, List, [], ◌∷◌, ◌++◌, Option, none, some, if◌then◌else◌, ltb,
  leb, ◌==◌, min,
}
use fuck_wjx.Common.Text.{Text, codes, strip, or_else}
use fuck_wjx.Task.Progress.Defs.{ThreadProgress, Threads, after_prefix, decimal}

abbrev starts : Option Text → Bool
starts none = false
starts (some s) = true

unfoldable pub display_name : Text → ℕ → Text
unfolding strip after_prefix decimal
display_name thread_name index =
    let text = strip thread_name in
    if ltb 0 index
    then (if starts (after_prefix (codes "Slot-") text)
        then codes "会话 " ++ decimal index
        else codes "线程 " ++ decimal index)
    else if starts (after_prefix (codes "Worker-?") text)
    then codes "线程 ?"
    else if starts (after_prefix (codes "Slot-?") text)
    then codes "会话 ?"
    else or_else text (codes "线程 ?")

-- `step_percent` is computed with floating-point numbers and left out.
pub record Row : Type 0 where
  pub thread_name : Text
  pub display : Text
  pub thread_index : ℕ
  pub success_count : ℕ
  pub fail_count : ℕ
  pub step_current : ℕ
  pub step_total : ℕ
  pub status_text : Text
  pub running : Bool
  pub last_update_ts : ℕ

unfoldable pub row_of : ThreadProgress → Row
unfolding display_name
row_of t =
    let current = if ltb 0 t.step_total then min t.step_current t.step_total else t.step_current in
    record {
      thread_name = t.thread_name;
      display = display_name t.thread_name t.thread_index;
      thread_index = t.thread_index;
      success_count = t.success_count;
      fail_count = t.fail_count;
      step_current = current;
      step_total = t.step_total;
      status_text = t.status_text;
      running = t.running;
      last_update_ts = t.last_update_ts;
    }

-- The order of code points.
unfoldable pub text_before : Text → Text → Bool
text_before [] [] = false
text_before [] (d ∷ t) = true
text_before (c ∷ s) [] = false
text_before (c ∷ s) (d ∷ t) = ltb c d || (c == d && text_before s t)

-- A row without an index gets this one.
abbrev pub sort_index : ℕ → ℕ
sort_index n = if ltb 0 n then n else 1000000000

-- The key of the sort: rows with an index first, then by index, then by name.
unfoldable pub row_before : Row → Row → Bool
unfolding text_before
row_before a b =
    (ltb 0 a.thread_index && leb b.thread_index 0)
    || ((ltb 0 a.thread_index && ltb 0 b.thread_index
          || leb a.thread_index 0 && leb b.thread_index 0)
        && (ltb (sort_index a.thread_index) (sort_index b.thread_index)
            || (sort_index a.thread_index == sort_index b.thread_index
                && text_before a.thread_name b.thread_name)))

-- The sort is stable: a row goes before the first that is later.
unfoldable pub insert_row : Row → List Row → List Row
unfolding row_before
insert_row r [] = r ∷ []
insert_row r (q ∷ qs) = if row_before q r then q ∷ insert_row r qs else r ∷ q ∷ qs

unfoldable pub snapshot : Threads → List Row
unfolding row_of insert_row
snapshot [] = []
snapshot ((key, t) ∷ threads) = insert_row (row_of t) (snapshot threads)

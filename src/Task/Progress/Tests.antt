-- ===== src/Task/Progress/Tests.antt =====
-- Worker names, and the row of one worker.
use fuck_wjx.Common.{some, ℕ, ◌≤◌, ◌≡◌, refl, List, [], ◌∷◌, none, arith, pos, true}
use fuck_wjx.Common.Text.{Text, codes, text_eq}
use fuck_wjx.Common.Dict.{lookup, text_key_eq}
use fuck_wjx.Task.Progress.Defs.{Threads, ThreadProgress, resolve_thread_index, worker_name}
use fuck_wjx.Task.Progress.Snapshot.{snapshot}
use fuck_wjx.Task.Progress.Shown.{is_shown, snapshot-is_shown}
use fuck_wjx.Task.Progress.Rows.{Op, step, success, apply_all, apply_all-AllWithin}

slot_index_example : resolve_thread_index (codes " Slot-12") ≡ 12
unfolding resolve_thread_index
slot_index_example = refl

tail_index_example : resolve_thread_index (codes "pool7") ≡ 7
unfolding resolve_thread_index
tail_index_example = refl

worker_name_example : worker_name (codes "Slot") 12 ≡ codes "Slot-12"
unfolding fuck_wjx.Task.Progress.Defs.decimal
worker_name_example = refl

abbrev worker : Text
worker = codes "Slot-1"

-- Seven steps of five are reported.
abbrev calls : List (Op × ℕ)
calls = (step worker (pos 7) (pos 5) none none, 1) ∷ (success worker [], 2) ∷ []

abbrev row : ThreadProgress
row = record {
  thread_name = worker;
  thread_index = 1;
  owner_id = 0;
  success_count = 1;
  fail_count = 0;
  step_current = 5;
  step_total = 5;
  status_text = codes "提交成功";
  running = true;
  last_update_ts = 2;
}

apply_all-AllWithin_example : row.step_current ≤ row.step_total
unfolding apply_all lookup text_eq
apply_all-AllWithin_example = apply_all-AllWithin calls worker row refl (omega arith)

abbrev one_worker : Threads
one_worker = (worker, row) ∷ []

worker_found : lookup worker one_worker ≡ some row
unfolding lookup text_eq
worker_found = refl

snapshot-is_shown_example : is_shown row (snapshot one_worker) ≡ true
snapshot-is_shown_example = snapshot-is_shown one_worker worker row worker_found

-- An earlier worker without an index goes behind the other.
abbrev two_workers : Threads
two_workers =
    (codes "main", record row { thread_name = codes "main"; thread_index = 0 }) ∷ one_worker

-- ===== src/Task/Progress/Rows.antt =====
-- What the methods keep of the rows.
use fuck_wjx.Common.{
  ℕ, zero, suc, ◌≤◌, ◌<◌, ◌≡◌, inl, inr, Bool, List, [], ◌∷◌, Option, none, some, arith, Bool-cases,
  Option-cases, ℤ, to_ℕ, max,
}
use fuck_wjx.Common.Text.{Text, text_eq}
use fuck_wjx.Common.Dict.{lookup, insert, text_key_eq, lookup-insert}
use fuck_wjx.Task.Key.{progress_key}
use fuck_wjx.Task.Progress.Defs.{
  ThreadProgress, Threads, thread_state, modify, ensure_from, update_thread_status,
  update_thread_step, increment_thread_success, increment_thread_fail, write_status, write_step,
  write_success, write_fail, write_finished, worker_name, ensured, mark_thread_finished,
  ensure_worker_threads,
}

-- A row that has steps shows no more of them done than there are.
abbrev pub Within : ThreadProgress → Type 0
Within t = 0 < t.step_total → t.step_current ≤ t.step_total

abbrev pub AllWithin : Threads → Type 0
AllWithin threads = (k : Text) (t : ThreadProgress) → lookup k threads ≡ some t → Within t

insert-AllWithin :
    (key : Text) (t : ThreadProgress) (threads : Threads)
    → Within t
    → AllWithin threads
    → AllWithin (insert key t threads)
insert-AllWithin key t threads new old k u e = elim (Bool-cases (text_eq key k)) [
  | inl same ↦ λ pos. ground (arith, lookup-insert key k t threads, same, e, new)
  | inr other ↦ old k u (ground (arith, lookup-insert key k t threads, other, e))
]

thread_state-Within :
    (key : Text) (now : ℕ) (threads : Threads)
    → AllWithin threads
    → Within (thread_state key now threads)
unfolding thread_state
thread_state-Within key now threads h = elim (Option-cases (lookup key threads)) [
  | inl e ↦ λ pos. ground (arith, e)
  | inr (t, e) ↦ λ pos. ground (arith, e, h key t e)
]

modify-AllWithin :
    (name : Text) (now : ℕ) (f : ThreadProgress → ThreadProgress) (threads : Threads)
    → ((t : ThreadProgress) → Within t → Within (f t))
    → AllWithin threads
    → AllWithin (modify name now f threads)
unfolding modify
modify-AllWithin name now f threads keeps h =
    insert-AllWithin (progress_key name) _ threads
      (keeps _ (thread_state-Within (progress_key name) now threads h)) h

pub data Op : Type 0 where
  ensure : (expected_count : ℕ) (prefix : Text) → Op
  status : (name text : Text) (running : Option Bool) → Op
  step : (name : Text) (current total : ℤ) (text : Option Text) (running : Option Bool) → Op
  success fail finish : (name text : Text) → Op

-- One call of a method, at the time `now`.
unfoldable pub apply : Op → ℕ → Threads → Threads
unfolding ensure_worker_threads update_thread_status update_thread_step increment_thread_success
    increment_thread_fail mark_thread_finished
apply (ensure n prefix) now ts = ensure_worker_threads n prefix now ts
apply (status name text running) now ts = update_thread_status name text running now ts
apply (step name current total text running) now ts =
    update_thread_step name current total text running now ts
apply (success name text) now ts = increment_thread_success name text now ts
apply (fail name text) now ts = increment_thread_fail name text now ts
apply (finish name text) now ts = mark_thread_finished name text now ts

unfoldable pub apply_all : List (Op × ℕ) → Threads → Threads
unfolding apply
apply_all [] ts = ts
apply_all ((op, now) ∷ ops) ts = apply_all ops (apply op now ts)

ensure_from-AllWithin :
    (prefix : Text) (now idx n : ℕ) (threads : Threads)
    → AllWithin threads
    → AllWithin (ensure_from prefix now idx n threads)
unfolding ensure_from
ensure_from-AllWithin prefix now idx zero threads h = h
ensure_from-AllWithin prefix now idx (suc n) threads h =
    let name = worker_name prefix idx in
    let row = ensured (lookup name threads) name idx now in
    let row-Within : Within row = elim (Option-cases (lookup name threads)) [
      | inl e ↦ λ pos. ground (arith, e)
      | inr (t, e) ↦ λ pos. ground (arith, e, h name t e)
    ] in
    ensure_from-AllWithin prefix now (suc idx) n (insert name row threads)
      (insert-AllWithin name row threads row-Within h)

status-Within :
    (text : Text) (running : Option Bool) (now : ℕ) (t : ThreadProgress)
    → Within t
    → Within (write_status text running now t)
status-Within text none now t w pos = ground (arith, w)
status-Within text (some b) now t w pos = ground (arith, w)

step-Within :
    (current total : ℕ) (text : Option Text) (running : Option Bool) (now : ℕ) (t : ThreadProgress)
    → Within t
    → Within (write_step current total text running now t)
step-Within current total none none now t w pos = ground arith
step-Within current total none (some b) now t w pos = ground arith
step-Within current total (some s) none now t w pos = ground arith
step-Within current total (some s) (some b) now t w pos = ground arith

apply-AllWithin : (op : Op) (now : ℕ) (ts : Threads) → AllWithin ts → AllWithin (apply op now ts)
unfolding apply
apply-AllWithin (ensure n prefix) now ts h = ensure_from-AllWithin _ now 1 (max 1 n) ts h
apply-AllWithin (status name text running) now ts h =
    modify-AllWithin name now (write_status text running now) ts (status-Within text running now) h
apply-AllWithin (step name current total text running) now ts h =
    modify-AllWithin name now (write_step (to_ℕ current) (to_ℕ total) text running now) ts
      (step-Within (to_ℕ current) (to_ℕ total) text running now) h
apply-AllWithin (success name text) now ts h =
    modify-AllWithin name now (write_success text now) ts (λ t w pos. ground (arith, w)) h
apply-AllWithin (fail name text) now ts h =
    modify-AllWithin name now (write_fail text now) ts (λ t w pos. ground (arith, w)) h
apply-AllWithin (finish name text) now ts h =
    modify-AllWithin name now (write_finished text now) ts (λ t w pos. ground (arith, w)) h

apply_all-keeps : (ops : List (Op × ℕ)) (ts : Threads) → AllWithin ts → AllWithin (apply_all ops ts)
unfolding apply_all
apply_all-keeps [] ts h = h
apply_all-keeps ((op, now) ∷ ops) ts h =
    apply_all-keeps ops (apply op now ts) (apply-AllWithin op now ts h)

-- After any history of calls, no worker's row that has steps (a positive total) shows more steps
-- done than it has.
pub apply_all-AllWithin :
    (ops : List (Op × ℕ)) (k : Text) (t : ThreadProgress)
    → lookup k (apply_all ops []) ≡ some t
    → 0 < t.step_total
    → t.step_current ≤ t.step_total
unfolding lookup
apply_all-AllWithin ops = apply_all-keeps ops [] (λ k t e. ground (arith, e))

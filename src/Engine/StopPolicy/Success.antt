-- ===== src/Engine/StopPolicy/Success.antt =====
-- Successful submissions and the target.
use fuck_wjx.Common.{
  ℕ, ◌+◌, ◌≤◌, ◌≡◌, ◌&&◌, List, [], ◌∷◌, arith, if◌then◌else◌, ltb, leb, ◌==◌, min, length, ◌⊎◌,
}
use fuck_wjx.Common.Text.{Text}
use fuck_wjx.Task.Key.{Caller}
use fuck_wjx.Task.State.{ExecutionState, notify, mark_terminal_stop}
use fuck_wjx.Engine.StopPolicy.Defs.{
  Signal, set_signal, is_open, is_named, count_success, commit_worker, accept_success,
  record_success, trigger_target_reached_stop,
}
use fuck_wjx.Engine.StopPolicy.Frame.{commit_worker-Same}

trigger_counts :
    (message : Text) (s : ExecutionState) (signal : Signal)
    → let t = (trigger_target_reached_stop message (s, signal)).0 in
      (t.config ≡ s.config) × (t.cur_num ≡ s.cur_num) × (t.cur_fail ≡ s.cur_fail)
unfolding trigger_target_reached_stop mark_terminal_stop notify
trigger_counts message s signal = ground arith

trigger_signal :
    (message : Text) (s : ExecutionState) (signal : Signal)
    → (trigger_target_reached_stop message (s, signal)).1 ≡ set_signal signal
unfolding trigger_target_reached_stop
trigger_signal message s signal = ground arith

module _ (bridge : Signal → Signal) (status_text message : Text) (who : Caller) (now : ℕ)
    (s : ExecutionState) (signal : Signal) where
  committed : ExecutionState
  committed =
      if is_named who then commit_worker status_text who now (count_success s) else count_success s

  committed-counts :
      (committed.config ≡ s.config)
      × (committed.cur_num ≡ s.cur_num + 1)
      × (committed.cur_fail ≡ 0)
      × (committed.proxy_unavailable_fail_count ≡ 0)
  unfolding committed count_success
  committed-counts = ground (arith, commit_worker-Same status_text who now (count_success s))

  accept-counts :
      let t = (accept_success bridge status_text message who now (s, signal)).0.0 in
      (t.config ≡ s.config) × (t.cur_num ≡ s.cur_num + 1) × (t.cur_fail ≡ 0)
  unfolding accept_success committed
  accept-counts = ground (arith, committed-counts, trigger_counts message committed signal)

-- Recording a success adds one to the count while the target is not reached and changes it no more
-- afterwards, resets the failures in a row when it counts, and asks the run to stop exactly when
-- the count has reached a positive target.
pub record_success-counts :
    (bridge : Signal → Signal) (status_text message : Text) (who : Caller) (now : ℕ)
    (s : ExecutionState) (signal : Signal)
    → let r = record_success bridge status_text message who now (s, signal) in
      (r.0.0.config ≡ s.config)
      × (r.0.0.cur_num ≡ (if is_open s then s.cur_num + 1 else s.cur_num))
      × (r.0.0.cur_fail ≡ (if is_open s then 0 else s.cur_fail))
      × (r.1 ≡ (ltb 0 s.config.target_num && leb s.config.target_num r.0.0.cur_num))
unfolding record_success accept_success committed count_success
record_success-counts bridge status message who now s signal =
    let c = committed-counts bridge status message who now s signal in
    let t = trigger_counts message (committed bridge status message who now s signal) signal in
    ground (arith, c, t)

-- Successes of any workers, in order, with the answers that the policy gives.
unfoldable pub succeed :
    (Signal → Signal)
    → Text
    → Text
    → List (Caller × ℕ)
    → ExecutionState × Signal
    → ExecutionState × Signal
unfolding record_success
succeed bridge status message [] p = p
succeed bridge status message ((who, now) ∷ rest) p =
    succeed bridge status message rest (record_success bridge status message who now p).0

-- However many submissions succeed, the count never passes a positive target: it is the smaller of
-- the two; without a target it is the number of successes.
pub succeed-cur_num :
    (bridge : Signal → Signal) (status message : Text) (calls : List (Caller × ℕ))
    (s : ExecutionState) (signal : Signal)
    → s.config.target_num ≡ 0 ⊎ s.cur_num ≤ s.config.target_num
    → (succeed bridge status message calls (s, signal)).0.cur_num ≡ (
        if s.config.target_num == 0
        then s.cur_num + length calls
        else min s.config.target_num (s.cur_num + length calls))
unfolding succeed
succeed-cur_num bridge status message [] s signal h = ground arith
succeed-cur_num bridge status message ((who, now) ∷ rest) s signal h =
    let r = (record_success bridge status message who now (s, signal)).0 in
    ground (
      arith,
      record_success-counts bridge status message who now s signal,
      succeed-cur_num bridge status message rest r.0 r.1,
    )

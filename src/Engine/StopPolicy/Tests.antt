-- ===== src/Engine/StopPolicy/Tests.antt =====
-- A run with a target of one submission, and one named worker.
use fuck_wjx.Common.{
  ℕ, ◌+◌, ◌≡◌, refl, true, false, ◌&&◌, ◌||◌, inr, List, [], ◌∷◌, some, none, arith, if◌then◌else◌,
  ltb, leb, ◌==◌, min, length,
}
use fuck_wjx.Common.Text.{codes}
use fuck_wjx.Common.Dict.{lookup, text_key_eq}
use fuck_wjx.Task.Key.{Caller, thread_key}
use fuck_wjx.Task.State.{ExecutionConfig, ExecutionState, new_state}
use fuck_wjx.Task.Methods.{is_reverse_fill_target_unreachable}
use fuck_wjx.Engine.StopPolicy.Defs.{
  FailureReason, Failing, Signal, set_signal, is_open, stop_threshold, consecutive_failures,
  record_failure, record_success,
}
use fuck_wjx.Engine.StopPolicy.Success.{succeed, record_success-counts, succeed-cur_num}
use fuck_wjx.Engine.StopPolicy.Terminal.{failed, succeeded, handle_all, handle_all-terminal}
use fuck_wjx.Engine.StopPolicy.Failure.{
  released, row_in, record_failure-stops, record_failure-releases,
}

abbrev config : ExecutionConfig
config = record {
  target_num = 1;
  num_threads = 2;
  fail_threshold = 1;
  stop_on_fail_enabled = true;
  random_proxy_ip_enabled = false;
  reverse_fill_spec = none;
  proxy_ip_pool = [];
}

abbrev fresh : ExecutionState
fresh = new_state config

abbrev worker : Caller
worker = record { thread_name = some (codes "Slot-1"); current = codes "MainThread" }

abbrev unset : Signal
unset = some false

-- The handler that leaves the signal alone.
abbrev ignore : Signal → Signal
ignore signal = signal

abbrev calls : List (Caller × ℕ)
calls = (worker, 1) ∷ (worker, 2) ∷ []

abbrev fill_error : Failing
fill_error = record {
  failure_reason = FailureReason.fill_failed;
  status_text = codes "失败重试";
  log_message = [];
  threshold_override = none;
  terminal_stop_category = codes "fail_threshold";
  force_stop = false;
  consume_attempt = true;
  max_retries = 1;
}

-- The run was stopped by hand.
abbrev stopped : ExecutionState
stopped = record fresh {
  terminal = record { category = codes "user_stopped"; failure_reason = []; message = [] };
}

record_success-counts_example :
    let r = record_success ignore [] [] worker 1 (fresh, unset) in
    (r.0.0.config ≡ fresh.config)
    × (r.0.0.cur_num ≡ (if is_open fresh then fresh.cur_num + 1 else fresh.cur_num))
    × (r.0.0.cur_fail ≡ (if is_open fresh then 0 else fresh.cur_fail))
    × (r.1 ≡ (ltb 0 fresh.config.target_num && leb fresh.config.target_num r.0.0.cur_num))
record_success-counts_example = record_success-counts ignore [] [] worker 1 fresh unset

succeed-cur_num_example : (succeed ignore [] [] calls (fresh, unset)).0.cur_num ≡ (
    if fresh.config.target_num == 0
    then fresh.cur_num + length calls
    else min fresh.config.target_num (fresh.cur_num + length calls))
succeed-cur_num_example = succeed-cur_num ignore [] [] calls fresh unset (inr (omega arith))

handle_all-terminal_example :
    (handle_all ignore
      (succeeded [] [] worker 1 ∷ failed fill_error worker 2 ∷ [])
      (stopped, unset)).0.terminal
    ≡ stopped.terminal
handle_all-terminal_example =
    handle_all-terminal ignore (succeeded [] [] worker 1 ∷ failed fill_error worker 2 ∷ []) stopped
      unset refl

record_failure-stops_example :
    let r = record_failure fill_error worker 1 (fresh, unset) in
    (r.1 ≡ (
      is_reverse_fill_target_unreachable (released fill_error worker 1 fresh)
      || ((fresh.config.stop_on_fail_enabled || fill_error.force_stop)
          && leb
              (stop_threshold fill_error fresh.config)
              (consecutive_failures fill_error fresh + 1))))
    × (r.0.1 ≡ (if r.1 then set_signal unset else unset))
record_failure-stops_example = record_failure-stops fill_error worker 1 fresh unset

record_failure-releases_example :
    let t = (record_failure fill_error worker 1 (fresh, unset)).0.0 in
    (lookup (thread_key worker) t.joint.reserved ≡ none) × (row_in worker t.reverse_fill ≡ none)
record_failure-releases_example = record_failure-releases fill_error worker 1 fresh unset refl

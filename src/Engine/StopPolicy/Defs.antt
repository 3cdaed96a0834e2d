-- ===== src/Engine/StopPolicy/Defs.antt =====
-- `RunStopPolicy`: what a failed and a successful submission do to the run. A stop signal is an
-- event that may be missing: `some b` says whether it is set. Log output is left out.
use fuck_wjx.Common.{
  ℕ, ◌+◌, ◌/◌, Bool, true, false, not, ◌&&◌, ◌||◌, [], Option, none, some, if◌then◌else◌, ltb, leb,
  ◌==◌, max,
}
use fuck_wjx.Common.Text.{Text, codes, strip, or_else, text_of, is_empty}
use fuck_wjx.Task.Key.{Caller}
use fuck_wjx.Task.Progress.{increment_thread_fail, increment_thread_success}
use fuck_wjx.Task.State.{ExecutionConfig, ExecutionState, mark_terminal_stop}
use fuck_wjx.Task.Methods.{
  release_joint_sample, commit_joint_sample, release_reverse_fill_sample,
  commit_reverse_fill_sample, mark_reverse_fill_submission_failed, commit_pending_distribution,
  is_reverse_fill_target_unreachable, update_threads,
}

-- software/core/engine/failure_reason.py
pub data FailureReason : Type 0 where
  proxy_unavailable page_load_failed fill_failed : FailureReason
  submission_verification_required survey_provider_unavailable : FailureReason
  device_quota_limit user_stopped : FailureReason

abbrev pub reason_text : FailureReason → Text
reason_text proxy_unavailable = codes "proxy_unavailable"
reason_text page_load_failed = codes "page_load_failed"
reason_text fill_failed = codes "fill_failed"
reason_text submission_verification_required = codes "submission_verification_required"
reason_text survey_provider_unavailable = codes "survey_provider_unavailable"
reason_text device_quota_limit = codes "device_quota_limit"
reason_text user_stopped = codes "user_stopped"

abbrev is_proxy_unavailable : FailureReason → Bool
is_proxy_unavailable proxy_unavailable = true
is_proxy_unavailable _ = false

abbrev is_device_quota_limit : FailureReason → Bool
is_device_quota_limit device_quota_limit = true
is_device_quota_limit _ = false

abbrev pub Signal : Type 0
Signal = Option Bool

-- `if stop_signal: stop_signal.set()`
abbrev pub set_signal : Signal → Signal
set_signal none = none
set_signal (some b) = some true

unfoldable pub failure_threshold : ExecutionConfig → ℕ
failure_threshold config =
    let base_threshold = max 1 config.fail_threshold in
    let num_threads = max 1 config.num_threads in
    if ltb 10 num_threads then max base_threshold ((num_threads + 1) / 2) else base_threshold

unfoldable pub proxy_unavailable_threshold : ExecutionConfig → ℕ
unfolding failure_threshold
proxy_unavailable_threshold config =
    if not config.random_proxy_ip_enabled
    then failure_threshold config
    else max (failure_threshold config) config.num_threads

-- The keyword arguments of `record_failure`.
pub record Failing : Type 0 where
  pub failure_reason : FailureReason
  pub status_text : Text
  pub log_message : Text
  pub threshold_override : Option ℕ
  pub terminal_stop_category : Text
  pub force_stop : Bool
  pub consume_attempt : Bool
  pub max_retries : ℕ

-- `threshold_override or self.failure_threshold()`
abbrev override_or : Option ℕ → ℕ → ℕ
override_or none d = d
override_or (some n) d = if n == 0 then d else n

unfoldable pub stop_threshold : Failing → ExecutionConfig → ℕ
unfolding failure_threshold
stop_threshold f config = max 1 (override_or f.threshold_override (failure_threshold config))

-- The counters, under the lock.
unfoldable pub count_failure : Failing → ExecutionState → ExecutionState
count_failure f s =
    let counted =
      if is_proxy_unavailable f.failure_reason
      then record s { proxy_unavailable_fail_count = s.proxy_unavailable_fail_count + 1 }
      else record s { cur_fail = s.cur_fail + 1 } in
    if is_device_quota_limit f.failure_reason
    then record counted { device_quota_fail_count = counted.device_quota_fail_count + 1 }
    else counted

abbrev pub consecutive_failures : Failing → ExecutionState → ℕ
consecutive_failures f s =
    if is_proxy_unavailable f.failure_reason then s.proxy_unavailable_fail_count else s.cur_fail

-- `if thread_name:`
abbrev pub is_named : Caller → Bool
is_named who = not (is_empty (text_of who.thread_name))

-- What a named worker held is given back.
unfoldable pub release_worker : Failing → Caller → ℕ → ExecutionState → ExecutionState
unfolding release_joint_sample mark_reverse_fill_submission_failed release_reverse_fill_sample
    update_threads increment_thread_fail
release_worker f who now s =
    let released = (release_joint_sample who s).0 in
    let returned =
      if f.consume_attempt
      then (mark_reverse_fill_submission_failed who f.max_retries released).0
      else (release_reverse_fill_sample who true released).0 in
    update_threads (increment_thread_fail (text_of who.thread_name) f.status_text now) returned

-- The state and signal afterwards, and whether the run has to stop.
unfoldable pub record_failure :
    Failing → Caller → ℕ → ExecutionState × Signal → (ExecutionState × Signal) × Bool
unfolding stop_threshold count_failure release_worker is_reverse_fill_target_unreachable
    mark_terminal_stop strip
record_failure f who now (s, signal) =
    let counted = count_failure f s in
    let failures = consecutive_failures f counted in
    let released = if is_named who then release_worker f who now counted else counted in
    let enabled = s.config.stop_on_fail_enabled || f.force_stop in
    if is_reverse_fill_target_unreachable released
    then (
      (
        mark_terminal_stop (codes "reverse_fill_exhausted") (reason_text FailureReason.fill_failed)
            (codes "反填样本已耗尽，剩余样本不足以完成目标份数") false released,
        set_signal signal,
      ),
      true,
    )
    else if enabled && leb (stop_threshold f s.config) failures
    then (
      (
        mark_terminal_stop f.terminal_stop_category (reason_text f.failure_reason)
            (or_else (strip f.log_message) f.status_text) false released,
        set_signal signal,
      ),
      true,
    )
    else ((released, signal), false)

-- A second trigger only sets the signal.
unfoldable pub trigger_target_reached_stop :
    Text → ExecutionState × Signal → ExecutionState × Signal
unfolding mark_terminal_stop
trigger_target_reached_stop message (s, signal) =
    if s.target_reached_stop_triggered then (s, set_signal signal) else (
      mark_terminal_stop (codes "target_reached") [] message false
          (record s { target_reached_stop_triggered = true }),
      set_signal signal,
    )

-- What a named worker held is committed.
unfoldable pub commit_worker : Text → Caller → ℕ → ExecutionState → ExecutionState
unfolding commit_joint_sample commit_reverse_fill_sample commit_pending_distribution update_threads
    increment_thread_success
commit_worker status_text who now s =
    let slotted = (commit_joint_sample who s).0 in
    let rowed = (commit_reverse_fill_sample who slotted).0 in
    let counted = (commit_pending_distribution who rowed).0 in
    update_threads (increment_thread_success (text_of who.thread_name) status_text now) counted

-- Whether a submission still counts: `target_num <= 0 or cur_num < target_num`.
abbrev pub is_open : ExecutionState → Bool
is_open s = leb s.config.target_num 0 || ltb s.cur_num s.config.target_num

unfoldable pub count_success : ExecutionState → ExecutionState
count_success s = record s {
  cur_num = s.cur_num + 1;
  cur_fail = 0;
  proxy_unavailable_fail_count = 0;
}

-- `on_random_ip_submission` is the handler that the user interface gives: what it does to the
-- signal.
module _ (on_random_ip_submission : Signal → Signal) where
  -- The submission counts.
  unfoldable pub accept_success :
      Text → Text → Caller → ℕ → ExecutionState × Signal → (ExecutionState × Signal) × Bool
  accept_success status_text terminal_message who now (s, signal) =
      let counted = count_success s in
      let committed = if is_named who then commit_worker status_text who now counted else counted in
      let reached = ltb 0 s.config.target_num && leb s.config.target_num counted.cur_num in
      let (s', signal') =
        if reached
        then trigger_target_reached_stop terminal_message (committed, signal)
        else (committed, signal) in
      (
        (s', if s.config.random_proxy_ip_enabled then on_random_ip_submission signal' else signal'),
        reached,
      )

  -- A submission beyond the target is not counted.
  unfoldable pub record_success :
      Text → Text → Caller → ℕ → ExecutionState × Signal → (ExecutionState × Signal) × Bool
  unfolding accept_success
  record_success status_text terminal_message who now (s, signal) =
      if is_open s
      then accept_success status_text terminal_message who now (s, signal)
      else ((s, set_signal signal), true)

-- ===== src/Engine/Round/Handlers.antt =====
-- What an exception of the submission does: software/core/engine/runtime_error_handlers.py and the
-- handlers of `AsyncSlotRunner`. The text of an exception is part of it.
use fuck_wjx.Common.{ℕ, Bool, true, false, not, ◌&&◌, ◌++◌, Option, none, some, if◌then◌else◌}
use fuck_wjx.Common.Text.{Text, codes, strip, is_empty, or_else, text_of}
use fuck_wjx.Task.Progress.{increment_thread_fail}
use fuck_wjx.Task.Methods.{update_threads}
use fuck_wjx.Network.Session.{mark_temporarily_bad}
use fuck_wjx.Engine.StopPolicy.{FailureReason, Failing, proxy_unavailable_threshold, record_failure}
use fuck_wjx.Engine.StopPolicy.Defs.{set_signal, reason_text}
use fuck_wjx.Task.State.{ExecutionConfig}
use fuck_wjx.Engine.Round.Resources.{
  Shared, slot_caller, is_set, on_state, state_of, update_status, release_joint, release_row,
  stop_with,
}

pub data Raised : Type 0 where
  ai_error : (timed_out : Bool) (text : Text) → Raised
  verification_required provider_unavailable transport_error other_error : (text : Text) → Raised

-- The defaults of `record_failure`, with no reverse-fill attempt consumed, as in every call here.
abbrev pub failing : FailureReason → Text → Failing
failing reason log_message = record {
  failure_reason = reason;
  status_text = codes "失败重试";
  log_message = log_message;
  threshold_override = none;
  terminal_stop_category = codes "fail_threshold";
  force_stop = false;
  consume_attempt = false;
  max_retries = 1;
}

-- `handle_ai_runtime_error`; `AI_FILL_FAIL_THRESHOLD` is 5.
unfoldable pub ai_failing : Bool → Text → Failing
ai_failing timed_out text =
    record (failing FailureReason.fill_failed (
      (if timed_out
        then codes "AI调用超时，本轮按失败处理；连续达到 5 次才停止："
        else codes "AI填空失败，本轮按失败处理；连续达到 5 次才停止：")
      ++ text)) {
        status_text = (if timed_out then codes "AI超时" else codes "AI失败");
        threshold_override = some 5;
        terminal_stop_category = codes "free_ai_unstable";
        force_stop = true;
      }

-- `if stopped: stop_event.set()`
unfoldable pub stop_if : Shared × Bool → Shared × Bool
stop_if ((s, signal), stopped) = ((s, if stopped then set_signal signal else signal), stopped)

abbrev pub proxy_failing : Text → Text → ExecutionConfig → Failing
proxy_failing status_text log_message config =
    record (failing FailureReason.proxy_unavailable log_message) {
      status_text = status_text;
      threshold_override = some (proxy_unavailable_threshold config);
      terminal_stop_category = codes "proxy_unavailable_threshold";
    }

-- `_handle_proxy_unavailable`: `_record_bad_proxy_and_maybe_pause` answers no.
unfoldable pub handle_proxy_unavailable : Text → Text → Text → ℕ → Shared → Shared × Bool
unfolding record_failure stop_if proxy_unavailable_threshold
handle_proxy_unavailable slot_label status_text log_message now p = stop_if (
    record_failure (proxy_failing status_text log_message (state_of p).config)
      (slot_caller slot_label) now p)

-- The two handlers that always stop the run: give back, count the failure, mark the stop.
unfoldable pub give_up : Text → Text → Text → Text → Text → ℕ → Shared → Shared × Bool
unfolding release_joint release_row update_threads increment_thread_fail stop_with
give_up slot_label status_text category reason message now p =
    let released = release_row slot_label (release_joint slot_label p) in
    let counted =
      on_state (update_threads (increment_thread_fail slot_label status_text now)) released in
    (stop_with category reason message counted, true)

-- The proxy address of the session, empty without one.
unfoldable pub mark_bad : Option Text → ℕ → Shared → Shared
unfolding mark_temporarily_bad
mark_bad none now p = p
mark_bad (some address) now p = on_state (mark_temporarily_bad address 180000 now) p

-- `if self.proxy_session.proxy_address:`
abbrev pub has_proxy : Option Text → Bool
has_proxy proxy_address = not (is_empty (text_of proxy_address))

abbrev pub verification_failing : Text → Failing
verification_failing text =
    record (failing FailureReason.submission_verification_required
      (codes "当前随机 IP 触发问卷星智能验证，本轮丢弃并更换 IP：" ++ text)) {
        status_text = codes "触发验证，换IP";
        terminal_stop_category = codes "submission_verification_threshold";
        force_stop = true;
      }

unfoldable pub handle_verification : Text → Option Text → Text → ℕ → Shared → Shared × Bool
unfolding mark_bad record_failure stop_if give_up strip
handle_verification slot_label proxy_address text now p =
    if (state_of p).config.random_proxy_ip_enabled && has_proxy proxy_address
    then stop_if (
        record_failure (verification_failing text) (slot_caller slot_label) now
          (mark_bad proxy_address now p))
    else give_up slot_label (codes "触发智能验证") (codes "submission_verification")
        (reason_text FailureReason.submission_verification_required)
        (or_else (strip text) (codes "提交触发智能验证，请启用随机 IP 后再试")) now p

-- What the slot does with an exception: whether it breaks out of its loop.
unfoldable pub handle_raised : Text → Option Text → Raised → ℕ → Shared → Shared × Bool
unfolding ai_failing record_failure handle_verification give_up strip mark_bad
    handle_proxy_unavailable
handle_raised slot_label proxy_address (ai_error timed_out text) now p =
    record_failure (ai_failing timed_out text) (slot_caller slot_label) now p
handle_raised slot_label proxy_address (verification_required text) now p =
    handle_verification slot_label proxy_address text now p
handle_raised slot_label proxy_address (provider_unavailable text) now p =
    give_up slot_label (codes "问卷不可填写") (codes "survey_provider_unavailable")
      (reason_text FailureReason.survey_provider_unavailable)
      (or_else (strip text) (codes "问卷当前不可填写")) now p
handle_raised slot_label proxy_address (transport_error text) now p =
    handle_proxy_unavailable slot_label
      (if has_proxy proxy_address then codes "代理连接失败" else codes "网络请求失败")
      (codes "HTTP 请求失败，本轮按失败处理：" ++ text) now
      (if has_proxy proxy_address then mark_bad proxy_address now p else p)
handle_raised slot_label proxy_address (other_error text) now p = elim (is_set p.1) [
  | true ↦ (p, true)
  | false ↦
      record_failure (failing FailureReason.fill_failed (codes "HTTP 提交失败，本轮按失败处理：" ++ text))
        (slot_caller slot_label) now p
]

abbrev pub blocked_failing : Text → Failing
blocked_failing message = record (failing FailureReason.fill_failed message) {
  status_text = codes "纯 HTTP 不支持";
  terminal_stop_category = codes "http_runtime_only";
  force_stop = true;
}

-- `_block_http_runtime`
unfoldable pub block_http_runtime : Text → Text → ℕ → Shared → Shared
unfolding strip update_status record_failure stop_with
block_http_runtime slot_label reason now p =
    let message = or_else (strip reason) (codes "当前问卷不支持纯 HTTP 提交") in
    let failed =
      record_failure (blocked_failing message) (slot_caller slot_label) now
        (update_status slot_label (codes "纯 HTTP 不支持") false now p) in
    stop_with (codes "http_runtime_only") (reason_text FailureReason.fill_failed) message failed.0

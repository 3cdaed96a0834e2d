-- ===== src/Engine/Slot/Attempt.antt =====
-- The stretches of one attempt, after software/core/engine/async_runtime_loop.py, with the session
-- of async_proxy_session.py and the progress steps of software/providers/http_progress.py.
use fuck_wjx.Common.{
  ℕ, ◌+◌, Bool, true, not, ◌&&◌, ◌||◌, List, [], ◌∷◌, Option, none, some, if◌then◌else◌, ltb, pos,
}
use fuck_wjx.Common.Text.{Text, codes, is_empty, strip, text_eq}
use fuck_wjx.Task.Progress.{update_thread_step, mark_thread_finished}
use fuck_wjx.Task.Methods.{
  update_threads, mark_joint_sample_answering, mark_successful_proxy_address, release_proxy_in_use,
  reset_pending_distribution, get_terminal_stop_snapshot,
}
use fuck_wjx.Engine.StopPolicy.{record_success}
use fuck_wjx.Engine.StopPolicy.Defs.{Signal}
use fuck_wjx.Engine.Round.{
  Shared, slot_caller, is_set, release_joint, release_row, release_round_resources, update_step,
  on_state, retry_ticks, Raised, handle_raised, has_proxy,
}

-- How an attempt ends: the slot goes on after a delay, or leaves its loop.
pub data Ending : Type 0 where
  again : (delay : ℕ) → Ending
  leave : Ending

-- `HTTP_SUBMIT_STEPS`
abbrev http_submit_steps : List Text
http_submit_steps = codes "准备请求" ∷ codes "生成答案" ∷ codes "提交问卷" ∷ codes "校验结果" ∷ []

-- `HTTP_SUBMIT_STEPS.index(label) + 1`, or 0
unfoldable step_number : ℕ → Text → List Text → ℕ
step_number n label [] = 0
step_number n label (step ∷ steps) =
    let rest = step_number (n + 1) label steps in if text_eq label step then n else rest

unfoldable pub update_http_submit_step : Text → Text → ℕ → Shared → Shared
unfolding strip step_number update_threads update_thread_step
update_http_submit_step slot_label step_label now = on_state (
    update_threads (
      update_thread_step slot_label (pos (step_number 1 (strip step_label) http_submit_steps))
        (pos 4) (some (strip step_label)) (some true) now))

unfoldable pub reset_pending : Text → Shared → Shared
unfolding reset_pending_distribution
reset_pending slot_label = on_state (reset_pending_distribution (slot_caller slot_label))

unfoldable pub mark_answering : Text → Shared → Shared × Bool
unfolding mark_joint_sample_answering
mark_answering slot_label (s, signal) =
    let (s', marked) = mark_joint_sample_answering (slot_caller slot_label) s in
    ((s', signal), marked)

-- After the proxy is chosen: the attempt ends, or the answers are submitted.
unfoldable pub enter : Text → ℕ → Option Text → Shared → Shared × Option Ending
unfolding release_round_resources mark_answering
enter slot_label sample_count proxy_address p =
    if is_set p.1
    then (p, some leave)
    else if p.0.config.random_proxy_ip_enabled && not (has_proxy proxy_address)
    then (release_round_resources slot_label p, some (again 0))
    else let (p', marked) = mark_answering slot_label p in
      if ltb 0 sample_count && not marked
      then (release_round_resources slot_label p', some (again retry_ticks))
      else (p', none)

unfoldable pub mark_successful_proxy : Option Text → Shared → Shared
unfolding mark_successful_proxy_address
mark_successful_proxy none p = p
mark_successful_proxy (some address) p =
    if is_empty address then p else on_state (λ s. (mark_successful_proxy_address address s).0) p

-- `delay` is what `_resolve_dispatch_delay_seconds` draws.
unfoldable pub submit_done :
    (Signal → Signal) → Text → Option Text → Bool → ℕ → ℕ → Shared → Shared × Ending
unfolding release_round_resources mark_successful_proxy record_success update_step
submit_done bridge slot_label proxy_address finished delay now p =
    if is_set p.1 || not finished
    then (release_round_resources slot_label p, if is_set p.1 then leave else again 0)
    else let (p', stop) =
        record_success bridge (codes "提交成功") (codes "目标份数已达成") (slot_caller slot_label) now
          (mark_successful_proxy proxy_address p) in
      if stop
      then (p', leave)
      else (if ltb 0 delay then update_step slot_label (codes "等待提交间隔") now p' else p', again delay)

unfoldable pub submit_raised : Text → Option Text → Raised → ℕ → Shared → Shared × Ending
unfolding handle_raised release_round_resources
submit_raised slot_label proxy_address raised now p =
    let (p', stop) = handle_raised slot_label proxy_address raised now p in
    if stop then (p', leave) else (release_round_resources slot_label p', again 0)

-- `release_current_proxy`
unfoldable pub release_current_proxy : Text → Option Text → Shared → Shared
unfolding release_proxy_in_use
release_current_proxy slot_label proxy_address p =
    if has_proxy proxy_address then on_state (λ s. (release_proxy_in_use slot_label s).0) p else p

unfoldable pub finished_text : Shared → Text
unfolding strip get_terminal_stop_snapshot
finished_text (s, signal) =
    if is_set signal && text_eq (strip (get_terminal_stop_snapshot s).0) (codes "target_reached")
    then codes "已完成"
    else codes "已停止"

-- What a slot does when it has left its loop.
unfoldable pub close_slot : Text → ℕ → Shared → Shared
unfolding release_joint release_row finished_text update_threads mark_thread_finished
close_slot slot_label now p =
    let released = release_row slot_label (release_joint slot_label p) in
    on_state (update_threads (mark_thread_finished slot_label (finished_text released) now))
      released

-- ===== src/Engine/Round/Resources.antt =====
-- `AsyncRoundResources`: the joint slot and the reverse-fill row of a round. A coroutine runs alone
-- between two waits, so each function here is one such stretch. A clock tick is a millisecond. The
-- stop event is set at once, where `ThreadEventProxy` sets it at the next turn of the loop.
use fuck_wjx.Common.{
  ℕ, Bool, true, false, not, ◌&&◌, [], Option, none, some, if◌then◌else◌, ltb, leb, pos,
}
use fuck_wjx.Common.Text.{Text, codes}
use fuck_wjx.Task.Key.{Caller}
use fuck_wjx.Task.Joint
use fuck_wjx.Task.ReverseFill.{Status, AcquireResult}
use fuck_wjx.Task.Progress.{update_thread_status, update_thread_step}
use fuck_wjx.Task.State.{ExecutionState, mark_terminal_stop}
use fuck_wjx.Task.Methods.{
  update_threads, reserve_joint_sample, release_joint_sample,
  expire_stale_joint_sample_reservations, acquire_reverse_fill_sample, release_reverse_fill_sample,
}
use fuck_wjx.Engine.StopPolicy.{FailureReason, trigger_target_reached_stop}
use fuck_wjx.Engine.StopPolicy.Defs.{Signal, set_signal, reason_text}

-- The state of the run and its stop event.
abbrev pub Shared : Type 0
Shared = ExecutionState × Signal

abbrev pub state_of : Shared → ExecutionState
state_of p = p.0

abbrev pub on_state : (ExecutionState → ExecutionState) → Shared → Shared
on_state f (s, signal) = (f s, signal)

-- The slots run on the thread of the engine.
abbrev pub slot_caller : Text → Caller
slot_caller slot_label = record {
  thread_name = some slot_label;
  current = codes "AsyncRuntimeEngine";
}

abbrev pub is_set : Signal → Bool
is_set none = false
is_set (some b) = b

abbrev pub is_some : Option ℕ → Bool
is_some none = false
is_some (some n) = true

-- `JOINT_PRE_ANSWER_RESERVATION_LEASE_SECONDS`
abbrev pub lease_ticks : ℕ
lease_ticks = 45000

-- `JOINT_PRE_ANSWER_ATTEMPT_REQUEUE_DELAY_SECONDS`
abbrev pub retry_ticks : ℕ
retry_ticks = 200

unfoldable pub update_status : Text → Text → Bool → ℕ → Shared → Shared
unfolding update_threads update_thread_status
update_status slot_label status_text running now (s, signal) =
    (update_threads (update_thread_status slot_label status_text (some running) now) s, signal)

unfoldable pub update_step : Text → Text → ℕ → Shared → Shared
unfolding update_threads update_thread_step
update_step slot_label status_text now (s, signal) = (
  update_threads (update_thread_step slot_label (pos 0) (pos 0) (some status_text) (some true) now)
      s,
  signal,
)

abbrev pub is_reached : ExecutionState → Bool
is_reached s = ltb 0 s.config.target_num && leb s.config.target_num s.cur_num

-- `_should_stop_loop`, after the pause.
unfoldable pub should_stop_loop : Shared → Shared × Bool
unfolding trigger_target_reached_stop
should_stop_loop (s, signal) =
    if is_set signal
    then ((s, signal), true)
    else if is_reached s
    then (trigger_target_reached_stop (codes "目标份数已达成") (s, signal), true)
    else ((s, signal), false)

-- The run is stopped for a reason: the mark, and the event.
unfoldable pub stop_with : Text → Text → Text → Shared → Shared
unfolding mark_terminal_stop
stop_with category reason message (s, signal) =
    (mark_terminal_stop category reason message false s, set_signal signal)

unfoldable pub release_joint : Text → Shared → Shared
unfolding release_joint_sample
release_joint slot_label (s, signal) = ((release_joint_sample (slot_caller slot_label) s).0, signal)

unfoldable pub release_row : Text → Shared → Shared
unfolding release_reverse_fill_sample
release_row slot_label (s, signal) =
    ((release_reverse_fill_sample (slot_caller slot_label) true s).0, signal)

-- Every call of the engine passes `requeue_reverse_fill=True`.
unfoldable pub release_round_resources : Text → Shared → Shared
unfolding release_joint release_row
release_round_resources slot_label p = release_row slot_label (release_joint slot_label p)

-- What an iteration of `prepare_round_context` comes to: an answer, or a wait and another one.
pub data Prepared : Type 0 where
  ready refused retry : Prepared

abbrev pub is_acquired : Status → Bool
is_acquired Status.acquired = true
is_acquired _ = false

-- No joint slot is free.
unfoldable pub without_slot : Text → ℕ → ℕ → Status → Shared → Shared × Prepared
unfolding release_row stop_with update_status Joint.quota_exhausted
without_slot slot_label sample_count now status p =
    let p' = if is_acquired status then release_row slot_label p else p in
    if Joint.quota_exhausted sample_count (state_of p').joint
    then (
      update_status slot_label (codes "信效度配额已完成") false now
          (stop_with (codes "target_reached") [] (codes "联合信效度样本槽位已全部完成") p'),
      refused,
    )
    else (update_status slot_label (codes "等待信效度配额槽位") true now p', retry)

-- The joint slot is held, or none is wanted.
unfoldable pub with_slot : Text → Bool → ℕ → Status → Shared → Shared × Prepared
unfolding release_joint stop_with update_status
with_slot slot_label reserved now Status.acquired p = (p, ready)
with_slot slot_label reserved now Status.disabled p = (p, ready)
with_slot slot_label reserved now Status.waiting p = (
  update_status slot_label (codes "等待反填样本") true now
      (if reserved then release_joint slot_label p else p),
  retry,
)
with_slot slot_label reserved now Status.exhausted p = (
  update_status slot_label (codes "反填样本不足") false now (
      stop_with (codes "reverse_fill_exhausted") (reason_text FailureReason.fill_failed)
        (codes "反填样本已耗尽，剩余样本不足以完成目标份数") (if reserved then release_joint slot_label p else p)),
  refused,
)

unfoldable pub expire_stale : ℕ → Shared → Shared
unfolding expire_stale_joint_sample_reservations
expire_stale now (s, signal) = (
  (expire_stale_joint_sample_reservations lease_ticks now (codes "AsyncRuntimeEngine") s).0,
  signal,
)

unfoldable pub reserve_joint : Text → ℕ → ℕ → Shared → Shared × Option ℕ
unfolding reserve_joint_sample
reserve_joint slot_label sample_count now (s, signal) =
    if ltb 0 sample_count
    then (let (s', index) = reserve_joint_sample sample_count now (slot_caller slot_label) s in
        ((s', signal), index))
    else ((s, signal), none)

unfoldable pub acquire_row : Text → Shared → Shared × AcquireResult
unfolding acquire_reverse_fill_sample
acquire_row slot_label (s, signal) =
    let (s', result) = acquire_reverse_fill_sample (slot_caller slot_label) s in
    ((s', signal), result)

-- One pass of the loop of `prepare_round_context`. `sample_count` is that of the joint answer plan,
-- or 0 without a plan.
unfoldable pub prepare_iteration : Text → ℕ → ℕ → Shared → Shared × Prepared
unfolding should_stop_loop expire_stale reserve_joint acquire_row without_slot with_slot
prepare_iteration slot_label sample_count now p =
    let (p0, stop) = should_stop_loop p in
    if stop
    then (p0, refused)
    else let (p1, index) = reserve_joint slot_label sample_count now (expire_stale now p0) in
      let (p2, row) = acquire_row slot_label p1 in
      if ltb 0 sample_count && not (is_some index)
      then without_slot slot_label sample_count now row.status p2
      else with_slot slot_label (is_some index) now row.status p2

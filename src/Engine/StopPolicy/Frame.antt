-- ===== src/Engine/StopPolicy/Frame.antt =====
-- Which fields the steps of the policy leave alone.
use fuck_wjx.Common.{ℕ, ◌≡◌, Bool, true, arith, Bool-cases, inl, inr}
use fuck_wjx.Common.Text.{Text, text_of}
use fuck_wjx.Task.Progress.{Threads, increment_thread_fail, increment_thread_success}
use fuck_wjx.Task.Key.{Caller}
use fuck_wjx.Task.State.{ExecutionState, notify}
use fuck_wjx.Task.Methods.{
  release_joint_sample, commit_joint_sample, release_reverse_fill_sample,
  commit_reverse_fill_sample, mark_reverse_fill_submission_failed, commit_pending_distribution,
  update_threads,
}
use fuck_wjx.Engine.StopPolicy.Defs.{Failing, release_worker, commit_worker}

-- The counters, the target and the mark of the target stay.
pub record Same (s t : ExecutionState) : Type 0 where
  pub config : t.config ≡ s.config
  pub cur_num : t.cur_num ≡ s.cur_num
  pub cur_fail : t.cur_fail ≡ s.cur_fail
  pub proxy_fail : t.proxy_unavailable_fail_count ≡ s.proxy_unavailable_fail_count
  pub terminal : t.terminal ≡ s.terminal
  pub triggered : t.target_reached_stop_triggered ≡ s.target_reached_stop_triggered

Same-trans : {r s t : ExecutionState} → Same r s → Same s t → Same r t
Same-trans p q = ground (arith)

release_joint-Same : (who : Caller) (s : ExecutionState) → Same s (release_joint_sample who s).0
unfolding release_joint_sample notify
release_joint-Same who s = ground arith

release_row-Same :
    (who : Caller) (b : Bool) (s : ExecutionState) → Same s (release_reverse_fill_sample who b s).0
unfolding release_reverse_fill_sample notify
release_row-Same who b s = ground arith

fail_row-Same :
    (who : Caller) (n : ℕ) (s : ExecutionState)
    → Same s (mark_reverse_fill_submission_failed who n s).0
unfolding mark_reverse_fill_submission_failed notify
fail_row-Same who n s = ground arith

commit_joint-Same : (who : Caller) (s : ExecutionState) → Same s (commit_joint_sample who s).0
unfolding commit_joint_sample notify
commit_joint-Same who s = ground arith

commit_row-Same : (who : Caller) (s : ExecutionState) → Same s (commit_reverse_fill_sample who s).0
unfolding commit_reverse_fill_sample notify
commit_row-Same who s = ground arith

commit_choices-Same :
    (who : Caller) (s : ExecutionState) → Same s (commit_pending_distribution who s).0
unfolding commit_pending_distribution
commit_choices-Same who s = ground arith

threads-Same : (f : Threads → Threads) (s : ExecutionState) → Same s (update_threads f s)
unfolding update_threads notify
threads-Same f s = ground arith

pub release_worker-Same :
    (f : Failing) (who : Caller) (now : ℕ) (s : ExecutionState)
    → Same s (release_worker f who now s)
unfolding release_worker
release_worker-Same f who now s =
    let released = (release_joint_sample who s).0 in
    let consumed = (mark_reverse_fill_submission_failed who f.max_retries released).0 in
    let requeued = (release_reverse_fill_sample who true released).0 in
    let write = increment_thread_fail (text_of who.thread_name) f.status_text now in
    elim (Bool-cases f.consume_attempt) [
      | inl e ↦ rw e (
          Same-trans (release_joint-Same who s)
            (Same-trans (fail_row-Same who f.max_retries released) (threads-Same write consumed)))
      | inr e ↦ rw e (
          Same-trans (release_joint-Same who s)
            (Same-trans (release_row-Same who true released) (threads-Same write requeued)))
    ]

pub commit_worker-Same :
    (status_text : Text) (who : Caller) (now : ℕ) (s : ExecutionState)
    → Same s (commit_worker status_text who now s)
unfolding commit_worker
commit_worker-Same status_text who now s =
    let slotted = (commit_joint_sample who s).0 in
    let rowed = (commit_reverse_fill_sample who slotted).0 in
    let counted = (commit_pending_distribution who rowed).0 in
    Same-trans (commit_joint-Same who s) (
      Same-trans (commit_row-Same who slotted) (
        Same-trans (commit_choices-Same who rowed) (
          threads-Same (increment_thread_success (text_of who.thread_name) status_text now)
            counted)))

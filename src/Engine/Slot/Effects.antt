-- ===== src/Engine/Slot/Effects.antt =====
-- A relation between the states before and after that every call of a slot keeps, and the quiet
-- steps of the policy and of the proxy pool.
use fuck_wjx.Common.{
  ℕ, ℤ, ◌≡◌, Bool, true, Option, none, some, arith, inl, inr, Option-cases, index_below, to_ℕ,
}
use fuck_wjx.Common.Text.{Text}
use fuck_wjx.Task.Proxy
use fuck_wjx.Task.Proxy.{Proxies, ProxyLease}
use fuck_wjx.Task.Progress.{Threads}
use fuck_wjx.Task.Key.{Caller}
use fuck_wjx.Task.State.{notify, mark_terminal_stop}
use fuck_wjx.Task.Methods.{
  update_threads, mark_reverse_fill_submission_failed, commit_joint_sample,
  commit_reverse_fill_sample, commit_pending_distribution, mark_proxy_in_cooldown,
  mark_successful_proxy_address, append_pending_distribution_choice,
}
use fuck_wjx.Network.Session.{mark_temporarily_bad, discard_unresponsive}
use fuck_wjx.Engine.StopPolicy.{trigger_target_reached_stop}
use fuck_wjx.Engine.StopPolicy.Defs.{Failing, count_failure, count_success, is_open}
use fuck_wjx.Engine.Round.{
  Shared, slot_caller, is_set, release_joint, release_row, update_status, update_step,
  should_stop_loop, stop_with,
}
use fuck_wjx.Engine.Round.Resources.{expire_stale, reserve_joint, acquire_row}
use fuck_wjx.Engine.Slot.Attempt.{
  mark_answering, release_current_proxy, update_http_submit_step, reset_pending,
  mark_successful_proxy,
}
use fuck_wjx.Engine.Slot.Defs.{record_choice}
use fuck_wjx.Engine.Round.Handlers.{mark_bad}

-- What workers hold, the target and the count stay, and a stop event that is set stays set.
pub record Quiet (p q : Shared) : Type 0 where
  pub target : q.0.config.target_num ≡ p.0.config.target_num
  pub cur_num : q.0.cur_num ≡ p.0.cur_num
  pub joint : q.0.joint ≡ p.0.joint
  pub reverse_fill : q.0.reverse_fill ≡ p.0.reverse_fill
  pub in_use : q.0.proxies.in_use ≡ p.0.proxies.in_use
  pub stop : is_set p.1 ≡ true → is_set q.1 ≡ true

-- The calls through which a slot changes what it holds or the count keep the relation, but for the
-- one that marks a proxy as the slot's.
pub record Closed (slot_label : Text) (R : Shared → Shared → Type 0) : Type 0 where
  pub trans : (p q r : Shared) → R p q → R q r → R p r
  pub quiet : (p q : Shared) → Quiet p q → R p q
  pub released_joint : (p : Shared) → R p (release_joint slot_label p)
  pub released_row : (p : Shared) → R p (release_row slot_label p)
  pub failed_row :
      (n : ℕ) (p : Shared)
      → R p ((mark_reverse_fill_submission_failed (slot_caller slot_label) n p.0).0, p.1)
  pub committed_joint :
      (p : Shared) → R p ((commit_joint_sample (slot_caller slot_label) p.0).0, p.1)
  pub committed_row :
      (p : Shared) → R p ((commit_reverse_fill_sample (slot_caller slot_label) p.0).0, p.1)
  pub reserved : (n now : ℕ) (p : Shared) → R p (reserve_joint slot_label n now p).0
  pub expired : (now : ℕ) (p : Shared) → R p (expire_stale now p)
  pub acquired : (p : Shared) → R p (acquire_row slot_label p).0
  pub answering : (p : Shared) → R p (mark_answering slot_label p).0
  pub counted : (p : Shared) → is_open p.0 ≡ true → R p (count_success p.0, p.1)
  pub unused : (a : Option Text) (p : Shared) → R p (release_current_proxy slot_label a p)

pub Quiet-refl : (p : Shared) → Quiet p p
Quiet-refl p = ground arith

pub threads-Quiet : (f : Threads → Threads) (p : Shared) → Quiet p (update_threads f p.0, p.1)
unfolding update_threads notify
threads-Quiet f p = ground arith

pub status-Quiet :
    (l text : Text) (b : Bool) (now : ℕ) (p : Shared) → Quiet p (update_status l text b now p)
unfolding update_status notify
status-Quiet l text b now p = ground arith

pub step-Quiet : (l text : Text) (now : ℕ) (p : Shared) → Quiet p (update_step l text now p)
unfolding update_step notify
step-Quiet l text now p = ground arith

pub http_step-Quiet :
    (l text : Text) (now : ℕ) (p : Shared) → Quiet p (update_http_submit_step l text now p)
unfolding update_http_submit_step notify
http_step-Quiet l text now p = ground arith

pub reset-Quiet : (l : Text) (p : Shared) → Quiet p (reset_pending l p)
unfolding reset_pending
reset-Quiet l p = ground arith

pub stop_with-Quiet : (c r m : Text) (p : Shared) → Quiet p (stop_with c r m p)
unfolding stop_with mark_terminal_stop notify
stop_with-Quiet c r m (s, none) = ground arith
stop_with-Quiet c r m (s, some b) = ground arith

pub trigger-Quiet : (m : Text) (p : Shared) → Quiet p (trigger_target_reached_stop m p)
unfolding trigger_target_reached_stop mark_terminal_stop notify
trigger-Quiet m (s, none) = ground arith
trigger-Quiet m (s, some b) = ground arith

pub should_stop-Quiet : (p : Shared) → Quiet p (should_stop_loop p).0
unfolding should_stop_loop
should_stop-Quiet (s, signal) =
    ground (arith, Quiet-refl (s, signal), λ (m : Text). trigger-Quiet m (s, signal))

pub failure-Quiet : (f : Failing) (p : Shared) → Quiet p (count_failure f p.0, p.1)
unfolding count_failure
failure-Quiet f p = ground arith

pub choices-Quiet :
    (who : Caller) (p : Shared) → Quiet p ((commit_pending_distribution who p.0).0, p.1)
unfolding commit_pending_distribution
choices-Quiet who p = ground arith

pub choice-Quiet : (k : Text) (i n : ℤ) (p : Shared) → Quiet p (record_choice k i n p)
unfolding record_choice append_pending_distribution_choice
choice-Quiet k i n p = elim (Option-cases (index_below (to_ℕ n) i)) [
  | inl e ↦ rw (e, record_choice) (Quiet-refl p)
  | inr (index, e) ↦ ground (arith, e)
]

pub successful-Quiet : (a : Option Text) (p : Shared) → Quiet p (mark_successful_proxy a p)
unfolding mark_successful_proxy mark_successful_proxy_address Proxy.mark_successful_locked notify
successful-Quiet none p = ground arith
successful-Quiet (some a) p = ground arith

pub bad-Quiet : (a : Option Text) (now : ℕ) (p : Shared) → Quiet p (mark_bad a now p)
unfolding mark_bad mark_temporarily_bad mark_proxy_in_cooldown Proxy.mark_in_cooldown_locked
    discard_unresponsive notify
bad-Quiet none now p = ground arith
bad-Quiet (some a) now p = ground arith

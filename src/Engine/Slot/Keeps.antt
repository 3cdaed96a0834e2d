-- ===== src/Engine/Slot/Keeps.antt =====
-- A closed relation holds between the states before and after a failure or a success is recorded.
use fuck_wjx.Common.{
  ℕ, ◌≡◌, Bool, true, false, none, some, arith, if◌then◌else◌, Bool-cases, inl, inr,
}
use fuck_wjx.Common.Text.{Text}
use fuck_wjx.Task.Progress.{increment_thread_fail, increment_thread_success}
use fuck_wjx.Task.State.{ExecutionState, mark_terminal_stop, notify}
use fuck_wjx.Task.Methods.{
  release_joint_sample, release_reverse_fill_sample, mark_reverse_fill_submission_failed,
  commit_joint_sample, commit_reverse_fill_sample, commit_pending_distribution,
}
use fuck_wjx.Engine.StopPolicy.{Failing, record_failure, record_success}
use fuck_wjx.Engine.StopPolicy.Defs.{
  Signal, set_signal, count_failure, count_success, is_open, is_named, release_worker,
  commit_worker, accept_success, trigger_target_reached_stop,
}
use fuck_wjx.Engine.Round.{Shared, slot_caller, is_set, release_joint, release_row}
use fuck_wjx.Engine.Slot.Effects.{
  Quiet, Closed, Quiet-refl, threads-Quiet, trigger-Quiet, failure-Quiet, choices-Quiet,
}

mark-Quiet :
    (c r m : Text) (s : ExecutionState) (g : Signal)
    → Quiet (s, g) (mark_terminal_stop c r m false s, set_signal g)
unfolding mark_terminal_stop notify
mark-Quiet c r m s none = ground arith
mark-Quiet c r m s (some b) = ground arith

pub set-Quiet : (s : ExecutionState) (g : Signal) → Quiet (s, g) (s, set_signal g)
set-Quiet s none = ground arith
set-Quiet s (some b) = ground arith

module _ (slot_label : Text) (R : Shared → Shared → Type 0) (c : Closed slot_label R) where
  pub quiet_then : (p q r : Shared) → Quiet p q → R q r → R p r
  quiet_then p q r a b = c.trans p q r (c.quiet p q a) b

  pub then_quiet : (p q r : Shared) → R p q → Quiet q r → R p r
  then_quiet p q r a b = c.trans p q r a (c.quiet q r b)

  pub either : (b : Bool) (p q r : Shared) → R p q → R p r → R p (if b then q else r)
  either true p q r a e = a
  either false p q r a e = e

  release_worker-R :
      (f : Failing) (now : ℕ) (s : ExecutionState) (g : Signal)
      → R (s, g) (release_worker f (slot_caller slot_label) now s, g)
  unfolding release_worker release_joint release_row
  release_worker-R f now s g =
      let t = (release_joint_sample (slot_caller slot_label) s).0 in
      let write = increment_thread_fail slot_label f.status_text now in
      let failed =
        (mark_reverse_fill_submission_failed (slot_caller slot_label) f.max_retries t).0 in
      let back = (release_reverse_fill_sample (slot_caller slot_label) true t).0 in
      c.trans (s, g) (t, g) _ (c.released_joint (s, g))
        (elim (Bool-cases f.consume_attempt) [
          | inl e ↦ rw e (
              then_quiet (t, g) (failed, g) _ (c.failed_row f.max_retries (t, g))
                (threads-Quiet write (failed, g)))
          | inr e ↦ rw e (
              then_quiet (t, g) (back, g) _ (c.released_row (t, g)) (threads-Quiet write (back, g)))
        ])

  abbrev given_back : Failing → ℕ → ExecutionState → ExecutionState
  given_back f now s =
      if is_named (slot_caller slot_label)
      then release_worker f (slot_caller slot_label) now (count_failure f s)
      else count_failure f s

  given_back-R :
      (f : Failing) (now : ℕ) (s : ExecutionState) (g : Signal) → R (s, g) (given_back f now s, g)
  given_back-R f now s g =
      quiet_then (s, g) (count_failure f s, g) _ (failure-Quiet f (s, g))
        (elim (Bool-cases (is_named (slot_caller slot_label))) [
          | inl e ↦ rw e (release_worker-R f now (count_failure f s) g)
          | inr e ↦ rw e (c.quiet _ _ (Quiet-refl (count_failure f s, g)))
        ])

  failure_stop-Quiet :
      (f : Failing) (now : ℕ) (s : ExecutionState) (g : Signal)
      → Quiet (given_back f now s, g) (record_failure f (slot_caller slot_label) now (s, g)).0
  unfolding record_failure
  failure_stop-Quiet f now s g = ground (
    arith,
    λ (a b m : Text). mark-Quiet a b m (given_back f now s) g,
    Quiet-refl (given_back f now s, g),
  )

  pub record_failure-R :
      (f : Failing) (now : ℕ) (p : Shared) → R p (record_failure f (slot_caller slot_label) now p).0
  record_failure-R f now (s, g) =
      then_quiet (s, g) (given_back f now s, g) _ (given_back-R f now s g)
        (failure_stop-Quiet f now s g)

  commit_worker-R :
      (status_text : Text) (now : ℕ) (s : ExecutionState) (g : Signal)
      → R (s, g) (commit_worker status_text (slot_caller slot_label) now s, g)
  unfolding commit_worker
  commit_worker-R status_text now s g =
      let who = slot_caller slot_label in
      let slotted = (commit_joint_sample who s).0 in
      let rowed = (commit_reverse_fill_sample who slotted).0 in
      let counted = (commit_pending_distribution who rowed).0 in
      c.trans (s, g) (slotted, g) _ (c.committed_joint (s, g))
        (c.trans (slotted, g) (rowed, g) _ (c.committed_row (slotted, g))
          (quiet_then (rowed, g) (counted, g) _ (choices-Quiet who (rowed, g))
            (c.quiet _ _
              (threads-Quiet (increment_thread_success slot_label status_text now) (counted, g)))))

  abbrev pub taken : Text → ℕ → ExecutionState → ExecutionState
  taken status_text now s =
      if is_named (slot_caller slot_label)
      then commit_worker status_text (slot_caller slot_label) now (count_success s)
      else count_success s

  taken-R :
      (status_text : Text) (now : ℕ) (s : ExecutionState) (g : Signal)
      → is_open s ≡ true
      → R (s, g) (taken status_text now s, g)
  taken-R status_text now s g h =
      c.trans (s, g) (count_success s, g) _ (c.counted (s, g) h)
        (elim (Bool-cases (is_named (slot_caller slot_label))) [
          | inl e ↦ rw e (commit_worker-R status_text now (count_success s) g)
          | inr e ↦ rw e (c.quiet _ _ (Quiet-refl (count_success s, g)))
        ])

  module _ (bridge : Signal → Signal)
      (mono : (g : Signal) → is_set g ≡ true → is_set (bridge g) ≡ true) where
    pub accept-Quiet :
        (status_text message : Text) (now : ℕ) (s : ExecutionState) (g : Signal)
        → Quiet
            (taken status_text now s, g)
            (accept_success bridge status_text message (slot_caller slot_label) now (s, g)).0
    unfolding accept_success
    accept-Quiet status_text message now s g =
        let t = taken status_text now s in
        ground (
          arith,
          trigger-Quiet message (t, g),
          mono g,
          mono (trigger_target_reached_stop message (t, g)).1,
        )

    pub record_success-R :
        (status_text message : Text) (now : ℕ) (p : Shared)
        → R p (record_success bridge status_text message (slot_caller slot_label) now p).0
    unfolding record_success
    record_success-R status_text message now (s, g) = elim (Bool-cases (is_open s)) [
      | inl e ↦ rw e (
          then_quiet (s, g) (taken status_text now s, g) _ (taken-R status_text now s g e)
            (accept-Quiet status_text message now s g))
      | inr e ↦ rw e (c.quiet (s, g) (s, set_signal g) (set-Quiet s g))
    ]

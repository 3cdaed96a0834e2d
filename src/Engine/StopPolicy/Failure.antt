-- ===== src/Engine/StopPolicy/Failure.antt =====
-- Failed submissions: what they release, when they stop the run, and that the first stop stays.
use fuck_wjx.Common.{
  ℕ, ◌+◌, ◌≡◌, inl, inr, Bool, true, ◌&&◌, ◌||◌, Option, none, some, arith, if◌then◌else◌, leb,
  Option-cases,
}
use fuck_wjx.Common.Text.{Text, text_eq_iff}
use fuck_wjx.Common.Dict.{lookup, text_key_eq, lookup-erase}
use fuck_wjx.Task.Key.{Caller, thread_key}
use fuck_wjx.Task.Joint
use fuck_wjx.Task.ReverseFill
use fuck_wjx.Task.State.{ExecutionState, notify, mark_terminal_stop}
use fuck_wjx.Task.Methods.{
  release_joint_sample, release_reverse_fill_sample, mark_reverse_fill_submission_failed,
  update_threads, is_reverse_fill_target_unreachable,
}
use fuck_wjx.Engine.StopPolicy.Defs.{
  Failing, Signal, set_signal, stop_threshold, count_failure, consecutive_failures, is_named,
  release_worker, record_failure,
}

-- The state before the decision: the failure counted, the worker's resources given back.
abbrev pub released : Failing → Caller → ℕ → ExecutionState → ExecutionState
released f who now s =
    if is_named who then release_worker f who now (count_failure f s) else count_failure f s

count_failure-frame :
    (f : Failing) (s : ExecutionState)
    → ((count_failure f s).config ≡ s.config)
      × ((count_failure f s).terminal ≡ s.terminal)
      × ((count_failure f s).cur_num ≡ s.cur_num)
unfolding count_failure
count_failure-frame f s = ground arith

-- A failure stops the run, and sets the signal, exactly when the reverse-fill rows can no longer
-- reach the target, or stopping is enabled and the failures in a row have reached the threshold.
pub record_failure-stops :
    (f : Failing) (who : Caller) (now : ℕ) (s : ExecutionState) (signal : Signal)
    → let r = record_failure f who now (s, signal) in
      (r.1 ≡ (
        is_reverse_fill_target_unreachable (released f who now s)
        || ((s.config.stop_on_fail_enabled || f.force_stop)
            && leb (stop_threshold f s.config) (consecutive_failures f s + 1))))
      × (r.0.1 ≡ (if r.1 then set_signal signal else signal))
unfolding record_failure count_failure
record_failure-stops f who now s signal = ground arith

-- The joint slot and the row of the worker, after each of its steps.
module _ (who : Caller) where
  abbrev slot_of : ExecutionState → Option ℕ
  slot_of s = lookup (thread_key who) s.joint.reserved

  abbrev pub row_in : Option ReverseFill.Runtime → Option ℕ
  row_in none = none
  row_in (some rt) = lookup (thread_key who) rt.reserved

  pub release-slot : (s : ExecutionState) → slot_of (release_joint_sample who s).0 ≡ none
  unfolding release_joint_sample Joint.release_locked notify
  release-slot s =
      let key = thread_key who in
      ground (arith, text_eq_iff key key, lookup-erase key key s.joint.reserved)

  pub release_row-slot :
      (b : Bool) (s : ExecutionState) → slot_of (release_reverse_fill_sample who b s).0 ≡ slot_of s
  unfolding release_reverse_fill_sample notify
  release_row-slot b s = ground arith

  fail_row-slot :
      (n : ℕ) (s : ExecutionState)
      → slot_of (mark_reverse_fill_submission_failed who n s).0 ≡ slot_of s
  unfolding mark_reverse_fill_submission_failed notify
  fail_row-slot n s = ground arith

  release_locked-row :
      (key : Text) (b : Bool) (rt : ReverseFill.Runtime)
      → lookup key (ReverseFill.release_locked key b rt).0.reserved ≡ none
  unfolding ReverseFill.release_locked
  release_locked-row key b rt = elim (Option-cases (lookup key rt.reserved)) [
    | inl e ↦ ground (arith, e)
    | inr (row, e) ↦ ground (arith, e, text_eq_iff key key, lookup-erase key key rt.reserved)
  ]

  fail_locked-row :
      (key : Text) (n : ℕ) (rt : ReverseFill.Runtime)
      → lookup key (ReverseFill.fail_locked key n rt).0.reserved ≡ none
  unfolding ReverseFill.fail_locked
  fail_locked-row key n rt = elim (Option-cases (lookup key rt.reserved)) [
    | inl e ↦ ground (arith, e)
    | inr (row, e) ↦ ground (arith, e, text_eq_iff key key, lookup-erase key key rt.reserved)
  ]

  pub release-row :
      (b : Bool) (s : ExecutionState)
      → row_in (release_reverse_fill_sample who b s).0.reverse_fill ≡ none
  unfolding release_reverse_fill_sample notify
  release-row b s = elim (Option-cases s.reverse_fill) [
    | inl e ↦ ground (arith, e)
    | inr (rt, e) ↦ ground (arith, e, release_locked-row (thread_key who) b rt)
  ]

  fail-row :
      (n : ℕ) (s : ExecutionState)
      → row_in (mark_reverse_fill_submission_failed who n s).0.reverse_fill ≡ none
  unfolding mark_reverse_fill_submission_failed notify
  fail-row n s = elim (Option-cases s.reverse_fill) [
    | inl e ↦ ground (arith, e)
    | inr (rt, e) ↦ ground (arith, e, fail_locked-row (thread_key who) n rt)
  ]

  released-free :
      (f : Failing) (now : ℕ) (s : ExecutionState)
      → (slot_of (release_worker f who now s) ≡ none)
        × (row_in (release_worker f who now s).reverse_fill ≡ none)
  unfolding release_worker update_threads notify
  released-free f now s =
      let s' = (release_joint_sample who s).0 in
      ground (
        arith,
        release-slot s,
        release_row-slot true s',
        fail_row-slot f.max_retries s',
        release-row true s',
        fail-row f.max_retries s',
      )

mark-keeps :
    (c r m : Text) (b : Bool) (s : ExecutionState)
    → ((mark_terminal_stop c r m b s).joint ≡ s.joint)
      × ((mark_terminal_stop c r m b s).reverse_fill ≡ s.reverse_fill)
unfolding mark_terminal_stop notify
mark-keeps c r m b s = ground arith

record_failure-keeps :
    (f : Failing) (who : Caller) (now : ℕ) (s : ExecutionState) (signal : Signal)
    → let t = (record_failure f who now (s, signal)).0.0 in
      (t.joint ≡ (released f who now s).joint)
      × (t.reverse_fill ≡ (released f who now s).reverse_fill)
unfolding record_failure mark_terminal_stop notify
record_failure-keeps f who now s signal = ground arith

-- After a failure, whether or not it stops the run, the named worker holds no joint slot and no
-- reverse-fill row.
pub record_failure-releases :
    (f : Failing) (who : Caller) (now : ℕ) (s : ExecutionState) (signal : Signal)
    → is_named who ≡ true
    → let t = (record_failure f who now (s, signal)).0.0 in
      (lookup (thread_key who) t.joint.reserved ≡ none) × (row_in who t.reverse_fill ≡ none)
record_failure-releases f who now s signal named =
    let free = released-free who f now (count_failure f s) in
    let keeps = record_failure-keeps f who now s signal in
    (ground (arith, free.0, keeps.0), ground (arith, free.1, keeps.1))

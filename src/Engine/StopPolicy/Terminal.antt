-- ===== src/Engine/StopPolicy/Terminal.antt =====
-- The reason for which a run was stopped first is the one that stays.
use fuck_wjx.Common.{ℕ, ◌≡◌, refl, ◌∙◌, Bool, true, false, not, List, [], ◌∷◌, arith, if◌then◌else◌}
use fuck_wjx.Common.Text.{Text, is_empty}
use fuck_wjx.Task.Key.{Caller}
use fuck_wjx.Task.State.{ExecutionState, mark_terminal_stop}
use fuck_wjx.Engine.StopPolicy.Defs.{
  Failing, Signal, count_failure, is_named, release_worker, record_failure, record_success,
  accept_success, commit_worker, count_success, trigger_target_reached_stop,
}
use fuck_wjx.Engine.StopPolicy.Frame.{release_worker-Same, commit_worker-Same}

-- A stop is marked.
abbrev pub is_stopped : ExecutionState → Bool
is_stopped s = not (is_empty s.terminal.category)

mark-terminal :
    (c r m : Text) (s : ExecutionState)
    → is_stopped s ≡ true
    → (mark_terminal_stop c r m false s).terminal ≡ s.terminal
unfolding mark_terminal_stop
mark-terminal c r m s h = ground arith

trigger-terminal :
    (message : Text) (s : ExecutionState) (signal : Signal)
    → is_stopped s ≡ true
    → (trigger_target_reached_stop message (s, signal)).0.terminal ≡ s.terminal
unfolding trigger_target_reached_stop mark_terminal_stop
trigger-terminal message s signal h = ground arith

count-terminal : (f : Failing) (s : ExecutionState) → (count_failure f s).terminal ≡ s.terminal
unfolding count_failure
count-terminal f s = ground arith

released-terminal :
    (f : Failing) (who : Caller) (now : ℕ) (s : ExecutionState)
    → (if is_named who
        then release_worker f who now (count_failure f s)
        else count_failure f s).terminal
      ≡ s.terminal
released-terminal f who now s =
    ground (arith, count-terminal f s, release_worker-Same f who now (count_failure f s))

failure-terminal :
    (f : Failing) (who : Caller) (now : ℕ) (s : ExecutionState) (signal : Signal)
    → is_stopped s ≡ true
    → (record_failure f who now (s, signal)).0.0.terminal ≡ s.terminal
unfolding record_failure mark_terminal_stop
failure-terminal f who now s signal h = ground (arith, released-terminal f who now s)

success-terminal :
    (bridge : Signal → Signal) (status message : Text) (who : Caller) (now : ℕ) (s : ExecutionState)
    (signal : Signal)
    → is_stopped s ≡ true
    → (record_success bridge status message who now (s, signal)).0.0.terminal ≡ s.terminal
unfolding record_success accept_success count_success
success-terminal bridge status message who now s signal h =
    let counted = count_success s in
    let named = commit_worker status who now counted in
    ground (
      arith,
      commit_worker-Same status who now counted,
      trigger-terminal message counted signal,
      trigger-terminal message named signal,
    )

-- What the workers report to the policy.
pub data Event : Type 0 where
  failed : (f : Failing) (who : Caller) (now : ℕ) → Event
  succeeded : (status message : Text) (who : Caller) (now : ℕ) → Event
  target_reached : (message : Text) → Event

unfoldable pub handle :
    (Signal → Signal) → Event → ExecutionState × Signal → ExecutionState × Signal
unfolding record_failure record_success trigger_target_reached_stop
handle bridge (failed f who now) p = (record_failure f who now p).0
handle bridge (succeeded status message who now) p =
    (record_success bridge status message who now p).0
handle bridge (target_reached message) p = trigger_target_reached_stop message p

unfoldable pub handle_all :
    (Signal → Signal) → List Event → ExecutionState × Signal → ExecutionState × Signal
unfolding handle
handle_all bridge [] p = p
handle_all bridge (e ∷ es) p = handle_all bridge es (handle bridge e p)

handle-terminal :
    (bridge : Signal → Signal) (e : Event) (s : ExecutionState) (signal : Signal)
    → is_stopped s ≡ true
    → (handle bridge e (s, signal)).0.terminal ≡ s.terminal
unfolding handle
handle-terminal bridge (failed f who now) s signal h = failure-terminal f who now s signal h
handle-terminal bridge (succeeded status message who now) s signal h =
    success-terminal bridge status message who now s signal h
handle-terminal bridge (target_reached message) s signal h = trigger-terminal message s signal h

-- Once a stop is marked, no later failure, success or reached target changes its category, reason
-- or message.
pub handle_all-terminal :
    (bridge : Signal → Signal) (es : List Event) (s : ExecutionState) (signal : Signal)
    → is_stopped s ≡ true
    → (handle_all bridge es (s, signal)).0.terminal ≡ s.terminal
unfolding handle_all
handle_all-terminal bridge [] s signal h = refl
handle_all-terminal bridge (e ∷ es) s signal h =
    let p = handle bridge e (s, signal) in
    let same = handle-terminal bridge e s signal h in
    handle_all-terminal bridge es p.0 p.1 (rw same h) ∙ same

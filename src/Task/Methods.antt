-- ===== src/Task/Methods.antt =====
-- The methods of `ExecutionState`: each runs the locked section of its mixin and then notifies the
-- waiters where the source does.
use fuck_wjx.Common.{
  ℕ, Bool, true, false, not, List, [], ◌∷◌, Option, none, some, if◌then◌else◌, length, leb, ℤ,
}
use fuck_wjx.Common.Text.{Text, codes, strip, is_empty}
use fuck_wjx.Task.Key.{Caller, thread_key}
use fuck_wjx.Task.ReverseFill
use fuck_wjx.Task.Joint
use fuck_wjx.Task.Distribution
use fuck_wjx.Task.Proxy
use fuck_wjx.Task.Proxy.{ProxyLease}
use fuck_wjx.Task.Progress.{Threads}
use fuck_wjx.Task.State.{ExecutionState, notify}

abbrev pub notify_if : Bool → ExecutionState → ExecutionState
notify_if b s = if b then notify s else s

abbrev is_some : {A : Type 0} → Option A → Bool
is_some none = false
is_some (some a) = true

-- software/core/task/reverse_fill_state.py

unfoldable pub initialize_reverse_fill_runtime : ExecutionState → ExecutionState
unfolding ReverseFill.create notify
initialize_reverse_fill_runtime s =
    notify (record s { reverse_fill = ReverseFill.create s.config.reverse_fill_spec })

unfoldable pub acquire_reverse_fill_sample :
    Caller → ExecutionState → ExecutionState × ReverseFill.AcquireResult
unfolding ReverseFill.acquire_locked thread_key
acquire_reverse_fill_sample who s = elim s.reverse_fill [
  | none ↦ (
    s,
    record {
      status = ReverseFill.Status.disabled;
      sample = none;
      message = codes "reverse_fill_disabled";
    },
  )
  | some rt ↦
      let (rt', result) =
        ReverseFill.acquire_locked s.cur_num s.config.target_num (thread_key who) rt in
      (record s { reverse_fill = some rt' }, result)
]

unfoldable pub release_reverse_fill_sample :
    Caller → Bool → ExecutionState → ExecutionState × Option ℕ
unfolding ReverseFill.release_locked thread_key notify
release_reverse_fill_sample who requeue s = elim s.reverse_fill [
  | none ↦ (s, none)
  | some rt ↦
      let (rt', row) = ReverseFill.release_locked (thread_key who) requeue rt in
      (notify_if (is_some row) (record s { reverse_fill = some rt' }), row)
]

unfoldable pub commit_reverse_fill_sample : Caller → ExecutionState → ExecutionState × Option ℕ
unfolding ReverseFill.commit_locked thread_key notify
commit_reverse_fill_sample who s = elim s.reverse_fill [
  | none ↦ (s, none)
  | some rt ↦
      let (rt', row) = ReverseFill.commit_locked (thread_key who) rt in
      (notify_if (is_some row) (record s { reverse_fill = some rt' }), row)
]

unfoldable pub mark_reverse_fill_submission_failed :
    Caller → ℕ → ExecutionState → ExecutionState × (Option ℕ × Bool)
unfolding ReverseFill.fail_locked thread_key notify
mark_reverse_fill_submission_failed who max_retries s = elim s.reverse_fill [
  | none ↦ (s, (none, false))
  | some rt ↦
      let (rt', result) = ReverseFill.fail_locked (thread_key who) max_retries rt in
      (notify_if (is_some result.0) (record s { reverse_fill = some rt' }), result)
]

unfoldable pub get_reverse_fill_answer : ℕ → Caller → ExecutionState → Option ReverseFill.Answer
unfolding ReverseFill.answer_locked thread_key
get_reverse_fill_answer question_num who s = elim s.reverse_fill [
  | none ↦ none
  | some rt ↦ ReverseFill.answer_locked (thread_key who) question_num rt
]

unfoldable pub is_reverse_fill_target_unreachable : ExecutionState → Bool
unfolding ReverseFill.unreachable
is_reverse_fill_target_unreachable s =
    ReverseFill.unreachable s.cur_num s.config.target_num s.reverse_fill

-- software/core/task/distribution_state.py

unfoldable pub reset_pending_distribution : Caller → ExecutionState → ExecutionState
unfolding Distribution.reset_pending thread_key
reset_pending_distribution who s = record s {
  distribution = Distribution.reset_pending (thread_key who) s.distribution;
}

unfoldable pub append_pending_distribution_choice :
    Text → ℤ → ℤ → Caller → ExecutionState → ExecutionState
unfolding Distribution.append_pending thread_key
append_pending_distribution_choice stat_key option_index option_count who s = record s {
  distribution =
      Distribution.append_pending (thread_key who) stat_key option_index option_count
        s.distribution;
}

unfoldable pub commit_pending_distribution : Caller → ExecutionState → ExecutionState × ℕ
unfolding Distribution.commit_pending thread_key
commit_pending_distribution who s =
    let (d, n) = Distribution.commit_pending (thread_key who) s.distribution in
    (record s { distribution = d }, n)

unfoldable pub reserve_joint_sample : ℕ → ℕ → Caller → ExecutionState → ExecutionState × Option ℕ
unfolding Joint.reserve_locked thread_key
reserve_joint_sample sample_count now who s =
    let (j, index) = Joint.reserve_locked sample_count now (thread_key who) s.joint in
    (record s { joint = j }, index)

unfoldable pub mark_joint_sample_answering : Caller → ExecutionState → ExecutionState × Bool
unfolding Joint.mark_answering_locked thread_key
mark_joint_sample_answering who s =
    let (j, marked) = Joint.mark_answering_locked (thread_key who) s.joint in
    (record s { joint = j }, marked)

unfoldable pub release_joint_sample : Caller → ExecutionState → ExecutionState × Option ℕ
unfolding Joint.release_locked thread_key notify
release_joint_sample who s =
    let (j, index) = Joint.release_locked (thread_key who) s.joint in
    (notify_if (is_some index) (record s { joint = j }), index)

unfoldable pub commit_joint_sample : Caller → ExecutionState → ExecutionState × Option ℕ
unfolding Joint.commit_locked thread_key notify
commit_joint_sample who s =
    let (j, index) = Joint.commit_locked (thread_key who) s.joint in
    (notify_if (is_some index) (record s { joint = j }), index)

-- The rows of the expired workers go back to the queue.
unfoldable pub release_rows : Text → List Text → ExecutionState → ExecutionState
unfolding release_reverse_fill_sample
release_rows current [] s = s
release_rows current (key ∷ keys) s =
    release_rows current keys
      (release_reverse_fill_sample (record { thread_name = some key; current = current }) true s).0

unfoldable pub expire_stale_joint_sample_reservations :
    ℕ → ℕ → Text → ExecutionState → ExecutionState × ℕ
unfolding Joint.expire_locked release_rows notify
expire_stale_joint_sample_reservations max_age now current s =
    let (j, expired) = Joint.expire_locked now max_age s.joint in
    let released = release_rows current expired (record s { joint = j }) in
    (notify_if (not (leb (length expired) 0)) released, length expired)

-- software/core/task/progress_state.py

unfoldable pub update_threads : (Threads → Threads) → ExecutionState → ExecutionState
unfolding notify
update_threads f s = notify (record s { threads = f s.threads })

-- software/core/task/proxy_state.py

unfoldable pub mark_proxy_in_use : Text → ProxyLease → ExecutionState → ExecutionState
unfolding Proxy.mark_in_use_locked
mark_proxy_in_use thread_name lease s = record s {
  proxies = Proxy.mark_in_use_locked thread_name lease s.proxies;
}

unfoldable pub release_proxy_in_use : Text → ExecutionState → ExecutionState × Option ProxyLease
unfolding Proxy.release_in_use_locked notify
release_proxy_in_use thread_name s =
    let (p, lease) = Proxy.release_in_use_locked thread_name s.proxies in
    (notify_if (is_some lease) (record s { proxies = p }), lease)

unfoldable pub mark_proxy_in_cooldown : Text → ℕ → ℕ → ExecutionState → ExecutionState
unfolding strip Proxy.mark_in_cooldown_locked notify
mark_proxy_in_cooldown address cooldown_seconds now s =
    let normalized = strip address in
    if is_empty normalized
    then s
    else if leb cooldown_seconds 0
    then s
    else notify (record s {
      proxies = Proxy.mark_in_cooldown_locked normalized now cooldown_seconds s.proxies;
    })

unfoldable pub mark_successful_proxy_address : Text → ExecutionState → ExecutionState × Bool
unfolding Proxy.mark_successful_locked notify
mark_successful_proxy_address address s =
    let (p, changed) = Proxy.mark_successful_locked address s.proxies in
    (notify_if changed (record s { proxies = p }), changed)

unfoldable pub register_proxy_waiter : ExecutionState → ExecutionState
unfolding Proxy.register_waiter
register_proxy_waiter s = record s { proxies = Proxy.register_waiter s.proxies }

unfoldable pub unregister_proxy_waiter : ExecutionState → ExecutionState
unfolding Proxy.unregister_waiter
unregister_proxy_waiter s = record s { proxies = Proxy.unregister_waiter s.proxies }

unfoldable pub purge_expired_proxy_cooldowns : ℕ → ExecutionState → ExecutionState
unfolding Proxy.purge_expired
purge_expired_proxy_cooldowns now s = record s { proxies = Proxy.purge_expired now s.proxies }

unfoldable pub is_proxy_in_cooldown : Text → ℕ → ExecutionState → ExecutionState × Bool
unfolding strip Proxy.is_in_cooldown_locked
is_proxy_in_cooldown address now s =
    let normalized = strip address in
    if is_empty normalized
    then (s, false)
    else let (p, cooling) = Proxy.is_in_cooldown_locked normalized now s.proxies in
      (record s { proxies = p }, cooling)

-- software/core/task/task_context.py and software/core/reverse_fill/runtime.py

unfoldable pub get_terminal_stop_snapshot : ExecutionState → Text × (Text × Text)
get_terminal_stop_snapshot s =
    (s.terminal.category, (s.terminal.failure_reason, s.terminal.message))

-- No state has no answer; an empty thread name is the current thread.
unfoldable pub resolve_current_reverse_fill_answer :
    Option ExecutionState → ℕ → Text → Text → Option ReverseFill.Answer
unfolding get_reverse_fill_answer
resolve_current_reverse_fill_answer none question_num thread_name current = none
resolve_current_reverse_fill_answer (some s) question_num thread_name current =
    get_reverse_fill_answer question_num
      (record {
        thread_name = if is_empty thread_name then none else some thread_name;
        current = current;
      })
      s

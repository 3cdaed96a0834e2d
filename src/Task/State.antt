-- ===== src/Task/State.antt =====
-- `ExecutionConfig` and `ExecutionState` of software/core/task/task_context.py: the fields that the
-- runtime reads, those of one mixin gathered in a record of their own.
use fuck_wjx.Common.{ℕ, ◌+◌, Bool, false, not, ◌&&◌, List, [], Option, none, if◌then◌else◌}
use fuck_wjx.Common.Text.{Text, strip, is_empty}
use fuck_wjx.Task.ReverseFill
use fuck_wjx.Task.Joint
use fuck_wjx.Task.Joint.{Joint}
use fuck_wjx.Task.Distribution
use fuck_wjx.Task.Distribution.{Distribution}
use fuck_wjx.Task.Proxy
use fuck_wjx.Task.Proxy.{Proxies, ProxyLease}
use fuck_wjx.Task.Progress.{Threads}

-- Why the run was stopped: the three `terminal_` fields.
pub record Terminal : Type 0 where
  pub category : Text
  pub failure_reason : Text
  pub message : Text

abbrev pub no_terminal : Terminal
no_terminal = record { category = []; failure_reason = []; message = [] }

unfoldable pub mark_terminal : Text → Text → Text → Terminal
unfolding strip
mark_terminal category failure_reason message = record {
  category = strip category;
  failure_reason = strip failure_reason;
  message = strip message;
}

pub record ExecutionConfig : Type 0 where
  pub target_num : ℕ
  pub num_threads : ℕ
  pub fail_threshold : ℕ
  pub stop_on_fail_enabled : Bool
  pub random_proxy_ip_enabled : Bool
  pub reverse_fill_spec : Option ReverseFill.Spec
  pub proxy_ip_pool : List ProxyLease

pub record ExecutionState : Type 0 where
  pub config : ExecutionConfig
  pub cur_num : ℕ
  pub cur_fail : ℕ
  pub proxy_unavailable_fail_count : ℕ
  pub device_quota_fail_count : ℕ
  pub terminal : Terminal
  pub threads : Threads
  pub distribution : Distribution
  pub joint : Joint
  pub proxies : Proxies
  pub reverse_fill : Option ReverseFill.Runtime
  pub target_reached_stop_triggered : Bool
  pub change_seq : ℕ

abbrev pub new_state : ExecutionConfig → ExecutionState
new_state config = record {
  config = config;
  cur_num = 0;
  cur_fail = 0;
  proxy_unavailable_fail_count = 0;
  device_quota_fail_count = 0;
  terminal = no_terminal;
  threads = [];
  distribution = Distribution.empty;
  joint = Joint.empty;
  proxies = Proxy.empty;
  reverse_fill = none;
  target_reached_stop_triggered = false;
  change_seq = 0;
}

-- `notify_runtime_change`: the sequence number that the waiters watch.
unfoldable pub notify : ExecutionState → ExecutionState
notify s = record s { change_seq = s.change_seq + 1 }

-- Nothing happens for a blank category, nor when a stop is marked already and not to be overwritten.
unfoldable pub mark_terminal_stop : Text → Text → Text → Bool → ExecutionState → ExecutionState
unfolding strip mark_terminal notify
mark_terminal_stop category failure_reason message overwrite s =
    if is_empty (strip category)
    then s
    else if not (is_empty s.terminal.category) && not overwrite
    then s
    else notify (record s { terminal = mark_terminal category failure_reason message })

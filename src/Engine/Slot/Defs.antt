-- ===== src/Engine/Slot/Defs.antt =====
-- The run as a machine: each turn is one stretch of one slot between two waits, or of the engine.
use fuck_wjx.Common.{
  ℕ, ℤ, Bool, true, false, not, List, [], ◌∷◌, Option, none, some, if◌then◌else◌, max, zero, suc,
  index_below, to_ℕ,
}
use fuck_wjx.Common.Text.{Text, codes, is_empty}
use fuck_wjx.Common.Dict.{lookup, text_key_eq}
use fuck_wjx.Task.Progress.{ensure_worker_threads}
use fuck_wjx.Task.Progress.Defs.{worker_name}
use fuck_wjx.Task.Key.{Caller}
use fuck_wjx.Task.State.{ExecutionState}
use fuck_wjx.Task.Methods.{update_threads, append_pending_distribution_choice}
use fuck_wjx.Network.Session.{Item, merge_prefetched_leases}
use fuck_wjx.Engine.StopPolicy.Defs.{Signal, set_signal}
use fuck_wjx.Engine.Scheduler
use fuck_wjx.Engine.Scheduler.{Scheduler}
use fuck_wjx.Engine.Round.{
  Shared, on_state, should_stop_loop, release_round_resources, update_status, retry_ticks, Raised,
  block_http_runtime,
}
use fuck_wjx.Engine.Slot.Attempt.{Ending, again, reset_pending, submit_done, submit_raised}
use fuck_wjx.Engine.Slot.Steps.{
  entering, polling, locking, fetching, Pc, starting, head, waiting, finished, opening, preparing,
  submitting, selecting, Slot, World, put, set_shared, finish, conclude, try_acquire, prepare,
  selected,
}
use fuck_wjx.Engine.Slot.Selection.{poll_cycle, poll_pool, locked_poll, retry_lock, merge_fetch}

-- What is fixed for a run: the samples of the joint plan (0 without a plan), whether the provider's
-- survey can be submitted over HTTP and why not, the time that a proxy must still have, the parser
-- of expiry texts, and what the user interface does with the stop signal.
pub record Settings : Type 0 where
  pub sample_count : ℕ
  pub uses_http : Bool
  pub block_reason : Text
  pub required : ℕ
  pub expire_of : Text → ℕ
  pub bridge : Signal → Signal

-- What a slot meets at the end of a wait. `go` ends a wait that brings nothing, such as that for the
-- lock; the next four end a wait of the proxy selection, `poll` with whether a fetch of another slot
-- is in progress; `chose` is a choice that the provider records while it answers.
pub data Event : Type 0 where
  go no_proxy lease_timeout : Event
  poll : (busy : Bool) → Event
  fetched : List Item → Event
  chose : (stat_key : Text) (option_index option_count : ℤ) → Event
  submitted : (done : Bool) (delay : ℕ) → Event
  raised : Raised → Event

-- `run` and the beginning of `_run_http_runtime`.
unfoldable pub open_slot : Bool → Text → Text → ℕ → World → World
unfolding block_http_runtime finish put update_status
open_slot uses_http block_reason slot_label now w =
    if not uses_http
    then put slot_label finished none
        (set_shared (block_http_runtime slot_label block_reason now w.shared) w)
    else if not (is_empty block_reason)
    then finish slot_label now
        (set_shared (block_http_runtime slot_label block_reason now w.shared) w)
    else put slot_label head none
        (set_shared (update_status slot_label (codes "HTTP 会话启动") true now w.shared) w)

-- The head of the loop.
unfoldable pub next_attempt : Text → ℕ → World → World
unfolding should_stop_loop finish try_acquire
next_attempt slot_label now w =
    let (p, stop) = should_stop_loop w.shared in
    if stop
    then finish slot_label now (set_shared p w)
    else try_acquire slot_label now (set_shared p w)

-- `record_pending_distribution_choice` names no worker, so that the choice goes under the name of the
-- thread: that of the engine, whichever slot runs.
unfoldable pub record_choice : Text → ℤ → ℤ → Shared → Shared
unfolding append_pending_distribution_choice
record_choice stat_key option_index option_count p =
    elim (index_below (to_ℕ option_count) option_index) [
      | none ↦ p
      | some index ↦
          let who : Caller = record { thread_name = none; current = codes "AsyncRuntimeEngine" } in
          on_state (append_pending_distribution_choice stat_key option_index option_count who) p
    ]

unfoldable pub submission_over : Text → Option Text → ℕ → ℕ → Shared × Ending → World → World
unfolding conclude
submission_over slot_label proxy_address token_id now (p, ending) w =
    conclude slot_label proxy_address token_id ending now (set_shared p w)

-- A turn of the loop: of one slot, of the task that wakes delayed tokens, of the prefetch, or of the
-- request to stop.
pub data Turn : Type 0 where
  slot : (slot_label : Text) (event : Event) (now : ℕ) → Turn
  woken : (now : ℕ) → Turn
  prefetched : (items : List Item) (now : ℕ) → Turn
  stop_run : Turn

module _ (settings : Settings) where
  -- One stretch of a slot; an event that does not fit where the slot waits changes nothing.
  unfoldable pub advance : Text → Option Text → ℕ → Pc → Event → World → World
  unfolding open_slot next_attempt try_acquire prepare reset_pending poll_pool poll_cycle
      locked_poll retry_lock merge_fetch selected record_choice submission_over submit_done
      submit_raised conclude release_round_resources
  advance slot_label proxy_address now starting go w =
      open_slot settings.uses_http settings.block_reason slot_label now w
  advance slot_label proxy_address now head go w = next_attempt slot_label now w
  advance slot_label proxy_address now waiting go w = try_acquire slot_label now w
  advance slot_label proxy_address now (opening token_id) go w =
      prepare settings.sample_count slot_label token_id now
        (set_shared (reset_pending slot_label w.shared) w)
  advance slot_label proxy_address now (preparing token_id) go w =
      prepare settings.sample_count slot_label token_id now w
  advance slot_label proxy_address now (selecting entering token_id) (poll busy) w =
      poll_pool settings.required settings.sample_count slot_label token_id busy now w
  advance slot_label proxy_address now (selecting polling token_id) (poll busy) w =
      poll_cycle settings.required settings.sample_count slot_label token_id busy now w
  advance slot_label proxy_address now (selecting locking token_id) (poll busy) w =
      locked_poll settings.required settings.sample_count slot_label token_id now w
  advance slot_label proxy_address now (selecting locking token_id) go w =
      retry_lock settings.sample_count slot_label token_id now w
  advance slot_label proxy_address now (selecting fetching token_id) (fetched items) w =
      merge_fetch settings.expire_of settings.required settings.sample_count items slot_label
        token_id now w
  advance slot_label proxy_address now (selecting stage token_id) no_proxy w =
      selected settings.sample_count slot_label none token_id now w
  advance slot_label proxy_address now (selecting stage token_id) lease_timeout w =
      conclude slot_label none token_id (again retry_ticks) now
        (set_shared (release_round_resources slot_label w.shared) w)
  advance slot_label proxy_address now (selecting stage token_id) (raised e) w =
      submission_over slot_label none token_id now (submit_raised slot_label none e now w.shared) w
  advance slot_label proxy_address now (submitting token_id) (chose stat_key index n) w =
      set_shared (record_choice stat_key index n w.shared) w
  advance slot_label proxy_address now (submitting token_id) (submitted done delay) w =
      submission_over slot_label proxy_address token_id now
        (submit_done settings.bridge slot_label proxy_address done delay now w.shared) w
  advance slot_label proxy_address now (submitting token_id) (raised e) w =
      submission_over slot_label proxy_address token_id now
        (submit_raised slot_label proxy_address e now w.shared) w
  advance slot_label proxy_address now pc event w = w

  unfoldable pub turn : Turn → World → World
  unfolding lookup advance Scheduler.wake merge_prefetched_leases
  turn (slot slot_label event now) w = elim (lookup slot_label w.slots) [
    | none ↦ w
    | some s ↦ advance slot_label s.proxy_address now s.pc event w
  ]
  turn (woken now) w = record w { scheduler = Scheduler.wake now w.scheduler }
  turn (prefetched items now) w =
      set_shared
        (
          (merge_prefetched_leases settings.expire_of now settings.required items w.shared.0).0,
          w.shared.1,
        )
        w
  turn stop_run w = set_shared (w.shared.0, set_signal w.shared.1) w

  unfoldable pub run : List Turn → World → World
  unfolding turn
  run [] w = w
  run (t ∷ ts) w = run ts (turn t w)

-- The slots `Slot-idx` and up.
unfoldable pub slots_from : ℕ → ℕ → List (Text × Slot)
slots_from idx zero = []
slots_from idx (suc n) =
    (worker_name (codes "Slot") idx, record { pc = starting; proxy_address = none })
    ∷ slots_from (suc idx) n

-- The beginning of `AsyncRuntimeEngine._run`.
unfoldable pub begin : ExecutionState → ℕ → World
unfolding update_threads ensure_worker_threads Scheduler.start slots_from
begin s now =
    let worker_count = max 1 s.config.num_threads in
    record {
      shared =
          (update_threads (ensure_worker_threads worker_count (codes "Slot") now) s, some false);
      scheduler = Scheduler.start worker_count;
      slots = slots_from 1 worker_count;
    }

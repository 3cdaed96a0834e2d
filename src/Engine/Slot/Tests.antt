-- ===== src/Engine/Slot/Tests.antt =====
-- A run with one slot, a target of two submissions and a sheet of two rows: the first submission
-- succeeds, and the slot then waits for its token.
use fuck_wjx.Common.{
  ℕ, ◌+◌, ◌≤◌, ◌<◌, ◌≡◌, refl, ◌⊎◌, inr, true, false, List, [], ◌∷◌, none, some, arith, length,
  if◌then◌else◌,
}
use fuck_wjx.Common.Text.{Text, codes, text_eq}
use fuck_wjx.Common.Dict.{lookup, text_key_eq}
use fuck_wjx.Common.Member.{elem, distinct}
use fuck_wjx.Task.ReverseFill
use fuck_wjx.Task.ReverseFill.{Spec, Sample, Runtime}
use fuck_wjx.Task.ReverseFill.Conservation
use fuck_wjx.Task.ReverseFill.Invariant.{row_numbers}
use fuck_wjx.Task.Progress.Defs.{decimal}
use fuck_wjx.Task.State.{ExecutionConfig, ExecutionState, new_state}
use fuck_wjx.Engine.StopPolicy.Defs.{count_success, commit_worker}
use fuck_wjx.Engine.Round.{Raised, is_set}
use fuck_wjx.Engine.Slot.Attempt.{again, leave, submit_raised}
use fuck_wjx.Engine.Slot.Steps.{Pc, Slot}
use fuck_wjx.Engine.Slot.Defs.{Settings, Event, Turn, slot, woken, stop_run, turn, run, begin}
use fuck_wjx.Engine.Slot.Labels.{label-IsClean}
use fuck_wjx.Engine.Slot.Spares.{row_of}
use fuck_wjx.Engine.Slot.Runs.{run-row_once, run-cur_num}
use fuck_wjx.Engine.Slot.Leaks.{run-holds_nothing, is_outside}
use fuck_wjx.Engine.Slot.Waiting.{run-waiting_supply, run-waiting_served, waiting_slots, all_due}
use fuck_wjx.Engine.Slot.Ranks.{rank}
use fuck_wjx.Engine.Slot.Stopping.{stopped-closer}
use fuck_wjx.Engine.Slot.Errors.{raised-outcome}

abbrev samples : List Sample
samples =
    record { data_row_number = 1; worksheet_row_number = 2; answers = [] }
    ∷ record { data_row_number = 2; worksheet_row_number = 3; answers = [] }
    ∷ []

abbrev sheet : Spec
sheet = record { samples = samples }

abbrev config : ExecutionConfig
config = record {
  target_num = 2;
  num_threads = 1;
  fail_threshold = 5;
  stop_on_fail_enabled = true;
  random_proxy_ip_enabled = false;
  reverse_fill_spec = some sheet;
  proxy_ip_pool = [];
}

abbrev fresh : ExecutionState
fresh = record (new_state config) { reverse_fill = ReverseFill.create (some sheet) }

abbrev settings : Settings
settings = record {
  sample_count = 0;
  uses_http = true;
  block_reason = [];
  required = 0;
  expire_of = λ t. 0;
  bridge = λ g. g;
}

abbrev label : Text
label = codes "Slot-1"

-- From the start to the end of the first submission, and on to the wait for the token.
abbrev turns : List Turn
turns =
    slot label Event.go 1
    ∷ slot label Event.go 2
    ∷ slot label Event.go 3
    ∷ slot label (Event.poll false) 4
    ∷ slot label (Event.submitted true 50) 5
    ∷ slot label Event.go 6
    ∷ []

-- The rows afterwards: the first is committed, the second queued.
abbrev rows : Runtime
rows = record {
  spec = sheet;
  queued = 2 ∷ [];
  samples_by_row =
      (1, record { data_row_number = 1; worksheet_row_number = 2; answers = [] })
      ∷ (2, record { data_row_number = 2; worksheet_row_number = 3; answers = [] })
      ∷ [];
  reserved = [];
  failure_count = [];
  committed = 1 ∷ [];
  discarded = [];
}

abbrev wait_place : Slot
wait_place = record { pc = Pc.waiting; proxy_address = none }

rows_after : (run settings turns (begin fresh 0)).shared.0.reverse_fill ≡ some rows
unfolding run begin ReverseFill.create text_eq count_success commit_worker
rows_after = refl

waits_after : lookup label (run settings turns (begin fresh 0)).slots ≡ some wait_place
unfolding run begin ReverseFill.create text_eq count_success commit_worker lookup
waits_after = refl

counted_once : (run settings turns (begin fresh 0)).shared.0.cur_num ≡ 1
unfolding run begin ReverseFill.create text_eq count_success commit_worker
counted_once = refl

run-row_once_example : Conservation.tally 1 rows ≡ (if elem 1 (row_numbers samples) then 1 else 0)
run-row_once_example =
    run-row_once settings (λ g h. h) turns fresh 0 samples rows 1 refl (unfold distinct in refl)
      rows_after

run-cur_num_example :
    let t = (run settings turns (begin fresh 0)).shared.0 in
    (fresh.config.target_num ≡ 0 ⊎ t.cur_num ≤ fresh.config.target_num)
    × (fresh.cur_num ≤ t.cur_num)
run-cur_num_example = run-cur_num settings (λ g h. h) turns fresh 0 (inr (omega arith))

run-holds_nothing_example :
    let t = (run settings turns (begin fresh 0)).shared.0 in
    (lookup label t.joint.reserved ≡ none)
    × (row_of label t.reverse_fill ≡ none)
    × (lookup label t.proxies.in_use ≡ none)
run-holds_nothing_example =
    run-holds_nothing settings (λ g h. h) turns fresh 0 (some sheet) label wait_place refl refl refl
      waits_after (unfold is_outside in refl)

run-waiting_supply_example :
    let w = run settings turns (begin fresh 0) in
    (waiting_slots w.slots ≤ length w.scheduler.ready + length w.scheduler.delayed)
    × (w.scheduler.closed ≡ false)
run-waiting_supply_example = run-waiting_supply settings (λ g h. h) turns fresh 0

all_due_after : all_due 100 (run settings turns (begin fresh 0)).scheduler.delayed ≡ true
unfolding run begin ReverseFill.create text_eq count_success commit_worker all_due
all_due_after = refl

run-waiting_served_example :
    (t : ℕ) × (lookup label
        (turn settings
          (slot label Event.go 100)
          (turn settings (woken 100) (run settings turns (begin fresh 0)))).slots
      ≡ some (record { pc = Pc.opening t; proxy_address = none }))
run-waiting_served_example =
    run-waiting_served settings (λ g h. h) turns fresh 0 100 label none waits_after all_due_after

-- A transport error without a proxy.
raised-outcome_example :
    let (p, ending) = submit_raised label none (Raised.transport_error []) 5 (fresh, some false) in
    ((ending ≡ again 0)
      × (lookup label p.0.joint.reserved ≡ none)
      × (row_of label p.0.reverse_fill ≡ none))
    ⊎ ((ending ≡ leave) × (is_set p.1 ≡ true))
unfolding decimal
raised-outcome_example =
    raised-outcome label none (Raised.transport_error []) 5 fresh false (label-IsClean 1)

-- The run is stopped while the slot submits.
abbrev stopped_turns : List Turn
stopped_turns =
    slot label Event.go 1
    ∷ slot label Event.go 2
    ∷ slot label Event.go 3
    ∷ slot label (Event.poll false) 4
    ∷ stop_run
    ∷ []

abbrev submit_place : Slot
submit_place = record { pc = Pc.submitting 0; proxy_address = none }

stop_after : is_set (run settings stopped_turns (begin fresh 0)).shared.1 ≡ true
unfolding run begin ReverseFill.create text_eq
stop_after = refl

submits_after : lookup label (run settings stopped_turns (begin fresh 0)).slots ≡ some submit_place
unfolding run begin ReverseFill.create text_eq lookup
submits_after = refl

stopped-closer_example :
    (s : Slot) × ((lookup label
          (turn settings
            (slot label (Event.submitted true 50) 5)
            (run settings stopped_turns (begin fresh 0))).slots
        ≡ some s)
      × (rank s.pc < rank submit_place.pc))
stopped-closer_example =
    stopped-closer settings (run settings stopped_turns (begin fresh 0)) label submit_place
      (Event.submitted true 50) 5 stop_after submits_after refl

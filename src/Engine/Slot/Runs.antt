-- ===== src/Engine/Slot/Runs.antt =====
-- Runs of the engine against the abstract queues, from the first turn to the last.
use fuck_wjx.Common.{
  ℕ, ◌≤◌, ◌≡◌, ◌⊎◌, inl, inr, true, false, List, [], ◌∷◌, some, arith, if◌then◌else◌, Option-cases,
  max,
}
use fuck_wjx.Common.Text.{Text, codes}
use fuck_wjx.Common.Dict.{lookup, text_key_eq}
use fuck_wjx.Common.Member.{elem, distinct}
use fuck_wjx.Task.ReverseFill
use fuck_wjx.Task.ReverseFill.{Runtime, Spec, Sample}
use fuck_wjx.Task.ReverseFill.Conservation
use fuck_wjx.Task.ReverseFill.Invariant.{row_numbers, run-once}
use fuck_wjx.Task.Progress.{ensure_worker_threads}
use fuck_wjx.Task.State.{ExecutionState, notify}
use fuck_wjx.Network.Session.{Item, merge_prefetched_leases}
use fuck_wjx.Network.Session.Frame.{Kept, merge-Kept}
use fuck_wjx.Engine.StopPolicy.Defs.{Signal}
use fuck_wjx.Engine.Round.{Shared, is_set}
use fuck_wjx.Engine.Slot.Steps.{World}
use fuck_wjx.Engine.Slot.Defs.{Settings, Turn, slot, woken, prefetched, stop_run, turn, run, begin}
use fuck_wjx.Engine.Slot.Effects.{Quiet, Quiet-refl, threads-Quiet}
use fuck_wjx.Engine.Slot.Keeps.{set-Quiet}
use fuck_wjx.Engine.Slot.Turns.{Kept-Quiet, advance-R}
use fuck_wjx.Engine.Slot.History.{History, History-trans, Quiet-History, run_rows}
use fuck_wjx.Engine.Slot.Calls.{Closed-History, used-History}

prefetched-Kept :
    (expire_of : Text → ℕ) (now required : ℕ) (items : List Item) (s : ExecutionState)
    → Kept s (merge_prefetched_leases expire_of now required items s).0
unfolding merge_prefetched_leases notify
prefetched-Kept expire_of now required [] s = ground arith
prefetched-Kept expire_of now required (item ∷ items) s =
    ground (arith, merge-Kept expire_of now required (item ∷ items) false s)

pub prefetched-Quiet :
    (expire_of : Text → ℕ) (now required : ℕ) (items : List Item) (p : Shared)
    → Quiet p ((merge_prefetched_leases expire_of now required items p.0).0, p.1)
prefetched-Quiet expire_of now required items (s, g) =
    Kept-Quiet s _ g (prefetched-Kept expire_of now required items s)

module _ (settings : Settings)
    (mono : (g : Signal) → is_set g ≡ true → is_set (settings.bridge g) ≡ true) where
  turn-History : (t : Turn) (w : World) → History w.shared (turn settings t w).shared
  unfolding turn
  turn-History (slot slot_label event now) w = elim (Option-cases (lookup slot_label w.slots)) [
    | inl e ↦ rw (e, turn) (Quiet-History w.shared w.shared (Quiet-refl w.shared))
    | inr (s, e) ↦
        rw (e, turn)
          (advance-R slot_label History (Closed-History slot_label) (used-History slot_label)
            settings mono s.proxy_address now s.pc event w)
  ]
  turn-History (woken now) w = Quiet-History w.shared w.shared (Quiet-refl w.shared)
  turn-History (prefetched items now) w =
      Quiet-History w.shared _
        (prefetched-Quiet settings.expire_of now settings.required items w.shared)
  turn-History stop_run w = Quiet-History w.shared _ (set-Quiet w.shared.0 w.shared.1)

  run-History : (ts : List Turn) (w : World) → History w.shared (run settings ts w).shared
  unfolding run
  run-History [] w = Quiet-History w.shared w.shared (Quiet-refl w.shared)
  run-History (t ∷ ts) w =
      History-trans w.shared (turn settings t w).shared _ (turn-History t w)
        (run-History ts (turn settings t w))

pub begin-Quiet : (s : ExecutionState) (now : ℕ) → Quiet (s, some false) (begin s now).shared
unfolding begin
begin-Quiet s now =
    threads-Quiet (ensure_worker_threads (max 1 s.config.num_threads) (codes "Slot") now)
      (s, some false)

begin-History :
    (settings : Settings)
    → ((g : Signal) → is_set g ≡ true → is_set (settings.bridge g) ≡ true)
    → (ts : List Turn) (s : ExecutionState) (now : ℕ)
    → History (s, some false) (run settings ts (begin s now)).shared
begin-History settings mono ts s now =
    History-trans (s, some false) (begin s now).shared _
      (Quiet-History (s, some false) _ (begin-Quiet s now))
      (run-History settings mono ts (begin s now))

-- At any point of a run of the engine over an answer sheet, each row of the sheet is in exactly one
-- place (queued, held by one slot, committed or discarded), and no other row is in any. (The rows
-- have different numbers, and the bridge does not clear a stop event that is set.)
pub run-row_once :
    (settings : Settings)
    → ((g : Signal) → is_set g ≡ true → is_set (settings.bridge g) ≡ true)
    → (ts : List Turn) (s : ExecutionState) (now : ℕ) (samples : List Sample) (rt : Runtime) (a : ℕ)
    → s.reverse_fill ≡ ReverseFill.create (some (record { samples = samples }))
    → distinct (row_numbers samples) ≡ true
    → (run settings ts (begin s now)).shared.0.reverse_fill ≡ some rt
    → Conservation.tally a rt ≡ (if elem a (row_numbers samples) then 1 else 0)
unfolding ReverseFill.create run_rows
run-row_once settings mono ts s now samples rt a c d e =
    let h = begin-History settings mono ts s now in
    let o = run-once samples h.rows a d in ground (arith, h.rows_run, o)

-- At any point of a run of the engine the count of submissions is within a positive target, and it
-- is never less than at the beginning. (It is within the target at the beginning, and the bridge
-- does not clear a stop event that is set.)
pub run-cur_num :
    (settings : Settings)
    → ((g : Signal) → is_set g ≡ true → is_set (settings.bridge g) ≡ true)
    → (ts : List Turn) (s : ExecutionState) (now : ℕ)
    → s.config.target_num ≡ 0 ⊎ s.cur_num ≤ s.config.target_num
    → let t = (run settings ts (begin s now)).shared.0 in
      (s.config.target_num ≡ 0 ⊎ t.cur_num ≤ s.config.target_num) × (s.cur_num ≤ t.cur_num)
run-cur_num settings mono ts s now h =
    let k = begin-History settings mono ts s now in
    let b = k.bounded h in (ground (arith, b, k.target), k.count_grows)

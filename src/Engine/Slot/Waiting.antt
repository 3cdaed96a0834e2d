-- ===== src/Engine/Slot/Waiting.antt =====
-- No slot waits for a token for ever: there is a token for it, ready or delayed.
use fuck_wjx.Common.{
  ℕ, ◌+◌, ◌≤◌, ◌≡◌, refl, inl, inr, Bool, true, false, ◌&&◌, List, [], ◌∷◌, ◌++◌, Option, none,
  some, arith, if◌then◌else◌, Option-cases, length, length-range_from, length-append, max, zero,
  suc, leb, ◌∙◌,
}
use fuck_wjx.Common.Text.{Text, text_eq_iff}
use fuck_wjx.Common.Dict.{lookup, text_key_eq, lookup-insert}
use fuck_wjx.Task.State.{ExecutionState}
use fuck_wjx.Engine.StopPolicy.Defs.{Signal}
use fuck_wjx.Engine.Scheduler
use fuck_wjx.Engine.Scheduler.{Scheduler}
use fuck_wjx.Engine.Scheduler.Defs.{Token, wake_loop, got}
use fuck_wjx.Engine.Round.{is_set}
use fuck_wjx.Engine.Slot.Steps.{Pc, Slot, World, put, try_acquire, take_token}
use fuck_wjx.Engine.Slot.Defs.{
  Settings, Event, Turn, slot, woken, prefetched, stop_run, advance, turn, run, begin, slots_from,
}
use fuck_wjx.Engine.Slot.Keeps.{set-Quiet}
use fuck_wjx.Engine.Slot.Runs.{prefetched-Quiet}
use fuck_wjx.Engine.Slot.Supply.{supply, need, demand, Backed, shared-Backed}
use fuck_wjx.Engine.Slot.Funds.{advance-Backed}

wake_loop-supply :
    (now : ℕ) (ts : List Token) (ready : List ℕ)
    → let r = wake_loop now ts ready in length r.1 + length r.0 ≡ length ready + length ts
unfolding wake_loop
wake_loop-supply now [] ready = refl
wake_loop-supply now (t ∷ ts) ready = ground (
  arith,
  length-append ready (t.token_id ∷ []),
  wake_loop-supply now ts (ready ++ t.token_id ∷ []),
)

wake-supply :
    (now : ℕ) (s : Scheduler)
    → (supply (Scheduler.wake now s) ≡ supply s) × ((Scheduler.wake now s).closed ≡ s.closed)
unfolding Scheduler.wake
wake-supply now s = ground (arith, wake_loop-supply now s.delayed s.ready)

module _ (settings : Settings)
    (mono : (g : Signal) → is_set g ≡ true → is_set (settings.bridge g) ≡ true) where
  turn-Backed : (t : Turn) (w : World) → Backed w → Backed (turn settings t w)
  unfolding turn
  turn-Backed (slot l event now) w v = elim (Option-cases (lookup l w.slots)) [
    | inl e ↦ rw (e, turn) v
    | inr (i, e) ↦
        rw (e, turn) (advance-Backed l settings mono i.proxy_address now i.pc event w e v)
  ]
  turn-Backed (woken now) w v =
      let k = wake-supply now w.scheduler in
      record { open_yet = ground (arith, k.1, v.open_yet); funded = omega (arith, k.0, v.funded) }
  turn-Backed (prefetched items now) w v =
      shared-Backed _ w
        (prefetched-Quiet settings.expire_of now settings.required items w.shared).stop v
  turn-Backed stop_run w v = shared-Backed _ w (set-Quiet w.shared.0 w.shared.1).stop v

  run-Backed : (ts : List Turn) (w : World) → Backed w → Backed (run settings ts w)
  unfolding run
  run-Backed [] w v = v
  run-Backed (t ∷ ts) w v = run-Backed ts (turn settings t w) (turn-Backed t w v)

demand-slots_from : (idx n : ℕ) → demand false (slots_from idx n) ≡ n
unfolding demand slots_from need
demand-slots_from idx zero = refl
demand-slots_from idx (suc n) = ground (arith, demand-slots_from (suc idx) n)

begin-Backed : (s : ExecutionState) (now : ℕ) → Backed (begin s now)
unfolding begin Scheduler.start
begin-Backed s now =
    let n = max 1 s.config.num_threads in
    record {
      open_yet = refl;
      funded =
          ground
            (arith, demand-slots_from 1 n, length-range_from 0 n, length-range_from 0 (max 1 n));
    }

abbrev pub is_waiting : Pc → Bool
is_waiting Pc.waiting = true
is_waiting _ = false

-- How many slots wait for a token.
unfoldable pub waiting_slots : List (Text × Slot) → ℕ
waiting_slots [] = 0
waiting_slots ((k, s) ∷ rest) = (if is_waiting s.pc then 1 else 0) + waiting_slots rest

waiting-demand : (b : Bool) (m : List (Text × Slot)) → waiting_slots m ≤ demand b m
unfolding waiting_slots demand need
waiting-demand b [] = omega arith
waiting-demand b ((k, s) ∷ rest) = ground (arith, waiting-demand b rest)

-- At any point of a run the tokens that are ready or delayed are at least as many as the slots that
-- wait for one, and the scheduler still hands tokens out. (The bridge does not clear a stop event
-- that is set.)
pub run-waiting_supply :
    (settings : Settings)
    → ((g : Signal) → is_set g ≡ true → is_set (settings.bridge g) ≡ true)
    → (ts : List Turn) (s : ExecutionState) (now : ℕ)
    → let w = run settings ts (begin s now) in
      (waiting_slots w.slots ≤ length w.scheduler.ready + length w.scheduler.delayed)
      × (w.scheduler.closed ≡ false)
run-waiting_supply settings mono ts s now =
    let w = run settings ts (begin s now) in
    let v = run-Backed settings mono ts (begin s now) (begin-Backed s now) in
    (omega (arith, v.funded, waiting-demand (is_set w.shared.1) w.slots), v.open_yet)

-- Every delayed token is due.
unfoldable pub all_due : ℕ → List Token → Bool
all_due now [] = true
all_due now (t ∷ ts) = leb t.ready_at now && all_due now ts

wake_loop-due :
    (now : ℕ) (ts : List Token) (ready : List ℕ)
    → all_due now ts ≡ true
    → (wake_loop now ts ready).0 ≡ []
unfolding wake_loop all_due
wake_loop-due now [] ready h = refl
wake_loop-due now (t ∷ ts) ready h = ground (arith, wake_loop-due now ts (ready ++ t.token_id ∷ []))

wake-ready :
    (now : ℕ) (s : Scheduler)
    → s.closed ≡ false
    → all_due now s.delayed ≡ true
    → length (Scheduler.wake now s).ready ≡ supply s
unfolding Scheduler.wake
wake-ready now s c h =
    ground (arith, wake_loop-supply now s.delayed s.ready, wake_loop-due now s.delayed s.ready)

nonempty-cases : (xs : List ℕ) → 1 ≤ length xs → (x : ℕ) × ((rest : List ℕ) × (xs ≡ x ∷ rest))
nonempty-cases [] h = absurd (omega (arith, h))
nonempty-cases (x ∷ rest) h = (x, (rest, refl))

acquire-got :
    (s : Scheduler)
    → s.closed ≡ false
    → 1 ≤ length s.ready
    → (t : ℕ) × ((Scheduler.acquire s).1 ≡ got t)
unfolding Scheduler.acquire
acquire-got s c h = let (t, (rest, e)) = nonempty-cases s.ready h in (t, ground (arith, c, e))

waiting-one :
    (k : Text) (a : Option Text) (m : List (Text × Slot))
    → lookup k m ≡ some (record { pc = Pc.waiting; proxy_address = a })
    → 1 ≤ waiting_slots m
unfolding waiting_slots lookup
waiting-one k a [] e = absurd (ground (arith, e))
waiting-one k a ((h, s) ∷ m) e = ground (arith, waiting-one k a m)

served :
    (settings : Settings) (later : ℕ) (k : Text) (a : Option Text) (w : World) (t : ℕ)
    → lookup k w.slots ≡ some (record { pc = Pc.waiting; proxy_address = a })
    → (Scheduler.acquire (Scheduler.wake later w.scheduler)).1 ≡ got t
    → lookup k (turn settings (slot k Event.go later) (turn settings (woken later) w)).slots
      ≡ some (record { pc = Pc.opening t; proxy_address = none })
unfolding turn lookup
served settings later k a w t e g =
    let i : Slot = record { pc = Pc.opening t; proxy_address = none } in
    rw (turn, e, advance, try_acquire, g, take_token, put)
      (ground (arith, text_eq_iff k k, lookup-insert k k i w.slots))

-- No slot starves: when a slot waits for a token at some point of a run, then as soon as the delayed
-- tokens are due and the waker has passed, the slot's next step takes a token and opens an attempt.
-- (The bridge does not clear a stop event that is set.)
pub run-waiting_served :
    (settings : Settings)
    → ((g : Signal) → is_set g ≡ true → is_set (settings.bridge g) ≡ true)
    → (ts : List Turn) (s : ExecutionState) (now later : ℕ) (k : Text) (a : Option Text)
    → lookup k (run settings ts (begin s now)).slots
      ≡ some (record { pc = Pc.waiting; proxy_address = a })
    → all_due later (run settings ts (begin s now)).scheduler.delayed ≡ true
    → (t : ℕ) × (lookup k
          (turn settings
            (slot k Event.go later)
            (turn settings (woken later) (run settings ts (begin s now)))).slots
        ≡ some (record { pc = Pc.opening t; proxy_address = none }))
run-waiting_served settings mono ts s now later k a e due =
    let w = run settings ts (begin s now) in
    let v = run-Backed settings mono ts (begin s now) (begin-Backed s now) in
    let woke = Scheduler.wake later w.scheduler in
    let full = wake-ready later w.scheduler v.open_yet due in
    let one = waiting-one k a w.slots e in
    let many = waiting-demand (is_set w.shared.1) w.slots in
    let (t, got_it) =
      acquire-got woke ((wake-supply later w.scheduler).1 ∙ v.open_yet)
        (omega (arith, full, one, many, v.funded)) in
    (t, served settings later k a w t e got_it)

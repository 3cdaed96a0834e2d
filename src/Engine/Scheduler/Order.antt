-- ===== src/Engine/Scheduler/Order.antt =====
-- When a delayed token becomes ready.
use fuck_wjx.Common.{
  ℕ, ◌+◌, ◌≡◌, refl, Bool, true, false, not, ◌&&◌, List, [], ◌∷◌, ◌++◌, arith, leb, inl, inr,
  Bool-cases, keep,
}
use mathlib.Core.List.{append-nil, append_assoc}
use fuck_wjx.Engine.Scheduler.Defs.{Token, start, push, wake_loop, wake}
use fuck_wjx.Engine.Scheduler.Tokens.{
  World, Op, acquired, woken, released, closing, step, run, opening, ids,
}

-- The tokens are in the order of their times; equal times may follow each other.
abbrev pub from_time : ℕ → List Token → Bool
from_time at [] = true
from_time at (t ∷ ts) = leb at t.ready_at && from_time t.ready_at ts

abbrev pub in_order : List Token → Bool
in_order [] = true
in_order (t ∷ ts) = from_time t.ready_at ts

from_time-push :
    (at : ℕ) (t : Token) (ts : List Token)
    → from_time at ts ≡ true
    → leb at t.ready_at ≡ true
    → from_time at (push t ts) ≡ true
unfolding push
from_time-push at t [] h l = ground arith
from_time-push at t (u ∷ us) h l = ground (arith, from_time-push u.ready_at t us)

in_order-push : (t : Token) (ts : List Token) → in_order ts ≡ true → in_order (push t ts) ≡ true
unfolding push
in_order-push t [] h = refl
in_order-push t (u ∷ us) h = ground (arith, from_time-push u.ready_at t us)

from_time-weaken :
    (b at : ℕ) (ts : List Token) → leb at b ≡ true → from_time b ts ≡ true → from_time at ts ≡ true
from_time-weaken b at [] l h = refl
from_time-weaken b at (t ∷ ts) l h = ground arith

in_order-tail : (t : Token) (ts : List Token) → in_order (t ∷ ts) ≡ true → in_order ts ≡ true
in_order-tail t [] h = refl
in_order-tail t (u ∷ us) h = ground arith

in_order-wake :
    (now : ℕ) (ts : List Token) (ready : List ℕ)
    → in_order ts ≡ true
    → in_order (wake_loop now ts ready).0 ≡ true
unfolding wake_loop
in_order-wake now [] ready h = refl
in_order-wake now (t ∷ ts) ready h =
    ground (arith, in_order-tail t ts h, in_order-wake now ts (ready ++ t.token_id ∷ []))

step-in_order :
    (op : Op) (w : World)
    → in_order w.scheduler.delayed ≡ true
    → in_order (step op w).scheduler.delayed ≡ true
unfolding step
step-in_order (acquired now) w h = ground arith
step-in_order (woken now) w h =
    ground (arith, in_order-wake now w.scheduler.delayed w.scheduler.ready)
step-in_order (released token_id requeue delay now) w h = ground (
  arith,
  in_order-push
      (record { ready_at = now + delay; order = w.scheduler.next_order; token_id = token_id })
      w.scheduler.delayed h,
)
step-in_order closing w h = h

run-in_order :
    (ops : List Op) (w : World)
    → in_order w.scheduler.delayed ≡ true
    → in_order (run ops w).scheduler.delayed ≡ true
unfolding run
run-in_order [] w h = h
run-in_order (op ∷ ops) w h = run-in_order ops (step op w) (step-in_order op w h)

-- The tokens whose time has come.
abbrev pub is_due : ℕ → Token → Bool
is_due now t = leb t.ready_at now

none_due :
    (now : ℕ) (t : Token) (ts : List Token)
    → from_time t.ready_at ts ≡ true
    → is_due now t ≡ false
    → (keep (is_due now) ts ≡ []) × (keep (λ u. not (is_due now u)) ts ≡ ts)
none_due now t [] h d = (refl, refl)
none_due now t (u ∷ us) h d =
    let rest = none_due now u us (ground arith) (ground arith) in
    (ground (arith, rest.0), ground (arith, rest.1))

wake_loop-exact :
    (now : ℕ) (ts : List Token) (ready : List ℕ)
    → in_order ts ≡ true
    → ((wake_loop now ts ready).1 ≡ ready ++ ids (keep (is_due now) ts))
      × ((wake_loop now ts ready).0 ≡ keep (λ u. not (is_due now u)) ts)
unfolding wake_loop
wake_loop-exact now [] ready h = (ground (arith, append-nil ready), refl)
wake_loop-exact now (t ∷ ts) ready h = elim (Bool-cases (is_due now t)) [
  | inl d ↦
      let rest = wake_loop-exact now ts (ready ++ t.token_id ∷ []) (in_order-tail t ts h) in
      (
        ground
            (arith, d, rest.0, append_assoc ready (t.token_id ∷ []) (ids (keep (is_due now) ts))),
        ground (arith, d, rest.1),
      )
  | inr d ↦
      let none = none_due now t ts h d in
      (ground (arith, d, none.0, append-nil ready), ground (arith, d, none.1))
]

-- After any history of an open scheduler, a pass of the waker makes ready exactly the delayed tokens
-- whose time has come, behind those that are ready already and in the order of their times, and
-- leaves the others delayed.
pub run-wake :
    (concurrency : ℕ) (ops : List Op) (now : ℕ)
    → (run ops (opening concurrency)).scheduler.closed ≡ false
    → let s = (run ops (opening concurrency)).scheduler in
      ((wake now s).ready ≡ s.ready ++ ids (keep (is_due now) s.delayed))
      × ((wake now s).delayed ≡ keep (λ t. not (is_due now t)) s.delayed)
      × (in_order s.delayed ≡ true)
unfolding wake start
run-wake concurrency ops now is_open =
    let s = (run ops (opening concurrency)).scheduler in
    let sorted = run-in_order ops (opening concurrency) refl in
    let exact = wake_loop-exact now s.delayed s.ready sorted in
    (ground (arith, is_open, exact.0), ground (arith, is_open, exact.1), sorted)

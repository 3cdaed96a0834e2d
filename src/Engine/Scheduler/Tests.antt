-- ===== src/Engine/Scheduler/Tests.antt =====
-- Two tokens, one of them delayed.
use fuck_wjx.Common.{◌≤◌, ◌≡◌, refl, true, not, List, [], ◌∷◌, ◌++◌, if◌then◌else◌, ltb, max, keep}
use fuck_wjx.Engine.Scheduler.Defs.{start, wake}
use fuck_wjx.Engine.Scheduler.Tokens.{
  World, Op, acquired, released, tally, run, opening, ids, all_held, run-token_once,
}
use fuck_wjx.Engine.Scheduler.Order.{is_due, in_order, run-wake}

abbrev history : List Op
history = acquired 1 ∷ acquired 2 ∷ released 0 true 5 10 ∷ []

abbrev later : World
later = run history (opening 2)

history-all_held : all_held history (opening 2) ≡ true
unfolding all_held start
history-all_held = refl

run-token_once_example : tally 0 later ≤ (if ltb 0 (max 1 2) then 1 else 0)
run-token_once_example = run-token_once 2 history 0 history-all_held

run-wake_example :
    ((wake 15 later.scheduler).ready
      ≡ later.scheduler.ready ++ ids (keep (is_due 15) later.scheduler.delayed))
    × ((wake 15 later.scheduler).delayed ≡ keep (λ t. not (is_due 15 t)) later.scheduler.delayed)
    × (in_order later.scheduler.delayed ≡ true)
unfolding run start
run-wake_example = run-wake 2 history 15 refl

-- The token is ready again at 15.
woken_example : (wake 15 later.scheduler).ready ≡ 0 ∷ []
unfolding run wake start
woken_example = refl

-- ===== src/Engine/Scheduler/Tokens.antt =====
-- Where the tokens are: ready, delayed or with the workers.
use fuck_wjx.Common.{
  ℕ, ◌+◌, ◌≤◌, ◌≡◌, refl, Bool, true, List, [], ◌∷◌, ◌++◌, arith, if◌then◌else◌, ltb, ◌==◌, ==_iff,
  ◌&&◌, max, count, count-append, range, length, length-range_from,
}
use fuck_wjx.Common.Member.{
  distinct-count, length-le_of_subset, elem, elem-count, not-elem-count, elem-range_from,
  distinct-range_from, count-distinct,
}
use fuck_wjx.Engine.Scheduler.Defs.{
  Token, Scheduler, Acquired, refused, blocked, got, start, acquire, push, release, wake_loop, wake,
  close,
}

-- The scheduler together with the tokens that workers hold.
pub record World : Type 0 where
  pub scheduler : Scheduler
  pub held : List ℕ

abbrev pub ids : List Token → List ℕ
ids [] = []
ids (t ∷ ts) = t.token_id ∷ ids ts

abbrev pub remove : ℕ → List ℕ → List ℕ
remove a [] = []
remove a (x ∷ xs) = let rest = remove a xs in if a == x then xs else x ∷ rest

-- How often a token is ready, delayed or held.
abbrev pub tally : ℕ → World → ℕ
tally a w = count a w.scheduler.ready + count a (ids w.scheduler.delayed) + count a w.held

pub data Op : Type 0 where
  acquired woken : (now : ℕ) → Op
  released : (token_id : ℕ) (requeue : Bool) (delay now : ℕ) → Op
  closing : Op

abbrev pub hold : Acquired → List ℕ → List ℕ
hold refused held = held
hold blocked held = held
hold (got token_id) held = token_id ∷ held

-- A worker acquires a token or gives one back, the waker passes, or the engine closes.
unfoldable pub step : Op → World → World
unfolding acquire release wake close
step (acquired now) w =
    let (s, answer) = acquire w.scheduler in record { scheduler = s; held = hold answer w.held }
step (woken now) w = record w { scheduler = wake now w.scheduler }
step (released token_id requeue delay now) w = record {
  scheduler = release token_id requeue delay now w.scheduler;
  held = remove token_id w.held;
}
step closing w = record w { scheduler = close w.scheduler }

unfoldable pub run : List Op → World → World
unfolding step
run [] w = w
run (op ∷ ops) w = run ops (step op w)

-- A token that is given back is held by then.
abbrev pub is_held : Op → World → Bool
is_held (acquired now) w = true
is_held (woken now) w = true
is_held (released token_id requeue delay now) w = elem token_id w.held
is_held closing w = true

-- Whether each token that a history gives back is held by then: a worker gives back what it got.
unfoldable pub all_held : List Op → World → Bool
unfolding step elem
all_held [] w = true
all_held (op ∷ ops) w = is_held op w && all_held ops (step op w)

abbrev pub opening : ℕ → World
opening concurrency = record { scheduler = start concurrency; held = [] }

count-push :
    (a : ℕ) (t : Token) (ts : List Token)
    → count a (ids (push t ts)) ≡ (if a == t.token_id then 1 else 0) + count a (ids ts)
unfolding push
count-push a t [] = ground arith
count-push a t (u ∷ us) = ground (arith, count-push a t us)

count-remove :
    (a b : ℕ) (xs : List ℕ)
    → elem b xs ≡ true
    → count a (remove b xs) + (if a == b then 1 else 0) ≡ count a xs
unfolding elem
count-remove a b [] h = ground arith
count-remove a b (x ∷ xs) h =
    ground (arith, ==_iff b x, ==_iff a x, ==_iff a b, count-remove a b xs)

count-wake :
    (a now : ℕ) (ts : List Token) (ready : List ℕ)
    → let r = wake_loop now ts ready in
      count a r.1 + count a (ids r.0) ≡ count a ready + count a (ids ts)
unfolding wake_loop
count-wake a now [] ready = refl
count-wake a now (t ∷ ts) ready =
    ground (
      arith,
      count-append a ready (t.token_id ∷ []),
      count-wake a now ts (ready ++ t.token_id ∷ []),
    )

acquire-tally : (a now : ℕ) (w : World) → tally a (step (acquired now) w) ≡ tally a w
unfolding step
acquire-tally a now w = ground arith

release-tally :
    (a token_id delay now : ℕ) (requeue : Bool) (w : World)
    → elem token_id w.held ≡ true
    → tally a (step (released token_id requeue delay now) w) ≤ tally a w
unfolding step
release-tally a token_id delay now requeue w h = ground (
  arith,
  h,
  count-remove a token_id w.held,
  count-append a w.scheduler.ready (token_id ∷ []),
  count-push a
      (record { ready_at = now + delay; order = w.scheduler.next_order; token_id = token_id })
      w.scheduler.delayed,
)

wake-tally : (a now : ℕ) (w : World) → tally a (step (woken now) w) ≡ tally a w
unfolding step
wake-tally a now w = ground (arith, count-wake a now w.scheduler.delayed w.scheduler.ready)

step-tally : (op : Op) (a : ℕ) (w : World) → is_held op w ≡ true → tally a (step op w) ≤ tally a w
step-tally (acquired now) a w h = omega (arith, acquire-tally a now w)
step-tally (woken now) a w h = omega (arith, wake-tally a now w)
step-tally (released token_id requeue delay now) a w h =
    release-tally a token_id delay now requeue w h
step-tally closing a w h = unfold step in omega arith

run-tally :
    (ops : List Op) (a : ℕ) (w : World) → all_held ops w ≡ true → tally a (run ops w) ≤ tally a w
unfolding run all_held
run-tally [] a w h = omega arith
run-tally (op ∷ ops) a w h = ground (arith, step-tally op a w, run-tally ops a (step op w))

-- After any history in which a token is given back only while a worker holds it (the scheduler does
-- not check that), no token is in two places: at most one worker holds it, and then it is neither
-- ready nor delayed; and only the first `max(1, concurrency)` numbers are tokens.
pub run-token_once :
    (concurrency : ℕ) (ops : List Op) (a : ℕ)
    → all_held ops (opening concurrency) ≡ true
    → tally a (run ops (opening concurrency)) ≤ (if ltb a (max 1 concurrency) then 1 else 0)
unfolding start
run-token_once concurrency ops a h = ground (
  arith,
  run-tally ops a (opening concurrency) h,
  count-distinct a (range (max 1 concurrency)) (distinct-range_from 0 (max 1 concurrency)),
  elem-range_from a 0 (max 1 concurrency),
  not-elem-count a (range (max 1 concurrency)),
)

-- After such a history, the workers hold `max(1, concurrency)` tokens at most.
run-held_bound :
    (concurrency : ℕ) (ops : List Op)
    → all_held ops (opening concurrency) ≡ true
    → length (run ops (opening concurrency)).held ≤ max 1 concurrency
run-held_bound concurrency ops legal =
    let held = (run ops (opening concurrency)).held in
    omega (
      arith,
      length-range_from 0 (max 1 concurrency),
      length-le_of_subset held (range (max 1 concurrency))
          (distinct-count held (λ a. ground (arith, run-token_once concurrency ops a legal)))
          (λ x h. ground (
            arith,
            run-token_once concurrency ops x legal,
            elem-count x held,
            elem-range_from x 0 (max 1 concurrency),
          )),
    )

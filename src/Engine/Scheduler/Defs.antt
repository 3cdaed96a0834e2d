-- ===== src/Engine/Scheduler/Defs.antt =====
-- `AsyncScheduler`. A section under the condition is one step; `acquire` answers `blocked` where the
-- source waits. The heap of delayed tokens is the list of its tokens in the order of the keys
-- `(ready_at, order)`, in which `heapq` pops them. `held` are the tokens that were acquired and not
-- released; the source leaves them to the callers.
use fuck_wjx.Common.{
  ℕ, ◌+◌, Bool, true, false, not, ◌&&◌, ◌||◌, List, [], ◌∷◌, ◌++◌, if◌then◌else◌, ltb, leb, ◌==◌,
  max, range,
}

pub record Token : Type 0 where
  pub ready_at : ℕ
  pub order : ℕ
  pub token_id : ℕ

pub record Scheduler : Type 0 where
  pub concurrency : ℕ
  pub ready : List ℕ
  pub delayed : List Token
  pub next_order : ℕ
  pub closed : Bool

pub data Acquired : Type 0 where
  refused blocked : Acquired
  got : (token_id : ℕ) → Acquired

-- `__init__`
unfoldable pub start : ℕ → Scheduler
start concurrency = record {
  concurrency = max 1 concurrency;
  ready = range (max 1 concurrency);
  delayed = [];
  next_order = 0;
  closed = false;
}

unfoldable pub acquire : Scheduler → Scheduler × Acquired
acquire s = if s.closed then (s, refused) else elim s.ready [
  | [] ↦ (s, blocked)
  | token_id ∷ rest ↦ (record s { ready = rest }, got token_id)
]

-- The order of the dataclass: `ready_at`, then `order`.
abbrev pub before : Token → Token → Bool
before a b = ltb a.ready_at b.ready_at || (a.ready_at == b.ready_at && ltb a.order b.order)

-- `heapq.heappush`
unfoldable pub push : Token → List Token → List Token
push t [] = t ∷ []
push t (u ∷ us) = if before t u then t ∷ u ∷ us else u ∷ push t us

unfoldable pub release : ℕ → Bool → ℕ → ℕ → Scheduler → Scheduler
unfolding push
release token_id requeue delay now s =
    if not requeue
    then s
    else if s.closed
    then s
    else if leb delay 0
    then record s { ready = s.ready ++ token_id ∷ [] }
    else record s {
      delayed =
          push (record { ready_at = now + delay; order = s.next_order; token_id = token_id })
            s.delayed;
      next_order = s.next_order + 1;
    }

-- The loop that pops the tokens whose time has come: what stays delayed, and what becomes ready.
unfoldable pub wake_loop : ℕ → List Token → List ℕ → List Token × List ℕ
wake_loop now [] ready = ([], ready)
wake_loop now (t ∷ ts) ready = elim (leb t.ready_at now) [
  | true ↦ wake_loop now ts (ready ++ t.token_id ∷ [])
  | false ↦ (t ∷ ts, ready)
]

-- One pass of `_wake_delayed_tokens`.
unfoldable pub wake : ℕ → Scheduler → Scheduler
unfolding wake_loop
wake now s =
    if s.closed
    then s
    else let (delayed, ready) = wake_loop now s.delayed s.ready in
      record s { delayed = delayed; ready = ready }

unfoldable pub close : Scheduler → Scheduler
close s = record s { closed = true }

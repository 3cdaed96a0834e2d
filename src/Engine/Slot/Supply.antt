-- ===== src/Engine/Slot/Supply.antt =====
-- The tokens of the scheduler and the slots that want one.
use fuck_wjx.Common.{
  ℕ, ◌+◌, ◌≤◌, ◌≡◌, refl, inl, inr, Bool, true, false, List, [], ◌∷◌, some, arith, if◌then◌else◌,
  Bool-cases, length, length-append, suc,
}
use fuck_wjx.Common.Text.{Text, text_eq}
use fuck_wjx.Common.Dict.{lookup, insert, text_key_eq}
use fuck_wjx.Engine.Scheduler
use fuck_wjx.Engine.Scheduler.{Scheduler}
use fuck_wjx.Engine.Scheduler.Defs.{Token, Acquired, refused, blocked, got, push}
use fuck_wjx.Engine.Round.{Shared, is_set}
use fuck_wjx.Engine.Slot.Steps.{Pc, Slot, World, set_shared}

-- The tokens that are ready or delayed.
abbrev pub supply : Scheduler → ℕ
supply s = length s.ready + length s.delayed

-- The tokens that a slot still needs: a waiting slot needs one; one at the head of its loop or before
-- it needs one while the run goes on; in an attempt it has its own.
unfoldable pub need : Bool → Pc → ℕ
need stopped Pc.starting = if stopped then 0 else 1
need stopped Pc.head = if stopped then 0 else 1
need stopped Pc.waiting = 1
need stopped _ = 0

unfoldable pub demand : Bool → List (Text × Slot) → ℕ
unfolding need
demand stopped [] = 0
demand stopped ((k, s) ∷ rest) = need stopped s.pc + demand stopped rest

pub need-opening : (b : Bool) (token_id : ℕ) → need b (Pc.opening token_id) ≡ 0
unfolding need
need-opening b token_id = refl

-- What moving one slot does to the demand.
pub demand-insert :
    (b : Bool) (k : Text) (i j : Slot) (m : List (Text × Slot))
    → lookup k m ≡ some i
    → demand b (insert k j m) + need b i.pc ≡ demand b m + need b j.pc
unfolding demand insert lookup
demand-insert b k i j [] e = ground arith
demand-insert b k i j ((h, x) ∷ m) e = elim (Bool-cases (text_eq h k)) [
  | inl f ↦ ground (arith, f, e)
  | inr f ↦ ground (arith, f, e, demand-insert b k i j m (ground (arith, f, e)))
]

length-push : (t : Token) (ts : List Token) → length (push t ts) ≡ suc (length ts)
unfolding push
length-push t [] = refl
length-push t (u ∷ us) = ground (arith, length-push t us)

pub release-supply :
    (token_id delay now : ℕ) (b : Bool) (s : Scheduler)
    → s.closed ≡ false
    → (supply (Scheduler.release token_id b delay now s) ≡ (if b then supply s + 1 else supply s))
      × ((Scheduler.release token_id b delay now s).closed ≡ false)
unfolding Scheduler.release
release-supply token_id delay now b s h = ground (
  arith,
  length-append s.ready (token_id ∷ []),
  length-push (record { ready_at = now + delay; order = s.next_order; token_id = token_id })
      s.delayed,
)

abbrev pub paid : Acquired → ℕ
paid refused = 0
paid blocked = 0
paid (got token_id) = 1

pub acquire-supply :
    (s : Scheduler)
    → s.closed ≡ false
    → ((Scheduler.acquire s).0.closed ≡ false)
      × (supply (Scheduler.acquire s).0 + paid (Scheduler.acquire s).1 ≡ supply s)
unfolding Scheduler.acquire
acquire-supply s h = ground arith

-- The run is stopped no more often before than after.
abbrev pub Stays : Shared → Shared → Type 0
Stays p q = is_set p.1 ≡ true → is_set q.1 ≡ true

demand_antitone : (m : List (Text × Slot)) → demand true m ≤ demand false m
unfolding demand need
demand_antitone [] = omega arith
demand_antitone ((k, s) ∷ m) = ground (arith, demand_antitone m)

pub demand_stays :
    (b c : Bool) (m : List (Text × Slot)) → (b ≡ true → c ≡ true) → demand c m ≤ demand b m
demand_stays true true m h = omega arith
demand_stays true false m h = absurd (ground (arith, h refl))
demand_stays false true m h = demand_antitone m
demand_stays false false m h = omega arith

-- Every token that a slot still needs is ready or delayed, and the scheduler hands tokens out.
pub record Backed (w : World) : Type 0 where
  pub open_yet : w.scheduler.closed ≡ false
  pub funded : demand (is_set w.shared.1) w.slots ≤ supply w.scheduler

pub shared-Backed : (p : Shared) (w : World) → Stays w.shared p → Backed w → Backed (set_shared p w)
shared-Backed p w h v = record {
  open_yet = v.open_yet;
  funded = omega (arith, v.funded, demand_stays (is_set w.shared.1) (is_set p.1) w.slots h);
}

-- ===== src/Engine/Slot/Labels.antt =====
-- The labels `Slot-1`, `Slot-2` and so on are their own keys in the dictionaries of the state.
use fuck_wjx.Common.{
  ℕ, ◌+◌, ◌%◌, ◌/◌, ◌≡◌, refl, true, false, some, arith, Bool-cases, inl, inr, subst, zero, suc,
}
use fuck_wjx.Common.Text.{Text, codes, is_space, text_eq, text_eq_iff}
use fuck_wjx.Common.Plain.{none_of, none_of-reverse, none_of-append, strip-none_of}
use fuck_wjx.Common.Dict.{lookup, text_key_eq}
use fuck_wjx.Task.Key.{thread_key}
use fuck_wjx.Task.Progress.Defs.{decimal, decimal_fuel, worker_name}
use fuck_wjx.Engine.Slot.Steps.{Pc, Slot}
use fuck_wjx.Engine.Slot.Defs.{slots_from}
use fuck_wjx.Engine.Slot.Spares.{IsClean}

digit-none_of : (n : ℕ) → is_space (48 + n % 10) ≡ false
unfolding is_space
digit-none_of n = ground arith

decimal_fuel-none_of : (fuel n : ℕ) → none_of is_space (decimal_fuel fuel n) ≡ true
unfolding decimal_fuel none_of
decimal_fuel-none_of zero n = refl
decimal_fuel-none_of (suc fuel) n =
    ground (arith, digit-none_of n, decimal_fuel-none_of fuel (n / 10))

slot_prefix : none_of is_space (codes "Slot-") ≡ true
unfolding none_of is_space
slot_prefix = refl

label-none_of : (idx : ℕ) → none_of is_space (worker_name (codes "Slot") idx) ≡ true
unfolding decimal
label-none_of idx =
    let d =
      none_of-reverse is_space (decimal_fuel (suc idx) idx) (decimal_fuel-none_of (suc idx) idx) in
    none_of-append is_space (codes "Slot-") (decimal idx) (slot_prefix) d

pub label-IsClean : (idx : ℕ) → IsClean (worker_name (codes "Slot") idx)
label-IsClean idx =
    let name = strip-none_of (worker_name (codes "Slot") idx) (label-none_of idx) in
    record { key = unfold thread_key in rw name refl; name = name; filled = refl }

-- Each slot of a new run has a clean label and has not started.
pub slots_from-IsClean :
    (idx n : ℕ) (k : Text) (s : Slot)
    → lookup k (slots_from idx n) ≡ some s
    → IsClean k × (s.pc ≡ Pc.starting)
unfolding slots_from lookup
slots_from-IsClean idx zero k s e = absurd (ground (arith, e))
slots_from-IsClean idx (suc n) k s e =
    let l = worker_name (codes "Slot") idx in
    elim (Bool-cases (text_eq l k)) [
      | inl h ↦ (
        subst (λ (x : Text). IsClean x) ((text_eq_iff l k).0 h) (label-IsClean idx),
        ground (arith, h, e),
      )
      | inr h ↦ slots_from-IsClean (suc idx) n k s (ground (arith, h, e))
    ]

-- ===== src/Engine/Slot/Spares.antt =====
-- What one slot does leaves the others' resources alone: a worker without a joint slot, a
-- reverse-fill row or a proxy still has none afterwards.
use fuck_wjx.Common.{
  ℕ, ◌≡◌, Bool, true, false, List, [], ◌∷◌, Option, none, some, arith, Option-cases, inl, inr,
}
use fuck_wjx.Common.Text.{Text, codes, strip, is_empty}
use fuck_wjx.Common.Dict.{lookup, erase, text_key_eq, lookup-erase}
use fuck_wjx.Task.Key.{Caller, thread_key}
use fuck_wjx.Task.Joint
use fuck_wjx.Task.Joint.{Joint}
use fuck_wjx.Task.Joint.Defs.{drop_slot, drop_slots, scan}
use fuck_wjx.Task.ReverseFill
use fuck_wjx.Task.ReverseFill.{Runtime}
use fuck_wjx.Task.State.{ExecutionState, notify}
use fuck_wjx.Task.Methods.{release_reverse_fill_sample, release_rows}
use fuck_wjx.Engine.Round.{Shared, slot_caller}
use fuck_wjx.Engine.Round.Resources.{expire_stale, lease_ticks}
use fuck_wjx.Engine.Slot.Effects.{Quiet}

abbrev pub row_of : Text → Option Runtime → Option ℕ
row_of key none = none
row_of key (some rt) = lookup key rt.reserved

-- What a worker lacks before, it lacks after.
pub record Spares (key : Text) (p q : Shared) : Type 0 where
  pub joint : lookup key p.0.joint.reserved ≡ none → lookup key q.0.joint.reserved ≡ none
  pub row : row_of key p.0.reverse_fill ≡ none → row_of key q.0.reverse_fill ≡ none
  pub proxy : lookup key p.0.proxies.in_use ≡ none → lookup key q.0.proxies.in_use ≡ none

pub Spares-trans : (key : Text) (p q r : Shared) → Spares key p q → Spares key q r → Spares key p r
Spares-trans key p q r a b = record {
  joint = λ h. b.joint (a.joint h);
  row = λ h. b.row (a.row h);
  proxy = λ h. b.proxy (a.proxy h);
}

pub Quiet-Spares : (key : Text) (p q : Shared) → Quiet p q → Spares key p q
Quiet-Spares key p q k = record {
  joint = λ h. ground (arith, k.joint);
  row = λ h. ground (arith, k.reverse_fill);
  proxy = λ h. ground (arith, k.in_use);
}

-- An erasure brings no key back.
pub erase-none :
    {V : Type 0} (key other : Text) (m : List (Text × V))
    → lookup key m ≡ none
    → lookup key (erase other m) ≡ none
erase-none key other m h = ground (arith, lookup-erase other key m)

drops-none :
    (key : Text) (keys : List Text) (j : Joint)
    → lookup key j.reserved ≡ none
    → lookup key (drop_slots keys j).reserved ≡ none
unfolding drop_slots drop_slot
drops-none key [] j h = h
drops-none key (other ∷ keys) j h =
    drops-none key keys (drop_slot other j) (erase-none key other j.reserved h)

expire-none :
    (key : Text) (now max_age : ℕ) (j : Joint)
    → lookup key j.reserved ≡ none
    → lookup key (Joint.expire_locked now max_age j).0.reserved ≡ none
unfolding Joint.expire_locked
expire-none key now max_age j h =
    let (started, keys) = scan now max_age j j.started_at j.started_at in
    ground (arith, drops-none key keys (record j { started_at = started }) h)

release-none :
    (key other : Text) (b : Bool) (rt : Runtime)
    → lookup key rt.reserved ≡ none
    → lookup key (ReverseFill.release_locked other b rt).0.reserved ≡ none
unfolding ReverseFill.release_locked
release-none key other b rt h = ground (arith, erase-none key other rt.reserved h)

release_row-none :
    (key : Text) (who : Caller) (s : ExecutionState)
    → row_of key s.reverse_fill ≡ none
    → row_of key (release_reverse_fill_sample who true s).0.reverse_fill ≡ none
unfolding release_reverse_fill_sample notify
release_row-none key who s h = elim (Option-cases s.reverse_fill) [
  | inl e ↦ ground (arith, e)
  | inr (rt, e) ↦ ground (arith, e, release-none key (thread_key who) true rt)
]

release_row-same :
    (who : Caller) (s : ExecutionState)
    → let t = (release_reverse_fill_sample who true s).0 in
      (t.joint ≡ s.joint) × (t.proxies ≡ s.proxies)
unfolding release_reverse_fill_sample notify
release_row-same who s = ground arith

pub row_released-Spares :
    (key : Text) (who : Caller) (p : Shared)
    → Spares key p ((release_reverse_fill_sample who true p.0).0, p.1)
row_released-Spares key who (s, g) = record {
  joint = λ h. ground (arith, release_row-same who s);
  row = release_row-none key who s;
  proxy = λ h. ground (arith, release_row-same who s);
}

rows_released-Spares :
    (key current : Text) (keys : List Text) (p : Shared)
    → Spares key p (release_rows current keys p.0, p.1)
unfolding release_rows
rows_released-Spares key current [] (s, g) = Quiet-Spares key (s, g) (s, g) (ground arith)
rows_released-Spares key current (other ∷ keys) (s, g) =
    let who : Caller = record { thread_name = some other; current = current } in
    let t = (release_reverse_fill_sample who true s).0 in
    Spares-trans key (s, g) (t, g) _ (row_released-Spares key who (s, g))
      (rows_released-Spares key current keys (t, g))

pub expired-Spares : (key : Text) (now : ℕ) (p : Shared) → Spares key p (expire_stale now p)
unfolding expire_stale Joint.expire_locked
expired-Spares key now (s, g) =
    let (j, keys) = Joint.expire_locked now lease_ticks s.joint in
    let t = record s { joint = j } in
    let u = release_rows (codes "AsyncRuntimeEngine") keys t in
    Spares-trans key (s, g) (t, g) _
      (record { joint = expire-none key now lease_ticks s.joint; row = λ h. h; proxy = λ h. h })
      (Spares-trans key (t, g) (u, g) _
        (rows_released-Spares key (codes "AsyncRuntimeEngine") keys (t, g))
        (Quiet-Spares key (u, g) _ (unfold notify in ground arith)))

-- The label of a slot is its key in every dictionary.
pub record IsClean (slot_label : Text) : Type 0 where
  pub key : thread_key (slot_caller slot_label) ≡ slot_label
  pub name : strip slot_label ≡ slot_label
  pub filled : is_empty slot_label ≡ false

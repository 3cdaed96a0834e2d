-- ===== src/Engine/Slot/Others.antt =====
-- A slot keeps the resources of the others as they are when these have none.
use fuck_wjx.Common.{
  ℕ, ◌≡◌, ◌≢◌, true, List, Option, none, some, arith, Option-cases, inl, inr, range,
}
use fuck_wjx.Common.Text.{Text, strip, text_eq_iff}
use fuck_wjx.Common.Dict.{lookup, insert, erase, values, text_key_eq, lookup-insert}
use fuck_wjx.Task.Key.{Caller, thread_key}
use fuck_wjx.Task.Joint
use fuck_wjx.Task.Joint.{Joint}
use fuck_wjx.Task.Joint.Defs.{drop_slot, first_free}
use fuck_wjx.Task.ReverseFill
use fuck_wjx.Task.ReverseFill.{Runtime}
use fuck_wjx.Task.ReverseFill.Defs.{take_row, pop_queued}
use fuck_wjx.Task.Proxy
use fuck_wjx.Task.Proxy.{ProxyLease}
use fuck_wjx.Task.State.{notify}
use fuck_wjx.Task.Methods.{
  acquire_reverse_fill_sample, mark_reverse_fill_submission_failed, commit_joint_sample,
  commit_reverse_fill_sample, mark_proxy_in_use, release_proxy_in_use,
}
use fuck_wjx.Network.Session.{use_lease}
use fuck_wjx.Engine.StopPolicy.Defs.{count_success, is_open}
use fuck_wjx.Engine.Round.{Shared, slot_caller, release_joint, release_row}
use fuck_wjx.Engine.Round.Resources.{reserve_joint, acquire_row}
use fuck_wjx.Engine.Slot.Attempt.{mark_answering, release_current_proxy}
use fuck_wjx.Engine.Slot.Effects.{Closed}
use fuck_wjx.Engine.Slot.Spares.{
  Spares, Spares-trans, Quiet-Spares, erase-none, expired-Spares, row_released-Spares, IsClean,
}

insert-none :
    {V : Type 0} (key other : Text) (v : V) (m : List (Text × V))
    → key ≢ other
    → lookup key m ≡ none
    → lookup key (insert other v m) ≡ none
insert-none key other v m ne h = ground (arith, lookup-insert other key v m, text_eq_iff other key)

reserve-none :
    (key other : Text) (total now : ℕ) (j : Joint)
    → key ≢ other
    → lookup key j.reserved ≡ none
    → lookup key (Joint.reserve_locked total now other j).0.reserved ≡ none
unfolding Joint.reserve_locked
reserve-none key other total now j ne h =
    elim (Option-cases (first_free (values j.reserved) j.committed (range total))) [
      | inl e ↦ ground (arith, e)
      | inr (i, e) ↦ ground (arith, e, insert-none key other i j.reserved ne h)
    ]

take_row-none :
    (key other : Text) (cur target : ℕ) (rt : Runtime)
    → key ≢ other
    → lookup key rt.reserved ≡ none
    → lookup key (take_row cur target other rt).0.reserved ≡ none
unfolding take_row
take_row-none key other cur target rt ne h =
    elim (Option-cases (pop_queued rt.samples_by_row rt.queued).1) [
      | inl e ↦ ground (arith, e)
      | inr (r, e) ↦ ground (arith, e, insert-none key other r.0 rt.reserved ne h)
    ]

acquire-none :
    (key other : Text) (cur target : ℕ) (rt : Runtime)
    → key ≢ other
    → lookup key rt.reserved ≡ none
    → lookup key (ReverseFill.acquire_locked cur target other rt).0.reserved ≡ none
unfolding ReverseFill.acquire_locked
acquire-none key other cur target rt ne h = ground (
  arith,
  take_row-none key other cur target rt ne h,
  take_row-none key other cur target (record rt { reserved = erase other rt.reserved }) ne
      (erase-none key other rt.reserved h),
)

commit-none :
    (key other : Text) (rt : Runtime)
    → lookup key rt.reserved ≡ none
    → lookup key (ReverseFill.commit_locked other rt).0.reserved ≡ none
unfolding ReverseFill.commit_locked
commit-none key other rt h = ground (arith, erase-none key other rt.reserved h)

fail-none :
    (key other : Text) (n : ℕ) (rt : Runtime)
    → lookup key rt.reserved ≡ none
    → lookup key (ReverseFill.fail_locked other n rt).0.reserved ≡ none
unfolding ReverseFill.fail_locked
fail-none key other n rt h = ground (arith, erase-none key other rt.reserved h)

commit_slot-none :
    (key other : Text) (j : Joint)
    → lookup key j.reserved ≡ none
    → lookup key (Joint.commit_locked other j).0.reserved ≡ none
unfolding Joint.commit_locked drop_slot
commit_slot-none key other j h = ground (arith, erase-none key other j.reserved h)

release_slot-none :
    (key other : Text) (j : Joint)
    → lookup key j.reserved ≡ none
    → lookup key (Joint.release_locked other j).0.reserved ≡ none
unfolding Joint.release_locked drop_slot
release_slot-none key other j h = erase-none key other j.reserved h

module _ (key slot_label : Text) (clean : IsClean slot_label) (ne : key ≢ slot_label) where
  who : Caller
  who = slot_caller slot_label

  joint_released : (p : Shared) → Spares key p (release_joint slot_label p)
  unfolding release_joint notify who
  joint_released (s, g) = record {
    joint = λ h. ground (arith, release_slot-none key (thread_key who) s.joint h);
    row = λ h. ground arith;
    proxy = λ h. ground arith;
  }

  row_released : (p : Shared) → Spares key p (release_row slot_label p)
  unfolding release_row
  row_released (s, g) = row_released-Spares key (slot_caller slot_label) (s, g)

  row_failed :
      (n : ℕ) (p : Shared)
      → Spares key p ((mark_reverse_fill_submission_failed (slot_caller slot_label) n p.0).0, p.1)
  unfolding mark_reverse_fill_submission_failed notify who
  row_failed n (s, g) = record {
    joint = λ h. ground arith;
    row = λ h. elim (Option-cases s.reverse_fill) [
      | inl e ↦ ground (arith, e)
      | inr (rt, e) ↦ ground (arith, e, fail-none key (thread_key who) n rt)
    ];
    proxy = λ h. ground arith;
  }

  joint_committed :
      (p : Shared) → Spares key p ((commit_joint_sample (slot_caller slot_label) p.0).0, p.1)
  unfolding commit_joint_sample notify who
  joint_committed (s, g) = record {
    joint = λ h. ground (arith, commit_slot-none key (thread_key who) s.joint h);
    row = λ h. ground arith;
    proxy = λ h. ground arith;
  }

  row_committed :
      (p : Shared) → Spares key p ((commit_reverse_fill_sample (slot_caller slot_label) p.0).0, p.1)
  unfolding commit_reverse_fill_sample notify who
  row_committed (s, g) = record {
    joint = λ h. ground arith;
    row = λ h. elim (Option-cases s.reverse_fill) [
      | inl e ↦ ground (arith, e)
      | inr (rt, e) ↦ ground (arith, e, commit-none key (thread_key who) rt)
    ];
    proxy = λ h. ground arith;
  }

  reserved : (n now : ℕ) (p : Shared) → Spares key p (reserve_joint slot_label n now p).0
  unfolding reserve_joint
  reserved n now (s, g) = record {
    joint = λ h. ground (arith, clean.key, reserve-none key slot_label n now s.joint ne h);
    row = λ h. ground arith;
    proxy = λ h. ground arith;
  }

  acquired : (p : Shared) → Spares key p (acquire_row slot_label p).0
  unfolding acquire_row acquire_reverse_fill_sample
  acquired (s, g) = record {
    joint = λ h. ground arith;
    row = λ h. elim (Option-cases s.reverse_fill) [
      | inl e ↦ ground (arith, e)
      | inr (rt, e) ↦
          ground
            (arith, e, clean.key, acquire-none key slot_label s.cur_num s.config.target_num rt ne)
    ];
    proxy = λ h. ground arith;
  }

  answering : (p : Shared) → Spares key p (mark_answering slot_label p).0
  unfolding mark_answering Joint.mark_answering_locked
  answering (s, g) = record {
    joint = λ h. ground arith;
    row = λ h. ground arith;
    proxy = λ h. ground arith;
  }

  counted : (p : Shared) → is_open p.0 ≡ true → Spares key p (count_success p.0, p.1)
  unfolding count_success
  counted p e = record { joint = λ h. h; row = λ h. h; proxy = λ h. h }

  pub used :
      (l : ProxyLease) (p : Shared) → Spares key p ((use_lease slot_label (some l) p.0).0, p.1)
  unfolding use_lease mark_proxy_in_use Proxy.mark_in_use_locked
  used l (s, g) = record {
    joint = λ h. ground arith;
    row = λ h. ground arith;
    proxy = λ h. ground (arith, clean.name, insert-none key slot_label l s.proxies.in_use ne h);
  }

  unused : (a : Option Text) (p : Shared) → Spares key p (release_current_proxy slot_label a p)
  unfolding release_current_proxy release_proxy_in_use Proxy.release_in_use_locked notify
  unused a (s, g) = record {
    joint = λ h. ground arith;
    row = λ h. ground arith;
    proxy = λ h. ground (arith, erase-none key (strip slot_label) s.proxies.in_use h);
  }

  pub Closed-Spares : Closed slot_label (Spares key)
  Closed-Spares = record {
    trans = Spares-trans key;
    quiet = Quiet-Spares key;
    released_joint = joint_released;
    released_row = row_released;
    failed_row = row_failed;
    committed_joint = joint_committed;
    committed_row = row_committed;
    reserved = reserved;
    expired = expired-Spares key;
    acquired = acquired;
    answering = answering;
    counted = counted;
    unused = unused;
  }

-- ===== src/Engine/Slot/Own.antt =====
-- What a slot itself holds when a stretch ends: which calls leave it without a joint slot, a row or
-- a proxy.
use fuck_wjx.Common.{ℕ, ◌≡◌, ◌⊎◌, true, Option, none, arith, Option-cases, inl, inr}
use fuck_wjx.Common.Text.{Text, strip, text_eq_iff}
use fuck_wjx.Common.Dict.{lookup, text_key_eq, lookup-erase}
use fuck_wjx.Task.Key.{Caller}
use fuck_wjx.Task.Joint
use fuck_wjx.Task.ReverseFill
use fuck_wjx.Task.ReverseFill.{Runtime}
use fuck_wjx.Task.Proxy
use fuck_wjx.Task.State.{ExecutionState, notify}
use fuck_wjx.Task.Methods.{
  acquire_reverse_fill_sample, release_joint_sample, release_reverse_fill_sample,
  mark_reverse_fill_submission_failed, commit_joint_sample, commit_reverse_fill_sample,
  commit_pending_distribution, release_proxy_in_use,
}
use fuck_wjx.Task.Progress.{increment_thread_success, mark_thread_finished}
use fuck_wjx.Engine.StopPolicy.Defs.{Signal, count_success, is_named, commit_worker}
use fuck_wjx.Engine.StopPolicy.Failure.{release-slot, release_row-slot, release-row}
use fuck_wjx.Engine.Round.{
  Shared, slot_caller, release_joint, release_row, release_round_resources, has_proxy,
}
use fuck_wjx.Engine.Round.Resources.{reserve_joint, acquire_row}
use fuck_wjx.Engine.Slot.Attempt.{mark_answering, release_current_proxy, close_slot, finished_text}
use fuck_wjx.Engine.Slot.Effects.{Quiet, Closed, threads-Quiet, choices-Quiet}
use fuck_wjx.Engine.Slot.Keeps.{taken}
use fuck_wjx.Engine.Slot.History.{History}
use fuck_wjx.Engine.Slot.Calls.{Closed-History}
use fuck_wjx.Engine.Slot.Spares.{row_of, IsClean, expired-Spares, erase-none}

-- No joint slot and no row.
pub record EmptyHanded (key : Text) (p : Shared) : Type 0 where
  pub joint : lookup key p.0.joint.reserved ≡ none
  pub row : row_of key p.0.reverse_fill ≡ none

abbrev pub NoProxy : Text → Shared → Type 0
NoProxy key p = lookup key p.0.proxies.in_use ≡ none

pub Quiet-EmptyHanded :
    (key : Text) (p q : Shared) → Quiet p q → EmptyHanded key p → EmptyHanded key q
Quiet-EmptyHanded key p q k h = record {
  joint = ground (arith, k.joint, h.joint);
  row = ground (arith, k.reverse_fill, h.row);
}

module _ (slot_label : Text) where
  -- A slot without a proxy does not get one by what it calls, but for the marking of a proxy.
  abbrev pub Unleased : Shared → Shared → Type 0
  Unleased p q = NoProxy slot_label p → NoProxy slot_label q

  pub Closed-Unleased : Closed slot_label Unleased
  unfolding release_joint release_row mark_reverse_fill_submission_failed commit_joint_sample
      commit_reverse_fill_sample reserve_joint acquire_row acquire_reverse_fill_sample
      mark_answering count_success release_current_proxy release_proxy_in_use release_joint_sample
      release_reverse_fill_sample Proxy.release_in_use_locked notify
  Closed-Unleased = record {
    trans = λ p q r a b h. b (a h);
    quiet = λ p q k h. ground (arith, k.in_use);
    released_joint = λ p h. ground arith;
    released_row = λ p h. ground arith;
    failed_row = λ n p h. ground arith;
    committed_joint = λ p h. ground arith;
    committed_row = λ p h. ground arith;
    reserved = λ n now p h. ground arith;
    expired = λ now p h. (expired-Spares slot_label now p).proxy h;
    acquired = λ p h. ground arith;
    answering = λ p h. ground arith;
    counted = λ p e h. h;
    unused = λ a p h. ground (arith, erase-none slot_label (strip slot_label) p.0.proxies.in_use h);
  }

module _ (slot_label : Text) (clean : IsClean slot_label) where
  who : Caller
  who = slot_caller slot_label

  pub round-EmptyHanded :
      (p : Shared) → EmptyHanded slot_label (release_round_resources slot_label p)
  unfolding release_round_resources release_joint release_row who
  round-EmptyHanded (s, g) =
      let t = (release_joint_sample who s).0 in
      let u = (release_reverse_fill_sample who true t).0 in
      record {
        joint = ground (arith, clean.key, release-slot who s, release_row-slot who true t);
        row = elim (Option-cases u.reverse_fill) [
          | inl e ↦ ground (arith, e)
          | inr (rt, e) ↦ ground (arith, clean.key, e, release-row who true t)
        ];
      }

  pub close_slot-EmptyHanded :
      (now : ℕ) (p : Shared) → EmptyHanded slot_label (close_slot slot_label now p)
  unfolding close_slot
  close_slot-EmptyHanded now p =
      let released = release_row slot_label (release_joint slot_label p) in
      Quiet-EmptyHanded slot_label released _
        (threads-Quiet (mark_thread_finished slot_label (finished_text released) now) released)
        (unfold release_round_resources in round-EmptyHanded p)

  -- The proxy is given back, and the rest stays.
  pub released-NoProxy :
      (a : Option Text) (p : Shared)
      → NoProxy slot_label p ⊎ has_proxy a ≡ true
      → NoProxy slot_label (release_current_proxy slot_label a p)
  unfolding release_current_proxy release_proxy_in_use Proxy.release_in_use_locked notify
  released-NoProxy a p h = ground (
    arith,
    clean.name,
    clean.filled,
    lookup-erase slot_label slot_label p.0.proxies.in_use,
    text_eq_iff slot_label slot_label,
  )

  pub released-EmptyHanded :
      (a : Option Text) (p : Shared)
      → EmptyHanded slot_label p
      → EmptyHanded slot_label (release_current_proxy slot_label a p)
  unfolding release_current_proxy release_proxy_in_use notify
  released-EmptyHanded a p h = record {
    joint = ground (arith, h.joint);
    row = ground (arith, h.row);
  }

  commit_row-free :
      (rt : Runtime) → lookup slot_label (ReverseFill.commit_locked slot_label rt).0.reserved ≡ none
  unfolding ReverseFill.commit_locked
  commit_row-free rt = elim (Option-cases (lookup slot_label rt.reserved)) [
    | inl e ↦ ground (arith, e)
    | inr (row, e) ↦ ground (
      arith,
      e,
      text_eq_iff slot_label slot_label,
      lookup-erase slot_label slot_label rt.reserved,
    )
  ]

  committed_joint-free :
      (s : ExecutionState) → lookup slot_label (commit_joint_sample who s).0.joint.reserved ≡ none
  unfolding commit_joint_sample Joint.commit_locked notify who
  committed_joint-free s = ground (
    arith,
    clean.key,
    text_eq_iff slot_label slot_label,
    lookup-erase slot_label slot_label s.joint.reserved,
  )

  committed_row-free :
      (s : ExecutionState)
      → row_of slot_label (commit_reverse_fill_sample who s).0.reverse_fill ≡ none
  unfolding commit_reverse_fill_sample notify who
  committed_row-free s = elim (Option-cases s.reverse_fill) [
    | inl e ↦ ground (arith, e)
    | inr (rt, e) ↦ ground (arith, clean.key, e, commit_row-free rt)
  ]

  committed_row-joint : (s : ExecutionState) → (commit_reverse_fill_sample who s).0.joint ≡ s.joint
  unfolding commit_reverse_fill_sample notify
  committed_row-joint s = ground arith

  commit_worker-EmptyHanded :
      (text : Text) (now : ℕ) (s : ExecutionState) (g : Signal)
      → EmptyHanded slot_label (commit_worker text (slot_caller slot_label) now s, g)
  unfolding commit_worker who
  commit_worker-EmptyHanded text now s g =
      let slotted = (commit_joint_sample who s).0 in
      let rowed = (commit_reverse_fill_sample who slotted).0 in
      let counted = (commit_pending_distribution who rowed).0 in
      Quiet-EmptyHanded slot_label (counted, g) _
        (threads-Quiet (increment_thread_success slot_label text now) (counted, g))
        (Quiet-EmptyHanded slot_label (rowed, g) (counted, g) (choices-Quiet who (rowed, g))
          (record {
            joint = ground (arith, committed_joint-free s, committed_row-joint slotted);
            row = committed_row-free slotted;
          }))

  pub is_named_slot : is_named (slot_caller slot_label) ≡ true
  is_named_slot = ground (arith, clean.filled)

  pub taken-EmptyHanded :
      (text : Text) (now : ℕ) (s : ExecutionState) (g : Signal)
      → EmptyHanded slot_label (taken slot_label History (Closed-History slot_label) text now s, g)
  taken-EmptyHanded text now s g =
      rw is_named_slot (commit_worker-EmptyHanded text now (count_success s) g)

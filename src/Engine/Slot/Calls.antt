-- ===== src/Engine/Slot/Calls.antt =====
-- The calls of a slot as calls of the queue of the rows and of the table of the joint slots.
use fuck_wjx.Common.{
  ℕ, ◌≡◌, refl, inl, inr, true, List, [], ◌∷◌, Option, some, arith, ltb, Bool-cases,
}
use fuck_wjx.Common.Text.{Text, codes}
use fuck_wjx.Common.Dict.{text_key_eq}
use fuck_wjx.Task.Key.{Caller, thread_key}
use fuck_wjx.Task.Joint
use fuck_wjx.Task.Joint.{Joint}
use fuck_wjx.Task.Joint.Slots
use fuck_wjx.Task.ReverseFill.Conservation
use fuck_wjx.Task.Proxy.{ProxyLease}
use fuck_wjx.Task.State.{ExecutionState, notify}
use fuck_wjx.Task.Methods.{
  acquire_reverse_fill_sample, release_reverse_fill_sample, mark_reverse_fill_submission_failed,
  commit_joint_sample, commit_reverse_fill_sample, release_rows, mark_proxy_in_use,
  release_proxy_in_use,
}
use fuck_wjx.Network.Session.{use_lease}
use fuck_wjx.Engine.StopPolicy.Defs.{count_success, is_open}
use fuck_wjx.Engine.Round.{Shared, slot_caller, release_joint, release_row}
use fuck_wjx.Engine.Round.Resources.{expire_stale, reserve_joint, acquire_row, lease_ticks}
use fuck_wjx.Engine.Slot.Attempt.{mark_answering, release_current_proxy}
use fuck_wjx.Engine.Slot.Effects.{Closed}
use fuck_wjx.Engine.Slot.History.{
  History, History-trans, Quiet-History, row_calls, slot_calls, run_rows, run_rows-nil,
  slots_run-nil,
}

release_row-rows :
    (who : Caller) (s : ExecutionState)
    → (release_reverse_fill_sample who true s).0.reverse_fill
      ≡ run_rows (Conservation.release (thread_key who) ∷ []) s.reverse_fill
unfolding release_reverse_fill_sample run_rows Conservation.run notify
release_row-rows who s = ground arith

release_row-same :
    (who : Caller) (s : ExecutionState)
    → let t = (release_reverse_fill_sample who true s).0 in
      (t.joint ≡ s.joint) × (t.config ≡ s.config) × (t.cur_num ≡ s.cur_num)
unfolding release_reverse_fill_sample notify
release_row-same who s = ground arith

-- The releases of a list of workers.
abbrev releases : Text → List Text → List Conservation.Op
releases current [] = []
releases current (key ∷ keys) =
    Conservation.release (thread_key (record { thread_name = some key; current = current }))
    ∷ releases current keys

release_rows-History :
    (current : Text) (keys : List Text) (p : Shared)
    → History p (release_rows current keys p.0, p.1)
unfolding release_rows
release_rows-History current [] (s, g) = Quiet-History (s, g) (s, g) (ground arith)
release_rows-History current (key ∷ keys) (s, g) =
    let who : Caller = record { thread_name = some key; current = current } in
    let t = (release_reverse_fill_sample who true s).0 in
    let k = release_row-same who s in
    History-trans (s, g) (t, g) _
      (row_calls (s, g) (t, g) (Conservation.release (thread_key who) ∷ []) (release_row-rows who s)
        k.0 k.1 k.2 refl)
      (release_rows-History current keys (t, g))

expired-History : (now : ℕ) (p : Shared) → History p (expire_stale now p)
unfolding expire_stale Joint.expire_locked
expired-History now (s, g) =
    let (j, keys) = Joint.expire_locked now lease_ticks s.joint in
    let t = record s { joint = j } in
    let u = release_rows (codes "AsyncRuntimeEngine") keys t in
    History-trans (s, g) (t, g) _
      (slot_calls (s, g) (t, g) (Slots.expire now lease_ticks ∷ []) (unfold Slots.run in refl) refl
        refl refl refl)
      (History-trans (t, g) (u, g) _ (release_rows-History (codes "AsyncRuntimeEngine") keys (t, g))
        (Quiet-History (u, g) _ (unfold notify in ground arith)))

module _ (slot_label : Text) where
  who : Caller
  who = slot_caller slot_label

  joint_released-History : (p : Shared) → History p (release_joint slot_label p)
  unfolding release_joint notify Slots.run who
  joint_released-History (s, g) =
      slot_calls (s, g) _ (Slots.release (thread_key who) ∷ []) (ground arith) (ground arith)
        (ground arith) (ground arith) refl

  row_released-History : (p : Shared) → History p (release_row slot_label p)
  unfolding release_row who
  row_released-History (s, g) =
      let k = release_row-same who s in
      row_calls (s, g) _ (Conservation.release (thread_key who) ∷ []) (release_row-rows who s) k.0
        k.1 k.2 refl

  row_failed-History :
      (n : ℕ) (p : Shared)
      → History p ((mark_reverse_fill_submission_failed (slot_caller slot_label) n p.0).0, p.1)
  unfolding mark_reverse_fill_submission_failed run_rows Conservation.run notify who
  row_failed-History n (s, g) =
      row_calls (s, g) _ (Conservation.fail (thread_key who) n ∷ []) (ground arith) (ground arith)
        (ground arith) (ground arith) refl

  joint_committed-History :
      (p : Shared) → History p ((commit_joint_sample (slot_caller slot_label) p.0).0, p.1)
  unfolding commit_joint_sample Slots.run notify who
  joint_committed-History (s, g) =
      slot_calls (s, g) _ (Slots.commit (thread_key who) ∷ []) (ground arith) (ground arith)
        (ground arith) (ground arith) refl

  row_committed-History :
      (p : Shared) → History p ((commit_reverse_fill_sample (slot_caller slot_label) p.0).0, p.1)
  unfolding commit_reverse_fill_sample run_rows Conservation.run notify who
  row_committed-History (s, g) =
      row_calls (s, g) _ (Conservation.commit (thread_key who) ∷ []) (ground arith) (ground arith)
        (ground arith) (ground arith) refl

  reserved-History : (n now : ℕ) (p : Shared) → History p (reserve_joint slot_label n now p).0
  unfolding reserve_joint Slots.run who
  reserved-History n now (s, g) = elim (Bool-cases (ltb 0 n)) [
    | inl e ↦
        rw (e, reserve_joint)
          (slot_calls (s, g) _ (Slots.reserve n now (thread_key who) ∷ []) (ground arith)
            (ground arith) (ground arith) (ground arith) refl)
    | inr e ↦ rw (e, reserve_joint) (Quiet-History (s, g) (s, g) (ground arith))
  ]

  acquired-History : (p : Shared) → History p (acquire_row slot_label p).0
  unfolding acquire_row acquire_reverse_fill_sample run_rows Conservation.run who
  acquired-History (s, g) =
      row_calls (s, g) _ (Conservation.acquire s.cur_num s.config.target_num (thread_key who) ∷ [])
        (ground arith) (ground arith) (ground arith) (ground arith) (ground arith)

  answering-History : (p : Shared) → History p (mark_answering slot_label p).0
  unfolding mark_answering Slots.run who
  answering-History (s, g) =
      slot_calls (s, g) _ (Slots.mark (thread_key who) ∷ []) (ground arith) (ground arith)
        (ground arith) (ground arith) refl

  counted-History : (p : Shared) → is_open p.0 ≡ true → History p (count_success p.0, p.1)
  unfolding count_success
  counted-History (s, g) e = record {
    rows = [];
    slots = [];
    rows_run = ground (arith, run_rows-nil s.reverse_fill);
    slots_run = ground (arith, slots_run-nil s.joint);
    target = refl;
    count_grows = omega arith;
    bounded = λ h. ground arith;
    stop = λ h. h;
  }

  pub used-History :
      (l : ProxyLease) (p : Shared) → History p ((use_lease slot_label (some l) p.0).0, p.1)
  unfolding use_lease mark_proxy_in_use
  used-History l (s, g) =
      slot_calls (s, g) _ [] (ground (arith, slots_run-nil s.joint)) (ground arith) (ground arith)
        (ground arith) refl

  unused-History : (a : Option Text) (p : Shared) → History p (release_current_proxy slot_label a p)
  unfolding release_current_proxy release_proxy_in_use notify
  unused-History a (s, g) =
      slot_calls (s, g) _ [] (ground (arith, slots_run-nil s.joint)) (ground arith) (ground arith)
        (ground arith) (ground arith)

  pub Closed-History : Closed slot_label History
  Closed-History = record {
    trans = History-trans;
    quiet = Quiet-History;
    released_joint = joint_released-History;
    released_row = row_released-History;
    failed_row = row_failed-History;
    committed_joint = joint_committed-History;
    committed_row = row_committed-History;
    reserved = reserved-History;
    expired = expired-History;
    acquired = acquired-History;
    answering = answering-History;
    counted = counted-History;
    unused = unused-History;
  }

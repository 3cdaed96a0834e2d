-- ===== src/Engine/Slot/Errors.antt =====
-- Exceptions of a submission: where they leave the slot and the run.
use fuck_wjx.Common.{
  ℕ, ◌≡◌, refl, Bool, true, false, ◌&&◌, Option, none, some, arith, Bool-cases, inl, inr, ◌++◌, ◌⊎◌,
  sym, ◌∙◌,
}
use fuck_wjx.Common.Text.{Text, codes, strip, or_else}
use fuck_wjx.Common.Dict.{lookup, text_key_eq}
use fuck_wjx.Network.Session.{mark_temporarily_bad}
use fuck_wjx.Task.State.{ExecutionState}
use fuck_wjx.Engine.StopPolicy.{FailureReason, Failing, record_failure}
use fuck_wjx.Engine.StopPolicy.Defs.{reason_text}
use fuck_wjx.Engine.StopPolicy.Failure.{record_failure-stops}
use fuck_wjx.Engine.Round.{
  Shared, slot_caller, is_set, Raised, handle_raised, has_proxy, handle_proxy_unavailable,
  stop_with, release_joint, release_row,
}
use fuck_wjx.Engine.Round.Handlers.{
  stop_if, give_up, handle_verification, mark_bad, failing, ai_failing, proxy_failing,
  verification_failing,
}
use fuck_wjx.Engine.Slot.Attempt.{again, leave, submit_raised}
use fuck_wjx.Engine.Slot.Spares.{row_of, IsClean}
use fuck_wjx.Engine.Slot.Outcomes.{raised-EmptyHanded}

failure-stopped :
    (f : Failing) (l : Text) (now : ℕ) (s : ExecutionState) (b : Bool)
    → (record_failure f (slot_caller l) now (s, some b)).1 ≡ true
    → is_set (record_failure f (slot_caller l) now (s, some b)).0.1 ≡ true
failure-stopped f l now s b h =
    ground (arith, h, record_failure-stops f (slot_caller l) now s (some b))

stop_if-stopped : (r : Shared × Bool) → is_set r.0.1 ≡ true → is_set (stop_if r).0.1 ≡ true
unfolding stop_if
stop_if-stopped ((s, none), b) h = absurd (ground (arith, h))
stop_if-stopped ((s, some c), b) h = ground (arith, h)

stop_if-same : (r : Shared × Bool) → (stop_if r).1 ≡ r.1
unfolding stop_if
stop_if-same ((s, g), b) = refl

-- If the answer is to leave, the run is stopped.
abbrev Stopping : Shared × Bool → Type 0
Stopping r = r.1 ≡ true → is_set r.0.1 ≡ true

stop_if-Stopping : (r : Shared × Bool) → Stopping r → Stopping (stop_if r)
stop_if-Stopping r k h = stop_if-stopped r (k (sym (stop_if-same r) ∙ h))

give_up-Stopping :
    (l status category reason message : Text) (now : ℕ) (s : ExecutionState) (b : Bool)
    → Stopping (give_up l status category reason message now (s, some b))
unfolding give_up stop_with release_joint release_row
give_up-Stopping l status category reason message now s b h = refl

proxy-Stopping :
    (l status message : Text) (now : ℕ) (s : ExecutionState) (b : Bool)
    → Stopping (handle_proxy_unavailable l status message now (s, some b))
unfolding handle_proxy_unavailable
proxy-Stopping l status message now s b =
    let f = proxy_failing status message s.config in
    stop_if-Stopping (record_failure f (slot_caller l) now (s, some b))
      (failure-stopped f l now s b)

-- The failure of a proxy leaves the stop event alone.
bad-event :
    (a : Option Text) (now : ℕ) (s : ExecutionState) (b : Bool)
    → (t : ExecutionState) × (mark_bad a now (s, some b) ≡ (t, some b))
unfolding mark_bad
bad-event none now s b = (s, refl)
bad-event (some a) now s b = (mark_temporarily_bad a 180000 now s, refl)

verification-Stopping :
    (l : Text) (a : Option Text) (text : Text) (now : ℕ) (s : ExecutionState) (b : Bool)
    → Stopping (handle_verification l a text now (s, some b))
unfolding handle_verification
verification-Stopping l a text now s b =
    let (t, marked) = bad-event a now s b in
    let f = verification_failing text in
    elim (Bool-cases (s.config.random_proxy_ip_enabled && has_proxy a)) [
      | inl e ↦
          rw (e, marked)
            (stop_if-Stopping (record_failure f (slot_caller l) now (t, some b))
              (failure-stopped f l now t b))
      | inr e ↦ rw e (
          give_up-Stopping l (codes "触发智能验证") (codes "submission_verification")
            (reason_text FailureReason.submission_verification_required)
            (or_else (strip text) (codes "提交触发智能验证，请启用随机 IP 后再试")) now s b)
    ]

raised-Stopping :
    (l : Text) (a : Option Text) (e : Raised) (now : ℕ) (s : ExecutionState) (b : Bool)
    → Stopping (handle_raised l a e now (s, some b))
unfolding handle_raised
raised-Stopping l a (Raised.ai_error timed_out text) now s b =
    failure-stopped (ai_failing timed_out text) l now s b
raised-Stopping l a (Raised.verification_required text) now s b =
    verification-Stopping l a text now s b
raised-Stopping l a (Raised.provider_unavailable text) now s b =
    give_up-Stopping l (codes "问卷不可填写") (codes "survey_provider_unavailable")
      (reason_text FailureReason.survey_provider_unavailable)
      (or_else (strip text) (codes "问卷当前不可填写")) now s b
raised-Stopping l a (Raised.transport_error text) now s b =
    let (t, marked) = bad-event a now s b in
    let message = codes "HTTP 请求失败，本轮按失败处理：" ++ text in
    elim (Bool-cases (has_proxy a)) [
      | inl e ↦ rw (e, marked) (proxy-Stopping l (codes "代理连接失败") message now t b)
      | inr e ↦ rw e (proxy-Stopping l (codes "网络请求失败") message now s b)
    ]
raised-Stopping l a (Raised.other_error text) now s true = λ h. refl
raised-Stopping l a (Raised.other_error text) now s false =
    failure-stopped (failing FailureReason.fill_failed (codes "HTTP 提交失败，本轮按失败处理：" ++ text)) l now s
      false

-- Whatever exception ends a submission, either the slot goes on at once and has given back its joint
-- slot and its row, or it leaves its loop and the stop event of the run is set. (The run has a
-- stop event, and the label is its own key, as those of a run are.)
pub raised-outcome :
    (l : Text) (a : Option Text) (e : Raised) (now : ℕ) (s : ExecutionState) (b : Bool)
    → IsClean l
    → let (p, ending) = submit_raised l a e now (s, some b) in
      ((ending ≡ again 0)
        × (lookup l p.0.joint.reserved ≡ none)
        × (row_of l p.0.reverse_fill ≡ none))
      ⊎ ((ending ≡ leave) × (is_set p.1 ≡ true))
raised-outcome l a e now s b clean = elim (Bool-cases (handle_raised l a e now (s, some b)).1) [
  | inl f ↦
      let k = raised-Stopping l a e now s b f in
      inr (unfold submit_raised in ground (arith, f), unfold submit_raised in ground (arith, f, k))
  | inr f ↦
      let back : (submit_raised l a e now (s, some b)).1 ≡ again 0 =
        unfold submit_raised in ground (arith, f) in
      let h = raised-EmptyHanded l clean a e now 0 (s, some b) back in inl (back, h.joint, h.row)
]

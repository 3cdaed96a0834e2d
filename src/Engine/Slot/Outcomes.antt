-- ===== src/Engine/Slot/Outcomes.antt =====
-- The end of a submission that lets the slot go on leaves it without a joint slot or a row.
use fuck_wjx.Common.{
  ℕ, ◌≡◌, Bool, true, false, not, ◌&&◌, ◌||◌, Option, some, arith, ltb, Bool-cases, Option-cases,
  inl, inr,
}
use fuck_wjx.Common.Text.{Text, codes, strip, or_else}
use fuck_wjx.Common.Dict.{text_key_eq}
use fuck_wjx.Engine.StopPolicy.{record_success, record_failure, FailureReason}
use fuck_wjx.Engine.StopPolicy.Defs.{Signal, is_open, reason_text}
use fuck_wjx.Engine.StopPolicy.Failure.{record_failure-releases}
use fuck_wjx.Engine.Round.{
  Shared, slot_caller, is_set, has_proxy, Raised, handle_raised, update_status, block_http_runtime,
}
use fuck_wjx.Engine.Round.Handlers.{blocked_failing}
use fuck_wjx.Engine.Slot.Attempt.{
  again, mark_answering, mark_successful_proxy, enter, submit_done, submit_raised,
}
use fuck_wjx.Engine.Slot.Effects.{step-Quiet, stop_with-Quiet}
use fuck_wjx.Engine.Slot.Keeps.{accept-Quiet, taken}
use fuck_wjx.Engine.Slot.History.{History}
use fuck_wjx.Engine.Slot.Calls.{Closed-History}
use fuck_wjx.Engine.Slot.Spares.{IsClean}
use fuck_wjx.Engine.Slot.Own.{
  EmptyHanded, Quiet-EmptyHanded, round-EmptyHanded, taken-EmptyHanded, is_named_slot,
}

module _ (slot_label : Text) (clean : IsClean slot_label) where
  module _ (bridge : Signal → Signal)
      (mono : (g : Signal) → is_set g ≡ true → is_set (bridge g) ≡ true) where
    -- A success after which the run goes on has committed what the slot held.
    success-EmptyHanded :
        (text message : Text) (now : ℕ) (p : Shared)
        → (record_success bridge text message (slot_caller slot_label) now p).1 ≡ false
        → EmptyHanded slot_label
            (record_success bridge text message (slot_caller slot_label) now p).0
    unfolding record_success
    success-EmptyHanded text message now (s, g) h = elim (Bool-cases (is_open s)) [
      | inl e ↦ rw e (
          Quiet-EmptyHanded slot_label
            (taken slot_label History (Closed-History slot_label) text now s, g) _
            (accept-Quiet slot_label History (Closed-History slot_label) bridge mono text message
              now s g)
            (taken-EmptyHanded slot_label clean text now s g))
      | inr e ↦ absurd (ground (arith, e))
    ]

    -- An attempt after which the slot goes on has left it with nothing.
    pub done-EmptyHanded :
        (a : Option Text) (done : Bool) (delay now d : ℕ) (p : Shared)
        → (submit_done bridge slot_label a done delay now p).1 ≡ again d
        → EmptyHanded slot_label (submit_done bridge slot_label a done delay now p).0
    unfolding submit_done
    done-EmptyHanded a done delay now d p h =
        let q = mark_successful_proxy a p in
        let (p', stop) =
          record_success bridge (codes "提交成功") (codes "目标份数已达成") (slot_caller slot_label) now q in
        elim (Bool-cases (is_set p.1 || not done)) [
          | inl e ↦ rw e (round-EmptyHanded slot_label clean p)
          | inr e ↦ elim (Bool-cases stop) [
            | inl f ↦ absurd (ground (arith, e, f))
            | inr f ↦
                let r = success-EmptyHanded (codes "提交成功") (codes "目标份数已达成") now q f in
                elim (Bool-cases (ltb 0 delay)) [
                  | inl m ↦
                      rw (e, f, m)
                        (Quiet-EmptyHanded slot_label p' _
                          (step-Quiet slot_label (codes "等待提交间隔") now p') r)
                  | inr m ↦ rw (e, f, m) r
                ]
          ]
        ]

  pub raised-EmptyHanded :
      (a : Option Text) (e : Raised) (now d : ℕ) (p : Shared)
      → (submit_raised slot_label a e now p).1 ≡ again d
      → EmptyHanded slot_label (submit_raised slot_label a e now p).0
  unfolding submit_raised
  raised-EmptyHanded a e now d p h = elim (Bool-cases (handle_raised slot_label a e now p).1) [
    | inl f ↦ absurd (ground (arith, f))
    | inr f ↦ rw f (round-EmptyHanded slot_label clean (handle_raised slot_label a e now p).0)
  ]

  pub enter-EmptyHanded :
      (n : ℕ) (a : Option Text) (d : ℕ) (p : Shared)
      → (enter slot_label n a p).1 ≡ some (again d)
      → EmptyHanded slot_label (enter slot_label n a p).0
  unfolding enter
  enter-EmptyHanded n a d p h =
      let (p', marked) = mark_answering slot_label p in
      elim (Bool-cases (is_set p.1)) [
        | inl e ↦ absurd (ground (arith, e))
        | inr e ↦ elim (Bool-cases (p.0.config.random_proxy_ip_enabled && not (has_proxy a))) [
          | inl f ↦ rw (e, f) (round-EmptyHanded slot_label clean p)
          | inr f ↦ elim (Bool-cases (ltb 0 n && not marked)) [
            | inl m ↦ rw (e, f, m) (round-EmptyHanded slot_label clean p')
            | inr m ↦ absurd (ground (arith, e, f, m))
          ]
        ]
      ]

  -- A survey that cannot be submitted over HTTP: the slot gives everything back.
  pub block-EmptyHanded :
      (reason : Text) (now : ℕ) (p : Shared)
      → EmptyHanded slot_label (block_http_runtime slot_label reason now p)
  unfolding block_http_runtime
  block-EmptyHanded reason now p =
      let message = or_else (strip reason) (codes "当前问卷不支持纯 HTTP 提交") in
      let f = blocked_failing message in
      let q = update_status slot_label (codes "纯 HTTP 不支持") false now p in
      let failed = (record_failure f (slot_caller slot_label) now q).0 in
      let r =
        record_failure-releases f (slot_caller slot_label) now q.0 q.1
          (is_named_slot slot_label clean) in
      Quiet-EmptyHanded slot_label failed _
        (stop_with-Quiet (codes "http_runtime_only") (reason_text FailureReason.fill_failed) message
          failed)
        (record {
          joint = ground (arith, clean.key, r.0);
          row = elim (Option-cases failed.0.reverse_fill) [
            | inl e ↦ ground (arith, e)
            | inr (rt, e) ↦ ground (arith, clean.key, e, r.1)
          ];
        })

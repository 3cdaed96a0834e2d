-- ===== src/Engine/Slot/Stretches.antt =====
-- Each stretch of an attempt keeps a closed relation between the states before and after.
use fuck_wjx.Common.{
  ℕ, ◌≡◌, Bool, true, false, not, ◌&&◌, ◌||◌, [], ◌++◌, Option, arith, if◌then◌else◌, ltb,
  Bool-cases, inl, inr,
}
use fuck_wjx.Common.Text.{Text, codes, strip, or_else}
use fuck_wjx.Task.Progress.{mark_thread_finished, increment_thread_fail}
use fuck_wjx.Task.ReverseFill.{Status}
use fuck_wjx.Task.Joint
use fuck_wjx.Task.Methods.{update_threads}
use fuck_wjx.Engine.StopPolicy.{FailureReason, record_failure, record_success}
use fuck_wjx.Engine.StopPolicy.Defs.{Signal, reason_text}
use fuck_wjx.Engine.Round.{
  Shared, slot_caller, is_set, on_state, state_of, release_joint, release_row,
  release_round_resources, update_status, should_stop_loop, stop_with, prepare_iteration, Raised,
  handle_raised, has_proxy, block_http_runtime, handle_proxy_unavailable,
}
use fuck_wjx.Engine.Round.Resources.{
  expire_stale, reserve_joint, acquire_row, without_slot, with_slot, is_some, is_acquired,
}
use fuck_wjx.Engine.Round.Handlers.{
  mark_bad, stop_if, give_up, handle_verification, failing, ai_failing, proxy_failing,
  verification_failing, blocked_failing,
}
use fuck_wjx.Engine.Slot.Attempt.{
  mark_answering, enter, mark_successful_proxy, submit_done, submit_raised, close_slot,
  finished_text,
}
use fuck_wjx.Engine.Slot.Effects.{
  Quiet, Closed, Quiet-refl, threads-Quiet, status-Quiet, step-Quiet, stop_with-Quiet,
  should_stop-Quiet, successful-Quiet, bad-Quiet,
}
use fuck_wjx.Engine.Slot.Keeps.{
  quiet_then, then_quiet, either, record_failure-R, record_success-R, set-Quiet,
}

module _ (slot_label : Text) (R : Shared → Shared → Type 0) (c : Closed slot_label R) where
  pub round-R : (p : Shared) → R p (release_round_resources slot_label p)
  unfolding release_round_resources
  round-R p =
      c.trans p (release_joint slot_label p) _ (c.released_joint p)
        (c.released_row (release_joint slot_label p))

  give_up-R :
      (status_text category reason message : Text) (now : ℕ) (p : Shared)
      → R p (give_up slot_label status_text category reason message now p).0
  unfolding give_up
  give_up-R status_text category reason message now p =
      let released = release_row slot_label (release_joint slot_label p) in
      let write = increment_thread_fail slot_label status_text now in
      let counted = on_state (update_threads write) released in
      c.trans p (release_joint slot_label p) _ (c.released_joint p) (
        c.trans (release_joint slot_label p) released _
          (c.released_row (release_joint slot_label p))
          (quiet_then slot_label R c released counted _ (threads-Quiet write released)
            (c.quiet counted _ (stop_with-Quiet category reason message counted))))

  stop_if-Quiet : (r : Shared × Bool) → Quiet r.0 (stop_if r).0
  unfolding stop_if
  stop_if-Quiet ((s, g), b) = ground (arith, set-Quiet s g, Quiet-refl (s, g))

  stop_if-R : (p : Shared) (r : Shared × Bool) → R p r.0 → R p (stop_if r).0
  stop_if-R p r h = then_quiet slot_label R c p r.0 _ h (stop_if-Quiet r)

  proxy_unavailable-R :
      (status_text log_message : Text) (now : ℕ) (p : Shared)
      → R p (handle_proxy_unavailable slot_label status_text log_message now p).0
  unfolding handle_proxy_unavailable
  proxy_unavailable-R status_text log_message now p =
      let f = proxy_failing status_text log_message (state_of p).config in
      stop_if-R p (record_failure f (slot_caller slot_label) now p)
        (record_failure-R slot_label R c f now p)

  verification-R :
      (a : Option Text) (text : Text) (now : ℕ) (p : Shared)
      → R p (handle_verification slot_label a text now p).0
  unfolding handle_verification
  verification-R a text now p =
      let f = verification_failing text in
      let q = mark_bad a now p in
      elim (Bool-cases ((state_of p).config.random_proxy_ip_enabled && has_proxy a)) [
        | inl e ↦ rw e (
            stop_if-R p (record_failure f (slot_caller slot_label) now q) (
              quiet_then slot_label R c p q _ (bad-Quiet a now p)
                (record_failure-R slot_label R c f now q)))
        | inr e ↦ rw e (
            give_up-R (codes "触发智能验证") (codes "submission_verification")
              (reason_text FailureReason.submission_verification_required)
              (or_else (strip text) (codes "提交触发智能验证，请启用随机 IP 后再试")) now p)
      ]

  handle_raised-R :
      (a : Option Text) (e : Raised) (now : ℕ) (p : Shared)
      → R p (handle_raised slot_label a e now p).0
  unfolding handle_raised
  handle_raised-R a (Raised.ai_error timed_out text) now p =
      record_failure-R slot_label R c (ai_failing timed_out text) now p
  handle_raised-R a (Raised.verification_required text) now p = verification-R a text now p
  handle_raised-R a (Raised.provider_unavailable text) now p =
      give_up-R (codes "问卷不可填写") (codes "survey_provider_unavailable")
        (reason_text FailureReason.survey_provider_unavailable)
        (or_else (strip text) (codes "问卷当前不可填写")) now p
  handle_raised-R a (Raised.transport_error text) now p = elim (Bool-cases (has_proxy a)) [
    | inl e ↦ rw e (
        quiet_then slot_label R c p (mark_bad a now p) _ (bad-Quiet a now p) (
          proxy_unavailable-R (codes "代理连接失败") (codes "HTTP 请求失败，本轮按失败处理：" ++ text) now
            (mark_bad a now p)))
    | inr e ↦ rw e (proxy_unavailable-R (codes "网络请求失败") (codes "HTTP 请求失败，本轮按失败处理：" ++ text) now p)
  ]
  handle_raised-R a (Raised.other_error text) now p = elim (Bool-cases (is_set p.1)) [
    | inl e ↦ rw (e, handle_raised) (c.quiet p p (Quiet-refl p))
    | inr e ↦
        rw (e, handle_raised)
          (record_failure-R slot_label R c
            (failing FailureReason.fill_failed (codes "HTTP 提交失败，本轮按失败处理：" ++ text)) now p)
  ]

  with_slot-R :
      (reserved : Bool) (now : ℕ) (status : Status) (p : Shared)
      → R p (with_slot slot_label reserved now status p).0
  unfolding with_slot
  with_slot-R reserved now Status.acquired p = c.quiet p p (Quiet-refl p)
  with_slot-R reserved now Status.disabled p = c.quiet p p (Quiet-refl p)
  with_slot-R reserved now Status.waiting p =
      then_quiet slot_label R c p (if reserved then release_joint slot_label p else p) _
        (either slot_label R c reserved p _ p (c.released_joint p) (c.quiet p p (Quiet-refl p)))
        (status-Quiet slot_label _ true now _)
  with_slot-R reserved now Status.exhausted p =
      let q = if reserved then release_joint slot_label p else p in
      let stopped =
        stop_with (codes "reverse_fill_exhausted") (reason_text FailureReason.fill_failed)
          (codes "反填样本已耗尽，剩余样本不足以完成目标份数") q in
      c.trans p q _
        (either slot_label R c reserved p _ p (c.released_joint p) (c.quiet p p (Quiet-refl p)))
        (quiet_then slot_label R c q stopped _
          (stop_with-Quiet (codes "reverse_fill_exhausted") (reason_text FailureReason.fill_failed)
            (codes "反填样本已耗尽，剩余样本不足以完成目标份数") q)
          (c.quiet stopped _ (status-Quiet slot_label _ false now stopped)))

  without_slot-R :
      (n now : ℕ) (status : Status) (p : Shared) → R p (without_slot slot_label n now status p).0
  unfolding without_slot
  without_slot-R n now status p =
      let q = if is_acquired status then release_row slot_label p else p in
      let stopped = stop_with (codes "target_reached") [] (codes "联合信效度样本槽位已全部完成") q in
      let a =
        either slot_label R c (is_acquired status) p _ p (c.released_row p)
          (c.quiet p p (Quiet-refl p)) in
      elim (Bool-cases (Joint.quota_exhausted n (state_of q).joint)) [
        | inl e ↦ rw e (
            c.trans p q _ a (
              quiet_then slot_label R c q stopped _
                (stop_with-Quiet (codes "target_reached") [] (codes "联合信效度样本槽位已全部完成") q)
                (c.quiet stopped _ (status-Quiet slot_label _ false now stopped))))
        | inr e ↦ rw e (then_quiet slot_label R c p q _ a (status-Quiet slot_label _ true now q))
      ]

  pub prepare-R : (n now : ℕ) (p : Shared) → R p (prepare_iteration slot_label n now p).0
  unfolding prepare_iteration
  prepare-R n now p =
      let p0 = (should_stop_loop p).0 in
      let p' = expire_stale now p0 in
      let (p1, index) = reserve_joint slot_label n now p' in
      let (p2, row) = acquire_row slot_label p1 in
      let a = c.quiet p p0 (should_stop-Quiet p) in
      let b = c.trans p p0 p2 a (
        c.trans p0 p' p2 (c.expired now p0)
          (c.trans p' p1 p2 (c.reserved n now p') (c.acquired p1))) in
      elim (Bool-cases (should_stop_loop p).1) [
        | inl e ↦ rw e a
        | inr e ↦ elim (Bool-cases (ltb 0 n && not (is_some index))) [
          | inl f ↦ rw (e, f) (c.trans p p2 _ b (without_slot-R n now row.status p2))
          | inr f ↦ rw (e, f) (c.trans p p2 _ b (with_slot-R (is_some index) now row.status p2))
        ]
      ]

  pub enter-R : (n : ℕ) (a : Option Text) (p : Shared) → R p (enter slot_label n a p).0
  unfolding enter
  enter-R n a p =
      let (p', marked) = mark_answering slot_label p in
      elim (Bool-cases (is_set p.1)) [
        | inl e ↦ rw e (c.quiet p p (Quiet-refl p))
        | inr e ↦ elim (Bool-cases (p.0.config.random_proxy_ip_enabled && not (has_proxy a))) [
          | inl f ↦ rw (e, f) (round-R p)
          | inr f ↦ elim (Bool-cases (ltb 0 n && not marked)) [
            | inl h ↦ rw (e, f, h) (c.trans p p' _ (c.answering p) (round-R p'))
            | inr h ↦ rw (e, f, h) (c.answering p)
          ]
        ]
      ]

  pub submit_raised-R :
      (a : Option Text) (e : Raised) (now : ℕ) (p : Shared)
      → R p (submit_raised slot_label a e now p).0
  unfolding submit_raised
  submit_raised-R a e now p =
      let (p', stop) = handle_raised slot_label a e now p in
      elim (Bool-cases stop) [
        | inl f ↦ rw f (handle_raised-R a e now p)
        | inr f ↦ rw f (c.trans p p' _ (handle_raised-R a e now p) (round-R p'))
      ]

  pub close_slot-R : (now : ℕ) (p : Shared) → R p (close_slot slot_label now p)
  unfolding close_slot
  close_slot-R now p =
      let released = release_row slot_label (release_joint slot_label p) in
      c.trans p (release_joint slot_label p) _ (c.released_joint p) (
        then_quiet slot_label R c (release_joint slot_label p) released _
          (c.released_row (release_joint slot_label p))
          (threads-Quiet (mark_thread_finished slot_label (finished_text released) now) released))

  pub block-R :
      (reason : Text) (now : ℕ) (p : Shared) → R p (block_http_runtime slot_label reason now p)
  unfolding block_http_runtime
  block-R reason now p =
      let message = or_else (strip reason) (codes "当前问卷不支持纯 HTTP 提交") in
      let f = blocked_failing message in
      let q = update_status slot_label (codes "纯 HTTP 不支持") false now p in
      let failed = (record_failure f (slot_caller slot_label) now q).0 in
      quiet_then slot_label R c p q _ (status-Quiet slot_label _ false now p) (
        then_quiet slot_label R c q failed _ (record_failure-R slot_label R c f now q) (
          stop_with-Quiet (codes "http_runtime_only") (reason_text FailureReason.fill_failed)
            message failed))

  module _ (bridge : Signal → Signal)
      (mono : (g : Signal) → is_set g ≡ true → is_set (bridge g) ≡ true) where
    pub submit_done-R :
        (a : Option Text) (done : Bool) (delay now : ℕ) (p : Shared)
        → R p (submit_done bridge slot_label a done delay now p).0
    unfolding submit_done
    submit_done-R a done delay now p =
        let q = mark_successful_proxy a p in
        let (p', stop) =
          record_success bridge (codes "提交成功") (codes "目标份数已达成") (slot_caller slot_label) now q in
        let s =
          quiet_then slot_label R c p q p' (successful-Quiet a p)
            (record_success-R slot_label R c bridge mono _ _ now q) in
        elim (Bool-cases (is_set p.1 || not done)) [
          | inl e ↦ rw e (round-R p)
          | inr e ↦ elim (Bool-cases stop) [
            | inl f ↦ rw (e, f) s
            | inr f ↦
                rw (e, f)
                  (either slot_label R c (ltb 0 delay) p _ p'
                    (then_quiet slot_label R c p p' _ s (step-Quiet slot_label _ now p')) s)
          ]
        ]

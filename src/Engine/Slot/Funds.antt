-- ===== src/Engine/Slot/Funds.antt =====
-- Each stretch of a slot leaves enough tokens for the slots that need one.
use fuck_wjx.Common.{
  ℕ, ◌≡◌, refl, inl, inr, Bool, true, false, not, Option, none, some, arith, Bool-cases,
}
use fuck_wjx.Common.Text.{Text, codes, is_empty}
use fuck_wjx.Common.Dict.{lookup, text_key_eq}
use fuck_wjx.Engine.StopPolicy.Defs.{Signal}
use fuck_wjx.Engine.Round.{
  Shared, is_set, should_stop_loop, release_round_resources, retry_ticks, update_status,
  block_http_runtime,
}
use fuck_wjx.Engine.Slot.Attempt.{Ending, again, reset_pending, submit_done, submit_raised}
use fuck_wjx.Engine.Slot.Steps.{Pc, Stage, Slot, World, set_shared, conclude}
use fuck_wjx.Engine.Slot.Defs.{
  Settings, Event, open_slot, next_attempt, record_choice, submission_over, advance,
}
use fuck_wjx.Engine.Slot.Effects.{
  Closed, status-Quiet, reset-Quiet, should_stop-Quiet, choice-Quiet,
}
use fuck_wjx.Engine.Slot.Stretches.{round-R, submit_raised-R, block-R, submit_done-R}
use fuck_wjx.Engine.Slot.History.{History}
use fuck_wjx.Engine.Slot.Calls.{Closed-History}
use fuck_wjx.Engine.Slot.Tokens.{
  At, put-Backed, finish-Backed, conclude-Backed, try_acquire-Backed, prepare-Backed,
  selected-Backed, poll-Backed, cycle-Backed, locked-Backed, retry-Backed, merge-Backed,
}
use fuck_wjx.Engine.Slot.Supply.{need, Stays, Backed, shared-Backed}

stop_free : (p : Shared) → (should_stop_loop p).1 ≡ false → is_set (should_stop_loop p).0.1 ≡ false
unfolding should_stop_loop
stop_free (s, g) h = ground (arith, h)

module _ (slot_label : Text) (i : Slot) where
  abbrev H : Closed slot_label History
  H = Closed-History slot_label

  open-Backed :
      (uses_http : Bool) (reason : Text) (now : ℕ) (w : World)
      → At slot_label i w
      → i.pc ≡ Pc.starting
      → Backed w
      → Backed (open_slot uses_http reason slot_label now w)
  unfolding open_slot
  open-Backed uses_http reason now w e h v =
      let p = block_http_runtime slot_label reason now w.shared in
      let blocked = shared-Backed p w (block-R slot_label History H reason now w.shared).stop v in
      let q = update_status slot_label (codes "HTTP 会话启动") true now w.shared in
      let shown =
        shared-Backed q w (status-Quiet slot_label (codes "HTTP 会话启动") true now w.shared).stop v in
      elim (Bool-cases (not uses_http)) [
        | inl f ↦ rw f (
            put-Backed slot_label i Pc.finished none (set_shared p w) e blocked
              (unfold need in omega arith))
        | inr f ↦ elim (Bool-cases (not (is_empty reason))) [
          | inl k ↦ rw (f, k) (finish-Backed slot_label i now (set_shared p w) e blocked)
          | inr k ↦
              rw (f, k)
                (put-Backed slot_label i Pc.head none (set_shared q w) e shown
                  (rw h (unfold need in omega arith)))
        ]
      ]

  next-Backed :
      (now : ℕ) (w : World)
      → At slot_label i w
      → i.pc ≡ Pc.head
      → Backed w
      → Backed (next_attempt slot_label now w)
  unfolding next_attempt
  next-Backed now w e h v =
      let (p, stop) = should_stop_loop w.shared in
      let u = shared-Backed p w (should_stop-Quiet w.shared).stop v in
      elim (Bool-cases stop) [
        | inl f ↦ rw f (finish-Backed slot_label i now (set_shared p w) e u)
        | inr f ↦ rw f (
            try_acquire-Backed slot_label i now (set_shared p w) e u
              (rw (h, stop_free w.shared f) (unfold need in refl)))
      ]

  ended-Backed :
      (a : Option Text) (token_id : ℕ) (ending : Ending) (now : ℕ) (p : Shared) (w : World)
      → At slot_label i w
      → Backed w
      → Stays w.shared p
      → Backed (conclude slot_label a token_id ending now (set_shared p w))
  ended-Backed a token_id ending now p w e v h =
      conclude-Backed slot_label i a token_id ending now (set_shared p w) e (shared-Backed p w h v)

module _ (slot_label : Text) (settings : Settings)
    (mono : (g : Signal) → is_set g ≡ true → is_set (settings.bridge g) ≡ true) where
  abbrev place : Pc → Option Text → Slot
  place pc a = record { pc = pc; proxy_address = a }

  pub advance-Backed :
      (a : Option Text) (now : ℕ) (pc : Pc) (event : Event) (w : World)
      → lookup slot_label w.slots ≡ some (place pc a)
      → Backed w
      → Backed (advance settings slot_label a now pc event w)
  unfolding advance submission_over
  advance-Backed a now Pc.starting Event.go w e v =
      open-Backed slot_label (place Pc.starting a) settings.uses_http settings.block_reason now w e
        refl v
  advance-Backed a now Pc.head Event.go w e v =
      next-Backed slot_label (place Pc.head a) now w e refl v
  advance-Backed a now Pc.waiting Event.go w e v =
      try_acquire-Backed slot_label (place Pc.waiting a) now w e v (unfold need in refl)
  advance-Backed a now (Pc.opening token_id) Event.go w e v =
      let p = reset_pending slot_label w.shared in
      prepare-Backed slot_label (place (Pc.opening token_id) a) settings.sample_count token_id now
        (set_shared p w) e (shared-Backed p w (reset-Quiet slot_label w.shared).stop v)
  advance-Backed a now (Pc.preparing token_id) Event.go w e v =
      prepare-Backed slot_label (place (Pc.preparing token_id) a) settings.sample_count token_id now
        w e v
  advance-Backed a now (Pc.selecting Stage.entering token_id) (Event.poll busy) w e v =
      poll-Backed slot_label (place (Pc.selecting Stage.entering token_id) a) settings.required
        settings.sample_count token_id busy now w e v
  advance-Backed a now (Pc.selecting Stage.polling token_id) (Event.poll busy) w e v =
      cycle-Backed slot_label (place (Pc.selecting Stage.polling token_id) a) settings.required
        settings.sample_count token_id busy now w e v
  advance-Backed a now (Pc.selecting Stage.locking token_id) (Event.poll busy) w e v =
      locked-Backed slot_label (place (Pc.selecting Stage.locking token_id) a) settings.required
        settings.sample_count token_id now w e v
  advance-Backed a now (Pc.selecting Stage.locking token_id) Event.go w e v =
      retry-Backed slot_label (place (Pc.selecting Stage.locking token_id) a) settings.sample_count
        token_id now w e v
  advance-Backed a now (Pc.selecting Stage.fetching token_id) (Event.fetched items) w e v =
      merge-Backed slot_label (place (Pc.selecting Stage.fetching token_id) a) settings.expire_of
        settings.required settings.sample_count items token_id now w e v
  advance-Backed a now (Pc.selecting stage token_id) Event.no_proxy w e v =
      selected-Backed slot_label (place (Pc.selecting stage token_id) a) settings.sample_count none
        token_id now w e v
  advance-Backed a now (Pc.selecting stage token_id) Event.lease_timeout w e v =
      ended-Backed slot_label (place (Pc.selecting stage token_id) a) none token_id
        (again retry_ticks) now (release_round_resources slot_label w.shared) w e v
        (round-R slot_label History (Closed-History slot_label) w.shared).stop
  advance-Backed a now (Pc.selecting stage token_id) (Event.raised x) w e v =
      let (p, ending) = submit_raised slot_label none x now w.shared in
      ended-Backed slot_label (place (Pc.selecting stage token_id) a) none token_id ending now p w e
        v (submit_raised-R slot_label History (Closed-History slot_label) none x now w.shared).stop
  advance-Backed a now (Pc.submitting token_id) (Event.chose stat_key index n) w e v =
      shared-Backed (record_choice stat_key index n w.shared) w
        (choice-Quiet stat_key index n w.shared).stop v
  advance-Backed a now (Pc.submitting token_id) (Event.submitted done delay) w e v =
      let (p, ending) = submit_done settings.bridge slot_label a done delay now w.shared in
      ended-Backed slot_label (place (Pc.submitting token_id) a) a token_id ending now p w e v
        (submit_done-R slot_label History (Closed-History slot_label) settings.bridge mono a done
          delay now w.shared).stop
  advance-Backed a now (Pc.submitting token_id) (Event.raised x) w e v =
      let (p, ending) = submit_raised slot_label a x now w.shared in
      ended-Backed slot_label (place (Pc.submitting token_id) a) a token_id ending now p w e v
        (submit_raised-R slot_label History (Closed-History slot_label) a x now w.shared).stop
  advance-Backed a now pc _ w e v = v

-- ===== src/Engine/Slot/Places.antt =====
-- Each stretch of a slot moves it to a place that fits what it holds.
use fuck_wjx.Common.{ℕ, ◌≡◌, ◌⊎◌, inl, inr, Bool, true, not, Option, none, some, Bool-cases}
use fuck_wjx.Common.Text.{Text, codes, is_empty}
use fuck_wjx.Common.Dict.{lookup, text_key_eq}
use fuck_wjx.Engine.StopPolicy.Defs.{Signal}
use fuck_wjx.Engine.Round.{
  Shared, is_set, should_stop_loop, release_round_resources, retry_ticks, update_status,
  block_http_runtime, has_proxy,
}
use fuck_wjx.Engine.Slot.Attempt.{Ending, again, reset_pending, submit_done, submit_raised}
use fuck_wjx.Engine.Slot.Steps.{Pc, Stage, World, set_shared, conclude}
use fuck_wjx.Engine.Slot.Defs.{
  Settings, Event, open_slot, next_attempt, record_choice, submission_over, advance,
}
use fuck_wjx.Engine.Slot.Effects.{status-Quiet, reset-Quiet, should_stop-Quiet, choice-Quiet}
use fuck_wjx.Engine.Slot.Stretches.{round-R, submit_raised-R, block-R, submit_done-R}
use fuck_wjx.Engine.Slot.Spares.{IsClean}
use fuck_wjx.Engine.Slot.Own.{NoProxy, Unleased, Closed-Unleased, round-EmptyHanded}
use fuck_wjx.Engine.Slot.Outcomes.{done-EmptyHanded, raised-EmptyHanded, block-EmptyHanded}
use fuck_wjx.Engine.Slot.Tidy.{
  Clear, Fits, Moved, Quiet-Clear, Quiet-NoProxy, put-Moved, via, finish-Moved, conclude-Moved,
  try_acquire-Moved, Over,
}
use fuck_wjx.Engine.Slot.Moves.{
  prepare-Moved, selected-Moved, poll-Moved, cycle-Moved, locked-Moved, retry-Moved, merge-Moved,
  still-Moved, at,
}

module _ (slot_label : Text) (clean : IsClean slot_label) where
  abbrev U : Shared → Shared → Type 0
  U = Unleased slot_label

  open-Moved :
      (uses_http : Bool) (reason : Text) (now : ℕ) (w : World)
      → Clear slot_label w.shared
      → Moved slot_label w (open_slot uses_http reason slot_label now w)
  unfolding open_slot
  open-Moved uses_http reason now w c =
      let p = block_http_runtime slot_label reason now w.shared in
      let f = block-EmptyHanded slot_label clean reason now w.shared in
      let blocked : Clear slot_label p = record {
        joint = f.joint;
        row = f.row;
        proxy = block-R slot_label U (Closed-Unleased slot_label) reason now w.shared c.proxy;
      } in
      let q = update_status slot_label (codes "HTTP 会话启动") true now w.shared in
      elim (Bool-cases (not uses_http)) [
        | inl e ↦ rw e (
            via slot_label clean p w _ (
              put-Moved slot_label clean Pc.finished none (set_shared p w)
                (unfold Fits in blocked)))
        | inr e ↦ elim (Bool-cases (not (is_empty reason))) [
          | inl h ↦
              rw (e, h)
                (via slot_label clean p w _
                  (finish-Moved slot_label clean now (set_shared p w) blocked.proxy))
          | inr h ↦
              rw (e, h)
                (via slot_label clean q w _ (
                  put-Moved slot_label clean Pc.head none (set_shared q w) (
                    unfold Fits in
                    Quiet-Clear slot_label w.shared q
                      (status-Quiet slot_label (codes "HTTP 会话启动") true now w.shared) c)))
        ]
      ]

  next-Moved :
      (now : ℕ) (w : World)
      → Clear slot_label w.shared
      → Moved slot_label w (next_attempt slot_label now w)
  unfolding next_attempt
  next-Moved now w c =
      let (p, stop) = should_stop_loop w.shared in
      let d = Quiet-Clear slot_label w.shared p (should_stop-Quiet w.shared) c in
      elim (Bool-cases stop) [
        | inl e ↦ rw e (
            via slot_label clean p w _ (finish-Moved slot_label clean now (set_shared p w) d.proxy))
        | inr e ↦
            rw e (
              via slot_label clean p w _
                (try_acquire-Moved slot_label clean now (set_shared p w) d))
      ]

  -- The end of an attempt, from the state that it leaves.
  ended-Moved :
      (a : Option Text) (token_id : ℕ) (ending : Ending) (now : ℕ) (p : Shared) (w : World)
      → NoProxy slot_label p ⊎ has_proxy a ≡ true
      → Over slot_label clean ending p
      → Moved slot_label w (conclude slot_label a token_id ending now (set_shared p w))
  ended-Moved a token_id ending now p w h o =
      via slot_label clean p w _
        (conclude-Moved slot_label clean a token_id ending now (set_shared p w) h o)

  module _ (settings : Settings)
      (mono : (g : Signal) → is_set g ≡ true → is_set (settings.bridge g) ≡ true) where
    pub advance-Moved :
        (a : Option Text) (now : ℕ) (pc : Pc) (event : Event) (w : World)
        → lookup slot_label w.slots ≡ some (record { pc = pc; proxy_address = a })
        → Fits slot_label pc a w.shared
        → Moved slot_label w (advance settings slot_label a now pc event w)
    unfolding advance submission_over Fits
    advance-Moved a now Pc.starting Event.go w e h =
        open-Moved settings.uses_http settings.block_reason now w h
    advance-Moved a now Pc.head Event.go w e h = next-Moved now w h
    advance-Moved a now Pc.waiting Event.go w e h = try_acquire-Moved slot_label clean now w h
    advance-Moved a now (Pc.opening token_id) Event.go w e h =
        let p = reset_pending slot_label w.shared in
        via slot_label clean p w _ (
          prepare-Moved slot_label clean settings.sample_count token_id now (set_shared p w)
            (Quiet-NoProxy slot_label w.shared p (reset-Quiet slot_label w.shared) h))
    advance-Moved a now (Pc.preparing token_id) Event.go w e h =
        prepare-Moved slot_label clean settings.sample_count token_id now w h
    advance-Moved a now (Pc.selecting Stage.entering token_id) (Event.poll busy) w e h =
        poll-Moved slot_label clean settings.required settings.sample_count token_id busy now w h
    advance-Moved a now (Pc.selecting Stage.polling token_id) (Event.poll busy) w e h =
        cycle-Moved slot_label clean settings.required settings.sample_count token_id busy now w h
    advance-Moved a now (Pc.selecting Stage.locking token_id) (Event.poll busy) w e h =
        locked-Moved slot_label clean settings.required settings.sample_count token_id now w h
    advance-Moved a now (Pc.selecting Stage.locking token_id) Event.go w e h =
        retry-Moved slot_label clean settings.sample_count token_id now w h
    advance-Moved a now (Pc.selecting Stage.fetching token_id) (Event.fetched items) w e h =
        merge-Moved slot_label clean settings.expire_of settings.required settings.sample_count
          items token_id now w h
    advance-Moved a now (Pc.selecting stage token_id) Event.no_proxy w e h =
        selected-Moved slot_label clean settings.sample_count none token_id now w (inl h)
    advance-Moved a now (Pc.selecting stage token_id) Event.lease_timeout w e h =
        let p = release_round_resources slot_label w.shared in
        ended-Moved none token_id (again retry_ticks) now p w
          (inl (round-R slot_label U (Closed-Unleased slot_label) w.shared h))
          (λ d f. round-EmptyHanded slot_label clean w.shared)
    advance-Moved a now (Pc.selecting stage token_id) (Event.raised x) w e h =
        let (p, ending) = submit_raised slot_label none x now w.shared in
        ended-Moved none token_id ending now p w
          (inl (submit_raised-R slot_label U (Closed-Unleased slot_label) none x now w.shared h))
          (λ d f. raised-EmptyHanded slot_label clean none x now d w.shared f)
    advance-Moved a now (Pc.submitting token_id) (Event.chose stat_key index n) w e h =
        let p = record_choice stat_key index n w.shared in
        still-Moved slot_label clean (at slot_label clean (Pc.submitting token_id) a) p w e
          (elim h [
            | inl k ↦
                inl (Quiet-NoProxy slot_label w.shared p (choice-Quiet stat_key index n w.shared) k)
            | inr k ↦ inr k
          ])
    advance-Moved a now (Pc.submitting token_id) (Event.submitted done delay) w e h =
        let (p, ending) = submit_done settings.bridge slot_label a done delay now w.shared in
        ended-Moved a token_id ending now p w
          (elim h [
            | inl k ↦ inl (
                submit_done-R slot_label U (Closed-Unleased slot_label) settings.bridge mono a done
                  delay now w.shared k)
            | inr k ↦ inr k
          ])
          (λ d f.
            done-EmptyHanded slot_label clean settings.bridge mono a done delay now d w.shared f)
    advance-Moved a now (Pc.submitting token_id) (Event.raised x) w e h =
        let (p, ending) = submit_raised slot_label a x now w.shared in
        ended-Moved a token_id ending now p w
          (elim h [
            | inl k ↦
                inl (submit_raised-R slot_label U (Closed-Unleased slot_label) a x now w.shared k)
            | inr k ↦ inr k
          ])
          (λ d f. raised-EmptyHanded slot_label clean a x now d w.shared f)
    advance-Moved a now pc _ w e h =
        still-Moved slot_label clean (at slot_label clean pc a) w.shared w e h

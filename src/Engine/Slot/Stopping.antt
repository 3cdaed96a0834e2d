-- ===== src/Engine/Slot/Stopping.antt =====
-- A stopped run comes to its end: each wait of a slot that ends brings it closer to its end.
use fuck_wjx.Common.{ℕ, ◌<◌, ◌≡◌, Bool, true, false, Option, none, some, arith}
use fuck_wjx.Common.Text.{Text}
use fuck_wjx.Common.Dict.{lookup, text_key_eq}
use fuck_wjx.Engine.Round.{is_set, release_round_resources, retry_ticks}
use fuck_wjx.Engine.Slot.Attempt.{again, reset_pending, submit_done, submit_raised}
use fuck_wjx.Engine.Slot.Effects.{reset-Quiet}
use fuck_wjx.Engine.Slot.Steps.{Pc, Stage, Slot, World, set_shared}
use fuck_wjx.Engine.Slot.Defs.{Settings, Event, slot, submission_over, advance, turn}
use fuck_wjx.Engine.Slot.Ranks.{
  rank, selecting_far, conclude-Within, open-Within, next-Within, prepare-Within, selected-Within,
  cycle-Within, poll-Within, locked-Within, retry-Within, merge-Within, below,
}

-- Whether the event ends the wait that the slot is in, where it waits for no token: all events that
-- `advance` answers there do, except that a submission records a choice while it goes on.
abbrev pub ends_wait : Pc → Event → Bool
ends_wait Pc.starting Event.go = true
ends_wait Pc.head Event.go = true
ends_wait (Pc.opening token_id) Event.go = true
ends_wait (Pc.preparing token_id) Event.go = true
ends_wait (Pc.selecting Stage.entering token_id) (Event.poll busy) = true
ends_wait (Pc.selecting Stage.polling token_id) (Event.poll busy) = true
ends_wait (Pc.selecting Stage.locking token_id) (Event.poll busy) = true
ends_wait (Pc.selecting Stage.locking token_id) Event.go = true
ends_wait (Pc.selecting Stage.fetching token_id) (Event.fetched items) = true
ends_wait (Pc.selecting stage token_id) Event.no_proxy = true
ends_wait (Pc.selecting stage token_id) Event.lease_timeout = true
ends_wait (Pc.selecting stage token_id) (Event.raised e) = true
ends_wait (Pc.submitting token_id) (Event.submitted done delay) = true
ends_wait (Pc.submitting token_id) (Event.raised e) = true
ends_wait _ _ = false

module _ (slot_label : Text) (settings : Settings) where
  advance-Within :
      (a : Option Text) (now : ℕ) (pc : Pc) (event : Event) (w : World)
      → is_set w.shared.1 ≡ true
      → ends_wait pc event ≡ true
      → (s : Slot) × ((lookup slot_label (advance settings slot_label a now pc event w).slots
            ≡ some s)
          × (rank s.pc < rank pc))
  unfolding advance submission_over
  advance-Within a now Pc.starting Event.go w h d =
      below slot_label 1 2 _ (omega arith)
        (open-Within slot_label settings.uses_http settings.block_reason now w)
  advance-Within a now Pc.head Event.go w h d =
      below slot_label 0 1 _ (omega arith) (next-Within slot_label now w h)
  advance-Within a now (Pc.opening token_id) Event.go w h d =
      let p = reset_pending slot_label w.shared in
      below slot_label 0 1 _ (omega arith) (
        prepare-Within slot_label settings.sample_count token_id now (set_shared p w)
          ((reset-Quiet slot_label w.shared).stop h))
  advance-Within a now (Pc.preparing token_id) Event.go w h d =
      below slot_label 0 1 _ (omega arith)
        (prepare-Within slot_label settings.sample_count token_id now w h)
  advance-Within a now (Pc.selecting Stage.entering token_id) (Event.poll busy) w h d =
      below slot_label 0 2 _ (omega arith)
        (poll-Within slot_label settings.required settings.sample_count token_id busy now w h)
  advance-Within a now (Pc.selecting Stage.polling token_id) (Event.poll busy) w h d =
      below slot_label 0 2 _ (omega arith)
        (cycle-Within slot_label settings.required settings.sample_count token_id busy now w h)
  advance-Within a now (Pc.selecting Stage.locking token_id) (Event.poll busy) w h d =
      below slot_label 3 4 _ (omega arith)
        (locked-Within slot_label settings.required settings.sample_count token_id now w h)
  advance-Within a now (Pc.selecting Stage.locking token_id) Event.go w h d =
      below slot_label 0 4 _ (omega arith)
        (retry-Within slot_label settings.sample_count token_id now w h)
  advance-Within a now (Pc.selecting Stage.fetching token_id) (Event.fetched items) w h d =
      below slot_label 2 3 _ (omega arith) (
        merge-Within slot_label settings.expire_of settings.required settings.sample_count items
          token_id now w h)
  advance-Within a now (Pc.selecting stage token_id) Event.no_proxy w h d =
      below slot_label 0 (rank (Pc.selecting stage token_id)) _
        (omega (arith, selecting_far stage token_id))
        (selected-Within slot_label settings.sample_count none token_id now w h)
  advance-Within a now (Pc.selecting stage token_id) Event.lease_timeout w h d =
      below slot_label 1 (rank (Pc.selecting stage token_id)) _ (selecting_far stage token_id) (
        conclude-Within slot_label none token_id (again retry_ticks) now
          (set_shared (release_round_resources slot_label w.shared) w))
  advance-Within a now (Pc.selecting stage token_id) (Event.raised e) w h d =
      let (p, ending) = submit_raised slot_label none e now w.shared in
      below slot_label 1 (rank (Pc.selecting stage token_id)) _ (selecting_far stage token_id)
        (conclude-Within slot_label none token_id ending now (set_shared p w))
  advance-Within a now (Pc.submitting token_id) (Event.submitted done delay) w h d =
      let (p, ending) = submit_done settings.bridge slot_label a done delay now w.shared in
      below slot_label 1 2 _ (omega arith)
        (conclude-Within slot_label a token_id ending now (set_shared p w))
  advance-Within a now (Pc.submitting token_id) (Event.raised e) w h d =
      let (p, ending) = submit_raised slot_label a e now w.shared in
      below slot_label 1 2 _ (omega arith)
        (conclude-Within slot_label a token_id ending now (set_shared p w))
  advance-Within a now pc event w h d = absurd (ground (arith, d))

-- When a run is stopped, whatever ends a wait of a slot, other than one for a token, moves the slot strictly
-- closer to its end: the rank of its place goes down. (The stop event is set, the slot is known, and
-- the event ends its wait.)
pub stopped-closer :
    (settings : Settings) (w : World) (l : Text) (i : Slot) (event : Event) (now : ℕ)
    → is_set w.shared.1 ≡ true
    → lookup l w.slots ≡ some i
    → ends_wait i.pc event ≡ true
    → (s : Slot) × ((lookup l (turn settings (slot l event now) w).slots ≡ some s)
        × (rank s.pc < rank i.pc))
unfolding turn
stopped-closer settings w l i event now h e d =
    rw (e, turn) (advance-Within l settings i.proxy_address now i.pc event w h d)

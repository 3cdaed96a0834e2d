-- ===== src/Engine/Slot/Turns.antt =====
-- What a stretch of a slot does to the state that the slots share, and to the engine's turns.
use fuck_wjx.Common.{
  ℕ, ◌≡◌, Bool, true, not, List, [], ◌∷◌, Option, none, some, arith, Bool-cases, inl, inr,
  if_either,
}
use fuck_wjx.Common.Text.{Text, codes, is_empty}
use fuck_wjx.Task.Proxy.{ProxyLease}
use fuck_wjx.Task.State.{ExecutionState}
use fuck_wjx.Network.Session.{Item, pop_available_lease, merge_fetched_leases, use_lease}
use fuck_wjx.Network.Session.Frame.{Kept, pop-Kept, merge-Kept}
use fuck_wjx.Engine.StopPolicy.Defs.{Signal}
use fuck_wjx.Engine.Scheduler
use fuck_wjx.Engine.Scheduler.Defs.{Acquired, refused, blocked, got}
use fuck_wjx.Engine.Round.{
  Shared, is_set, should_stop_loop, prepare_iteration, Prepared, block_http_runtime, retry_ticks,
}
use fuck_wjx.Engine.Slot.Attempt.{Ending, again, leave, reset_pending, enter, release_current_proxy}
use fuck_wjx.Engine.Slot.Steps.{
  Pc, Stage, entering, polling, World, put, set_shared, finish, conclude, take_token, try_acquire,
  prepared, prepare, entered, selected,
}
use fuck_wjx.Engine.Slot.Selection.{
  poll_cycle, first_offered, locked_poll, retry_lock, offered, poll_pool, merge_fetch,
}
use fuck_wjx.Engine.Slot.Defs.{Settings, Event, open_slot, next_attempt, submission_over, advance}
use fuck_wjx.Engine.Slot.Effects.{
  Quiet, Closed, Quiet-refl, status-Quiet, step-Quiet, http_step-Quiet, reset-Quiet,
  should_stop-Quiet, choice-Quiet,
}
use fuck_wjx.Engine.Slot.Keeps.{quiet_then, either}
use fuck_wjx.Engine.Slot.Stretches.{
  round-R, prepare-R, enter-R, submit_raised-R, close_slot-R, block-R, submit_done-R,
}

pub Kept-Quiet : (s t : ExecutionState) (g : Signal) → Kept s t → Quiet (s, g) (t, g)
Kept-Quiet s t g k = ground (arith, k)

module _ (slot_label : Text) (R : Shared → Shared → Type 0) (c : Closed slot_label R) where
  finish-R : (now : ℕ) (w : World) → R w.shared (finish slot_label now w).shared
  unfolding finish put
  finish-R now w = close_slot-R slot_label R c now w.shared

  conclude-R :
      (a : Option Text) (token_id : ℕ) (ending : Ending) (now : ℕ) (w : World)
      → R w.shared (conclude slot_label a token_id ending now w).shared
  unfolding conclude put finish
  conclude-R a token_id (again delay) now w = c.unused a w.shared
  conclude-R a token_id leave now w =
      let p = release_current_proxy slot_label a w.shared in
      c.trans w.shared p _ (c.unused a w.shared) (close_slot-R slot_label R c now p)

  after_conclude :
      (a : Option Text) (token_id : ℕ) (ending : Ending) (now : ℕ) (w : World) (p : Shared)
      → R w.shared p
      → R w.shared (conclude slot_label a token_id ending now (set_shared p w)).shared
  after_conclude a token_id ending now w p h =
      c.trans w.shared p _ h (conclude-R a token_id ending now (set_shared p w))

  take_token-R :
      (now : ℕ) (b : Acquired) (w : World) → R w.shared (take_token slot_label now b w).shared
  unfolding take_token put
  take_token-R now refused w = finish-R now w
  take_token-R now blocked w = c.quiet w.shared w.shared (Quiet-refl w.shared)
  take_token-R now (got token_id) w =
      c.quiet w.shared _ (http_step-Quiet slot_label (codes "准备请求") now w.shared)

  try_acquire-R : (now : ℕ) (w : World) → R w.shared (try_acquire slot_label now w).shared
  unfolding try_acquire
  try_acquire-R now w =
      let (scheduler, answer) = Scheduler.acquire w.scheduler in
      take_token-R now answer (record w { scheduler = scheduler })

  prepared-R :
      (token_id now : ℕ) (b : Prepared) (w : World)
      → R w.shared (prepared slot_label token_id now b w).shared
  unfolding prepared put
  prepared-R token_id now Prepared.ready w =
      either slot_label R c w.shared.0.config.random_proxy_ip_enabled w.shared _ w.shared
        (c.quiet w.shared _ (step-Quiet slot_label (codes "获取代理") now w.shared))
        (c.quiet w.shared w.shared (Quiet-refl w.shared))
  prepared-R token_id now Prepared.refused w = conclude-R none token_id leave now w
  prepared-R token_id now Prepared.retry w = c.quiet w.shared w.shared (Quiet-refl w.shared)

  prepare_world-R :
      (n token_id now : ℕ) (w : World) → R w.shared (prepare n slot_label token_id now w).shared
  unfolding prepare
  prepare_world-R n token_id now w =
      let (p, answer) = prepare_iteration slot_label n now w.shared in
      c.trans w.shared p _ (prepare-R slot_label R c n now w.shared)
        (prepared-R token_id now answer (set_shared p w))

  entered-R :
      (a : Option Text) (token_id now : ℕ) (b : Option Ending) (w : World)
      → R w.shared (entered slot_label a token_id now b w).shared
  unfolding entered put
  entered-R a token_id now none w = c.quiet w.shared w.shared (Quiet-refl w.shared)
  entered-R a token_id now (some ending) w = conclude-R a token_id ending now w

  selected-R :
      (n : ℕ) (a : Option Text) (token_id now : ℕ) (w : World)
      → R w.shared (selected n slot_label a token_id now w).shared
  unfolding selected
  selected-R n a token_id now w =
      let (p, ending) = enter slot_label n a w.shared in
      c.trans w.shared p _ (enter-R slot_label R c n a w.shared)
        (entered-R a token_id now ending (set_shared p w))

  open-R :
      (uses_http : Bool) (reason : Text) (now : ℕ) (w : World)
      → R w.shared (open_slot uses_http reason slot_label now w).shared
  unfolding open_slot put
  open-R uses_http reason now w =
      let p = block_http_runtime slot_label reason now w.shared in
      let h = block-R slot_label R c reason now w.shared in
      elim (Bool-cases (not uses_http)) [
        | inl e ↦ rw e h
        | inr e ↦ elim (Bool-cases (not (is_empty reason))) [
          | inl f ↦ rw (e, f) (c.trans w.shared p _ h (finish-R now (set_shared p w)))
          | inr f ↦
              rw (e, f)
                (c.quiet w.shared _ (status-Quiet slot_label (codes "HTTP 会话启动") true now w.shared))
        ]
      ]

  next-R : (now : ℕ) (w : World) → R w.shared (next_attempt slot_label now w).shared
  unfolding next_attempt
  next-R now w =
      let (p, stop) = should_stop_loop w.shared in
      elim (Bool-cases stop) [
        | inl e ↦ rw e (
            quiet_then slot_label R c w.shared p _ (should_stop-Quiet w.shared)
              (finish-R now (set_shared p w)))
        | inr e ↦ rw e (
            quiet_then slot_label R c w.shared p _ (should_stop-Quiet w.shared)
              (try_acquire-R now (set_shared p w)))
      ]

  module _
      (used : (l : ProxyLease) (p : Shared)
        → R p ((use_lease slot_label (some l) p.0).0, p.1)) where
    offered-R :
        (next : Stage) (n token_id now : ℕ) (lease : Option ProxyLease) (w : World)
        → R w.shared (offered next n slot_label token_id now lease w).shared
    unfolding offered put
    offered-R next n token_id now none w = c.quiet w.shared w.shared (Quiet-refl w.shared)
    offered-R next n token_id now (some lease) w =
        let (s, address) = use_lease slot_label (some lease) w.shared.0 in
        c.trans w.shared (s, w.shared.1) _ (used lease w.shared)
          (selected-R n address token_id now (set_shared (s, w.shared.1) w))

    -- After a look at the pool.
    popped_then :
        (required now : ℕ) (w : World) (q : Shared)
        → R ((pop_available_lease now required w.shared.0).0, w.shared.1) q
        → R w.shared q
    popped_then required now w q h =
        let s = (pop_available_lease now required w.shared.0).0 in
        quiet_then slot_label R c w.shared (s, w.shared.1) _
          (Kept-Quiet w.shared.0 s w.shared.1 (pop-Kept now required w.shared.0)) h

    cycle-R :
        (required n token_id : ℕ) (busy : Bool) (now : ℕ) (w : World)
        → R w.shared (poll_cycle required n slot_label token_id busy now w).shared
    unfolding poll_cycle
    cycle-R required n token_id busy now w =
        let (s, lease) = pop_available_lease now required w.shared.0 in
        if_either (λ (v : World). R w.shared v.shared) (is_set w.shared.1) _ _
          (selected-R n none token_id now w)
          (popped_then required now w _
            (offered-R _ n token_id now lease (set_shared (s, w.shared.1) w)))

    first-R :
        (required n token_id : ℕ) (busy : Bool) (now : ℕ) (lease : Option ProxyLease) (w : World)
        → R w.shared (first_offered required n slot_label token_id busy now lease w).shared
    unfolding first_offered
    first-R required n token_id busy now none w = cycle-R required n token_id busy now w
    first-R required n token_id busy now (some lease) w =
        offered-R entering n token_id now (some lease) w

    poll-R :
        (required n token_id : ℕ) (busy : Bool) (now : ℕ) (w : World)
        → R w.shared (poll_pool required n slot_label token_id busy now w).shared
    unfolding poll_pool
    poll-R required n token_id busy now w =
        let (s, lease) = pop_available_lease now required w.shared.0 in
        elim (Bool-cases (not w.shared.0.config.random_proxy_ip_enabled)) [
          | inl e ↦ rw e (selected-R n none token_id now w)
          | inr e ↦ rw e (
              popped_then required now w _
                (first-R required n token_id busy now lease (set_shared (s, w.shared.1) w)))
        ]

    locked-R :
        (required n token_id now : ℕ) (w : World)
        → R w.shared (locked_poll required n slot_label token_id now w).shared
    unfolding locked_poll
    locked-R required n token_id now w =
        let (s, lease) = pop_available_lease now required w.shared.0 in
        popped_then required now w _
          (offered-R _ n token_id now lease (set_shared (s, w.shared.1) w))

    retry-R :
        (n token_id now : ℕ) (w : World)
        → R w.shared (retry_lock n slot_label token_id now w).shared
    unfolding retry_lock put
    retry-R n token_id now w =
        if_either (λ (v : World). R w.shared v.shared) (is_set w.shared.1) _ _
          (selected-R n none token_id now w) (c.quiet w.shared w.shared (Quiet-refl w.shared))

    merge-R :
        (expire_of : Text → ℕ) (required n : ℕ) (items : List Item) (token_id now : ℕ) (w : World)
        → R w.shared (merge_fetch expire_of required n items slot_label token_id now w).shared
    unfolding merge_fetch put
    merge-R expire_of required n [] token_id now w = c.quiet w.shared w.shared (Quiet-refl w.shared)
    merge-R expire_of required n (item ∷ items) token_id now w =
        let (s, lease) =
          merge_fetched_leases expire_of now required (item ∷ items) true w.shared.0 in
        quiet_then slot_label R c w.shared (s, w.shared.1) _
          (Kept-Quiet w.shared.0 s w.shared.1
            (merge-Kept expire_of now required (item ∷ items) true w.shared.0))
          (offered-R polling n token_id now lease (set_shared (s, w.shared.1) w))

    module _ (settings : Settings)
        (mono : (g : Signal) → is_set g ≡ true → is_set (settings.bridge g) ≡ true) where
      pub advance-R :
          (a : Option Text) (now : ℕ) (pc : Pc) (event : Event) (w : World)
          → R w.shared (advance settings slot_label a now pc event w).shared
      unfolding advance submission_over
      advance-R a now Pc.starting Event.go w = open-R settings.uses_http settings.block_reason now w
      advance-R a now Pc.head Event.go w = next-R now w
      advance-R a now Pc.waiting Event.go w = try_acquire-R now w
      advance-R a now (Pc.opening token_id) Event.go w =
          let p = reset_pending slot_label w.shared in
          quiet_then slot_label R c w.shared p _ (reset-Quiet slot_label w.shared)
            (prepare_world-R settings.sample_count token_id now (set_shared p w))
      advance-R a now (Pc.preparing token_id) Event.go w =
          prepare_world-R settings.sample_count token_id now w
      advance-R a now (Pc.selecting Stage.entering token_id) (Event.poll busy) w =
          poll-R settings.required settings.sample_count token_id busy now w
      advance-R a now (Pc.selecting Stage.polling token_id) (Event.poll busy) w =
          cycle-R settings.required settings.sample_count token_id busy now w
      advance-R a now (Pc.selecting Stage.locking token_id) (Event.poll busy) w =
          locked-R settings.required settings.sample_count token_id now w
      advance-R a now (Pc.selecting Stage.locking token_id) Event.go w =
          retry-R settings.sample_count token_id now w
      advance-R a now (Pc.selecting Stage.fetching token_id) (Event.fetched items) w =
          merge-R settings.expire_of settings.required settings.sample_count items token_id now w
      advance-R a now (Pc.selecting stage token_id) Event.no_proxy w =
          selected-R settings.sample_count none token_id now w
      advance-R a now (Pc.selecting stage token_id) Event.lease_timeout w =
          after_conclude none token_id (again retry_ticks) now w _ (round-R slot_label R c w.shared)
      advance-R a now (Pc.selecting stage token_id) (Event.raised e) w =
          after_conclude none token_id _ now w _
            (submit_raised-R slot_label R c none e now w.shared)
      advance-R a now (Pc.submitting token_id) (Event.chose stat_key index n) w =
          c.quiet w.shared _ (choice-Quiet stat_key index n w.shared)
      advance-R a now (Pc.submitting token_id) (Event.submitted done delay) w =
          after_conclude a token_id _ now w _
            (submit_done-R slot_label R c settings.bridge mono a done delay now w.shared)
      advance-R a now (Pc.submitting token_id) (Event.raised e) w =
          after_conclude a token_id _ now w _ (submit_raised-R slot_label R c a e now w.shared)
      advance-R a now _ _ w = c.quiet w.shared w.shared (Quiet-refl w.shared)

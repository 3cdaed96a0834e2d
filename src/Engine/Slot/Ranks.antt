-- ===== src/Engine/Slot/Ranks.antt =====
-- How far a slot of a stopped run is from its end after each of its steps.
use fuck_wjx.Common.{
  ℕ, ◌≤◌, ◌<◌, ◌≡◌, Bool, true, false, not, List, [], ◌∷◌, ltb, Option, none, some, arith,
  Bool-cases, if_true, inl, inr,
}
use fuck_wjx.Common.Text.{Text, codes, is_empty, text_eq_iff}
use fuck_wjx.Common.Dict.{lookup, text_key_eq, lookup-insert}
use fuck_wjx.Task.Proxy.{ProxyLease}
use fuck_wjx.Network.Session.{
  Item, pop_available_lease, merge_fetched_leases, use_lease, request_num,
}
use fuck_wjx.Engine.Scheduler
use fuck_wjx.Engine.Round.{
  Shared, is_set, should_stop_loop, prepare_iteration, block_http_runtime, update_status,
}
use fuck_wjx.Engine.Slot.Attempt.{Ending, again, leave, enter, release_current_proxy, close_slot}
use fuck_wjx.Engine.Slot.Steps.{
  Pc, Stage, Slot, World, put, set_shared, finish, conclude, prepare, selected,
}
use fuck_wjx.Engine.Slot.Selection.{
  offered, poll_cycle, first_offered, poll_pool, locked_poll, retry_lock, merge_fetch,
}
use fuck_wjx.Engine.Slot.Defs.{open_slot, next_attempt}

-- How many more waits a slot of a stopped run can meet, beside those for a token.
abbrev pub rank : Pc → ℕ
rank Pc.starting = 2
rank Pc.head = 1
rank Pc.waiting = 2
rank Pc.finished = 0
rank (Pc.opening token_id) = 1
rank (Pc.preparing token_id) = 1
rank (Pc.selecting Stage.entering token_id) = 2
rank (Pc.selecting Stage.polling token_id) = 2
rank (Pc.selecting Stage.locking token_id) = 4
rank (Pc.selecting Stage.fetching token_id) = 3
rank (Pc.submitting token_id) = 2

-- A selection is at least two waits from the end.
pub selecting_far : (stage : Stage) (token_id : ℕ) → 1 < rank (Pc.selecting stage token_id)
selecting_far Stage.entering token_id = omega arith
selecting_far Stage.polling token_id = omega arith
selecting_far Stage.locking token_id = omega arith
selecting_far Stage.fetching token_id = omega arith

module _ (slot_label : Text) where
  -- The slot is where at most so many waits are left.
  abbrev pub Within : ℕ → World → Type 0
  Within n w = (s : Slot) × ((lookup slot_label w.slots ≡ some s) × (rank s.pc ≤ n))

  put-Within :
      (pc : Pc) (a : Option Text) (n : ℕ) (w : World)
      → rank pc ≤ n
      → Within n (put slot_label pc a w)
  unfolding put
  put-Within pc a n w h =
      let s : Slot = record { pc = pc; proxy_address = a } in
      (
        s,
        (
          ground (
            arith,
            text_eq_iff slot_label slot_label,
            lookup-insert slot_label slot_label s w.slots,
          ),
          h,
        ),
      )

  finish-Within : (now : ℕ) (w : World) → Within 0 (finish slot_label now w)
  unfolding finish
  finish-Within now w =
      put-Within Pc.finished none 0 (set_shared (close_slot slot_label now w.shared) w)
        (omega arith)

  pub conclude-Within :
      (a : Option Text) (token_id : ℕ) (ending : Ending) (now : ℕ) (w : World)
      → Within 1 (conclude slot_label a token_id ending now w)
  unfolding conclude
  conclude-Within a token_id (again delay) now w =
      let p = release_current_proxy slot_label a w.shared in
      put-Within Pc.head none 1
        (record w {
          shared = p;
          scheduler = Scheduler.release token_id (not (is_set p.1)) delay now w.scheduler;
        })
        (omega arith)
  conclude-Within a token_id leave now w =
      let p = release_current_proxy slot_label a w.shared in
      let (s, (e, h)) =
        finish-Within now (record w {
          shared = p;
          scheduler = Scheduler.release token_id false 0 now w.scheduler;
        }) in
      (s, (e, omega (arith, h)))

  left-Within :
      (a : Option Text) (token_id now : ℕ) (w : World)
      → Within 0 (conclude slot_label a token_id leave now w)
  unfolding conclude
  left-Within a token_id now w = finish-Within now (record w {
    shared = release_current_proxy slot_label a w.shared;
    scheduler = Scheduler.release token_id false 0 now w.scheduler;
  })

  stops : (p : Shared) → is_set p.1 ≡ true → (should_stop_loop p).1 ≡ true
  unfolding should_stop_loop
  stops p h = ground (arith, h)

  pub open-Within :
      (uses_http : Bool) (reason : Text) (now : ℕ) (w : World)
      → Within 1 (open_slot uses_http reason slot_label now w)
  unfolding open_slot
  open-Within uses_http reason now w =
      let p = block_http_runtime slot_label reason now w.shared in
      elim (Bool-cases (not uses_http)) [
        | inl e ↦ rw e (put-Within Pc.finished none 1 (set_shared p w) (omega arith))
        | inr e ↦ elim (Bool-cases (not (is_empty reason))) [
          | inl f ↦
              let (s, (g, h)) = finish-Within now (set_shared p w) in
              rw (e, f) (s, (g, omega (arith, h)))
          | inr f ↦
              rw (e, f)
                (put-Within Pc.head none 1
                  (set_shared (update_status slot_label (codes "HTTP 会话启动") true now w.shared) w)
                  (omega arith))
        ]
      ]

  pub next-Within :
      (now : ℕ) (w : World) → is_set w.shared.1 ≡ true → Within 0 (next_attempt slot_label now w)
  unfolding next_attempt
  next-Within now w h =
      rw (stops w.shared h) (finish-Within now (set_shared (should_stop_loop w.shared).0 w))

  pub prepare-Within :
      (n token_id now : ℕ) (w : World)
      → is_set w.shared.1 ≡ true
      → Within 0 (prepare n slot_label token_id now w)
  unfolding prepare prepare_iteration
  prepare-Within n token_id now w h =
      rw (stops w.shared h)
        (left-Within none token_id now (set_shared (should_stop_loop w.shared).0 w))

  pub selected-Within :
      (n : ℕ) (a : Option Text) (token_id now : ℕ) (w : World)
      → is_set w.shared.1 ≡ true
      → Within 0 (selected n slot_label a token_id now w)
  unfolding selected enter
  selected-Within n a token_id now w h = rw h (left-Within a token_id now w)

  -- A selection of a stopped run that finds no lease goes on to where at most two waits are left.
  offered-Within :
      (next : Stage) (m n token_id now : ℕ) (lease : Option ProxyLease) (w : World)
      → is_set w.shared.1 ≡ true
      → rank (Pc.selecting next token_id) ≤ m
      → Within m (offered next n slot_label token_id now lease w)
  unfolding offered
  offered-Within next m n token_id now none w h k =
      put-Within (Pc.selecting next token_id) none m w k
  offered-Within next m n token_id now (some lease) w h k =
      let (t, address) = use_lease slot_label (some lease) w.shared.0 in
      let (s, (e, l)) = selected-Within n address token_id now (set_shared (t, w.shared.1) w) h in
      (s, (e, omega (arith, l)))

  pub cycle-Within :
      (required n token_id : ℕ) (busy : Bool) (now : ℕ) (w : World)
      → is_set w.shared.1 ≡ true
      → Within 0 (poll_cycle required n slot_label token_id busy now w)
  unfolding poll_cycle
  cycle-Within required n token_id busy now w h =
      if_true (Within 0) (is_set w.shared.1) _ _ h (selected-Within n none token_id now w h)

  first-Within :
      (required n token_id : ℕ) (busy : Bool) (now : ℕ) (lease : Option ProxyLease) (w : World)
      → is_set w.shared.1 ≡ true
      → Within 0 (first_offered required n slot_label token_id busy now lease w)
  unfolding first_offered offered
  first-Within required n token_id busy now none w h = cycle-Within required n token_id busy now w h
  first-Within required n token_id busy now (some lease) w h =
      let (t, address) = use_lease slot_label (some lease) w.shared.0 in
      selected-Within n address token_id now (set_shared (t, w.shared.1) w) h

  pub poll-Within :
      (required n token_id : ℕ) (busy : Bool) (now : ℕ) (w : World)
      → is_set w.shared.1 ≡ true
      → Within 0 (poll_pool required n slot_label token_id busy now w)
  unfolding poll_pool
  poll-Within required n token_id busy now w h =
      let (s, lease) = pop_available_lease now required w.shared.0 in
      elim (Bool-cases (not w.shared.0.config.random_proxy_ip_enabled)) [
        | inl b ↦ rw b (selected-Within n none token_id now w h)
        | inr b ↦
            rw b (first-Within required n token_id busy now lease (set_shared (s, w.shared.1) w) h)
      ]

  pub locked-Within :
      (required n token_id now : ℕ) (w : World)
      → is_set w.shared.1 ≡ true
      → Within 3 (locked_poll required n slot_label token_id now w)
  unfolding locked_poll
  locked-Within required n token_id now w h =
      let (s, lease) = pop_available_lease now required w.shared.0 in
      elim (Bool-cases (ltb 0 (request_num s))) [
        | inl b ↦ rw b (
            offered-Within Stage.fetching 3 n token_id now lease (set_shared (s, w.shared.1) w) h
              (omega arith))
        | inr b ↦ rw b (
            offered-Within Stage.polling 3 n token_id now lease (set_shared (s, w.shared.1) w) h
              (omega arith))
      ]

  pub retry-Within :
      (n token_id now : ℕ) (w : World)
      → is_set w.shared.1 ≡ true
      → Within 0 (retry_lock n slot_label token_id now w)
  unfolding retry_lock
  retry-Within n token_id now w h =
      if_true (Within 0) (is_set w.shared.1) _ _ h (selected-Within n none token_id now w h)

  pub merge-Within :
      (expire_of : Text → ℕ) (required n : ℕ) (items : List Item) (token_id now : ℕ) (w : World)
      → is_set w.shared.1 ≡ true
      → Within 2 (merge_fetch expire_of required n items slot_label token_id now w)
  unfolding merge_fetch
  merge-Within expire_of required n [] token_id now w h =
      put-Within (Pc.selecting Stage.polling token_id) none 2 w (omega arith)
  merge-Within expire_of required n (item ∷ items) token_id now w h =
      let (s, lease) = merge_fetched_leases expire_of now required (item ∷ items) true w.shared.0 in
      offered-Within Stage.polling 2 n token_id now lease (set_shared (s, w.shared.1) w) h
        (omega arith)

  pub below :
      (m n : ℕ) (slots : List (Text × Slot))
      → m < n
      → (s : Slot) × ((lookup slot_label slots ≡ some s) × (rank s.pc ≤ m))
      → (s : Slot) × ((lookup slot_label slots ≡ some s) × (rank s.pc < n))
  below m n slots h (s, (e, k)) = (s, (e, omega (arith, h, k)))

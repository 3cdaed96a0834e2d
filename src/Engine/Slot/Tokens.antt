-- ===== src/Engine/Slot/Tokens.antt =====
-- Each step of a slot with its token, against the tokens that are left.
use fuck_wjx.Common.{
  ℕ, ◌+◌, ◌≤◌, ◌≡◌, refl, inl, inr, Bool, true, false, not, List, [], ◌∷◌, Option, none, some,
  arith, if◌then◌else◌, Bool-cases, if_either,
}
use fuck_wjx.Common.Text.{Text, codes}
use fuck_wjx.Common.Dict.{lookup, insert, text_key_eq}
use fuck_wjx.Task.Proxy.{ProxyLease}
use fuck_wjx.Network.Session.{Item, merge_fetched_leases, pop_available_lease, use_lease}
use fuck_wjx.Engine.Scheduler
use fuck_wjx.Engine.Scheduler.{Scheduler}
use fuck_wjx.Engine.Scheduler.Defs.{Acquired, refused, blocked, got}
use fuck_wjx.Engine.Round.{is_set, prepare_iteration, Prepared, update_step}
use fuck_wjx.Engine.Slot.Attempt.{
  Ending, again, leave, enter, release_current_proxy, close_slot, update_http_submit_step,
}
use fuck_wjx.Engine.Slot.Effects.{Closed, http_step-Quiet, step-Quiet}
use fuck_wjx.Engine.Slot.Stretches.{prepare-R, enter-R, close_slot-R}
use fuck_wjx.Engine.Slot.Steps.{
  Pc, Stage, entering, polling, locking, Slot, World, put, set_shared, finish, conclude, take_token,
  try_acquire, prepared, prepare, entered, selected,
}
use fuck_wjx.Engine.Slot.Selection.{
  poll_cycle, first_offered, locked_poll, retry_lock, merge_fetch, offered, poll_pool,
}
use fuck_wjx.Engine.Slot.History.{History}
use fuck_wjx.Engine.Slot.Calls.{Closed-History}
use fuck_wjx.Engine.Slot.Supply.{
  supply, need, demand, Stays, Backed, shared-Backed, release-supply, acquire-supply, paid,
  need-opening, demand-insert, demand_stays,
}

module _ (slot_label : Text) (i : Slot) where
  abbrev H : Closed slot_label History
  H = Closed-History slot_label

  abbrev pub At : World → Type 0
  At w = lookup slot_label w.slots ≡ some i

  pub put-Backed :
      (pc : Pc) (a : Option Text) (w : World)
      → At w
      → Backed w
      → need (is_set w.shared.1) pc ≤ need (is_set w.shared.1) i.pc
      → Backed (put slot_label pc a w)
  unfolding put
  put-Backed pc a w e v h =
      let j : Slot = record { pc = pc; proxy_address = a } in
      record {
        open_yet = v.open_yet;
        funded =
            omega (arith, v.funded, h, demand-insert (is_set w.shared.1) slot_label i j w.slots e);
      }

  pub finish-Backed : (now : ℕ) (w : World) → At w → Backed w → Backed (finish slot_label now w)
  unfolding finish
  finish-Backed now w e v =
      let p = close_slot slot_label now w.shared in
      put-Backed Pc.finished none (set_shared p w) e
        (shared-Backed p w (close_slot-R slot_label History H now w.shared).stop v)
        (unfold need in omega arith)

  pub conclude-Backed :
      (a : Option Text) (token_id : ℕ) (ending : Ending) (now : ℕ) (w : World)
      → At w
      → Backed w
      → Backed (conclude slot_label a token_id ending now w)
  unfolding conclude put
  conclude-Backed a token_id (again delay) now w e v =
      let p = release_current_proxy slot_label a w.shared in
      let b = is_set p.1 in
      let r = release-supply token_id delay now (not b) w.scheduler v.open_yet in
      let j : Slot = record { pc = Pc.head; proxy_address = none } in
      let u = shared-Backed p w (H.unused a w.shared).stop v in
      record {
        open_yet = r.1;
        funded =
            unfold need in ground (arith, u.funded, r.0, demand-insert b slot_label i j w.slots e);
      }
  conclude-Backed a token_id leave now w e v =
      let p = release_current_proxy slot_label a w.shared in
      let r = release-supply token_id 0 now false w.scheduler v.open_yet in
      let u = shared-Backed p w (H.unused a w.shared).stop v in
      let t : World = record w {
        shared = p;
        scheduler = Scheduler.release token_id false 0 now w.scheduler;
      } in
      finish-Backed now t e (record { open_yet = r.1; funded = ground (arith, u.funded, r.0) })

  take_token-Backed :
      (now : ℕ) (b : Acquired) (w : World)
      → At w
      → w.scheduler.closed ≡ false
      → demand (is_set w.shared.1) w.slots ≤ supply w.scheduler + paid b
      → need (is_set w.shared.1) i.pc ≡ 1
      → Backed (take_token slot_label now b w)
  unfolding take_token
  take_token-Backed now refused w e c f h =
      finish-Backed now w e (record { open_yet = c; funded = omega (arith, f) })
  take_token-Backed now blocked w e c f h =
      put-Backed Pc.waiting none w e (record { open_yet = c; funded = omega (arith, f) })
        (unfold need in omega (arith, h))
  take_token-Backed now (got token_id) w e c f h =
      let p = update_http_submit_step slot_label (codes "准备请求") now w.shared in
      let same = (http_step-Quiet slot_label (codes "准备请求") now w.shared).stop in
      let b = is_set w.shared.1 in
      let j : Slot = record { pc = Pc.opening token_id; proxy_address = none } in
      unfold put in
      record {
        open_yet = c;
        funded = omega (
          arith,
          f,
          h,
          need-opening (is_set w.shared.1) token_id,
          demand-insert b slot_label i j w.slots e,
          demand_stays b (is_set p.1) (insert slot_label j w.slots) same,
        );
      }

  -- A slot that needs a token may take one, or wait.
  pub try_acquire-Backed :
      (now : ℕ) (w : World)
      → At w
      → Backed w
      → need (is_set w.shared.1) i.pc ≡ 1
      → Backed (try_acquire slot_label now w)
  unfolding try_acquire
  try_acquire-Backed now w e v h =
      let r = acquire-supply w.scheduler v.open_yet in
      let (s, answer) = Scheduler.acquire w.scheduler in
      take_token-Backed now answer (record w { scheduler = s }) e r.0 (omega (arith, r.1, v.funded))
        h

  -- Inside an attempt.
  inside-Backed :
      (pc : Pc) (a : Option Text) (w : World)
      → At w
      → Backed w
      → need (is_set w.shared.1) pc ≡ 0
      → Backed (put slot_label pc a w)
  inside-Backed pc a w e v h = put-Backed pc a w e v (omega (arith, h))

  prepared-Backed :
      (token_id now : ℕ) (b : Prepared) (w : World)
      → At w
      → Backed w
      → Backed (prepared slot_label token_id now b w)
  unfolding prepared
  prepared-Backed token_id now Prepared.ready w e v =
      let b = w.shared.0.config.random_proxy_ip_enabled in
      let q = update_step slot_label (codes "获取代理") now w.shared in
      let p = if b then q else w.shared in
      let stays : Stays w.shared p = elim (Bool-cases b) [
        | inl f ↦ rw f (step-Quiet slot_label (codes "获取代理") now w.shared).stop
        | inr f ↦ rw f (λ g. g)
      ] in
      inside-Backed (Pc.selecting entering token_id) none (set_shared p w) e
        (shared-Backed p w stays v) (unfold need in refl)
  prepared-Backed token_id now Prepared.refused w e v =
      conclude-Backed none token_id leave now w e v
  prepared-Backed token_id now Prepared.retry w e v =
      inside-Backed (Pc.preparing token_id) none w e v (unfold need in refl)

  pub prepare-Backed :
      (n token_id now : ℕ) (w : World)
      → At w
      → Backed w
      → Backed (prepare n slot_label token_id now w)
  unfolding prepare
  prepare-Backed n token_id now w e v =
      let (p, answer) = prepare_iteration slot_label n now w.shared in
      prepared-Backed token_id now answer (set_shared p w) e
        (shared-Backed p w (prepare-R slot_label History H n now w.shared).stop v)

  entered-Backed :
      (a : Option Text) (token_id now : ℕ) (b : Option Ending) (w : World)
      → At w
      → Backed w
      → Backed (entered slot_label a token_id now b w)
  unfolding entered
  entered-Backed a token_id now none w e v =
      inside-Backed (Pc.submitting token_id) a w e v (unfold need in refl)
  entered-Backed a token_id now (some ending) w e v = conclude-Backed a token_id ending now w e v

  pub selected-Backed :
      (n : ℕ) (a : Option Text) (token_id now : ℕ) (w : World)
      → At w
      → Backed w
      → Backed (selected n slot_label a token_id now w)
  unfolding selected
  selected-Backed n a token_id now w e v =
      let (p, ending) = enter slot_label n a w.shared in
      entered-Backed a token_id now ending (set_shared p w) e
        (shared-Backed p w (enter-R slot_label History H n a w.shared).stop v)

  pub offered-Backed :
      (next : Stage) (n token_id now : ℕ) (lease : Option ProxyLease) (w : World)
      → At w
      → Backed w
      → Backed (offered next n slot_label token_id now lease w)
  unfolding offered
  offered-Backed next n token_id now none w e v =
      inside-Backed (Pc.selecting next token_id) none w e v (unfold need in refl)
  offered-Backed next n token_id now (some lease) w e v =
      let (s, address) = use_lease slot_label (some lease) w.shared.0 in
      selected-Backed n address token_id now (set_shared (s, w.shared.1) w) e
        (shared-Backed (s, w.shared.1) w (λ g. g) v)

  pub cycle-Backed :
      (required n token_id : ℕ) (busy : Bool) (now : ℕ) (w : World)
      → At w
      → Backed w
      → Backed (poll_cycle required n slot_label token_id busy now w)
  unfolding poll_cycle
  cycle-Backed required n token_id busy now w e v =
      let (s, lease) = pop_available_lease now required w.shared.0 in
      if_either Backed (is_set w.shared.1) _ _ (selected-Backed n none token_id now w e v) (
        offered-Backed _ n token_id now lease (set_shared (s, w.shared.1) w) e
          (shared-Backed (s, w.shared.1) w (λ g. g) v))

  first-Backed :
      (required n token_id : ℕ) (busy : Bool) (now : ℕ) (lease : Option ProxyLease) (w : World)
      → At w
      → Backed w
      → Backed (first_offered required n slot_label token_id busy now lease w)
  unfolding first_offered
  first-Backed required n token_id busy now none w e v =
      cycle-Backed required n token_id busy now w e v
  first-Backed required n token_id busy now (some lease) w e v =
      offered-Backed entering n token_id now (some lease) w e v

  pub poll-Backed :
      (required n token_id : ℕ) (busy : Bool) (now : ℕ) (w : World)
      → At w
      → Backed w
      → Backed (poll_pool required n slot_label token_id busy now w)
  unfolding poll_pool
  poll-Backed required n token_id busy now w e v =
      let (s, lease) = pop_available_lease now required w.shared.0 in
      elim (Bool-cases (not w.shared.0.config.random_proxy_ip_enabled)) [
        | inl b ↦ rw b (selected-Backed n none token_id now w e v)
        | inr b ↦ rw b (
            first-Backed required n token_id busy now lease (set_shared (s, w.shared.1) w) e
              (shared-Backed (s, w.shared.1) w (λ g. g) v))
      ]

  pub locked-Backed :
      (required n token_id now : ℕ) (w : World)
      → At w
      → Backed w
      → Backed (locked_poll required n slot_label token_id now w)
  unfolding locked_poll
  locked-Backed required n token_id now w e v =
      let (s, lease) = pop_available_lease now required w.shared.0 in
      offered-Backed _ n token_id now lease (set_shared (s, w.shared.1) w) e
        (shared-Backed (s, w.shared.1) w (λ g. g) v)

  pub retry-Backed :
      (n token_id now : ℕ) (w : World)
      → At w
      → Backed w
      → Backed (retry_lock n slot_label token_id now w)
  unfolding retry_lock
  retry-Backed n token_id now w e v =
      if_either Backed (is_set w.shared.1) _ _ (selected-Backed n none token_id now w e v)
        (inside-Backed (Pc.selecting locking token_id) none w e v (unfold need in refl))

  pub merge-Backed :
      (expire_of : Text → ℕ) (required n : ℕ) (items : List Item) (token_id now : ℕ) (w : World)
      → At w
      → Backed w
      → Backed (merge_fetch expire_of required n items slot_label token_id now w)
  unfolding merge_fetch
  merge-Backed expire_of required n [] token_id now w e v =
      inside-Backed (Pc.selecting polling token_id) none w e v (unfold need in refl)
  merge-Backed expire_of required n (item ∷ items) token_id now w e v =
      let (s, lease) = merge_fetched_leases expire_of now required (item ∷ items) true w.shared.0 in
      offered-Backed polling n token_id now lease (set_shared (s, w.shared.1) w) e
        (shared-Backed (s, w.shared.1) w (λ g. g) v)

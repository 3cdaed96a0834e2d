-- ===== src/Engine/Slot/Moves.antt =====
-- The stretches of an attempt move the slot to a place that fits what it holds.
use fuck_wjx.Common.{
  ℕ, ◌≡◌, refl, subst, ◌∙◌, ◌⊎◌, inl, inr, Bool, true, false, not, List, [], ◌∷◌, ap, sym, Option,
  none, some, arith, if◌then◌else◌, Bool-cases, if_either,
}
use fuck_wjx.Common.Text.{Text, codes, is_empty}
use fuck_wjx.Common.Dict.{lookup, text_key_eq}
use fuck_wjx.Task.Proxy.{ProxyLease}
use fuck_wjx.Network.Session.{Item, pop_available_lease, merge_fetched_leases, use_lease}
use fuck_wjx.Network.Session.Frame.{pop-Kept, merge-Kept, pop-filled, merge-filled}
use fuck_wjx.Engine.Round.{Shared, is_set, prepare_iteration, update_step, Prepared, has_proxy}
use fuck_wjx.Engine.Slot.Attempt.{Ending, again, leave, enter}
use fuck_wjx.Engine.Slot.Steps.{
  Pc, Stage, entering, polling, locking, Slot, World, set_shared, prepared, prepare, entered,
  selected,
}
use fuck_wjx.Engine.Slot.Selection.{
  poll_cycle, first_offered, locked_poll, retry_lock, offered, poll_pool, merge_fetch,
}
use fuck_wjx.Engine.Slot.Effects.{step-Quiet}
use fuck_wjx.Engine.Slot.Stretches.{prepare-R, enter-R}
use fuck_wjx.Engine.Slot.Turns.{Kept-Quiet}
use fuck_wjx.Engine.Slot.Spares.{IsClean}
use fuck_wjx.Engine.Slot.Own.{EmptyHanded, NoProxy, Unleased}
use fuck_wjx.Engine.Slot.Outcomes.{enter-EmptyHanded}
use fuck_wjx.Engine.Slot.Tidy.{
  Fits, Moved, Quiet-NoProxy, put-Moved, via, conclude-Moved, some_inj, C,
}

module _ (slot_label : Text) (clean : IsClean slot_label) where
  prepared-Moved :
      (token_id now : ℕ) (b : Prepared) (w : World)
      → NoProxy slot_label w.shared
      → Moved slot_label w (prepared slot_label token_id now b w)
  unfolding prepared
  prepared-Moved token_id now Prepared.ready w h =
      let b = w.shared.0.config.random_proxy_ip_enabled in
      let q = update_step slot_label (codes "获取代理") now w.shared in
      let p = if b then q else w.shared in
      via slot_label clean p w _ (
        put-Moved slot_label clean (Pc.selecting entering token_id) none (set_shared p w) (
          unfold Fits in
          elim (Bool-cases b) [
            | inl e ↦ rw e (
                Quiet-NoProxy slot_label w.shared q
                  (step-Quiet slot_label (codes "获取代理") now w.shared) h)
            | inr e ↦ rw e h
          ]))
  prepared-Moved token_id now Prepared.refused w h =
      conclude-Moved slot_label clean none token_id leave now w (inl h)
        (λ d e. absurd (ground (arith, e)))
  prepared-Moved token_id now Prepared.retry w h =
      put-Moved slot_label clean (Pc.preparing token_id) none w (unfold Fits in h)

  pub prepare-Moved :
      (n token_id now : ℕ) (w : World)
      → NoProxy slot_label w.shared
      → Moved slot_label w (prepare n slot_label token_id now w)
  unfolding prepare
  prepare-Moved n token_id now w h =
      let (p, answer) = prepare_iteration slot_label n now w.shared in
      via slot_label clean p w _ (
        prepared-Moved token_id now answer (set_shared p w)
          (prepare-R slot_label (Unleased slot_label) (C slot_label clean) n now w.shared h))

  entered-Moved :
      (a : Option Text) (token_id now : ℕ) (b : Option Ending) (w : World)
      → NoProxy slot_label w.shared ⊎ has_proxy a ≡ true
      → ((d : ℕ) → b ≡ some (again d) → EmptyHanded slot_label w.shared)
      → Moved slot_label w (entered slot_label a token_id now b w)
  unfolding entered
  entered-Moved a token_id now none w h o =
      put-Moved slot_label clean (Pc.submitting token_id) a w (unfold Fits in h)
  entered-Moved a token_id now (some ending) w h o =
      conclude-Moved slot_label clean a token_id ending now w h (λ d e. o d (ap some e))

  pub selected-Moved :
      (n : ℕ) (a : Option Text) (token_id now : ℕ) (w : World)
      → NoProxy slot_label w.shared ⊎ has_proxy a ≡ true
      → Moved slot_label w (selected n slot_label a token_id now w)
  unfolding selected
  selected-Moved n a token_id now w h =
      let (p, ending) = enter slot_label n a w.shared in
      let stays : NoProxy slot_label p ⊎ has_proxy a ≡ true = elim h [
        | inl k ↦ inl (enter-R slot_label (Unleased slot_label) (C slot_label clean) n a w.shared k)
        | inr k ↦ inr k
      ] in
      via slot_label clean p w _ (
        entered-Moved a token_id now ending (set_shared p w) stays
          (λ d e. enter-EmptyHanded slot_label clean n a d w.shared e))

  -- Where the slot stays at its place, which it still fits.
  pub still-Moved :
      (s : Slot) (p : Shared) (w : World)
      → lookup slot_label w.slots ≡ some s
      → Fits slot_label s.pc s.proxy_address p
      → Moved slot_label w (set_shared p w)
  still-Moved s p w e h = record {
    others = λ k ne. refl;
    own = λ t f.
        subst (λ (x : Slot). Fits slot_label x.pc x.proxy_address p) (some_inj s t (sym e ∙ f)) h;
  }

  abbrev pub at : Pc → Option Text → Slot
  at pc a = record { pc = pc; proxy_address = a }

  offered-Moved :
      (next : Stage) (n token_id now : ℕ) (lease : Option ProxyLease) (w : World)
      → NoProxy slot_label w.shared
      → ((l : ProxyLease) → lease ≡ some l → is_empty l.address ≡ false)
      → Moved slot_label w (offered next n slot_label token_id now lease w)
  unfolding offered
  offered-Moved next n token_id now none w h f =
      put-Moved slot_label clean (Pc.selecting next token_id) none w (unfold Fits in h)
  offered-Moved next n token_id now (some lease) w h f =
      let (s, address) = use_lease slot_label (some lease) w.shared.0 in
      via slot_label clean (s, w.shared.1) w _
        (selected-Moved n address token_id now (set_shared (s, w.shared.1) w)
          (inr (unfold use_lease in ground (arith, f lease refl))))

  -- A look at the pool gives the slot nothing by itself.
  popped-NoProxy :
      (required now : ℕ) (p : Shared)
      → NoProxy slot_label p
      → NoProxy slot_label ((pop_available_lease now required p.0).0, p.1)
  popped-NoProxy required now p h =
      let s = (pop_available_lease now required p.0).0 in
      Quiet-NoProxy slot_label p (s, p.1) (Kept-Quiet p.0 s p.1 (pop-Kept now required p.0)) h

  looked-Moved :
      (next : Stage) (required n token_id now : ℕ) (w : World)
      → NoProxy slot_label w.shared
      → let (s, lease) = pop_available_lease now required w.shared.0 in
        Moved slot_label w
          (offered next n slot_label token_id now lease (set_shared (s, w.shared.1) w))
  looked-Moved next required n token_id now w h =
      let (s, lease) = pop_available_lease now required w.shared.0 in
      via slot_label clean (s, w.shared.1) w _
        (offered-Moved next n token_id now lease (set_shared (s, w.shared.1) w)
          (popped-NoProxy required now w.shared h) (λ l f. pop-filled now required w.shared.0 l f))

  pub cycle-Moved :
      (required n token_id : ℕ) (busy : Bool) (now : ℕ) (w : World)
      → NoProxy slot_label w.shared
      → Moved slot_label w (poll_cycle required n slot_label token_id busy now w)
  unfolding poll_cycle
  cycle-Moved required n token_id busy now w h =
      if_either (Moved slot_label w) (is_set w.shared.1) _ _
        (selected-Moved n none token_id now w (inl h)) (looked-Moved _ required n token_id now w h)

  first-Moved :
      (required n token_id : ℕ) (busy : Bool) (now : ℕ) (lease : Option ProxyLease) (w : World)
      → NoProxy slot_label w.shared
      → ((l : ProxyLease) → lease ≡ some l → is_empty l.address ≡ false)
      → Moved slot_label w (first_offered required n slot_label token_id busy now lease w)
  unfolding first_offered
  first-Moved required n token_id busy now none w h f = cycle-Moved required n token_id busy now w h
  first-Moved required n token_id busy now (some lease) w h f =
      offered-Moved entering n token_id now (some lease) w h f

  pub locked-Moved :
      (required n token_id now : ℕ) (w : World)
      → NoProxy slot_label w.shared
      → Moved slot_label w (locked_poll required n slot_label token_id now w)
  unfolding locked_poll
  locked-Moved required n token_id now w h = looked-Moved _ required n token_id now w h

  pub retry-Moved :
      (n token_id now : ℕ) (w : World)
      → NoProxy slot_label w.shared
      → Moved slot_label w (retry_lock n slot_label token_id now w)
  unfolding retry_lock
  retry-Moved n token_id now w h =
      if_either (Moved slot_label w) (is_set w.shared.1) _ _
        (selected-Moved n none token_id now w (inl h))
        (put-Moved slot_label clean (Pc.selecting locking token_id) none w (unfold Fits in h))

  pub poll-Moved :
      (required n token_id : ℕ) (busy : Bool) (now : ℕ) (w : World)
      → NoProxy slot_label w.shared
      → Moved slot_label w (poll_pool required n slot_label token_id busy now w)
  unfolding poll_pool
  poll-Moved required n token_id busy now w h =
      let (s, lease) = pop_available_lease now required w.shared.0 in
      elim (Bool-cases (not w.shared.0.config.random_proxy_ip_enabled)) [
        | inl b ↦ rw b (selected-Moved n none token_id now w (inl h))
        | inr b ↦ rw b (
            via slot_label clean (s, w.shared.1) w _
              (first-Moved required n token_id busy now lease (set_shared (s, w.shared.1) w)
                (popped-NoProxy required now w.shared h)
                (λ l f. pop-filled now required w.shared.0 l f)))
      ]

  pub merge-Moved :
      (expire_of : Text → ℕ) (required n : ℕ) (items : List Item) (token_id now : ℕ) (w : World)
      → NoProxy slot_label w.shared
      → Moved slot_label w (merge_fetch expire_of required n items slot_label token_id now w)
  unfolding merge_fetch
  merge-Moved expire_of required n [] token_id now w h =
      put-Moved slot_label clean (Pc.selecting polling token_id) none w (unfold Fits in h)
  merge-Moved expire_of required n (item ∷ items) token_id now w h =
      let (s, lease) = merge_fetched_leases expire_of now required (item ∷ items) true w.shared.0 in
      let q =
        Kept-Quiet w.shared.0 s w.shared.1
          (merge-Kept expire_of now required (item ∷ items) true w.shared.0) in
      via slot_label clean (s, w.shared.1) w _
        (offered-Moved polling n token_id now lease (set_shared (s, w.shared.1) w)
          (Quiet-NoProxy slot_label w.shared (s, w.shared.1) q h)
          (λ l f. merge-filled expire_of now required (item ∷ items) true w.shared.0 l f))

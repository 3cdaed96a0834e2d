-- ===== src/Engine/Slot/Tidy.antt =====
-- What each slot holds at any point of a run, by where it waits.
use fuck_wjx.Common.{
  ℕ, ◌≡◌, ◌≢◌, refl, subst, ◌∙◌, ◌⊎◌, true, false, not, Option, none, some, arith,
}
use fuck_wjx.Common.Text.{Text, codes, text_eq_iff}
use fuck_wjx.Common.Dict.{lookup, text_key_eq, lookup-insert}
use fuck_wjx.Engine.Scheduler
use fuck_wjx.Engine.Scheduler.Defs.{Acquired, refused, blocked, got}
use fuck_wjx.Engine.Round.{Shared, is_set, has_proxy}
use fuck_wjx.Engine.Slot.Attempt.{
  Ending, again, leave, update_http_submit_step, release_current_proxy, close_slot,
}
use fuck_wjx.Engine.Slot.Steps.{
  Pc, Slot, World, put, set_shared, finish, conclude, take_token, try_acquire,
}
use fuck_wjx.Engine.Slot.Effects.{Quiet, Closed, http_step-Quiet}
use fuck_wjx.Engine.Slot.Stretches.{close_slot-R}
use fuck_wjx.Engine.Slot.Spares.{row_of, IsClean}
use fuck_wjx.Engine.Slot.Own.{
  EmptyHanded, NoProxy, Unleased, Closed-Unleased, close_slot-EmptyHanded, released-NoProxy,
  released-EmptyHanded,
}

-- No joint slot, no row and no proxy.
pub record Clear (key : Text) (p : Shared) : Type 0 where
  pub joint : lookup key p.0.joint.reserved ≡ none
  pub row : row_of key p.0.reverse_fill ≡ none
  pub proxy : lookup key p.0.proxies.in_use ≡ none

-- Outside an attempt a slot holds nothing; before the submission no proxy is marked as its own; and
-- while it submits, a proxy that is marked is the one of its session, which the end gives back.
unfoldable pub Fits : Text → Pc → Option Text → Shared → Type 0
Fits slot_label Pc.starting a p = Clear slot_label p
Fits slot_label Pc.head a p = Clear slot_label p
Fits slot_label Pc.waiting a p = Clear slot_label p
Fits slot_label Pc.finished a p = Clear slot_label p
Fits slot_label (Pc.opening token_id) a p = NoProxy slot_label p
Fits slot_label (Pc.preparing token_id) a p = NoProxy slot_label p
Fits slot_label (Pc.selecting stage token_id) a p = NoProxy slot_label p
Fits slot_label (Pc.submitting token_id) a p = NoProxy slot_label p ⊎ has_proxy a ≡ true

-- Only the slot itself has moved, and it fits where it is.
pub record Moved (slot_label : Text) (w v : World) : Type 0 where
  pub others : (k : Text) → k ≢ slot_label → lookup k v.slots ≡ lookup k w.slots
  pub own :
      (s : Slot)
      → lookup slot_label v.slots ≡ some s
      → Fits slot_label s.pc s.proxy_address v.shared

pub some_inj : {A : Type 0} (a b : A) → some a ≡ some b → a ≡ b
some_inj a b e = ground (arith, e)

pub Quiet-Clear : (key : Text) (p q : Shared) → Quiet p q → Clear key p → Clear key q
Quiet-Clear key p q k h = record {
  joint = ground (arith, k.joint, h.joint);
  row = ground (arith, k.reverse_fill, h.row);
  proxy = ground (arith, k.in_use, h.proxy);
}

pub Quiet-NoProxy : (key : Text) (p q : Shared) → Quiet p q → NoProxy key p → NoProxy key q
Quiet-NoProxy key p q k h = ground (arith, k.in_use, h)

module _ (slot_label : Text) (clean : IsClean slot_label) where
  pub C : Closed slot_label (Unleased slot_label)
  C = Closed-Unleased slot_label

  pub put-Moved :
      (pc : Pc) (a : Option Text) (w : World)
      → Fits slot_label pc a w.shared
      → Moved slot_label w (put slot_label pc a w)
  unfolding put
  put-Moved pc a w h = record {
    others = λ k ne. ground (
      arith,
      text_eq_iff slot_label k,
      lookup-insert slot_label k (record { pc = pc; proxy_address = a }) w.slots,
    );
    own = λ s e.
        let i : Slot = record { pc = pc; proxy_address = a } in
        let same : i ≡ s = some_inj i s (
          ground (
            arith,
            text_eq_iff slot_label slot_label,
            lookup-insert slot_label slot_label i w.slots,
          )
          ∙ e) in
        subst (λ (x : Slot). Fits slot_label x.pc x.proxy_address w.shared) same h;
  }

  -- The slots of the world do not depend on what is shared.
  pub via : (p : Shared) (w v : World) → Moved slot_label (set_shared p w) v → Moved slot_label w v
  via p w v m = record { others = m.others; own = m.own }

  pub finish-Moved :
      (now : ℕ) (w : World)
      → NoProxy slot_label w.shared
      → Moved slot_label w (finish slot_label now w)
  unfolding finish
  finish-Moved now w h =
      let p = close_slot slot_label now w.shared in
      let f = close_slot-EmptyHanded slot_label clean now w.shared in
      let c : Clear slot_label p = record {
        joint = f.joint;
        row = f.row;
        proxy = close_slot-R slot_label (Unleased slot_label) C now w.shared h;
      } in
      via p w _ (put-Moved Pc.finished none (set_shared p w) (unfold Fits in c))

  abbrev pub Over : Ending → Shared → Type 0
  Over ending p = (d : ℕ) → ending ≡ again d → EmptyHanded slot_label p

  pub conclude-Moved :
      (a : Option Text) (token_id : ℕ) (ending : Ending) (now : ℕ) (w : World)
      → NoProxy slot_label w.shared ⊎ has_proxy a ≡ true
      → Over ending w.shared
      → Moved slot_label w (conclude slot_label a token_id ending now w)
  unfolding conclude
  conclude-Moved a token_id (again delay) now w h o =
      let p = release_current_proxy slot_label a w.shared in
      let f = released-EmptyHanded slot_label clean a w.shared (o delay refl) in
      let c : Clear slot_label p = record {
        joint = f.joint;
        row = f.row;
        proxy = released-NoProxy slot_label clean a w.shared h;
      } in
      let v : World = record w {
        shared = p;
        scheduler = Scheduler.release token_id (not (is_set p.1)) delay now w.scheduler;
      } in
      let m = put-Moved Pc.head none v (unfold Fits in c) in
      record { others = m.others; own = m.own }
  conclude-Moved a token_id leave now w h o =
      let p = release_current_proxy slot_label a w.shared in
      let v : World = record w {
        shared = p;
        scheduler = Scheduler.release token_id false 0 now w.scheduler;
      } in
      let m = finish-Moved now v (released-NoProxy slot_label clean a w.shared h) in
      record { others = m.others; own = m.own }

  take_token-Moved :
      (now : ℕ) (b : Acquired) (w : World)
      → Clear slot_label w.shared
      → Moved slot_label w (take_token slot_label now b w)
  unfolding take_token
  take_token-Moved now refused w c = finish-Moved now w c.proxy
  take_token-Moved now blocked w c = put-Moved Pc.waiting none w (unfold Fits in c)
  take_token-Moved now (got token_id) w c =
      let p = update_http_submit_step slot_label (codes "准备请求") now w.shared in
      via p w _ (
        put-Moved (Pc.opening token_id) none (set_shared p w) (
          unfold Fits in
          Quiet-NoProxy slot_label w.shared p
            (http_step-Quiet slot_label (codes "准备请求") now w.shared) c.proxy))

  pub try_acquire-Moved :
      (now : ℕ) (w : World)
      → Clear slot_label w.shared
      → Moved slot_label w (try_acquire slot_label now w)
  unfolding try_acquire
  try_acquire-Moved now w c =
      let (scheduler, answer) = Scheduler.acquire w.scheduler in
      let m = take_token-Moved now answer (record w { scheduler = scheduler }) c in
      record { others = m.others; own = m.own }

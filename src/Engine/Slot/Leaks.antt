-- ===== src/Engine/Slot/Leaks.antt =====
-- Each turn keeps every slot in its place: nothing is held outside an attempt.
use fuck_wjx.Common.{
  ℕ, ◌≡◌, ◌≢◌, refl, ◌∙◌, sym, subst, inl, inr, Bool, true, false, List, [], ◌∷◌, Option, none,
  some, arith, Bool-cases, Option-cases, max,
}
use fuck_wjx.Common.Text.{Text, text_eq, text_eq_iff}
use fuck_wjx.Common.Dict.{lookup, text_key_eq}
use fuck_wjx.Task.ReverseFill
use fuck_wjx.Task.ReverseFill.Defs.{fresh}
use fuck_wjx.Task.ReverseFill.Invariant.{load-rest}
use fuck_wjx.Task.State.{ExecutionState}
use fuck_wjx.Engine.StopPolicy.Defs.{Signal}
use fuck_wjx.Engine.Round.{Shared, is_set}
use fuck_wjx.Engine.Slot.Steps.{Pc, Slot, World}
use fuck_wjx.Engine.Slot.Defs.{
  Settings, Event, Turn, slot, woken, prefetched, stop_run, advance, turn, run, begin,
}
use fuck_wjx.Engine.Slot.Effects.{Quiet, Quiet-refl}
use fuck_wjx.Engine.Slot.Keeps.{set-Quiet}
use fuck_wjx.Engine.Slot.Turns.{advance-R}
use fuck_wjx.Engine.Slot.Runs.{prefetched-Quiet, begin-Quiet}
use fuck_wjx.Engine.Slot.Spares.{row_of, IsClean, Spares, Quiet-Spares}
use fuck_wjx.Engine.Slot.Others.{Closed-Spares, used}
use fuck_wjx.Engine.Slot.Labels.{slots_from-IsClean}
use fuck_wjx.Engine.Slot.Tidy.{Clear, Fits, Quiet-Clear}
use fuck_wjx.Engine.Slot.Places.{advance-Moved}

spare : {k : Text} {p q : Shared} → Spares k p q → Clear k p → Clear k q
spare h c = record { joint = h.joint c.joint; row = h.row c.row; proxy = h.proxy c.proxy }

Fits-Spares :
    (k : Text) (pc : Pc) (a : Option Text) (p q : Shared)
    → Spares k p q
    → Fits k pc a p
    → Fits k pc a q
unfolding Fits
Fits-Spares k Pc.starting a p q h c = spare h c
Fits-Spares k Pc.head a p q h c = spare h c
Fits-Spares k Pc.waiting a p q h c = spare h c
Fits-Spares k Pc.finished a p q h c = spare h c
Fits-Spares k (Pc.opening token_id) a p q h c = h.proxy c
Fits-Spares k (Pc.preparing token_id) a p q h c = h.proxy c
Fits-Spares k (Pc.selecting stage token_id) a p q h c = h.proxy c
Fits-Spares k (Pc.submitting token_id) a p q h c = elim c [
  | inl n ↦ inl (h.proxy n)
  | inr b ↦ inr b
]

-- Every slot has a clean label and fits where it waits.
unfoldable pub Tidy : World → Type 0
Tidy w =
    (k : Text) (s : Slot)
    → lookup k w.slots ≡ some s
    → IsClean k × Fits k s.pc s.proxy_address w.shared

shared-Tidy : (w v : World) → v.slots ≡ w.slots → Quiet w.shared v.shared → Tidy w → Tidy v
unfolding Tidy
shared-Tidy w v e h t k s f =
    let (c, m) = t k s (ground (arith, e, f)) in
    (c, Fits-Spares k s.pc s.proxy_address w.shared v.shared (Quiet-Spares k w.shared v.shared h) m)

module _ (settings : Settings)
    (mono : (g : Signal) → is_set g ≡ true → is_set (settings.bridge g) ≡ true) where
  slot-Tidy :
      (l : Text) (event : Event) (now : ℕ) (i : Slot) (w : World)
      → lookup l w.slots ≡ some i
      → Tidy w
      → Tidy (advance settings l i.proxy_address now i.pc event w)
  unfolding Tidy
  slot-Tidy l event now i w e t k s f =
      let v = advance settings l i.proxy_address now i.pc event w in
      let (clean, fits) = t l i e in
      let m = advance-Moved l clean settings mono i.proxy_address now i.pc event w e fits in
      elim (Bool-cases (text_eq l k)) [
        | inl h ↦
            subst
              (λ (x : Text).
                lookup x v.slots ≡ some s → IsClean x × Fits x s.pc s.proxy_address v.shared)
              ((text_eq_iff l k).0 h) (λ g. (clean, m.own s g)) f
        | inr h ↦
            let ne : k ≢ l = λ g. ground (arith, h, g, text_eq_iff l k) in
            let (c, kept) = t k s (sym (m.others k ne) ∙ f) in
            (
              c,
              Fits-Spares k s.pc s.proxy_address w.shared v.shared
                  (advance-R l (Spares k) (Closed-Spares k l clean ne) (used k l clean ne) settings
                    mono i.proxy_address now i.pc event w)
                  kept,
            )
      ]

  turn-Tidy : (x : Turn) (w : World) → Tidy w → Tidy (turn settings x w)
  unfolding turn
  turn-Tidy (slot l event now) w t = elim (Option-cases (lookup l w.slots)) [
    | inl e ↦ rw (e, turn) t
    | inr (i, e) ↦ rw (e, turn) (slot-Tidy l event now i w e t)
  ]
  turn-Tidy (woken now) w t = shared-Tidy w _ refl (Quiet-refl w.shared) t
  turn-Tidy (prefetched items now) w t =
      shared-Tidy w _ refl
        (prefetched-Quiet settings.expire_of now settings.required items w.shared) t
  turn-Tidy stop_run w t = shared-Tidy w _ refl (set-Quiet w.shared.0 w.shared.1) t

  run-Tidy : (ts : List Turn) (w : World) → Tidy w → Tidy (run settings ts w)
  unfolding run
  run-Tidy [] w t = t
  run-Tidy (x ∷ ts) w t = run-Tidy ts (turn settings x w) (turn-Tidy x w t)

create-rows :
    (spec : Option ReverseFill.Spec) (k : Text) → row_of k (ReverseFill.create spec) ≡ none
unfolding ReverseFill.create
create-rows none k = refl
create-rows (some spec) k = unfold lookup in ground (arith, load-rest spec.samples (fresh spec))

begin-Tidy :
    (s : ExecutionState) (now : ℕ) (spec : Option ReverseFill.Spec)
    → s.joint.reserved ≡ []
    → s.reverse_fill ≡ ReverseFill.create spec
    → s.proxies.in_use ≡ []
    → Tidy (begin s now)
unfolding Tidy begin
begin-Tidy s now spec j r p k i e =
    let (c, started) = slots_from-IsClean 1 (max 1 s.config.num_threads) k i e in
    let q = (begin s now).shared in
    let clear : Clear k (s, some false) = record {
      joint = unfold lookup in ground (arith, j);
      row = ground (arith, r, create-rows spec k);
      proxy = unfold lookup in ground (arith, p);
    } in
    (c, rw started (unfold Fits in Quiet-Clear k (s, some false) q (begin-Quiet s now) clear))

-- The places outside an attempt.
unfoldable pub is_outside : Pc → Bool
is_outside Pc.starting = true
is_outside Pc.head = true
is_outside Pc.waiting = true
is_outside Pc.finished = true
is_outside _ = false

Fits-outside :
    (k : Text) (pc : Pc) (a : Option Text) (p : Shared)
    → is_outside pc ≡ true
    → Fits k pc a p
    → Clear k p
unfolding Fits is_outside
Fits-outside k Pc.starting a p h c = c
Fits-outside k Pc.head a p h c = c
Fits-outside k Pc.waiting a p h c = c
Fits-outside k Pc.finished a p h c = c
Fits-outside k (Pc.opening token_id) a p h c = absurd (ground (arith, h))
Fits-outside k (Pc.preparing token_id) a p h c = absurd (ground (arith, h))
Fits-outside k (Pc.selecting stage token_id) a p h c = absurd (ground (arith, h))
Fits-outside k (Pc.submitting token_id) a p h c = absurd (ground (arith, h))

Tidy-Clear :
    (w : World) (k : Text) (i : Slot)
    → Tidy w
    → lookup k w.slots ≡ some i
    → is_outside i.pc ≡ true
    → Clear k w.shared
unfolding Tidy
Tidy-Clear w k i t e h = Fits-outside k i.pc i.proxy_address w.shared h (t k i e).1

-- Nothing leaks: at any point of a run, a slot that is outside an attempt (before it starts, at the
-- head of its loop, waiting for a token, or finished) holds no joint slot, no reverse-fill row and no
-- proxy, however its attempts ended. (At the beginning nobody holds anything, and the bridge does not
-- clear a stop event that is set.)
pub run-holds_nothing :
    (settings : Settings)
    → ((g : Signal) → is_set g ≡ true → is_set (settings.bridge g) ≡ true)
    → (ts : List Turn) (s : ExecutionState) (now : ℕ) (spec : Option ReverseFill.Spec) (k : Text)
      (i : Slot)
    → s.joint.reserved ≡ []
    → s.reverse_fill ≡ ReverseFill.create spec
    → s.proxies.in_use ≡ []
    → lookup k (run settings ts (begin s now)).slots ≡ some i
    → is_outside i.pc ≡ true
    → let t = (run settings ts (begin s now)).shared.0 in
      (lookup k t.joint.reserved ≡ none)
      × (row_of k t.reverse_fill ≡ none)
      × (lookup k t.proxies.in_use ≡ none)
run-holds_nothing settings mono ts s now spec k i j r p e h =
    let w = run settings ts (begin s now) in
    let t = run-Tidy settings mono ts (begin s now) (begin-Tidy s now spec j r p) in
    let c = Tidy-Clear w k i t e h in (c.joint, c.row, c.proxy)

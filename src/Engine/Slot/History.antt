-- ===== src/Engine/Slot/History.antt =====
-- A run of the engine, seen by the queue of the rows and by the table of the joint slots, is a
-- sequence of their calls.
use fuck_wjx.Common.{◌≤◌, ◌≡◌, refl, ◌∙◌, ◌⊎◌, true, List, [], ◌∷◌, ◌++◌, Option, none, some, arith}
use fuck_wjx.Common.Dict.{text_key_eq}
use fuck_wjx.Task.Joint.{Joint}
use fuck_wjx.Task.Joint.Slots
use fuck_wjx.Task.ReverseFill.{Runtime}
use fuck_wjx.Task.ReverseFill.Conservation
use fuck_wjx.Task.State.{ExecutionState}
use fuck_wjx.Engine.Round.{Shared, is_set}
use fuck_wjx.Engine.Slot.Effects.{Quiet}

-- The calls, on rows that may be missing.
unfoldable pub run_rows : List Conservation.Op → Option Runtime → Option Runtime
unfolding Conservation.run
run_rows ops none = none
run_rows ops (some rt) = some (Conservation.run ops rt)

-- The count is within a positive target.
abbrev pub Bounded : ExecutionState → Type 0
Bounded s = s.config.target_num ≡ 0 ⊎ s.cur_num ≤ s.config.target_num

-- What may happen between two states of a run: calls of the rows' queue and of the joint slots, and
-- successes up to the target; a stop event that is set stays set.
pub record History (p q : Shared) : Type 0 where
  pub rows : List Conservation.Op
  pub slots : List Slots.Op
  pub rows_run : q.0.reverse_fill ≡ run_rows rows p.0.reverse_fill
  pub slots_run : q.0.joint ≡ Slots.run slots p.0.joint
  pub target : q.0.config.target_num ≡ p.0.config.target_num
  pub count_grows : p.0.cur_num ≤ q.0.cur_num
  pub bounded : Bounded p.0 → Bounded q.0
  pub stop : is_set p.1 ≡ true → is_set q.1 ≡ true

rows_run-append :
    (xs ys : List Conservation.Op) (rt : Runtime)
    → Conservation.run (xs ++ ys) rt ≡ Conservation.run ys (Conservation.run xs rt)
unfolding Conservation.run
rows_run-append [] ys rt = refl
rows_run-append (x ∷ xs) ys rt = rows_run-append xs ys (Conservation.step x rt)

run_rows-append :
    (xs ys : List Conservation.Op) (rows : Option Runtime)
    → run_rows (xs ++ ys) rows ≡ run_rows ys (run_rows xs rows)
unfolding run_rows
run_rows-append xs ys none = refl
run_rows-append xs ys (some rt) = ground (arith, rows_run-append xs ys rt)

slots_run-append :
    (xs ys : List Slots.Op) (j : Joint) → Slots.run (xs ++ ys) j ≡ Slots.run ys (Slots.run xs j)
unfolding Slots.run
slots_run-append [] ys j = refl
slots_run-append (x ∷ xs) ys j = slots_run-append xs ys (Slots.step x j)

pub run_rows-nil : (rows : Option Runtime) → run_rows [] rows ≡ rows
unfolding run_rows Conservation.run
run_rows-nil none = refl
run_rows-nil (some rt) = refl

pub slots_run-nil : (j : Joint) → Slots.run [] j ≡ j
unfolding Slots.run
slots_run-nil j = refl

pub History-trans : (p q r : Shared) → History p q → History q r → History p r
History-trans p q r a b = record {
  rows = a.rows ++ b.rows;
  slots = a.slots ++ b.slots;
  rows_run = ground (arith, a.rows_run, b.rows_run, run_rows-append a.rows b.rows p.0.reverse_fill);
  slots_run = ground (arith, a.slots_run, b.slots_run, slots_run-append a.slots b.slots p.0.joint);
  target = b.target ∙ a.target;
  count_grows = omega (arith, a.count_grows, b.count_grows);
  bounded = λ h. b.bounded (a.bounded h);
  stop = λ h. b.stop (a.stop h);
}

pub Quiet-History : (p q : Shared) → Quiet p q → History p q
Quiet-History p q k = record {
  rows = [];
  slots = [];
  rows_run = ground (arith, k.reverse_fill, run_rows-nil p.0.reverse_fill);
  slots_run = ground (arith, k.joint, slots_run-nil p.0.joint);
  target = k.target;
  count_grows = omega (arith, k.cur_num);
  bounded = λ h. ground (arith, k.cur_num, k.target);
  stop = k.stop;
}

-- The rows are those of the calls, and nothing that matters here changes besides.
pub row_calls :
    (p q : Shared) (ops : List Conservation.Op)
    → q.0.reverse_fill ≡ run_rows ops p.0.reverse_fill
    → q.0.joint ≡ p.0.joint
    → q.0.config ≡ p.0.config
    → q.0.cur_num ≡ p.0.cur_num
    → q.1 ≡ p.1
    → History p q
row_calls p q ops r j f n g = record {
  rows = ops;
  slots = [];
  rows_run = r;
  slots_run = ground (arith, j, slots_run-nil p.0.joint);
  target = ground (arith, f);
  count_grows = omega (arith, n);
  bounded = λ h. ground (arith, f, n);
  stop = λ h. ground (arith, g);
}

pub slot_calls :
    (p q : Shared) (ops : List Slots.Op)
    → q.0.joint ≡ Slots.run ops p.0.joint
    → q.0.reverse_fill ≡ p.0.reverse_fill
    → q.0.config ≡ p.0.config
    → q.0.cur_num ≡ p.0.cur_num
    → q.1 ≡ p.1
    → History p q
slot_calls p q ops j r f n g = record {
  rows = [];
  slots = ops;
  rows_run = ground (arith, r, run_rows-nil p.0.reverse_fill);
  slots_run = j;
  target = ground (arith, f);
  count_grows = omega (arith, n);
  bounded = λ h. ground (arith, f, n);
  stop = λ h. ground (arith, g);
}

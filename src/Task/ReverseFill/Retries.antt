-- ===== src/Task/ReverseFill/Retries.antt =====
-- How often a row may fail before it is discarded, and what `acquire` answers.
use fuck_wjx.Common.{
  ℕ, ◌+◌, ◌≤◌, ◌≡◌, refl, inl, inr, Bool, true, false, ◌||◌, List, [], ◌∷◌, Option, none, some,
  arith, ◌⊎◌, ltb, ◌&&◌, Bool-cases, subst, if◌then◌else◌, ◌==◌, ==_iff, Option-cases, count,
}
use fuck_wjx.Common.Text.{Text, text_eq_iff}
use fuck_wjx.Common.Dict.{
  lookup, erase, has, values, nat_eq, text_key_eq, lookup-insert, lookup-erase, lookup-count,
  lookup-absent, lookup-has,
}
use fuck_wjx.Common.Member.{
  distinct, count-set_add_self, count-set_add, elem, elem-count, not-elem-count,
}
use fuck_wjx.Task.ReverseFill.Defs.{
  Sample, Runtime, Status, AcquireResult, pop_queued, starved, fresh, take_row, acquire_locked,
  release_locked, commit_locked, fail_locked, next_count, count_of, unreachable,
}
use fuck_wjx.Task.ReverseFill.Conservation.{
  Inv, Op, acquire, release, commit, fail, step, run, reserved_elsewhere,
}
use fuck_wjx.Task.ReverseFill.Invariant.{
  row_numbers, start, start-Inv, step-Inv, step-open, load-failures, load-rest,
}

abbrev failures : ℕ → Runtime → ℕ
failures row rt = count_of (lookup row rt.failure_count)

-- The rows that are queued or held.
abbrev open_count : ℕ → Runtime → ℕ
open_count a rt = count a rt.queued + count a (values rt.reserved)

-- Whether a failed submission is recorded with this number of retries.
abbrev pub RecordedWith : ℕ → Op → Type 0
RecordedWith m (acquire c t k) = Unit
RecordedWith m (release k) = Unit
RecordedWith m (commit k) = Unit
RecordedWith m (fail k n) = n ≡ m

-- Whether every failed submission of the history is.
abbrev pub FailsWith : ℕ → List Op → Type 0
FailsWith m [] = Unit
FailsWith m (op ∷ ops) = RecordedWith m op × FailsWith m ops

abbrev is_row : ℕ → Option ℕ → Bool
is_row row none = false
is_row row (some a) = a == row

-- Whether the call is a failed submission of the worker that holds the row.
unfoldable pub fails_now : ℕ → Op → Runtime → ℕ
unfolding lookup
fails_now row (acquire c t k) rt = 0
fails_now row (release k) rt = 0
fails_now row (commit k) rt = 0
fails_now row (fail k n) rt = if is_row row (lookup k rt.reserved) then 1 else 0

-- How many submissions of a row fail in a history: counted from the calls, not from the state.
unfoldable pub fails : ℕ → List Op → Runtime → ℕ
unfolding step fails_now
fails row [] rt = 0
fails row (op ∷ ops) rt = fails_now row op rt + fails row ops (step op rt)

-- Only `fail` and `commit` change the failure counts.
acquire-failures :
    (cur target : ℕ) (key : Text) (rt : Runtime) (a : ℕ)
    → failures a (acquire_locked cur target key rt).0 ≡ failures a rt
unfolding acquire_locked take_row
acquire-failures cur target key rt a = ground arith

release-failures :
    (key : Text) (rt : Runtime) (a : ℕ) → failures a (release_locked key true rt).0 ≡ failures a rt
unfolding release_locked
release-failures key rt a = ground arith

-- A committed row loses its failures, and is not handed out again.
commit-failures :
    (key : Text) (rt : Runtime) (a : ℕ)
    → 1 ≤ count a (commit_locked key rt).0.committed
      ⊎ failures a (commit_locked key rt).0 ≡ failures a rt
unfolding commit_locked
commit-failures key rt a = elim (Option-cases (lookup key rt.reserved)) [
  | inl e ↦ inr (ground (arith, e))
  | inr (row, e) ↦ ground (
    arith,
    e,
    ==_iff row a,
    count-set_add_self row rt.committed,
    lookup-erase row a rt.failure_count,
  )
]

acquire-discarded :
    (cur target : ℕ) (key : Text) (rt : Runtime)
    → (acquire_locked cur target key rt).0.discarded ≡ rt.discarded
unfolding acquire_locked take_row
acquire-discarded cur target key rt = ground arith

release-discarded :
    (key : Text) (rt : Runtime) → (release_locked key true rt).0.discarded ≡ rt.discarded
unfolding release_locked
release-discarded key rt = ground arith

commit-discarded : (key : Text) (rt : Runtime) → (commit_locked key rt).0.discarded ≡ rt.discarded
unfolding commit_locked
commit-discarded key rt = ground arith

-- After `f` failed submissions of a row: their number is stored while the row can be handed out, and
-- the row is discarded when they are more than `m`.
record Tried (m f row : ℕ) (rt : Runtime) : Type 0 where
  counted : 1 ≤ open_count row rt → (failures row rt ≡ f) × (f ≤ m)
  gone : count row rt.discarded ≡ (if ltb m f then 1 else 0)
  few : f ≤ m + 1

-- A failed row is counted, and leaves play when its count passes the allowed retries.
fail-failures :
    (key : Text) (m : ℕ) (rt : Runtime) (row : ℕ)
    → lookup key rt.reserved ≡ some row
    → (a : ℕ)
    → failures a (fail_locked key m rt).0
      ≡ (if row == a then failures row rt + 1 else failures a rt)
unfolding fail_locked next_count
fail-failures key m rt row e a =
    ground (arith, e, lookup-insert row a (failures row rt + 1) rt.failure_count)

fail-discards :
    (key : Text) (m : ℕ) (rt : Runtime) (row : ℕ)
    → lookup key rt.reserved ≡ some row
    → count row rt.discarded ≤ 0
    → (a : ℕ)
    → count a (fail_locked key m rt).0.discarded
      ≡ (if row == a && ltb m (failures row rt + 1) then 1 else 0) + count a rt.discarded
unfolding fail_locked next_count
fail-discards key m rt row e h a =
    ground (arith, e, ==_iff row a, ==_iff a row, count-set_add a row rt.discarded h)

fail_idle :
    (key : Text) (m : ℕ) (rt : Runtime) → lookup key rt.reserved ≡ none → step (fail key m) rt ≡ rt
unfolding step fail_locked
fail_idle key m rt e = ground (arith, e)

step_fail : (key : Text) (m : ℕ) (rt : Runtime) → step (fail key m) rt ≡ (fail_locked key m rt).0
unfolding step
step_fail key m rt = refl

-- The failure of a row that a worker holds.
held-Tried :
    (key : Text) (m f row a : ℕ) (rt : Runtime)
    → Inv rt
    → lookup key rt.reserved ≡ some row
    → Tried m f a rt
    → Tried m (f + (if row == a then 1 else 0)) a (fail_locked key m rt).0
held-Tried key m f row a rt v e t =
    let after = (fail_locked key m rt).0 in
    let v' : Inv after = rw (← step_fail key m rt) (step-Inv (fail key m) rt v) in
    let held = lookup-count key row rt.reserved e in
    let stored = fail-failures key m rt row e a in
    let out = fail-discards key m rt row e (omega (arith, held, v.once row)) a in
    let shrinks : open_count a after ≤ open_count a rt =
      rw (← step_fail key m rt) (step-open (fail key m) rt a v) in
    elim (Bool-cases (row == a)) [
      | inl same ↦
          let is_a : row ≡ a = ground (arith, same, ==_iff row a) in
          let before = t.counted (rw (← is_a) (omega (arith, held))) in
          record {
            counted = λ h. ground (arith, same, is_a, stored, out, v'.once a, before, h);
            gone = ground (arith, same, is_a, stored, out, t.gone, before);
            few = ground (arith, same, before);
          }
      | inr other ↦ record {
        counted = λ h.
            let before = t.counted (omega (arith, shrinks, h)) in
            ground (arith, other, stored, before);
        gone = ground (arith, other, out, t.gone);
        few = ground (arith, other, t.few);
      }
    ]

-- A call that leaves the discarded rows alone, and the failures of a row that stays open.
still-Tried :
    (m f a : ℕ) (rt after : Runtime)
    → Tried m f a rt
    → open_count a after ≤ open_count a rt
    → after.discarded ≡ rt.discarded
    → (1 ≤ open_count a after → failures a after ≡ failures a rt)
    → Tried m (f + 0) a after
still-Tried m f a rt after t shrinks same keeps = record {
  counted =
      λ h. let before = t.counted (omega (arith, shrinks, h)) in ground (arith, keeps h, before);
  gone = ground (arith, same, t.gone);
  few = omega (arith, t.few);
}

-- One call, when a failure is recorded with that number of retries.
step-Tried :
    (op : Op) (m f a : ℕ) (rt : Runtime)
    → RecordedWith m op
    → Inv rt
    → Tried m f a rt
    → Tried m (f + fails_now a op rt) a (step op rt)
unfolding step fails_now
step-Tried (acquire cur target key) m f a rt r v t =
    still-Tried m f a rt _ t (step-open (acquire cur target key) rt a v)
      (acquire-discarded cur target key rt) (λ h. acquire-failures cur target key rt a)
step-Tried (release key) m f a rt r v t =
    still-Tried m f a rt _ t (step-open (release key) rt a v) (release-discarded key rt)
      (λ h. release-failures key rt a)
step-Tried (commit key) m f a rt r v t =
    let v' = step-Inv (commit key) rt v in
    still-Tried m f a rt _ t (step-open (commit key) rt a v) (commit-discarded key rt) (λ h.
      elim (commit-failures key rt a) [
        | inl out ↦ absurd (omega (arith, v'.once a, h, out))
        | inr same ↦ same
      ])
step-Tried (fail key n) m f a rt r v t = elim (Option-cases (lookup key rt.reserved)) [
  | inl e ↦ rw (e, fail_idle key n rt e) (still-Tried m f a rt rt t (omega arith) refl (λ h. refl))
  | inr (row, e) ↦ rw (e, r) (held-Tried key m f row a rt v e t)
]

run-Tried :
    (ops : List Op) (m f a : ℕ) (rt : Runtime)
    → FailsWith m ops
    → Inv rt
    → Tried m f a rt
    → Tried m (f + fails a ops rt) a (run ops rt)
unfolding run fails
run-Tried [] m f a rt r v t = subst (λ n. Tried m n a rt) (omega arith) t
run-Tried (op ∷ ops) m f a rt r v t =
    let now = fails_now a op rt in
    let sum : f + now + fails a ops (step op rt) ≡ f + (now + fails a ops (step op rt)) =
      omega arith in
    subst (λ n. Tried m n a (run ops (step op rt))) sum
      (run-Tried ops m (f + now) a (step op rt) r.1 (step-Inv op rt v)
        (step-Tried op m f a rt r.0 v t))

start-Tried : (samples : List Sample) (m a : ℕ) → Tried m 0 a (start samples)
unfolding lookup
start-Tried samples m a = record {
  counted = λ h. rw (load-failures samples _) (refl, omega arith);
  gone = rw ((load-rest samples (fresh (record { samples = samples }))).2) (ground arith);
  few = omega arith;
}

-- After any history in which failures are recorded with `m` retries, a row of the sheet is discarded
-- exactly when more than `m` submissions of it failed, and no more than `m + 1` ever fail. (The rows
-- of the sheet have different numbers.)
pub run-retries :
    (samples : List Sample) (ops : List Op) (m row : ℕ)
    → distinct (row_numbers samples) ≡ true
    → FailsWith m ops
    → (elem row (run ops (start samples)).discarded ≡ ltb m (fails row ops (start samples)))
      × (fails row ops (start samples) ≤ m + 1)
run-retries samples ops m row d f =
    let rt = run ops (start samples) in
    let t =
      run-Tried ops m 0 row (start samples) f (start-Inv samples d) (start-Tried samples m row) in
    (
      ground (arith, t.gone, elem-count row rt.discarded, not-elem-count row rt.discarded),
      omega (arith, t.few),
    )

-- Whether a queue holds a row.
abbrev pub some_row : List ℕ → Bool
some_row [] = false
some_row (x ∷ xs) = true

-- The sample of the row that a worker holds.
unfoldable pub sample_held : Text → Runtime → Option Sample
unfolding lookup
sample_held key rt = elim (lookup key rt.reserved) [
  | none ↦ none
  | some row ↦ lookup row rt.samples_by_row
]

abbrev pub has_sample : Option Sample → Bool
has_sample none = false
has_sample (some sample) = true

-- The answer of an acquisition.
abbrev Answers : ℕ → ℕ → Text → Bool → Runtime → Runtime × AcquireResult → Type 0
Answers cur target key found rt (after, answer) =
    (answer.status ≡ (
      if found
      then Status.acquired
      else if unreachable cur target (some rt)
      then Status.exhausted
      else Status.waiting))
    × (answer.sample ≡ sample_held key after)
    × (has_sample answer.sample ≡ found)

take_row-Answers :
    (cur target : ℕ) (key : Text) (rt : Runtime) (queue : List ℕ)
    → rt.queued ≡ queue
    → ((a : ℕ) → 1 ≤ count a queue → has a rt.samples_by_row ≡ true)
    → lookup key rt.reserved ≡ none
    → Answers cur target key (some_row queue) rt (take_row cur target key rt)
unfolding take_row pop_queued starved unreachable sample_held
take_row-Answers cur target key rt [] q k free = ground (arith, q, free)
take_row-Answers cur target key rt (row ∷ queue) q k free =
    elim (Option-cases (lookup row rt.samples_by_row)) [
      | inl missing ↦
          ground (arith, ==_iff row row, k row, lookup-absent row rt.samples_by_row missing)
      | inr (sample, found) ↦
          ground (arith, q, found, text_eq_iff key key, lookup-insert key key row rt.reserved)
    ]

-- In a state that the invariant holds of, the answer of `acquire` is: if the worker holds a row or one
-- is queued, "acquired" with the sample of the row that the worker then holds; otherwise no sample, and
-- "exhausted" exactly when the rows left cannot reach the target, and "waiting" if they can.
pub acquire-status :
    (cur target : ℕ) (key : Text) (rt : Runtime)
    → Inv rt
    → ((acquire_locked cur target key rt).1.status ≡ (
        if has key rt.reserved || some_row rt.queued
        then Status.acquired
        else if unreachable cur target (some rt)
        then Status.exhausted
        else Status.waiting))
      × ((acquire_locked cur target key rt).1.sample
          ≡ sample_held key (acquire_locked cur target key rt).0)
      × (has_sample (acquire_locked cur target key rt).1.sample
          ≡ (has key rt.reserved || some_row rt.queued))
unfolding acquire_locked sample_held
acquire-status cur target key rt v = elim (Option-cases (lookup key rt.reserved)) [
  | inl e ↦ ground (
    arith,
    e,
    lookup-absent key rt.reserved e,
    take_row-Answers cur target key rt rt.queued refl (λ a h. v.known a (omega arith)) e,
  )
  | inr (row, e) ↦ elim (Option-cases (lookup row rt.samples_by_row)) [
    | inl missing ↦ ground (
      arith,
      v.known row,
      lookup-absent row rt.samples_by_row missing,
      lookup-count key row rt.reserved e,
    )
    | inr (sample, found) ↦ ground (arith, e, found, lookup-has key rt.reserved row e)
  ]
]

-- In a state that the invariant holds of, a released row with a sample goes to the head of the
-- queue: the next worker without a row gets the row and its sample, and the queue is as before.
pub release-acquire :
    (cur target : ℕ) (key other : Text) (rt : Runtime) (row : ℕ) (sample : Sample)
    → Inv rt
    → lookup key rt.reserved ≡ some row
    → lookup row rt.samples_by_row ≡ some sample
    → lookup other (erase key rt.reserved) ≡ none
    → let after = (acquire_locked cur target other (release_locked key true rt).0) in
      (after.1.sample ≡ some sample)
      × (lookup other after.0.reserved ≡ some row)
      × (after.0.queued ≡ rt.queued)
unfolding release_locked acquire_locked take_row pop_queued
release-acquire cur target key other rt row sample v e s o = ground (
  arith,
  reserved_elsewhere rt key v row e,
  text_eq_iff other other,
  lookup-insert other other row (erase key rt.reserved),
)

-- ===== src/Task/ReverseFill/Invariant.antt =====
-- The invariant of the rows holds after any history, so each row of the sheet is always in exactly
-- one place.
use fuck_wjx.Common.{
  ℕ, ◌+◌, ◌≤◌, ◌≡◌, refl, ◌∙◌, ◌⊎◌, inl, inr, Bool, true, List, [], ◌∷◌, ◌++◌, some, arith,
  if◌then◌else◌, ==_iff, Option-cases, count, count-append,
}
use fuck_wjx.Common.Text.{Text}
use fuck_wjx.Common.Dict.{
  lookup, insert, erase, has, unique, values, nat_eq, text_key_eq, unique-insert, unique-erase,
  has-insert, count-one-key,
}
use fuck_wjx.Common.Member.{
  elem, distinct, elem-count, not-elem-count, count-set_add_mono, count-distinct,
}
use fuck_wjx.Task.ReverseFill.Defs.{
  Sample, Runtime, load_samples, fresh, pop_queued, take_row, acquire_locked, release_locked,
  commit_locked, fail_locked,
}
use fuck_wjx.Task.ReverseFill.Conservation.{
  tally, Inv, Op, acquire, release, commit, fail, step, run, step-tally,
}

-- What a call leaves alone or only extends.
record Grows (old new : Runtime) : Type 0 where
  samples : new.samples_by_row ≡ old.samples_by_row
  committed : (a : ℕ) → count a old.committed ≤ count a new.committed
  discarded : (a : ℕ) → count a old.discarded ≤ count a new.discarded
  keys : unique old.reserved ≡ true → unique new.reserved ≡ true

Grows-refl : (rt : Runtime) → Grows rt rt
Grows-refl rt = record {
  samples = refl;
  committed = λ a. omega arith;
  discarded = λ a. omega arith;
  keys = λ u. u;
}

take_row-Grows :
    (cur_num target_num : ℕ) (key : Text) (rt : Runtime)
    → Grows rt (take_row cur_num target_num key rt).0
unfolding take_row
take_row-Grows cur target key rt = elim (Option-cases (pop_queued rt.samples_by_row rt.queued).1) [
  | inl e ↦ record {
    samples = ground (arith, e);
    committed = λ a. ground (arith, e);
    discarded = λ a. ground (arith, e);
    keys = λ u. ground (arith, e);
  }
  | inr (p, e) ↦ record {
    samples = ground (arith, e);
    committed = λ a. ground (arith, e);
    discarded = λ a. ground (arith, e);
    keys = λ u. ground (arith, e, unique-insert key p.0 rt.reserved u);
  }
]

erased-Grows :
    (key : Text) (rt : Runtime) → Grows rt (record rt { reserved = erase key rt.reserved })
erased-Grows key rt = record {
  samples = refl;
  committed = λ a. omega arith;
  discarded = λ a. omega arith;
  keys = unique-erase key rt.reserved;
}

Grows-trans : (r s t : Runtime) → Grows r s → Grows s t → Grows r t
Grows-trans r s t p q = record {
  samples = q.samples ∙ p.samples;
  committed = λ a. omega (arith, p.committed a, q.committed a);
  discarded = λ a. omega (arith, p.discarded a, q.discarded a);
  keys = λ u. q.keys (p.keys u);
}

acquire-Grows :
    (cur_num target_num : ℕ) (key : Text) (rt : Runtime)
    → Grows rt (acquire_locked cur_num target_num key rt).0
unfolding acquire_locked
acquire-Grows cur target key rt = elim (Option-cases (lookup key rt.reserved)) [
  | inl e ↦ rw (e, acquire_locked) (take_row-Grows cur target key rt)
  | inr (row, e) ↦ elim (Option-cases (lookup row rt.samples_by_row)) [
    | inl m ↦
        rw (e, m, acquire_locked)
          (Grows-trans rt (record rt { reserved = erase key rt.reserved }) _ (erased-Grows key rt)
            (take_row-Grows cur target key (record rt { reserved = erase key rt.reserved })))
    | inr (s, m) ↦ rw (e, m, acquire_locked) (Grows-refl rt)
  ]
]

release-Grows :
    (key : Text) (requeue : Bool) (rt : Runtime) → Grows rt (release_locked key requeue rt).0
unfolding release_locked
release-Grows key requeue rt = record {
  samples = ground arith;
  committed = λ a. ground arith;
  discarded = λ a. ground arith;
  keys = λ u. ground (arith, unique-erase key rt.reserved u);
}

commit-Grows : (key : Text) (rt : Runtime) → Grows rt (commit_locked key rt).0
unfolding commit_locked
commit-Grows key rt = elim (Option-cases (lookup key rt.reserved)) [
  | inl e ↦ rw (e, commit_locked) (Grows-refl rt)
  | inr (row, e) ↦
      rw (e, commit_locked)
        (record {
          samples = refl;
          committed = λ a. count-set_add_mono a row rt.committed;
          discarded = λ a. omega arith;
          keys = unique-erase key rt.reserved;
        })
]

fail-Grows :
    (key : Text) (max_retries : ℕ) (rt : Runtime) → Grows rt (fail_locked key max_retries rt).0
unfolding fail_locked
fail-Grows key max_retries rt = elim (Option-cases (lookup key rt.reserved)) [
  | inl e ↦ rw (e, fail_locked) (Grows-refl rt)
  | inr (row, e) ↦ record {
    samples = ground (arith, e);
    committed = λ a. ground (arith, e);
    discarded = λ a. ground (arith, e, count-set_add_mono a row rt.discarded);
    keys = λ u. ground (arith, e, unique-erase key rt.reserved u);
  }
]

step-Grows : (op : Op) (rt : Runtime) → Grows rt (step op rt)
unfolding step
step-Grows (acquire cur target key) rt = acquire-Grows cur target key rt
step-Grows (release key) rt = release-Grows key true rt
step-Grows (commit key) rt = commit-Grows key rt
step-Grows (fail key max_retries) rt = fail-Grows key max_retries rt

pub step-Inv : (op : Op) (rt : Runtime) → Inv rt → Inv (step op rt)
step-Inv op rt v =
    let g = step-Grows op rt in
    record {
      once = λ a. omega (arith, step-tally op rt v a, v.once a);
      keys = g.keys v.keys;
      known = λ a h.
          rw g.samples
            (v.known a (omega (arith, step-tally op rt v a, g.committed a, g.discarded a)));
    }

-- The queued and the held rows never become more.
pub step-open :
    (op : Op) (rt : Runtime) (a : ℕ)
    → Inv rt
    → count a (step op rt).queued + count a (values (step op rt).reserved)
      ≤ count a rt.queued + count a (values rt.reserved)
step-open op rt a v =
    let g = step-Grows op rt in omega (arith, step-tally op rt v a, g.committed a, g.discarded a)

pub run-Inv : (ops : List Op) (rt : Runtime) → Inv rt → Inv (run ops rt)
unfolding run
run-Inv [] rt v = v
run-Inv (op ∷ ops) rt v = run-Inv ops (step op rt) (step-Inv op rt v)

run-tally : (ops : List Op) (rt : Runtime) → Inv rt → (a : ℕ) → tally a (run ops rt) ≡ tally a rt
unfolding run
run-tally [] rt v a = refl
run-tally (op ∷ ops) rt v a = run-tally ops (step op rt) (step-Inv op rt v) a ∙ step-tally op rt v a

run-committed :
    (ops : List Op) (rt : Runtime) (a : ℕ) → count a rt.committed ≤ count a (run ops rt).committed
unfolding run
run-committed [] rt a = omega arith
run-committed (op ∷ ops) rt a =
    let g = step-Grows op rt in omega (arith, g.committed a, run-committed ops (step op rt) a)

-- The row numbers of a sheet.
abbrev pub row_numbers : List Sample → List ℕ
row_numbers [] = []
row_numbers (s ∷ rest) = s.data_row_number ∷ row_numbers rest

queued-load :
    (a : ℕ) (samples : List Sample) (rt : Runtime)
    → count a (load_samples samples rt).queued ≡ count a rt.queued + count a (row_numbers samples)
unfolding load_samples
queued-load a [] rt = omega arith
queued-load a (s ∷ rest) rt = omega (
  arith,
  count-append a rt.queued (s.data_row_number ∷ []),
  queued-load a rest (record rt {
    samples_by_row = insert s.data_row_number s rt.samples_by_row;
    queued = rt.queued ++ s.data_row_number ∷ [];
  }),
)

-- A row of the sheet, or one that had a sample, has a sample after loading.
has-load :
    (a : ℕ) (samples : List Sample) (rt : Runtime)
    → (has a rt.samples_by_row ≡ true) ⊎ (1 ≤ count a (row_numbers samples))
    → has a (load_samples samples rt).samples_by_row ≡ true
unfolding load_samples
has-load a [] rt h = ground arith
has-load a (s ∷ rest) rt h =
    let rt' = record rt {
      samples_by_row = insert s.data_row_number s rt.samples_by_row;
      queued = rt.queued ++ s.data_row_number ∷ [];
    } in
    has-load a rest rt' (
      ground
        (arith, ==_iff s.data_row_number a, has-insert s.data_row_number a s rt.samples_by_row))

pub load-failures :
    (samples : List Sample) (rt : Runtime)
    → (load_samples samples rt).failure_count ≡ rt.failure_count
unfolding load_samples
load-failures [] rt = refl
load-failures (s ∷ rest) rt = load-failures rest _

pub load-rest :
    (samples : List Sample) (rt : Runtime)
    → ((load_samples samples rt).reserved ≡ rt.reserved)
      × ((load_samples samples rt).committed ≡ rt.committed)
      × ((load_samples samples rt).discarded ≡ rt.discarded)
unfolding load_samples
load-rest [] rt = (refl, refl, refl)
load-rest (s ∷ rest) rt = load-rest rest _

-- The state in which a run starts.
abbrev pub start : List Sample → Runtime
start samples = load_samples samples (fresh (record { samples = samples }))

pub start-tally :
    (samples : List Sample) (a : ℕ) → tally a (start samples) ≡ count a (row_numbers samples)
start-tally samples a =
    let rt = fresh (record { samples = samples }) in
    let (r, c, d) = load-rest samples rt in rw (r, c, d) (omega (arith, queued-load a samples rt))

pub start-Inv :
    (samples : List Sample) → distinct (row_numbers samples) ≡ true → Inv (start samples)
unfolding unique
start-Inv samples h =
    let rt = fresh (record { samples = samples }) in
    let (r, c, d) = load-rest samples rt in
    record {
      once = λ a. omega (arith, start-tally samples a, count-distinct a (row_numbers samples) h);
      keys = rw r refl;
      known = λ a l.
          has-load a samples rt
            (inr (omega (arith, queued-load a samples rt, start-tally samples a)));
    }

-- After any sequence of calls by any workers, each row of the sheet is in exactly one place (the
-- queue, the worker that holds it, the committed or the discarded rows), and no other row is in
-- any. (The rows of the sheet have different numbers, and rows are released back to the queue.)
pub run-once :
    (samples : List Sample) (ops : List Op) (a : ℕ)
    → distinct (row_numbers samples) ≡ true
    → tally a (run ops (start samples)) ≡ (if elem a (row_numbers samples) then 1 else 0)
run-once samples ops a h = ground (
  arith,
  run-tally ops (start samples) (start-Inv samples h) a,
  start-tally samples a,
  count-distinct a (row_numbers samples) h,
  elem-count a (row_numbers samples),
  not-elem-count a (row_numbers samples),
)

-- After any sequence of calls, two workers that hold the same row are one. (The rows of the sheet
-- have different numbers.)
pub run-reserved_inj :
    (samples : List Sample) (ops : List Op) (row : ℕ) (j k : Text)
    → distinct (row_numbers samples) ≡ true
    → lookup j (run ops (start samples)).reserved ≡ some row
    → lookup k (run ops (start samples)).reserved ≡ some row
    → j ≡ k
run-reserved_inj samples ops row j k h p q =
    let v = run-Inv ops (start samples) (start-Inv samples h) in
    count-one-key j k row (run ops (start samples)).reserved (omega (arith, v.once row)) p q

-- A committed row is never handed out again: after any later calls no worker holds it and it is not
-- queued. (The rows of the sheet have different numbers.)
pub commit-final :
    (samples : List Sample) (before after : List Op) (row : ℕ)
    → distinct (row_numbers samples) ≡ true
    → elem row (run before (start samples)).committed ≡ true
    → let rt = run after (run before (start samples)) in
      (count row rt.queued ≡ 0) × (count row (values rt.reserved) ≡ 0)
commit-final samples before after row h e =
    let rt = run before (start samples) in
    let v = run-Inv before (start samples) (start-Inv samples h) in
    let v' = run-Inv after rt v in
    let l = elem-count row rt.committed e in
    let m = run-committed after rt row in (omega (arith, v'.once row), omega (arith, v'.once row))

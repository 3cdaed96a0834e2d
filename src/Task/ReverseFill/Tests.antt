-- ===== src/Task/ReverseFill/Tests.antt =====
-- A sheet of two rows and two workers.
use fuck_wjx.Common.{
  ℕ, ◌+◌, ◌≤◌, ◌≡◌, refl, true, ◌||◌, List, [], ◌∷◌, some, if◌then◌else◌, count, ltb,
}
use fuck_wjx.Common.Text.{Text, codes, text_eq}
use fuck_wjx.Common.Dict.{lookup, values, erase, has, text_key_eq, nat_eq}
use fuck_wjx.Common.Member.{elem, distinct}
use fuck_wjx.Task.ReverseFill.Defs.{
  Sample, Status, acquire_locked, release_locked, unreachable, load_samples,
}
use fuck_wjx.Task.ReverseFill.Conservation.{Op, acquire, release, commit, fail, tally, run}
use fuck_wjx.Task.ReverseFill.Invariant.{
  row_numbers, start, start-Inv, run-Inv, run-once, run-reserved_inj, commit-final,
}
use fuck_wjx.Task.ReverseFill.Retries.{
  some_row, sample_held, has_sample, fails, run-retries, acquire-status, release-acquire,
}

abbrev sample_of : ℕ → Sample
sample_of n = record { data_row_number = n; worksheet_row_number = n + 1; answers = [] }

abbrev two_rows : List Sample
two_rows = sample_of 1 ∷ sample_of 2 ∷ []

abbrev worker_a : Text
worker_a = codes "Slot-1"

abbrev worker_b : Text
worker_b = codes "Slot-2"

-- The first worker fails once and comes back; the second commits.
abbrev history : List Op
history =
    acquire 0 2 worker_a
    ∷ fail worker_a 1
    ∷ acquire 0 2 worker_b
    ∷ acquire 0 2 worker_a
    ∷ commit worker_b
    ∷ []

two_rows-distinct : distinct (row_numbers two_rows) ≡ true
unfolding distinct
two_rows-distinct = refl

run-once_example :
    tally 1 (run history (start two_rows)) ≡ (if elem 1 (row_numbers two_rows) then 1 else 0)
run-once_example = run-once two_rows history 1 two_rows-distinct

run-reserved_inj_example : worker_a ≡ worker_a
unfolding run load_samples lookup text_eq
run-reserved_inj_example =
    run-reserved_inj two_rows history 2 worker_a worker_a two_rows-distinct refl refl

commit-final_example :
    let rt = run (release worker_a ∷ []) (run history (start two_rows)) in
    (count 1 rt.queued ≡ 0) × (count 1 (values rt.reserved) ≡ 0)
unfolding run load_samples lookup elem text_eq
commit-final_example =
    commit-final two_rows history (release worker_a ∷ []) 1 two_rows-distinct refl

-- The same row fails twice, and may fail once.
abbrev failing : List Op
failing = acquire 0 2 worker_a ∷ fail worker_a 1 ∷ acquire 0 2 worker_b ∷ fail worker_b 1 ∷ []

run-retries_example :
    (elem 1 (run failing (start two_rows)).discarded ≡ ltb 1 (fails 1 failing (start two_rows)))
    × (fails 1 failing (start two_rows) ≤ 2)
run-retries_example =
    run-retries two_rows failing 1 1 two_rows-distinct (tt, (refl, (tt, (refl, tt))))

failed_twice : fails 1 failing (start two_rows) ≡ 2
unfolding fails load_samples lookup text_eq
failed_twice = refl

acquire-status_example :
    ((acquire_locked 0 2 worker_a (start two_rows)).1.status ≡ (
      if has worker_a (start two_rows).reserved || some_row (start two_rows).queued
      then Status.acquired
      else if unreachable 0 2 (some (start two_rows))
      then Status.exhausted
      else Status.waiting))
    × ((acquire_locked 0 2 worker_a (start two_rows)).1.sample
        ≡ sample_held worker_a (acquire_locked 0 2 worker_a (start two_rows)).0)
    × (has_sample (acquire_locked 0 2 worker_a (start two_rows)).1.sample
        ≡ (has worker_a (start two_rows).reserved || some_row (start two_rows).queued))
acquire-status_example =
    acquire-status 0 2 worker_a (start two_rows) (start-Inv two_rows two_rows-distinct)

abbrev held : List Op
held = acquire 0 2 worker_a ∷ []

release-acquire_example :
    let rt = run held (start two_rows) in
    let after = acquire_locked 0 2 worker_b (release_locked worker_a true rt).0 in
    (after.1.sample ≡ some (sample_of 1))
    × (lookup worker_b after.0.reserved ≡ some 1)
    × (after.0.queued ≡ rt.queued)
unfolding run load_samples lookup erase text_eq
release-acquire_example =
    release-acquire 0 2 worker_a worker_b (run held (start two_rows)) 1 (sample_of 1)
      (run-Inv held (start two_rows) (start-Inv two_rows two_rows-distinct)) refl refl refl

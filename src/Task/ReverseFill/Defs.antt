-- ===== src/Task/ReverseFill/Defs.antt =====
-- The rows of an imported answer sheet, and the queue that hands them to the workers.
use fuck_wjx.Common.{
  ℕ, ◌+◌, Bool, true, false, not, ◌&&◌, List, [], ◌∷◌, ◌++◌, Option, none, some, if◌then◌else◌, ltb,
  leb, length, ℤ,
}
use fuck_wjx.Common.Text.{Text, codes}
use fuck_wjx.Common.Dict.{lookup, insert, erase, nat_eq, text_key_eq}
use fuck_wjx.Common.Member.{elem, set_add}

pub data Kind : Type 0 where
  choice text multi_text matrix : Kind

pub record Answer : Type 0 where
  pub question_num : ℕ
  pub kind : Kind
  pub choice_index : Option ℤ
  pub text_value : Text
  pub text_values : List Text
  pub matrix_choice_indexes : List ℤ

pub record Sample : Type 0 where
  pub data_row_number : ℕ
  pub worksheet_row_number : ℕ
  pub answers : List (ℕ × Answer)

-- Of the specification the runtime reads the samples.
pub record Spec : Type 0 where
  pub samples : List Sample

-- The sets of row numbers are lists; `set_add` keeps them free of repetitions.
pub record Runtime : Type 0 where
  pub spec : Spec
  pub queued : List ℕ
  pub samples_by_row : List (ℕ × Sample)
  pub reserved : List (Text × ℕ)
  pub failure_count : List (ℕ × ℕ)
  pub committed : List ℕ
  pub discarded : List ℕ

pub data Status : Type 0 where
  acquired waiting exhausted disabled : Status

pub record AcquireResult : Type 0 where
  pub status : Status
  pub sample : Option Sample
  pub message : Text

unfoldable pub load_samples : List Sample → Runtime → Runtime
unfolding insert
load_samples [] rt = rt
load_samples (s ∷ rest) rt = load_samples rest (record rt {
  samples_by_row = insert s.data_row_number s rt.samples_by_row;
  queued = rt.queued ++ s.data_row_number ∷ [];
})

abbrev pub fresh : Spec → Runtime
fresh spec = record {
  spec = spec;
  queued = [];
  samples_by_row = [];
  reserved = [];
  failure_count = [];
  committed = [];
  discarded = [];
}

unfoldable pub create : Option Spec → Option Runtime
unfolding load_samples
create none = none
create (some spec) = some (load_samples spec.samples (fresh spec))

-- `_reverse_fill_possible_total_locked`
unfoldable pub possible_total : ℕ → Option Runtime → ℕ
possible_total cur_num none = cur_num
possible_total cur_num (some rt) = cur_num + length rt.queued + length rt.reserved

-- The `while` loop of `acquire`: rows without a sample are dropped.
unfoldable pub pop_queued : List (ℕ × Sample) → List ℕ → List ℕ × Option (ℕ × Sample)
unfolding lookup
pop_queued samples [] = ([], none)
pop_queued samples (row ∷ queue) = elim (lookup row samples) [
  | none ↦ pop_queued samples queue
  | some sample ↦ (queue, some (row, sample))
]

abbrev got : Sample → Text → AcquireResult
got sample message = record { status = Status.acquired; sample = some sample; message = message }

abbrev lacks : Status → Text → AcquireResult
lacks status message = record { status = status; sample = none; message = message }

-- What the caller hears when no row is left in the queue.
unfoldable pub starved : ℕ → ℕ → Runtime → AcquireResult
unfolding possible_total
starved cur_num target_num rt =
    if ltb 0 target_num && ltb (possible_total cur_num (some rt)) target_num
    then lacks Status.exhausted (codes "reverse_fill_target_unreachable")
    else lacks Status.waiting (codes "reverse_fill_waiting")

unfoldable pub take_row : ℕ → ℕ → Text → Runtime → Runtime × AcquireResult
unfolding pop_queued insert starved
take_row cur_num target_num key rt =
    let (rest, popped) = pop_queued rt.samples_by_row rt.queued in
    elim popped [
      | none ↦ let rt' = record rt { queued = rest } in (rt', starved cur_num target_num rt')
      | some (row, sample) ↦ (
        record rt { queued = rest; reserved = insert key row rt.reserved },
        got sample (codes "reserved"),
      )
    ]

-- A reservation whose sample is gone is dropped before the queue is read.
unfoldable pub acquire_locked : ℕ → ℕ → Text → Runtime → Runtime × AcquireResult
unfolding take_row lookup erase
acquire_locked cur_num target_num key rt = elim (lookup key rt.reserved) [
  | none ↦ take_row cur_num target_num key rt
  | some row ↦ elim (lookup row rt.samples_by_row) [
    | some sample ↦ (rt, got sample (codes "already_reserved"))
    | none ↦ take_row cur_num target_num key (record rt { reserved = erase key rt.reserved })
  ]
]

unfoldable pub release_locked : Text → Bool → Runtime → Runtime × Option ℕ
unfolding lookup erase elem
release_locked key requeue rt = elim (lookup key rt.reserved) [
  | none ↦ (rt, none)
  | some row ↦ (
    record rt {
      reserved = erase key rt.reserved;
      queued =
          (if requeue && not (elem row rt.committed) && not (elem row rt.discarded)
            then row ∷ rt.queued
            else rt.queued);
    },
    some row,
  )
]

unfoldable pub commit_locked : Text → Runtime → Runtime × Option ℕ
unfolding lookup erase set_add
commit_locked key rt = elim (lookup key rt.reserved) [
  | none ↦ (rt, none)
  | some row ↦ (
    record rt {
      reserved = erase key rt.reserved;
      committed = set_add row rt.committed;
      failure_count = erase row rt.failure_count;
    },
    some row,
  )
]

abbrev pub count_of : Option ℕ → ℕ
count_of none = 0
count_of (some n) = n

-- The new failure count of a row.
unfoldable pub next_count : ℕ → Runtime → ℕ
unfolding lookup
next_count row rt = count_of (lookup row rt.failure_count) + 1

-- `mark_reverse_fill_submission_failed`: the row, and whether it was discarded.
unfoldable pub fail_locked : Text → ℕ → Runtime → Runtime × (Option ℕ × Bool)
unfolding lookup erase insert set_add next_count
fail_locked key max_retries rt = elim (lookup key rt.reserved) [
  | none ↦ (rt, (none, false))
  | some row ↦
      let next = next_count row rt in
      let counted = record rt {
        reserved = erase key rt.reserved;
        failure_count = insert row next rt.failure_count;
      } in
      if leb next max_retries
      then (record counted { queued = row ∷ rt.queued }, (some row, false))
      else (record counted { discarded = set_add row rt.discarded }, (some row, true))
]

unfoldable pub answer_locked : Text → ℕ → Runtime → Option Answer
unfolding lookup
answer_locked key question_num rt = elim (lookup key rt.reserved) [
  | none ↦ none
  | some row ↦ elim (lookup row rt.samples_by_row) [
    | none ↦ none
    | some sample ↦ lookup question_num sample.answers
  ]
]

-- `is_reverse_fill_target_unreachable`
unfoldable pub unreachable : ℕ → ℕ → Option Runtime → Bool
unfolding possible_total
unreachable cur_num target_num none = false
unreachable cur_num target_num (some rt) =
    ltb 0 target_num && ltb (possible_total cur_num (some rt)) target_num

-- ===== src/Task/Progress/Defs.antt =====
-- The row of each worker, by the worker's name. Each method reads the clock: `now`.
-- Of what `int` reads, the digits of a thread name are ASCII digits without underscores between
-- them: `int` also reads `1_0` and the other digits of Unicode, which are `none` here.
use mathlib.Core.List.{reverse}
use fuck_wjx.Common.{
  ℕ, zero, suc, ◌+◌, ◌-◌, ◌*◌, ◌/◌, ◌%◌, Bool, true, false, ◌&&◌, List, [], ◌∷◌, ◌++◌, Option, none,
  some, if◌then◌else◌, ◌==◌, ltb, leb, min, max, ℤ, pos, negsuc, to_ℕ,
}
use fuck_wjx.Common.Text.{Text, codes, strip, or_else}
use fuck_wjx.Common.Dict.{lookup, insert, text_key_eq}
use fuck_wjx.Task.Key.{progress_key}

pub record ThreadProgress : Type 0 where
  pub thread_name : Text
  pub thread_index : ℕ
  pub owner_id : ℕ
  pub success_count : ℕ
  pub fail_count : ℕ
  pub step_current : ℕ
  pub step_total : ℕ
  pub status_text : Text
  pub running : Bool
  pub last_update_ts : ℕ

abbrev pub Threads : Type 0
Threads = List (Text × ThreadProgress)

abbrev is_digit : ℕ → Bool
is_digit c = leb b'0' c && leb c b'9'

-- The value of a text of digits, and none for any other character.
unfoldable digits_value : ℕ → Text → Option ℕ
digits_value acc [] = some acc
digits_value acc (c ∷ s) =
    let rest = digits_value (acc * 10 + (c - b'0')) s in if is_digit c then rest else none

-- `int(text)` for a text with no space around it: an optional sign, then digits.
unfoldable parse_int : Text → Option ℤ
unfolding digits_value
parse_int [] = none
parse_int (c ∷ []) = if is_digit c then some (pos (c - b'0')) else none
parse_int (c ∷ d ∷ s) =
    if c == b'-'
    then elim (digits_value 0 (d ∷ s)) [
      | some (suc n) ↦ some (negsuc n)
      | some zero ↦ some (pos 0)
      | none ↦ none
    ]
    else elim (digits_value 0 (if c == b'+' then d ∷ s else c ∷ d ∷ s)) [
      | some n ↦ some (pos n)
      | none ↦ none
    ]

-- The text behind a prefix.
unfoldable pub after_prefix : Text → Text → Option Text
after_prefix [] s = some s
after_prefix (p ∷ ps) [] = none
after_prefix (p ∷ ps) (c ∷ s) = let rest = after_prefix ps s in if p == c then rest else none

-- The digits at the end of a text, given in reverse: `tail`.
unfoldable leading_digits : Text → Text
leading_digits [] = []
leading_digits (c ∷ s) = let rest = leading_digits s in if is_digit c then c ∷ rest else []

abbrev index_of : Option ℤ → ℕ
index_of none = 0
index_of (some z) = to_ℕ z

abbrev tail_index : Text → ℕ
tail_index [] = 0
tail_index (c ∷ s) = index_of (parse_int (c ∷ s))

-- `_resolve_thread_index`
unfoldable pub resolve_thread_index : Text → ℕ
unfolding strip after_prefix parse_int leading_digits
resolve_thread_index thread_name =
    let text = strip thread_name in
    elim (after_prefix (codes "Worker-") text) [
      | some suffix ↦ index_of (parse_int (strip suffix))
      | none ↦ elim (after_prefix (codes "Slot-") text) [
        | some suffix ↦ index_of (parse_int (strip suffix))
        | none ↦ tail_index (reverse (leading_digits (reverse text)))
      ]
    ]

unfoldable pub new_thread : Text → ℕ → ℕ → ThreadProgress
new_thread name index now = record {
  thread_name = name;
  thread_index = index;
  owner_id = 0;
  success_count = 0;
  fail_count = 0;
  step_current = 0;
  step_total = 0;
  status_text = codes "等待中";
  running = false;
  last_update_ts = now;
}

abbrev or_new : Option ThreadProgress → ThreadProgress → ThreadProgress
or_new none d = d
or_new (some t) d = t

-- `_get_or_create_thread_state_locked`: the row that the method then writes to.
unfoldable pub thread_state : Text → ℕ → Threads → ThreadProgress
unfolding lookup resolve_thread_index new_thread
thread_state key now threads =
    or_new (lookup key threads) (new_thread key (resolve_thread_index key) now)

-- A method gets or creates the row under the name's key and assigns to its fields.
unfoldable pub modify : Text → ℕ → (ThreadProgress → ThreadProgress) → Threads → Threads
unfolding thread_state insert progress_key
modify thread_name now f threads =
    let key = progress_key thread_name in insert key (f (thread_state key now threads)) threads

abbrev set_running : Option Bool → ThreadProgress → ThreadProgress
set_running none t = t
set_running (some b) t = record t { running = b }

abbrev set_status : Option Text → ThreadProgress → ThreadProgress
set_status none t = t
set_status (some s) t = record t { status_text = s }

-- What each method assigns to the row.
abbrev pub write_status : Text → Option Bool → ℕ → ThreadProgress → ThreadProgress
write_status status_text running now t =
    record (set_running running (record t { status_text = status_text })) { last_update_ts = now }

abbrev pub write_step : ℕ → ℕ → Option Text → Option Bool → ℕ → ThreadProgress → ThreadProgress
write_step current total status_text running now t =
    record (set_running running (
      set_status status_text (record t {
        step_current = (if ltb 0 total then min current total else current);
        step_total = total;
      }))) { last_update_ts = now }

abbrev pub write_success : Text → ℕ → ThreadProgress → ThreadProgress
write_success status_text now t = record t {
  success_count = t.success_count + 1;
  step_current = (if ltb 0 t.step_total then t.step_total else t.step_current);
  status_text = or_else status_text (codes "提交成功");
  running = true;
  last_update_ts = now;
}

abbrev pub write_fail : Text → ℕ → ThreadProgress → ThreadProgress
write_fail status_text now t = record t {
  fail_count = t.fail_count + 1;
  status_text = or_else status_text (codes "失败重试");
  running = true;
  last_update_ts = now;
}

abbrev pub write_finished : Text → ℕ → ThreadProgress → ThreadProgress
write_finished status_text now t = record t {
  running = false;
  status_text = or_else status_text (codes "已停止");
  last_update_ts = now;
}

unfoldable pub update_thread_status : Text → Text → Option Bool → ℕ → Threads → Threads
unfolding modify
update_thread_status thread_name status_text running now =
    modify thread_name now (write_status status_text running now)

unfoldable pub update_thread_step : Text → ℤ → ℤ → Option Text → Option Bool → ℕ → Threads → Threads
unfolding modify
update_thread_step thread_name step_current step_total status_text running now =
    modify thread_name now
      (write_step (to_ℕ step_current) (to_ℕ step_total) status_text running now)

unfoldable pub increment_thread_success : Text → Text → ℕ → Threads → Threads
unfolding modify
increment_thread_success thread_name status_text now =
    modify thread_name now (write_success status_text now)

unfoldable pub increment_thread_fail : Text → Text → ℕ → Threads → Threads
unfolding modify
increment_thread_fail thread_name status_text now =
    modify thread_name now (write_fail status_text now)

unfoldable pub mark_thread_finished : Text → Text → ℕ → Threads → Threads
unfolding modify
mark_thread_finished thread_name status_text now =
    modify thread_name now (write_finished status_text now)

-- The decimal digits of a number, the last first; the number itself is fuel enough.
unfoldable pub decimal_fuel : ℕ → ℕ → Text
decimal_fuel zero n = []
decimal_fuel (suc fuel) n =
    let rest = decimal_fuel fuel (n / 10) in (b'0' + n % 10) ∷ (if n / 10 == 0 then [] else rest)

unfoldable pub decimal : ℕ → Text
unfolding decimal_fuel
decimal n = reverse (decimal_fuel (suc n) n)

abbrev pub worker_name : Text → ℕ → Text
worker_name prefix idx = prefix ++ (b'-' ∷ decimal idx)

-- A new row, or the old one with its index and time set.
abbrev pub ensured : Option ThreadProgress → Text → ℕ → ℕ → ThreadProgress
ensured none name idx now = new_thread name idx now
ensured (some t) name idx now = record t { thread_index = idx; last_update_ts = now }

-- The loop of `ensure_worker_threads` over the indices from `idx` up.
unfoldable pub ensure_from : Text → ℕ → ℕ → ℕ → Threads → Threads
unfolding decimal lookup insert new_thread
ensure_from prefix now idx zero threads = threads
ensure_from prefix now idx (suc n) threads =
    let name = worker_name prefix idx in
    ensure_from prefix now (suc idx) n
      (insert name (ensured (lookup name threads) name idx now) threads)

unfoldable pub ensure_worker_threads : ℕ → Text → ℕ → Threads → Threads
unfolding ensure_from strip
ensure_worker_threads expected_count prefix now =
    let normalized = or_else (strip (or_else prefix (codes "Worker"))) (codes "Worker") in
    ensure_from normalized now 1 (max 1 expected_count)

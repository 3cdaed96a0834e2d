-- ===== src/Task/Key.antt =====
-- The key under which a worker's entries stand in the dictionaries of `ExecutionState`.
use fuck_wjx.Common.{Option}
use fuck_wjx.Common.Text.{Text, codes, strip, or_else, text_of}

-- Who calls: the `thread_name` argument, and `threading.current_thread().name`.
pub record Caller : Type 0 where
  pub thread_name : Option Text
  pub current : Text

abbrev worker_unknown : Text
worker_unknown = codes "Worker-?"

-- `str(thread_name or threading.current_thread().name or "Worker-?").strip() or "Worker-?"`
unfoldable pub thread_key : Caller → Text
unfolding strip
thread_key who =
    or_else (strip (or_else (or_else (text_of who.thread_name) who.current) worker_unknown))
      worker_unknown

-- `str(thread_name or "").strip() or "Worker-?"`
unfoldable pub progress_key : Text → Text
unfolding strip
progress_key thread_name = or_else (strip thread_name) worker_unknown

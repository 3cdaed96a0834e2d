-- ===== src/Lib.antt =====
-- SurveyController fills in online surveys: asynchronous workers take rounds of one run, each
-- round answers a survey of a provider (WJX, Tencent, Credamo) and submits it over HTTP, often
-- through a proxy. This library models the state that the workers share, the policy that counts
-- their submissions and stops the run, and the rules that fit a selection to a question.
--
-- Parts, and where the code is:
-- - Task: software/core/task/. `ExecutionState` (task_context.py) holds one run. Its mixins are
--   modelled one by one, each as a record of its fields and a function for each locked section:
--   Task/ReverseFill (reverse_fill_state.py, with software/core/reverse_fill/schema.py and
--   runtime.py), Task/Joint and Task/Distribution (distribution_state.py), Task/Progress
--   (progress_state.py), Task/Proxy (proxy_state.py). Task/State is the whole state, Task/Methods
--   the methods over it: `release_joint_sample` is `Joint.release_locked` on the field `joint`
--   and then `notify` where the source notifies. Task/Key is the key that each method computes
--   from the thread name.
-- - Network: Network/Session is software/network/session_policy.py on the lease pool of the
--   configuration, with the lease checks of software/network/proxy/pool/pool.py.
-- - Engine: software/core/engine/. Engine/StopPolicy is run_stop_policy.py, which calls the
--   methods of Task/Methods in the order of the source, and failure_reason.py. Engine/Scheduler
--   is async_scheduler.py. Engine/Round is one attempt: async_round_resources.py (Resources) and
--   what each exception does (Handlers: runtime_error_handlers.py and the handlers of
--   `AsyncSlotRunner`). Engine/Slot is `AsyncSlotRunner` of async_runtime_loop.py with
--   async_proxy_session.py and software/providers/http_progress.py, and the run of async_engine.py
--   around the slots: a `World` is the shared state with the stop event, the scheduler, and for each
--   slot the wait it is in (`Pc`) and the proxy of its session; `advance` is one stretch of a slot
--   between two waits, `turn` one turn of the event loop, `run` a list of turns (Steps: the
--   loop and the attempt; Selection: the wait for a proxy of session_policy.py; Defs: the turns).
-- - Tencent: Tencent/Rules is tencent/provider/answering_rules.py.
-- - Wjx: Wjx/MultipleRules is wjx/provider/questions/multiple_rules.py.
-- - Common: lists, dictionaries in insertion order, sets, texts, sorting, with their laws.
--
-- Modelling choices. A locked section is one step, so an interleaving of workers is a list of
-- calls (`Op`, `run`). A text is the list of its code points; dictionaries and sets are lists
-- without repeated keys. Clock readings are arguments, natural numbers of ticks. An integer that
-- the code clamps with `max(0, ...)` is a natural number; one that it tests for being negative is
-- ℤ. A worker's name is the `thread_name` argument with the name of the current thread (`Caller`).
-- The slots are coroutines of one event loop, so a stretch between two waits is one step, and a
-- list of turns is any order in which the waits end. What ends a wait is an input of the turn: the
-- answer of the provider, an exception with its text, the leases that a fetch brings, the delay that
-- is drawn. A turn allows more than the code: the wait for a proxy may time out or bring none at any
-- time, and the lock of the fetch may be got while another slot fetches. The ticks of a run are
-- milliseconds. The stop event is set at once, where `ThreadEventProxy` sets it at the next turn of
-- the loop; the waiter count of the proxy selection is not kept there. A choice that a slot records
-- goes under the name of the engine's thread, as in the code, not under the slot's.
-- What the user interface does with the stop signal (`bridge`) is assumed to leave a set event set.
-- A stop signal is an event that may be missing. The handler of the user interface that
-- `record_success` calls for a random IP is a parameter: what it does to the signal. So is the
-- parser of expiry texts, which is `datetime`'s, and `random.shuffle`. A function that reads the
-- clock more than once in one locked section reads one time. The `try` blocks around the methods
-- catch nothing, since the methods modelled do not raise.
-- The recursions are structural; the fuel of `decimal_fuel` is the number plus one, and a number
-- has no more digits than that.
--
-- Not modelled: pauses, what ends a run after its last slot or after an exception that no slot
-- handles, logging, condition variables and events behind the waiting methods, HTTP, the user
-- interface, configuration files, the other parts of the providers, and the floating-point
-- statistics. Of what `int` reads in a thread name, only ASCII digits without underscores between
-- them are read: `int` also takes `1_0` and the other digits of Unicode.

pub mod Common
pub mod Task
pub mod Network
pub mod Engine
pub mod Tencent
pub mod Wjx

-- ===== src/Engine/Slot/Steps.antt =====
-- Where a slot waits, and the steps of its loop and of its attempts: async_runtime_loop.py.
use fuck_wjx.Common.{ℕ, false, not, List, Option, none, some, if◌then◌else◌}
use fuck_wjx.Common.Text.{Text, codes}
use fuck_wjx.Common.Dict.{insert, text_key_eq}
use fuck_wjx.Engine.Scheduler
use fuck_wjx.Engine.Scheduler.{Scheduler}
use fuck_wjx.Engine.Scheduler.Defs.{Acquired, refused, blocked, got}
use fuck_wjx.Engine.Round.{Shared, is_set, prepare_iteration, update_step, Prepared}
use fuck_wjx.Engine.Slot.Attempt.{
  Ending, again, leave, update_http_submit_step, enter, release_current_proxy, close_slot,
}

-- Where the selection of a proxy waits: before its first look at the pool, for the next cycle, for
-- the lock of the fetch, or for the leases of its own fetch.
pub data Stage : Type 0 where
  entering polling locking fetching : Stage

-- Where a slot waits. In an attempt it holds a token.
pub data Pc : Type 0 where
  starting head waiting finished : Pc
  opening preparing submitting : (token_id : ℕ) → Pc
  selecting : (stage : Stage) (token_id : ℕ) → Pc

pub record Slot : Type 0 where
  pub pc : Pc
  pub proxy_address : Option Text

pub record World : Type 0 where
  pub shared : Shared
  pub scheduler : Scheduler
  pub slots : List (Text × Slot)

unfoldable pub put : Text → Pc → Option Text → World → World
unfolding insert
put slot_label pc proxy_address w = record w {
  slots = insert slot_label (record { pc = pc; proxy_address = proxy_address }) w.slots;
}

abbrev pub set_shared : Shared → World → World
set_shared p w = record w { shared = p }

-- A slot outside its loop.
unfoldable pub finish : Text → ℕ → World → World
unfolding close_slot put
finish slot_label now w =
    put slot_label finished none (set_shared (close_slot slot_label now w.shared) w)

-- The `finally` of an attempt, and what follows it.
unfoldable pub conclude : Text → Option Text → ℕ → Ending → ℕ → World → World
unfolding release_current_proxy Scheduler.release put finish
conclude slot_label proxy_address token_id (again delay) now w =
    let p = release_current_proxy slot_label proxy_address w.shared in
    put slot_label head none (record w {
      shared = p;
      scheduler = Scheduler.release token_id (not (is_set p.1)) delay now w.scheduler;
    })
conclude slot_label proxy_address token_id leave now w =
    let p = release_current_proxy slot_label proxy_address w.shared in
    finish slot_label now
      (record w { shared = p; scheduler = Scheduler.release token_id false 0 now w.scheduler })

unfoldable pub take_token : Text → ℕ → Acquired → World → World
unfolding finish put update_http_submit_step
take_token slot_label now refused w = finish slot_label now w
take_token slot_label now blocked w = put slot_label waiting none w
take_token slot_label now (got token_id) w =
    put slot_label (opening token_id) none
      (set_shared (update_http_submit_step slot_label (codes "准备请求") now w.shared) w)

unfoldable pub try_acquire : Text → ℕ → World → World
unfolding Scheduler.acquire take_token
try_acquire slot_label now w =
    let (scheduler, answer) = Scheduler.acquire w.scheduler in
    take_token slot_label now answer (record w { scheduler = scheduler })

-- After the round is prepared the selection of a proxy begins.
unfoldable pub prepared : Text → ℕ → ℕ → Prepared → World → World
unfolding put update_step conclude
prepared slot_label token_id now Prepared.ready w =
    put slot_label (selecting entering token_id) none (
      set_shared
        (if w.shared.0.config.random_proxy_ip_enabled
          then update_step slot_label (codes "获取代理") now w.shared
          else w.shared)
        w)
prepared slot_label token_id now Prepared.refused w = conclude slot_label none token_id leave now w
prepared slot_label token_id now Prepared.retry w = put slot_label (preparing token_id) none w

unfoldable pub prepare : ℕ → Text → ℕ → ℕ → World → World
unfolding prepare_iteration prepared
prepare sample_count slot_label token_id now w =
    let (p, answer) = prepare_iteration slot_label sample_count now w.shared in
    prepared slot_label token_id now answer (set_shared p w)

unfoldable pub entered : Text → Option Text → ℕ → ℕ → Option Ending → World → World
unfolding put conclude
entered slot_label proxy_address token_id now none w =
    put slot_label (submitting token_id) proxy_address w
entered slot_label proxy_address token_id now (some ending) w =
    conclude slot_label proxy_address token_id ending now w

unfoldable pub selected : ℕ → Text → Option Text → ℕ → ℕ → World → World
unfolding enter entered
selected sample_count slot_label proxy_address token_id now w =
    let (p, ending) = enter slot_label sample_count proxy_address w.shared in
    entered slot_label proxy_address token_id now ending (set_shared p w)

-- ===== src/Throttle/Defs.antt =====
-- The state of the throttle. Pools, workers and the links of requests to pools are named by
-- numbers, and a store is a function from the names.
use lighttpd.Prelude.{ℕ, Bool, Option, List, ◌==◌, if◌then◌else◌}

-- `liThrottlePoolState`; `linked` is whether `pool_link.data` is set.
pub record PoolState : Type 0 where
  pub pool : ℕ
  pub magazine : ℕ
  pub linked : Bool

-- `liThrottleState`; `queued` is that of its `wqueue_elem`, `wait_data` its `data`.
pub record ThrottleState : Type 0 where
  pub magazine : ℕ
  pub interested : ℕ
  pub notify_callback : Option ℕ
  pub wait_data : Option ℕ
  pub queued : Bool
  pub single_magazine : ℕ
  pub single_rate : ℕ
  pub single_burst : ℕ
  pub single_last_rearm : ℕ
  -- names of `PoolState`s
  pub pools : List ℕ

-- `liThrottlePoolWorkerState`
pub record PoolWorkerState : Type 0 where
  pub magazine : ℕ
  pub last_rearm : ℕ
  pub connections : ℕ
  -- names of `PoolState`s
  pub waiting : List ℕ

-- `liThrottlePool`
pub record Pool : Type 0 where
  pub refcount : ℕ
  pub rate : ℕ
  pub burst : ℕ
  pub last_rearm : ℕ
  pub workers : ℕ → PoolWorkerState

pub record World : Type 0 where
  pub worker_count : ℕ
  pub pools : ℕ → Pool
  -- those of the requests of one worker
  pub pool_states : ℕ → PoolState

abbrev pub update {ℓ} : {A : Type ℓ} → (ℕ → A) → ℕ → A → ℕ → A
update f n a m = if n == m then a else f m

abbrev pub set_pool : ℕ → Pool → World → World
set_pool p pool w = record w { pools = update w.pools p pool }

abbrev pub set_worker : ℕ → PoolWorkerState → Pool → Pool
set_worker ndx pw pool = record pool { workers = update pool.workers ndx pw }

abbrev pub set_pool_state : ℕ → PoolState → World → World
set_pool_state q ps w = record w { pool_states = update w.pool_states q ps }

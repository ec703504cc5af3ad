-- ===== src/Throttle/Tests.antt =====
-- A worker with one pool and two requests in it, of which the second is waiting.
use lighttpd.Prelude.{
  ℕ, ◌+◌, ◌-◌, ◌≡◌, refl, min, Option, none, some, inl, arith, [], ◌∷◌, ◌==◌, ==_iff,
}
use lighttpd.Throttle.Gint.{gint_zero}
use lighttpd.Throttle.Defs.{ThrottleState, PoolWorkerState, Pool, World}
use lighttpd.Throttle.Rearm.{rearm_workers, total_connections}
use lighttpd.Throttle.Query.{max_step, query}
use lighttpd.Throttle.Pools.{throttle_new}
use lighttpd.Throttle.Shares.{HasShared, total_magazine, rearm_workers-total_magazine}
use lighttpd.Throttle.Registered.{IsRegistered}
use lighttpd.Throttle.Registered.Total.{HasAnswered, query-HasAnswered}

abbrev worker : PoolWorkerState
worker = record {
  magazine = gint_zero + 30000;
  last_rearm = 100;
  connections = 1;
  waiting = 7 ∷ [];
}

abbrev pool : Pool
pool = record { refcount = 3; rate = 10000; burst = 50000; last_rearm = 400; workers = λ i. worker }

-- Link 7 waits, link 8 does not.
abbrev world : World
world = record {
  worker_count = 2;
  pools = λ p. pool;
  pool_states = λ q. record { pool = 0; magazine = gint_zero; linked = q == 7 };
}

world-IsRegistered : IsRegistered 0 world
world-IsRegistered = record { are_counted = λ p. refl; are_waiting = λ q m. inl ((==_iff q 7).0 m) }

-- Nothing of the 8K is left.
abbrev hungry : ThrottleState
hungry = record throttle_new { magazine = gint_zero + 5 - 10005; pools = 8 ∷ [] }

query-HasAnswered_example :
    HasAnswered 0 (min 100000 max_step) 1 hungry (query 0 500 hungry 100000 1 2 world)
query-HasAnswered_example = query-HasAnswered 0 500 hungry 100000 1 2 world world-IsRegistered

abbrev granted : Option (ℕ × ThrottleState × World) → ℕ
granted none = 0
granted (some (n, s, w)) = n

-- Both links get 15000, which leaves 5000 and the 8K.
hungry-granted : granted (query 0 500 hungry 100000 1 2 world) ≡ 13192
unfolding query
hungry-granted = refl

rearm_workers-total_magazine_example :
    HasShared pool 2 300
      (total_magazine 2 pool.workers)
      (total_magazine 2 (rearm_workers pool 2 300).workers)
rearm_workers-total_magazine_example = rearm_workers-total_magazine pool 2 300 (λ i h. omega arith)

-- 3000 bytes for 300 milliseconds, half of it for each worker
rearm_example : ((rearm_workers pool 2 300).workers 1).magazine ≡ gint_zero + 31500
unfolding rearm_workers total_connections
rearm_example = refl

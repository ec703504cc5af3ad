-- ===== src/Throttle/Rearm.antt =====
-- Filling the magazines of the workers and of the waiting requests.
use lighttpd.Prelude.{
  ℕ, zero, suc, ◌+◌, ◌-◌, ◌*◌, ◌/◌, ◌%◌, min, true, false, Option, none, some, List, [], ◌∷◌, ◌++◌,
  ltb, leb, ◌==◌, if◌then◌else◌,
}
use lighttpd.Throttle.Gint.{gint_of, guint_of, add_gint, sub_guint}
use lighttpd.Throttle.Defs.{
  PoolState, PoolWorkerState, Pool, World, set_pool, set_worker, set_pool_state, update,
}

-- `LI_THROTTLE_GRANULARITY`
abbrev pub granularity : ℕ
granularity = 200

-- The sum of `wrk_connections`
unfoldable pub total_connections : ℕ → (ℕ → PoolWorkerState) → ℕ
total_connections zero workers = 0
total_connections (suc n) workers = total_connections n workers + (workers n).connections

-- `fill`
abbrev pub pool_fill : Pool → ℕ → ℕ
pool_fill pool time_diff = min pool.burst (pool.rate * min time_diff 1000 / 1000)

-- What a worker gets; a second division by 0 does not happen.
abbrev pub worker_fill : ℕ → ℕ → ℕ → ℕ
worker_fill fill connections total = fill * connections / total

abbrev pub fill_worker : ℕ → ℕ → PoolWorkerState → PoolWorkerState
fill_worker fill total pw = if pw.connections == 0 then pw else record pw {
  magazine = add_gint pw.magazine (gint_of (worker_fill fill pw.connections total % 4294967296));
}

-- `S_throttle_pool_rearm_workers`
unfoldable pub rearm_workers : Pool → ℕ → ℕ → Pool
unfolding total_connections
rearm_workers pool worker_count time_diff =
    let total = total_connections worker_count pool.workers in
    let fill = pool_fill pool time_diff in
    if total == 0 then pool else record pool {
      workers = λ i.
          if ltb i worker_count then fill_worker fill total (pool.workers i) else pool.workers i;
    }

-- The waiting links get their supply and leave the queue.
unfoldable pub give : ℕ → List ℕ → (ℕ → PoolState) → ℕ → PoolState
give supply [] links = links
give supply (q ∷ qs) links =
    let ps = links q in
    give supply qs
      (update links q (record ps { magazine = add_gint ps.magazine supply; linked = false }))

-- "distribute wpool->magazine"; a division by 0 is `none`.
unfoldable pub distribute : ℕ → ℕ → ℕ → World → Option World
unfolding give
distribute ndx p now w =
    let pool = w.pools p in
    let pw = pool.workers ndx in
    let supply = guint_of pw.magazine / pw.connections in
    let taken = record pw {
      magazine =
          add_gint pw.magazine (gint_of ((4294967296 - supply * pw.connections) % 4294967296));
      last_rearm = now;
    } in
    if pw.connections == 0
    then none
    else (if supply == 0
        then some (set_pool p (set_worker ndx taken pool) w)
        else some
            (record (set_pool p
              (set_worker ndx (record taken { connections = 0; waiting = [] }) pool) w) {
                pool_states = give (gint_of supply) pw.waiting w.pool_states;
              }))

-- The part of `throttle_pool_rearm` under the lock
unfoldable pub rearm_pool : ℕ → ℕ → World → World
unfolding rearm_workers
rearm_pool p now w =
    let pool = w.pools p in
    let time_diff = sub_guint now pool.last_rearm in
    if leb granularity time_diff
    then set_pool p (record (rearm_workers pool w.worker_count time_diff) { last_rearm = now }) w
    else w

-- `throttle_pool_rearm`; `last` is the time before this call.
unfoldable pub pool_rearm : ℕ → ℕ → ℕ → World → Option World
unfolding rearm_pool distribute
pool_rearm ndx p now w =
    let last = (w.pools p).last_rearm in
    let w' = rearm_pool p now w in
    if ltb ((w'.pools p).workers ndx).last_rearm last then distribute ndx p now w' else some w'

-- `throttle_register`
unfoldable pub register : ℕ → ℕ → World → World
register ndx q w =
    let ps = w.pool_states q in
    let pool = w.pools ps.pool in
    let pw = pool.workers ndx in
    if ps.linked
    then w
    else set_pool_state q (record ps { linked = true })
        (set_pool ps.pool
          (set_worker ndx
            (record pw { waiting = pw.waiting ++ (q ∷ []); connections = suc pw.connections }) pool)
          w)

unfoldable pub unlink : ℕ → List ℕ → List ℕ
unlink q [] = []
unlink q (x ∷ xs) = let rest = unlink q xs in if q == x then xs else x ∷ rest

-- `throttle_deregister`
unfoldable pub deregister : ℕ → ℕ → World → World
unfolding unlink
deregister ndx q w =
    let ps = w.pool_states q in
    let pool = w.pools ps.pool in
    let pw = pool.workers ndx in
    if ps.linked
    then set_pool_state q (record ps { linked = false })
        (set_pool ps.pool
          (set_worker ndx
            (record pw { waiting = unlink q pw.waiting; connections = pw.connections - 1 }) pool)
          w)
    else w

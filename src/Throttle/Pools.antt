-- ===== src/Throttle/Pools.antt =====
-- Making pools and states, and putting a request into pools and out of them. A failed assertion is
-- `none`. A pool of which the reference count is 0 is freed.
use lighttpd.Prelude.{
  ℕ, suc, ◌-◌, ◌/◌, Bool, true, false, Option, none, some, List, [], ◌∷◌, ◌++◌, length, get_elem?,
  set, take, ltb, ◌==◌, if◌then◌else◌,
}
use lighttpd.Throttle.Gint.{gint_zero, gint_of}
use lighttpd.Throttle.Defs.{ThrottleState, PoolWorkerState, Pool, World, set_pool, set_pool_state}
use lighttpd.Throttle.Rearm.{deregister}

-- `li_throttle_pool_acquire`
unfoldable pub pool_acquire : ℕ → World → Option World
pool_acquire p w =
    let pool = w.pools p in
    if pool.refcount == 0
    then none
    else some (set_pool p (record pool { refcount = suc pool.refcount }) w)

-- `li_throttle_pool_release`
unfoldable pub pool_release : ℕ → World → Option World
pool_release p w =
    let pool = w.pools p in
    if pool.refcount == 0
    then none
    else some (set_pool p (record pool { refcount = pool.refcount - 1 }) w)

-- Whether one of the links is to the pool
unfoldable pub has_pool : ℕ → List ℕ → World → Bool
has_pool p [] w = false
has_pool p (q ∷ qs) w =
    let rest = has_pool p qs w in if (w.pool_states q).pool == p then true else rest

-- `li_throttle_add_pool`, with the name `fresh` for a new link
unfoldable pub add_pool :
    ℕ → ThrottleState → Option ℕ → World → Option (Bool × ThrottleState × World)
unfolding has_pool pool_acquire
add_pool fresh s none w = some (false, s, w)
add_pool fresh s (some p) w =
    if has_pool p s.pools w then some (false, s, w) else elim (pool_acquire p w) [
      | none ↦ none
      | some w' ↦ some (
        true,
        record s { pools = s.pools ++ (fresh ∷ []) },
        set_pool_state fresh (record { pool = p; magazine = gint_zero; linked = false }) w',
      )
    ]

-- `g_ptr_array_remove_index_fast`: the last element takes the place.
unfoldable pub remove_index_fast : List ℕ → ℕ → List ℕ
remove_index_fast xs i = elim (get_elem? xs (length xs - 1)) [
  | none ↦ xs
  | some end ↦ take (length xs - 1) (set xs i end)
]

-- The first link to the pool and its place
unfoldable pub find_pool : ℕ → ℕ → List ℕ → World → Option (ℕ × ℕ)
find_pool p i [] w = none
find_pool p i (q ∷ qs) w =
    let rest = find_pool p (suc i) qs w in if (w.pool_states q).pool == p then some (i, q) else rest

-- `li_throttle_remove_pool`
unfoldable pub remove_pool : ℕ → ThrottleState → Option ℕ → World → Option (ThrottleState × World)
unfolding find_pool deregister remove_index_fast pool_release
remove_pool ndx s none w = some (s, w)
remove_pool ndx s (some p) w = elim (find_pool p 0 s.pools w) [
  | none ↦ some (s, w)
  | some (i, q) ↦ elim (pool_release p (deregister ndx q w)) [
    | none ↦ none
    | some w' ↦ some (record s { pools = remove_index_fast s.pools i }, w')
  ]
]

-- `li_throttle_new`
abbrev pub throttle_new : ThrottleState
throttle_new = record {
  magazine = gint_zero;
  interested = 0;
  notify_callback = none;
  wait_data = none;
  queued = false;
  single_magazine = gint_zero;
  single_rate = 0;
  single_burst = 0;
  single_last_rearm = 0;
  pools = [];
}

-- `li_throttle_set`
unfoldable pub throttle_set : ℕ → ThrottleState → ℕ → ℕ → ThrottleState
throttle_set now s rate burst = record s {
  single_rate = rate;
  single_burst = burst;
  single_magazine = gint_of burst;
  single_last_rearm = now;
}

free_links : ℕ → List ℕ → World → Option World
unfolding deregister pool_release
free_links ndx [] w = some w
free_links ndx (q ∷ qs) w = elim (pool_release (w.pool_states q).pool (deregister ndx q w)) [
  | none ↦ none
  | some w' ↦ free_links ndx qs w'
]

-- `li_throttle_free`: what becomes of the pools and of `queued`.
unfoldable pub throttle_free : ℕ → ThrottleState → World → Option (ThrottleState × World)
unfolding free_links
throttle_free ndx s w = elim (free_links ndx s.pools w) [
  | none ↦ none
  | some w' ↦ some (record s { pools = []; queued = false }, w')
]

-- `throttle_prepare`
unfoldable pub prepare : ℕ → Bool → World → Option World
unfolding pool_release
prepare p aborted w =
    let pool = w.pools p in
    let fresh : PoolWorkerState = record {
      magazine = gint_of (pool.burst / w.worker_count);
      last_rearm = pool.last_rearm;
      connections = 0;
      waiting = [];
    } in
    pool_release p (
      if aborted
      then w
      else set_pool p
          (record pool { workers = λ i. if ltb i w.worker_count then fresh else pool.workers i }) w)

-- `li_throttle_pool_new`; the worker states are not there before `throttle_prepare`.
abbrev no_worker : PoolWorkerState
no_worker = record { magazine = gint_zero; last_rearm = 0; connections = 0; waiting = [] }

unfoldable pub pool_new : ℕ → ℕ → ℕ → Pool
pool_new now rate burst = record {
  refcount = 2;
  rate = rate;
  burst = burst;
  last_rearm = now;
  workers = λ i. no_worker;
}

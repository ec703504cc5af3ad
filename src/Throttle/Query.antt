-- ===== src/Throttle/Query.antt =====
-- `li_throttle_query` and the operations on the state of one request.
use lighttpd.Prelude.{
  ℕ, ◌*◌, ◌/◌, ◌%◌, min, true, Option, none, some, List, [], ◌∷◌, ltb, leb, ◌==◌, if◌then◌else◌,
}
use lighttpd.Throttle.Gint.{gint_zero, gint_of, guint_of, add_gint, sub_gint, sub_guint}
use lighttpd.Throttle.Defs.{PoolState, ThrottleState, World, update}
use lighttpd.Throttle.Rearm.{granularity, pool_rearm, register}

-- `THROTTLE_MAX_STEP`, `THROTTLE_OVERLOAD`
abbrev pub max_step : ℕ
max_step = 65536

abbrev pub overload : ℕ
overload = 8192

-- `state->magazine + THROTTLE_OVERLOAD`
abbrev pub magazine_available : ThrottleState → ℕ
magazine_available s = add_gint s.magazine (gint_of overload)

-- "also try to balance negative magazine"
abbrev pub wanted : ℕ → ThrottleState → ℕ
wanted interested s = sub_gint (gint_of interested) s.magazine

-- The magazine of the request itself, at the time `now`.
unfoldable pub single_rearm : ℕ → ThrottleState → ThrottleState
single_rearm now s =
    let time_diff = sub_guint now s.single_last_rearm in
    let fill = s.single_rate * time_diff / 1000 % 4294967296 in
    if leb granularity time_diff
    then (if ltb (sub_guint s.single_burst (guint_of s.single_magazine)) fill
        then record s { single_last_rearm = now; single_magazine = gint_of s.single_burst }
        else record s {
          single_last_rearm = now;
          single_magazine = add_gint s.single_magazine (gint_of fill);
        })
    else s

-- One pool: `pool_fill` after it.
unfoldable pub ask_pool : ℕ → ℕ → ℕ → ℕ → ℕ → World → Option (ℕ × World)
unfolding pool_rearm register
ask_pool ndx now fill q pool_fill w =
    if ltb (w.pool_states q).magazine fill
    then elim (pool_rearm ndx (w.pool_states q).pool now (register ndx q w)) [
      | none ↦ none
      | some w' ↦
          (if ltb (w'.pool_states q).magazine fill
            then some (min pool_fill (w'.pool_states q).magazine, register ndx q w')
            else some (pool_fill, w'))
    ]
    else some (pool_fill, w)

unfoldable pub ask_pools : ℕ → ℕ → ℕ → List ℕ → ℕ → World → Option (ℕ × World)
unfolding ask_pool
ask_pools ndx now fill [] pool_fill w = some (pool_fill, w)
ask_pools ndx now fill (q ∷ qs) pool_fill w = elim (ask_pool ndx now fill q pool_fill w) [
  | none ↦ none
  | some (pool_fill', w') ↦ ask_pools ndx now fill qs pool_fill' w'
]

unfoldable pub take_from_pools : ℕ → List ℕ → (ℕ → PoolState) → ℕ → PoolState
take_from_pools fill [] links = links
take_from_pools fill (q ∷ qs) links =
    let ps = links q in
    take_from_pools fill qs (update links q (record ps { magazine = sub_gint ps.magazine fill }))

-- The tokens move from the magazines to that of the request.
unfoldable pub move_tokens : ℕ → ThrottleState → World → ThrottleState × World
unfolding take_from_pools
move_tokens fill s w =
    if ltb gint_zero fill
    then (
      record s {
        single_magazine =
            if s.single_rate == 0 then s.single_magazine else sub_gint s.single_magazine fill;
        magazine = add_gint s.magazine fill;
      },
      record w { pool_states = take_from_pools fill s.pools w.pool_states },
    )
    else (s, w)

-- The last part; `li_waitqueue_push` queues the element if it is not queued.
unfoldable pub throttle_answer : ℕ → ℕ → ℕ → ThrottleState → ℕ × ThrottleState
throttle_answer interested notify_callback user_data s =
    if leb (magazine_available s) gint_zero
    then (
      0,
      record s {
        wait_data = some user_data;
        notify_callback = some notify_callback;
        interested = interested;
        queued = true;
      },
    )
    else (if leb (gint_of interested) (magazine_available s)
        then (interested, s)
        else (guint_of (magazine_available s), s))

-- `fill` and the state, after the magazine of the request itself is asked.
unfoldable pub ask_single : ℕ → ℕ → ThrottleState → ℕ × ThrottleState
unfolding single_rearm
ask_single now interested s =
    let fill = wanted interested s in
    let s' = single_rearm now s in
    if s.single_rate == 0 then (fill, s) else (min fill s'.single_magazine, s')

-- What is in the source behind the loop over the pools
unfoldable pub conclude :
    ℕ → ℕ → ℕ → ThrottleState → Option (ℕ × World) → Option (ℕ × ThrottleState × World)
unfolding move_tokens throttle_answer
conclude n notify_callback user_data s none = none
conclude n notify_callback user_data s (some (pool_fill, w)) =
    let (s', w') = move_tokens pool_fill s w in
    let (granted, s2) = throttle_answer n notify_callback user_data s' in some (granted, s2, w')

-- And from that loop on
unfoldable pub refill :
    ℕ → ℕ → ℕ → ℕ → ℕ → ℕ × ThrottleState → World → Option (ℕ × ThrottleState × World)
unfolding ask_pools conclude
refill ndx now n notify_callback user_data (fill, s) w =
    conclude n notify_callback user_data s (ask_pools ndx now fill s.pools fill w)

-- `li_throttle_query` for a state that is not NULL, at the time `now`.
unfoldable pub query :
    ℕ → ℕ → ThrottleState → ℕ → ℕ → ℕ → World → Option (ℕ × ThrottleState × World)
unfolding ask_single refill
query ndx now state interested notify_callback user_data w =
    let s = record state { notify_callback = none; wait_data = none } in
    let n = min interested max_step in
    if leb (gint_of n) (magazine_available s)
    then some (n, s, w)
    else refill ndx now n notify_callback user_data (ask_single now n s) w

-- `li_throttle_query`
unfoldable pub throttle_query :
    ℕ → ℕ → Option ThrottleState → ℕ → ℕ → ℕ → World → Option (ℕ × Option ThrottleState × World)
unfolding query
throttle_query ndx now none interested notify_callback user_data w = some (interested, none, w)
throttle_query ndx now (some s) interested notify_callback user_data w =
    elim (query ndx now s interested notify_callback user_data w) [
      | none ↦ none
      | some (granted, s', w') ↦ some (granted, some s', w')
    ]

-- `li_throttle_update`
abbrev pub throttle_update : ThrottleState → ℕ → ThrottleState
throttle_update s used = record s { magazine = sub_gint s.magazine (gint_of used) }

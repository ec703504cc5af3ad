-- ===== src/Throttle/Registered/Total.antt =====
-- li_throttle_query on the queues of a worker.
use lighttpd.Prelude.{
  ℕ, ◌+◌, ◌≤◌, ◌≡◌, refl, ap, subst, ◌∙◌, min, true, false, Option, none, some, inl, inr, arith,
  Bool-cases, List, [], ◌∷◌, ltb, leb, ◌==◌,
}
use lighttpd.Throttle.Gint.{gint_zero, gint_of, sub_guint}
use lighttpd.Throttle.Defs.{PoolState, ThrottleState, World}
use lighttpd.Throttle.Rearm.{granularity, rearm_pool, pool_rearm, register}
use lighttpd.Throttle.Query.{
  max_step, overload, magazine_available, ask_single, ask_pool, ask_pools, move_tokens,
  throttle_answer, conclude, refill, query,
}
use lighttpd.Throttle.Answer.{IsAnswer, throttle_answer-IsAnswer, mod_bound, all_granted}
use lighttpd.Throttle.Registered.{
  length-In, waiting, connections, IsRegistered, register-linked, register-pool,
  register-IsRegistered,
}
use lighttpd.Throttle.Single.{
  IsFilled, IsReady, ask_single-IsReady, move_tokens-IsFilled, throttle_answer-IsFilled,
}
use lighttpd.Throttle.Registered.Steps.{
  take-linked, same-IsRegistered, distribute-IsRegistered, rearm_pool-IsRegistered,
}

module _ (ndx : ℕ) where
  rearm_pool-links : (p now : ℕ) (w : World) → (rearm_pool p now w).pool_states ≡ w.pool_states
  unfolding rearm_pool
  rearm_pool-links p now w =
      elim (Bool-cases (leb granularity (sub_guint now (w.pools p).last_rearm))) [
        | inl e ↦ rw e
        | inr e ↦ rw e
      ]

  linked-connections :
      (q p : ℕ) (w : World)
      → IsRegistered ndx w
      → (w.pool_states q).linked ≡ true
      → (w.pool_states q).pool ≡ p
      → (connections ndx w p == 0) ≡ false
  linked-connections q p w h m e =
      let i = length-In q (waiting ndx w (w.pool_states q).pool) (h.are_waiting q m) in
      let c = h.are_counted (w.pool_states q).pool in
      subst (λ y. (connections ndx w y == 0) ≡ false) e (ground (arith, i, c))

  pool_rearm-IsRegistered :
      (q p now : ℕ) (w : World)
      → IsRegistered ndx w
      → (w.pool_states q).linked ≡ true
      → (w.pool_states q).pool ≡ p
      → (w' : World) × (pool_rearm ndx p now w ≡ some w') × IsRegistered ndx w'
  unfolding pool_rearm
  pool_rearm-IsRegistered q p now w h m e =
      let w1 = rearm_pool p now w in
      let h1 = rearm_pool-IsRegistered ndx p now w h in
      let l = ap (λ (f : ℕ → PoolState). f q) (rearm_pool-links p now w) in
      let c = linked-connections q p w1 h1 (ap (λ x. x.linked) l ∙ m) (ap (λ x. x.pool) l ∙ e) in
      elim (Bool-cases (ltb ((w1.pools p).workers ndx).last_rearm (w.pools p).last_rearm)) [
        | inl d ↦ rw d (distribute-IsRegistered ndx p now w1 h1 c)
        | inr d ↦ rw d (w1, refl, h1)
      ]

  ask_pool-IsRegistered :
      (now fill q pool_fill : ℕ) (w : World)
      → IsRegistered ndx w
      → (r : ℕ × World) × (ask_pool ndx now fill q pool_fill w ≡ some r)
        × IsRegistered ndx r.1
        × (r.0 ≤ pool_fill)
  unfolding ask_pool
  ask_pool-IsRegistered now fill q pool_fill w h =
      let p = (w.pool_states q).pool in
      let (w', e, h') =
        pool_rearm-IsRegistered q p now (register ndx q w) (register-IsRegistered ndx q w h)
          (register-linked ndx q w) (register-pool ndx q q w) in
      elim (Bool-cases (ltb (w.pool_states q).magazine fill)) [
        | inr c ↦ rw c ((pool_fill, w), refl, h, omega arith)
        | inl c ↦ elim (Bool-cases (ltb (w'.pool_states q).magazine fill)) [
          | inl d ↦
              rw (c, e, d)
                (
                  (min pool_fill (w'.pool_states q).magazine, register ndx q w'),
                  refl,
                  register-IsRegistered ndx q w' h',
                  omega arith,
                )
          | inr d ↦ rw (c, e, d) ((pool_fill, w'), refl, h', omega arith)
        ]
      ]

  ask_pools-IsRegistered :
      (now fill : ℕ) (qs : List ℕ) (pool_fill : ℕ) (w : World)
      → IsRegistered ndx w
      → (r : ℕ × World) × (ask_pools ndx now fill qs pool_fill w ≡ some r)
        × IsRegistered ndx r.1
        × (r.0 ≤ pool_fill)
  unfolding ask_pools
  ask_pools-IsRegistered now fill [] pool_fill w h = ((pool_fill, w), refl, h, omega arith)
  ask_pools-IsRegistered now fill (q ∷ qs) pool_fill w h =
      let (r1, e, h', l) = ask_pool-IsRegistered now fill q pool_fill w h in
      let (r, d, g, k) = ask_pools-IsRegistered now fill qs r1.0 r1.1 h' in
      let step : Option (ℕ × World) → Option (ℕ × World) =
        λ o. elim o [ none ↦ none | some (f, w') ↦ ask_pools ndx now fill qs f w' ] in
      (r, ap step e ∙ d, g, omega (arith, k, l))

  move_tokens-IsRegistered :
      (f : ℕ) (s : ThrottleState) (w : World)
      → IsRegistered ndx w
      → IsRegistered ndx (move_tokens f s w).1
  unfolding move_tokens
  move_tokens-IsRegistered f s w h = elim (Bool-cases (ltb gint_zero f)) [
    | inl e ↦
        rw e (same-IsRegistered ndx w _ (λ p. (refl, refl)) (take-linked f s.pools w.pool_states) h)
    | inr e ↦ rw e h
  ]

  -- What li_throttle_query has to give back
  abbrev pub HasAnswered : ℕ → ℕ → ThrottleState → Option (ℕ × ThrottleState × World) → Type 0
  HasAnswered n cb s o =
      (granted : ℕ) × (s' : ThrottleState) × (w' : World) × (o ≡ some (granted, s', w'))
      × IsAnswer n granted s' cb
      × IsRegistered ndx w'
      × (IsFilled s → IsFilled s')

  refill-HasAnswered :
      (now n cb user_data : ℕ) (r : ℕ × ThrottleState) (w : World)
      → n ≤ max_step
      → IsRegistered ndx w
      → (s : ThrottleState) → (IsFilled s → IsReady r)
      → HasAnswered n cb s (refill ndx now n cb user_data r w)
  unfolding refill conclude
  refill-HasAnswered now n cb user_data (fill, s) w b h s0 f =
      let (r1, e, h', l) = ask_pools-IsRegistered now fill s.pools fill w h in
      let moved = move_tokens r1.0 s r1.1 in
      let end = throttle_answer n cb user_data moved.0 in
      (
        end.0,
        end.1,
        moved.1,
        ap (conclude n cb user_data s) e,
        throttle_answer-IsAnswer n cb user_data moved.0 b,
        move_tokens-IsRegistered r1.0 s r1.1 h',
        λ x.
            throttle_answer-IsFilled n cb user_data moved.0
              (move_tokens-IsFilled r1.0 s r1.1 fill l (f x)),
      )

  -- On the worker's queues in order, li_throttle_query never divides by 0 and leaves the queues in
  -- order. Of what is asked for, it considers 64K at most: it grants all of that, or all of the
  -- magazine and 8K, or nothing, and then the request is queued to be called back. What is granted
  -- is never more than the magazine and 8K. If the request's own magazine was between 0 and its
  -- burst, and the burst was below 2^31, it is so afterwards, too.
  pub query-HasAnswered :
      (now : ℕ) (s : ThrottleState) (interested cb user_data : ℕ) (w : World)
      → IsRegistered ndx w
      → HasAnswered (min interested max_step) cb s (query ndx now s interested cb user_data w)
  unfolding query
  query-HasAnswered now s interested cb user_data w h =
      let n = min interested max_step in
      let s0 : ThrottleState = record s { notify_callback = none; wait_data = none } in
      let b : n ≤ max_step = omega arith in
      elim (Bool-cases (leb (gint_of n) (magazine_available s0))) [
        | inl e ↦
            let m = mod_bound (s.magazine + gint_of overload + 2147483648) in
            rw e (
              n,
              s0,
              w,
              refl,
              (omega arith, inr (λ p. p, all_granted n (magazine_available s0) b m e, inl refl)),
              h,
              λ x. x,
            )
        | inr e ↦ rw e (
            refill-HasAnswered now n cb user_data (ask_single now n s0) w b h s
              (ask_single-IsReady now n s0))
      ]

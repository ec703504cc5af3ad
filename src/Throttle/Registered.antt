-- ===== src/Throttle/Registered.antt =====
-- The queues of a worker: a link that is marked as queued is in the queue of its pool, and the
-- number of connections is the length of the queue.
pub mod Steps
pub mod Total
use lighttpd.Prelude.{
  ℕ, zero, suc, ◌+◌, ◌-◌, ◌%◌, ◌/◌, ◌<◌, ◌≤◌, ◌≡◌, refl, sym, ap, subst, ◌∙◌, min, Bool, true,
  false, not, Option, none, some, inl, inr, ◌⊎◌, arith, Option-cases, Bool-cases, ==_iff, ==_refl,
  List, [], ◌∷◌, ◌++◌, length, length-append, ltb, leb, ◌==◌, if◌then◌else◌,
}
use lighttpd.Throttle.Gint.{gint_zero, gint_of, guint_of, add_gint, sub_gint}
use lighttpd.Throttle.Defs.{
  PoolState, ThrottleState, PoolWorkerState, Pool, World, set_pool, set_worker, set_pool_state,
  update,
}
use lighttpd.Throttle.Rearm.{
  total_connections, rearm_workers, give, distribute, rearm_pool, pool_rearm, register,
}

abbrev pub In : ℕ → List ℕ → Type 0
In q [] = ⊥
In q (x ∷ xs) = (q ≡ x) ⊎ In q xs

In-left : (q : ℕ) (xs ys : List ℕ) → In q xs → In q (xs ++ ys)
In-left q [] ys h = absurd h
In-left q (x ∷ xs) ys (inl e) = inl e
In-left q (x ∷ xs) ys (inr h) = inr (In-left q xs ys h)

In-end : (q : ℕ) (xs : List ℕ) → In q (xs ++ (q ∷ []))
In-end q [] = inl refl
In-end q (x ∷ xs) = inr (In-end q xs)

pub length-In : (q : ℕ) (xs : List ℕ) → In q xs → 0 < length xs
length-In q [] h = absurd h
length-In q (x ∷ xs) h = omega arith

-- The queue of a pool at this worker
abbrev pub waiting : ℕ → World → ℕ → List ℕ
waiting ndx w p = ((w.pools p).workers ndx).waiting

abbrev pub connections : ℕ → World → ℕ → ℕ
connections ndx w p = ((w.pools p).workers ndx).connections

pub record IsRegistered (ndx : ℕ) (w : World) : Type 0 where
  pub are_counted : (p : ℕ) → connections ndx w p ≡ length (waiting ndx w p)
  pub are_waiting :
      (q : ℕ) → (w.pool_states q).linked ≡ true → In q (waiting ndx w (w.pool_states q).pool)

module _ (ndx : ℕ) where
  -- Registering q makes the link marked and keeps the pool it is to.
  pub register-linked : (q : ℕ) (w : World) → ((register ndx q w).pool_states q).linked ≡ true
  unfolding register
  register-linked q w = elim (Bool-cases (w.pool_states q).linked) [
    | inl e ↦ rw e e
    | inr e ↦ rw (e, ==_refl q)
  ]

  pub register-pool :
      (q x : ℕ) (w : World) → ((register ndx q w).pool_states x).pool ≡ (w.pool_states x).pool
  unfolding register
  register-pool q x w = elim (Bool-cases (w.pool_states q).linked) [
    | inl e ↦ rw e
    | inr e ↦ elim (Bool-cases (q == x)) [
      | inl d ↦ rw (e, d) (ap (λ y. (w.pool_states y).pool) ((==_iff q x).0 d))
      | inr d ↦ rw (e, d)
    ]
  ]

  -- With other states of one worker and other links
  unfoldable pub changed : World → ℕ → PoolWorkerState → (ℕ → PoolState) → World
  changed w p pw links = record (set_pool p (set_worker ndx pw (w.pools p)) w) {
    pool_states = links;
  }

  -- The queue of a pool then
  unfoldable pub queue_after : World → ℕ → PoolWorkerState → ℕ → List ℕ
  queue_after w p pw x = if p == x then pw.waiting else waiting ndx w x

  picked :
      (b : Bool) (pw : PoolWorkerState) (old new : Pool)
      → (if b then set_worker ndx pw old else new).workers ndx ≡ (if b then pw else new.workers ndx)
  picked true pw old new = ap (λ b. if b then pw else old.workers ndx) (==_refl ndx)
  picked false pw old new = refl

  picked_waiting :
      (b : Bool) (pw old : PoolWorkerState)
      → (if b then pw else old).waiting ≡ (if b then pw.waiting else old.waiting)
  picked_waiting true pw old = refl
  picked_waiting false pw old = refl

  picked_counted :
      (b : Bool) (pw old : PoolWorkerState)
      → pw.connections ≡ length pw.waiting
      → old.connections ≡ length old.waiting
      → (if b then pw else old).connections ≡ length (if b then pw else old).waiting
  picked_counted true pw old h g = h
  picked_counted false pw old h g = g

  waiting-changed :
      (w : World) (p : ℕ) (pw : PoolWorkerState) (links : ℕ → PoolState) (x : ℕ)
      → waiting ndx (changed w p pw links) x ≡ queue_after w p pw x
  unfolding changed queue_after
  waiting-changed w p pw links x =
      ap (λ y. y.waiting) (picked (p == x) pw (w.pools p) (w.pools x))
      ∙ picked_waiting (p == x) pw ((w.pools x).workers ndx)

  pub changed-IsRegistered :
      (w : World) (p : ℕ) (pw : PoolWorkerState) (links : ℕ → PoolState)
      → IsRegistered ndx w
      → pw.connections ≡ length pw.waiting
      → ((q : ℕ) → (links q).linked ≡ true → In q (queue_after w p pw (links q).pool))
      → IsRegistered ndx (changed w p pw links)
  unfolding changed
  changed-IsRegistered w p pw links h c l = record {
    are_counted = λ x.
        subst (λ (y : PoolWorkerState). y.connections ≡ length y.waiting)
          (sym (picked (p == x) pw (w.pools p) (w.pools x)))
          (picked_counted (p == x) pw ((w.pools x).workers ndx) c (h.are_counted x));
    are_waiting = λ q m. subst (In q) (sym (waiting-changed w p pw links (links q).pool)) (l q m);
  }

  -- The new queue has q and all that were waiting.
  joined :
      (q : ℕ) (w : World)
      → IsRegistered ndx w
      → let ps = w.pool_states q in
        let pw = (w.pools ps.pool).workers ndx in
        let links = update w.pool_states q (record ps { linked = true }) in
        (x : ℕ)
        → (links x).linked ≡ true
        → In x (
            if ps.pool == (links x).pool
            then pw.waiting ++ (q ∷ [])
            else waiting ndx w (links x).pool)
  joined q w h x m =
      let ps = w.pool_states q in
      elim (Bool-cases (q == x)) [
        | inl e ↦
            rw (e, ==_refl ps.pool)
              (subst (λ y. In x (waiting ndx w ps.pool ++ (y ∷ []))) (sym ((==_iff q x).0 e))
                (In-end x (waiting ndx w ps.pool)))
        | inr e ↦
            let old : In x (waiting ndx w (w.pool_states x).pool) = h.are_waiting x (rw e at m) in
            elim (Bool-cases (ps.pool == (w.pool_states x).pool)) [
              | inl d ↦
                  rw (e, d)
                    (In-left x (waiting ndx w ps.pool) (q ∷ [])
                      (subst (λ y. In x (waiting ndx w y)) (sym ((==_iff _ _).0 d)) old))
              | inr d ↦ rw (e, d) old
            ]
      ]

  pub register-IsRegistered :
      (q : ℕ) (w : World) → IsRegistered ndx w → IsRegistered ndx (register ndx q w)
  unfolding register changed queue_after
  register-IsRegistered q w h =
      let ps = w.pool_states q in
      let pw = (w.pools ps.pool).workers ndx in
      let pw' : PoolWorkerState = record pw {
        waiting = pw.waiting ++ (q ∷ []);
        connections = suc pw.connections;
      } in
      let counted : suc pw.connections ≡ length (pw.waiting ++ (q ∷ [])) =
        omega (arith, length-append pw.waiting (q ∷ []), h.are_counted ps.pool) in
      elim (Bool-cases ps.linked) [
        | inl e ↦ rw e h
        | inr e ↦ rw e (
            changed-IsRegistered w ps.pool pw'
              (update w.pool_states q (record ps { linked = true })) h counted (joined q w h))
      ]

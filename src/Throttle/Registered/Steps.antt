-- ===== src/Throttle/Registered/Steps.antt =====
-- Filling the magazines keeps the queues in order, or empties one.
use lighttpd.Prelude.{
  ℕ, ◌-◌, ◌*◌, ◌%◌, ◌/◌, ◌≡◌, refl, sym, ap, subst, ◌∙◌, Bool, true, false, some, inl, inr, arith,
  Bool-cases, ==_iff, List, [], ◌∷◌, length, ltb, leb, ◌==◌, if◌then◌else◌,
}
use lighttpd.Throttle.Gint.{gint_of, guint_of, add_gint, sub_gint, sub_guint}
use lighttpd.Throttle.Defs.{PoolState, PoolWorkerState, Pool, World, update}
use lighttpd.Throttle.Rearm.{
  granularity, total_connections, rearm_workers, give, distribute, rearm_pool,
}
use lighttpd.Throttle.Query.{take_from_pools}
use lighttpd.Throttle.Registered.{
  In, waiting, connections, IsRegistered, changed, queue_after, changed-IsRegistered,
}

give-linked :
    (s : ℕ) (qs : List ℕ) (links : ℕ → PoolState) (x : ℕ)
    → (give s qs links x).linked ≡ true
    → ((links x).linked ≡ true) × (In x qs → ⊥)
unfolding give
give-linked s [] links x m = (m, λ i. i)
give-linked s (q ∷ qs) links x m =
    let ps : PoolState = record (links q) {
      magazine = add_gint (links q).magazine s;
      linked = false;
    } in
    let (a, b) = give-linked s qs (update links q ps) x m in
    elim (Bool-cases (q == x)) [
      | inl e ↦ let bad : false ≡ true = (rw e at a) in absurd (ground (arith, bad))
      | inr e ↦ (
        rw e at a,
        λ i. elim i [ inl d ↦ absurd (ground (arith, (==_iff q x).1 (sym d), e)) | inr d ↦ b d ],
      )
    ]

give-pool :
    (s : ℕ) (qs : List ℕ) (links : ℕ → PoolState) (x : ℕ)
    → (give s qs links x).pool ≡ (links x).pool
unfolding give
give-pool s [] links x = refl
give-pool s (q ∷ qs) links x =
    let ps : PoolState = record (links q) {
      magazine = add_gint (links q).magazine s;
      linked = false;
    } in
    give-pool s qs (update links q ps) x ∙ elim (Bool-cases (q == x)) [
      | inl e ↦ rw e (ap (λ y. (links y).pool) ((==_iff q x).0 e))
      | inr e ↦ rw e
    ]

pub take-linked :
    (f : ℕ) (qs : List ℕ) (links : ℕ → PoolState) (x : ℕ)
    → ((take_from_pools f qs links x).linked ≡ (links x).linked)
      × ((take_from_pools f qs links x).pool ≡ (links x).pool)
unfolding take_from_pools
take-linked f [] links x = (refl, refl)
take-linked f (q ∷ qs) links x =
    let ps : PoolState = record (links q) { magazine = sub_gint (links q).magazine f } in
    let (a, b) = take-linked f qs (update links q ps) x in
    elim (Bool-cases (q == x)) [
      | inl e ↦
          let d = (==_iff q x).0 e in
          (a ∙ rw e (ap (λ y. (links y).linked) d), b ∙ rw e (ap (λ y. (links y).pool) d))
      | inr e ↦ (a ∙ rw e, b ∙ rw e)
    ]

abbrev pub SameQueue : PoolWorkerState → PoolWorkerState → Type 0
SameQueue a b = (a.waiting ≡ b.waiting) × (a.connections ≡ b.connections)

module _ (ndx : ℕ) where
  -- The queues of two worlds are the same, and so are the marks on the links.
  pub same-IsRegistered :
      (w w' : World)
      → ((p : ℕ) → SameQueue ((w'.pools p).workers ndx) ((w.pools p).workers ndx))
      → ((q : ℕ)
          → ((w'.pool_states q).linked ≡ (w.pool_states q).linked)
            × ((w'.pool_states q).pool ≡ (w.pool_states q).pool))
      → IsRegistered ndx w
      → IsRegistered ndx w'
  same-IsRegistered w w' s l h = record {
    are_counted = λ p. (s p).1 ∙ h.are_counted p ∙ ap length (sym (s p).0);
    are_waiting = λ q m.
        subst (In q) (ap (waiting ndx w) (sym (l q).1) ∙ sym (s (w'.pool_states q).pool).0)
          (h.are_waiting q (sym (l q).0 ∙ m));
  }

  -- A queue that stays
  kept :
      (w : World) (p x q : ℕ)
      → In q (waiting ndx w x)
      → In q (if p == x then waiting ndx w p else waiting ndx w x)
  kept w p x q i = elim (Bool-cases (p == x)) [
    | inl e ↦ rw e (subst (λ y. In q (waiting ndx w y)) (sym ((==_iff p x).0 e)) i)
    | inr e ↦ rw e i
  ]

  -- The queue of p is emptied, and q is not in it.
  emptied :
      (w : World) (p x q : ℕ)
      → In q (waiting ndx w x)
      → (In q (waiting ndx w p) → ⊥)
      → In q (if p == x then [] else waiting ndx w x)
  emptied w p x q i n = elim (Bool-cases (p == x)) [
    | inl e ↦ absurd (n (subst (λ y. In q (waiting ndx w y)) (sym ((==_iff p x).0 e)) i))
    | inr e ↦ rw e i
  ]

  pub distribute-IsRegistered :
      (p now : ℕ) (w : World)
      → IsRegistered ndx w
      → (connections ndx w p == 0) ≡ false
      → (w' : World) × (distribute ndx p now w ≡ some w') × IsRegistered ndx w'
  unfolding distribute changed queue_after
  distribute-IsRegistered p now w h c =
      let pw = (w.pools p).workers ndx in
      let supply = guint_of pw.magazine / pw.connections in
      let taken : PoolWorkerState = record pw {
        magazine =
            add_gint pw.magazine (gint_of ((4294967296 - supply * pw.connections) % 4294967296));
        last_rearm = now;
      } in
      let empty : PoolWorkerState = record taken { connections = 0; waiting = [] } in
      let links = give (gint_of supply) pw.waiting w.pool_states in
      elim (Bool-cases (supply == 0)) [
        | inl e ↦
            rw (c, e)
              (
                changed ndx w p taken w.pool_states,
                refl,
                changed-IsRegistered ndx w p taken w.pool_states h (h.are_counted p)
                    (λ q m. kept w p (w.pool_states q).pool q (h.are_waiting q m)),
              )
        | inr e ↦
            rw (c, e)
              (
                changed ndx w p empty links,
                refl,
                changed-IsRegistered ndx w p empty links h refl (λ q m.
                    let (a, b) = give-linked (gint_of supply) pw.waiting w.pool_states q m in
                    subst (λ y. In q (if p == y then [] else waiting ndx w y))
                      (sym (give-pool (gint_of supply) pw.waiting w.pool_states q))
                      (emptied w p (w.pool_states q).pool q (h.are_waiting q a) b)),
              )
      ]

  if_same :
      (b : Bool) (x y z : PoolWorkerState)
      → SameQueue x z
      → SameQueue y z
      → SameQueue (if b then x else y) z
  if_same true x y z h g = h
  if_same false x y z h g = g

  if_pool :
      (b : Bool) (x y : Pool) (z : PoolWorkerState)
      → SameQueue (x.workers ndx) z
      → SameQueue (y.workers ndx) z
      → SameQueue ((if b then x else y).workers ndx) z
  if_pool true x y z h g = h
  if_pool false x y z h g = g

  rearm_workers-SameQueue :
      (pool : Pool) (n t : ℕ) → SameQueue ((rearm_workers pool n t).workers ndx) (pool.workers ndx)
  unfolding rearm_workers
  rearm_workers-SameQueue pool n t =
      let pw = pool.workers ndx in
      let total = total_connections n pool.workers in
      if_pool (total == 0) pool _ pw (refl, refl)
        (if_same (ltb ndx n) _ pw pw
          (if_same (pw.connections == 0) pw _ pw (refl, refl) (refl, refl)) (refl, refl))

  pub rearm_pool-IsRegistered :
      (p now : ℕ) (w : World) → IsRegistered ndx w → IsRegistered ndx (rearm_pool p now w)
  unfolding rearm_pool
  rearm_pool-IsRegistered p now w h =
      let t = sub_guint now (w.pools p).last_rearm in
      elim (Bool-cases (leb granularity t)) [
        | inl e ↦ rw e (
            same-IsRegistered w _
              (λ x. elim (Bool-cases (p == x)) [
                | inl d ↦ rw d (
                    subst
                      (λ y.
                        SameQueue ((rearm_workers (w.pools p) w.worker_count t).workers ndx)
                          ((w.pools y).workers ndx))
                      ((==_iff p x).0 d) (rearm_workers-SameQueue (w.pools p) w.worker_count t))
                | inr d ↦ rw d (refl, refl)
              ])
              (λ q. (refl, refl)) h)
        | inr e ↦ rw e h
      ]

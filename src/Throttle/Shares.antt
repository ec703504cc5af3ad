-- ===== src/Throttle/Shares.antt =====
-- Filling the magazines of the workers of a pool: they share what the pool gets.
use lighttpd.Prelude.{
  ℕ, zero, suc, ◌+◌, ◌*◌, ◌/◌, ◌<◌, ◌≤◌, ◌≡◌, sym, ap, subst, ◌∙◌, inl, inr, arith, Bool-cases,
  ==_iff, lt→ltb, ltb, leb, ◌==◌, min, ◌⊎◌, if◌then◌else◌,
}
use native.Mathlib.Nat.{
  mul-div-le, mul-le-mul_left, lt-mul-div-succ, le_of_mul-le-mul_left, zero-div,
}
use lighttpd.Throttle.Defs.{PoolWorkerState, Pool}
use lighttpd.Throttle.Rearm.{total_connections, pool_fill, worker_fill, fill_worker, rearm_workers}

-- The sum of the magazines of the first n workers
unfoldable pub total_magazine : ℕ → (ℕ → PoolWorkerState) → ℕ
total_magazine zero workers = 0
total_magazine (suc n) workers = total_magazine n workers + (workers n).magazine

module _ (fill total : ℕ) (workers : ℕ → PoolWorkerState) where
  share : ℕ → ℕ
  share i = worker_fill fill (workers i).connections total

  shares : ℕ → ℕ
  unfolding share
  shares zero = 0
  shares (suc n) = shares n + share n

  shares_mul : (n : ℕ) → total * shares n ≤ fill * total_connections n workers
  unfolding shares share total_connections
  shares_mul zero = omega arith
  shares_mul (suc n) =
      omega (arith, shares_mul n, mul-div-le (fill * (workers n).connections) total)

  shares_mul_least :
      0 < total → (n : ℕ) → fill * total_connections n workers ≤ total * (shares n + n)
  unfolding shares share total_connections
  shares_mul_least z zero = omega arith
  shares_mul_least z (suc n) =
      omega (arith, shares_mul_least z n, lt-mul-div-succ (fill * (workers n).connections) z)

  share-shares : (n i : ℕ) → i < n → share i ≤ shares n
  unfolding shares
  share-shares zero i h = absurd (omega arith)
  share-shares (suc n) i h = elim (Bool-cases (i == n)) [
    | inl e ↦ subst (λ j. share j ≤ shares n + share n) (sym ((==_iff i n).0 e)) (omega arith)
    | inr e ↦ omega (arith, share-shares n i (ground (arith, e)))
  ]

  -- Where nothing overflows, a worker gets its share.
  fill_worker-share :
      (i : ℕ)
      → (workers i).magazine + share i < 4294967296
      → (fill_worker fill total (workers i)).magazine ≡ (workers i).magazine + share i
  unfolding share
  fill_worker-share i h = elim (Bool-cases ((workers i).connections == 0)) [
    | inl e ↦
        let z : fill * (workers i).connections / total ≡ 0 =
          ap (λ c. c / total)
            (ap (λ c. fill * c) ((==_iff (workers i).connections 0).0 e) ∙ omega arith)
          ∙ zero-div total in
        rw e (omega (arith, z))
    | inr e ↦ rw e (omega (arith, h))
  ]

  filled : ℕ → ℕ → PoolWorkerState
  filled n i = if ltb i n then fill_worker fill total (workers i) else workers i

  filled_total :
      (n k : ℕ)
      → k ≤ n
      → ((i : ℕ) → i < n → (workers i).magazine + fill < 4294967296)
      → shares n ≤ fill
      → total_magazine k (filled n) ≡ total_magazine k workers + shares k
  unfolding total_magazine shares filled
  filled_total n zero h b s = omega arith
  filled_total n (suc k) h b s =
      let l : k < n = omega arith in
      let f = fill_worker-share k (omega (arith, share-shares n k l, b k l, s)) in
      let g : (filled n k).magazine ≡ (workers k).magazine + share k = rw (lt→ltb k n l) f in
      omega (arith, filled_total n k (omega arith) b s, g)

module _ (pool : Pool) (n t : ℕ) where
  pool_fill-rate :
      (1000 * pool_fill pool t ≤ pool.rate * t)
      × (pool_fill pool t ≤ pool.rate)
      × (pool_fill pool t ≤ pool.burst)
  pool_fill-rate =
      let s = min t 1000 in
      let d = mul-div-le (pool.rate * s) 1000 in
      let a : pool.rate * s ≤ pool.rate * t = mul-le-mul_left pool.rate (omega arith) in
      let b : pool.rate * s ≤ pool.rate * 1000 = mul-le-mul_left pool.rate (omega arith) in
      (omega arith, omega arith, omega arith)

  -- What the pool gets, but for less than one byte
  pool_fill-least :
      (pool.burst ≤ pool_fill pool t) ⊎ (pool.rate * min t 1000 < 1000 * (pool_fill pool t + 1))
  pool_fill-least =
      let x = pool.rate * min t 1000 / 1000 in
      elim (Bool-cases (leb pool.burst x)) [
        | inl e ↦ inl (ground (arith, e))
        | inr e ↦ inr (ground (arith, e))
      ]

  -- The magazines hold `old` bytes in all before, and `new` afterwards.
  pub record HasShared (old new : ℕ) : Type 0 where
    pub grown : old ≤ new
    pub at_most_burst : new ≤ old + pool.burst
    pub at_most_time : 1000 * new ≤ 1000 * old + pool.rate * t
    pub at_most_second : new ≤ old + pool.rate
    pub at_least :
        (total_connections n pool.workers ≡ 0)
        ⊎ ((old + pool.burst ≤ new + n)
            ⊎ (1000 * old + pool.rate * min t 1000 < 1000 * (new + n + 1)))

  -- S_throttle_pool_rearm_workers, for workers of which no magazine overflows by the burst of the
  -- pool, adds to the magazines in all no more than the burst, no more than the rate gives for the
  -- time, and no more than it gives for a second. Where requests wait, it is also not less than
  -- the burst or than what the rate gives for the time, a second at most, but for one byte for
  -- each worker and one more where the rate decides.
  pub rearm_workers-total_magazine :
      ((i : ℕ) → i < n → (pool.workers i).magazine + pool.burst < 4294967296)
      → HasShared
          (total_magazine n pool.workers)
          (total_magazine n (rearm_workers pool n t).workers)
  unfolding rearm_workers filled
  rearm_workers-total_magazine h =
      let total = total_connections n pool.workers in
      let fill = pool_fill pool t in
      let old = total_magazine n pool.workers in
      let (a, b, c) = pool_fill-rate in
      elim (Bool-cases (total == 0)) [
        | inl e ↦ rw e (record {
          grown = omega arith;
          at_most_burst = omega arith;
          at_most_time = omega arith;
          at_most_second = omega arith;
          at_least = inl ((==_iff total 0).0 e);
        })
        | inr e ↦
            let z : 0 < total = ground (arith, e) in
            let sum = shares fill total pool.workers n in
            let s : sum ≤ fill =
              le_of_mul-le-mul_left (omega (arith, shares_mul fill total pool.workers n)) z in
            let l : fill ≤ sum + n =
              le_of_mul-le-mul_left (omega (arith, shares_mul_least fill total pool.workers z n))
                z in
            let f =
              filled_total fill total pool.workers n n (omega arith)
                (λ i k. omega (arith, h i k, c)) s in
            rw e (record {
              grown = omega (arith, f);
              at_most_burst = omega (arith, f, s, c);
              at_most_time = omega (arith, f, s, a);
              at_most_second = omega (arith, f, s, b);
              at_least = elim pool_fill-least [
                | inl m ↦ inr (inl (omega (arith, f, l, m)))
                | inr m ↦ inr (inr (omega (arith, f, l, m)))
              ];
            })
      ]

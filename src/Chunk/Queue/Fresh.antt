-- ===== src/Chunk/Queue/Fresh.antt =====
-- `li_chunkqueue_use_limit`: a queue gets a limit of its own.
use lighttpd.Prelude.{
  ◌>>=◌, subst, ℕ, zero, suc, ◌<◌, ◌≡◌, refl, sym, ap, ap₂, ◌∙◌, Bool-cases, ==_iff, ==_refl,
  Option, none, some, Option-cases, inl, inr, List, ◌∷◌, arith, ◌==◌,
}
use lighttpd.Prelude.Int.{ℤ, neg, add_ℤ}
use lighttpd.Chunk.Defs.{Chunk, CqLimit, ChunkQueue, Limits, chunk_mem, in_memory}
use lighttpd.Chunk.Limit.{
  cqlimit_update, cqlimit_set_limit, cqlimit_new, cqlimit_add, limits_add, set_cqlimit, release,
}
use lighttpd.Chunk.Limit.Locks.{IsLocked, exceeded, cqlimit_set_limit-IsChecked}
use lighttpd.Chunk.World.{shares, file_mem, IsWorld}
use lighttpd.Chunk.Queue.{use_limit, skip_all, free_chunks, all_out}

module _ (lims : Limits) (i : ℕ) (c : CqLimit) (qs : List ChunkQueue) (w : IsWorld lims qs)
    (e : c.current ≡ (lims i).current) (k : IsLocked c) where
  set_counted : (j : ℕ) → (set_cqlimit lims i c j).current ≡ shares j qs
  set_counted j = elim (Bool-cases (i == j)) [
    | inl same ↦ let at : i ≡ j = (==_iff i j).0 same in rw same (e ∙ rw at (w.counted j))
    | inr other ↦ rw other (w.counted j)
  ]

  set_locks : (j : ℕ) → IsLocked (set_cqlimit lims i c j)
  set_locks j = elim (Bool-cases (i == j)) [
    | inl same ↦ rw same k
    | inr other ↦ rw other (w.locks j)
  ]

  -- A limit may be replaced by one with the same account that is locked as it has to be.
  set_cqlimit-IsWorld : IsWorld (set_cqlimit lims i c) qs
  set_cqlimit-IsWorld = record { counted = set_counted; locks = set_locks }

set_limit-IsLocked : (c : CqLimit) (l : ℤ) → IsLocked (cqlimit_set_limit c l)
set_limit-IsLocked c l =
    let k = cqlimit_set_limit-IsChecked c l in
    k.lock_is ∙ ap₂ exceeded (sym k.limit_is) (sym k.current_is)

module _ (lims : Limits) (cq : ChunkQueue) (fresh : ℕ) (l : ℤ) where
  -- The two cases of the function.
  abbrev limit_case : Option ℕ → Limits × ChunkQueue
  limit_case none =
      (set_cqlimit lims fresh (cqlimit_set_limit cqlimit_new l), record cq { limit = some fresh })
  limit_case (some i) = (set_cqlimit lims i (cqlimit_set_limit (lims i) l), cq)

  use_limit-none :
      cq.limit ≡ none
      → use_limit lims cq fresh l ≡ (
        set_cqlimit lims fresh (cqlimit_set_limit cqlimit_new l),
        record cq { limit = some fresh },
      )
  unfolding use_limit
  use_limit-none n = ap limit_case n

  use_limit-some :
      (i : ℕ)
      → cq.limit ≡ some i
      → use_limit lims cq fresh l ≡ (set_cqlimit lims i (cqlimit_set_limit (lims i) l), cq)
  unfolding use_limit
  use_limit-some i s = ap limit_case s

  -- Under right limits, `li_chunkqueue_use_limit` on a queue that has a limit or no memory in use,
  -- where the name for a new limit is not in use, leaves all limits right.
  pub use_limit-IsWorld :
      (qs : List ChunkQueue)
      → IsWorld lims (cq ∷ qs)
      → (cq.limit ≡ none → cq.mem_usage ≡ 0)
      → (lims fresh).current ≡ 0
      → IsWorld (use_limit lims cq fresh l).0 ((use_limit lims cq fresh l).1 ∷ qs)
  use_limit-IsWorld qs w free unused = elim (Option-cases cq.limit) [
    | inl n ↦
        let zero_mem = free n in
        let k = cqlimit_set_limit-IsChecked cqlimit_new l in
        let w0 : IsWorld lims (record cq { limit = some fresh } ∷ qs) = record {
          counted = λ i. ground (arith, w.counted i, zero_mem, n);
          locks = w.locks;
        } in
        subst (λ p. IsWorld p.0 (p.1 ∷ qs)) (sym (use_limit-none n))
          (set_cqlimit-IsWorld lims fresh (cqlimit_set_limit cqlimit_new l)
            (record cq { limit = some fresh } ∷ qs) w0 (k.current_is ∙ sym unused)
            (set_limit-IsLocked cqlimit_new l))
    | inr (i, s) ↦
        subst (λ p. IsWorld p.0 (p.1 ∷ qs)) (sym (use_limit-some i s))
          (set_cqlimit-IsWorld lims i (cqlimit_set_limit (lims i) l) (cq ∷ qs) w
            (cqlimit_set_limit-IsChecked (lims i) l).current_is (set_limit-IsLocked (lims i) l))
  ]

  abbrev limited : ChunkQueue
  limited = record cq { limit = some fresh }

  abbrev new_limits : Limits
  new_limits = set_cqlimit lims fresh (cqlimit_set_limit cqlimit_new l)

  below_zero : (m : ℕ) → 0 < m → cqlimit_add (new_limits fresh) (neg m) ≡ none
  unfolding cqlimit_add
  below_zero zero h = elim h [ ]
  below_zero (suc m) h =
      let e : (new_limits fresh).current ≡ 0 =
        rw (==_refl fresh) (cqlimit_set_limit-IsChecked cqlimit_new l).current_is in
      let f : add_ℤ 0 (neg (suc m)) ≡ none = ground arith in rw (e, f) refl

  release-none : (c : Chunk) → 0 < chunk_mem c → release new_limits limited c.body ≡ none
  unfolding release cqlimit_update limits_add
  release-none c m = elim (Bool-cases (in_memory c.body)) [
    | inr f ↦ absurd (omega (arith, file_mem c.body f))
    | inl u ↦ elim (Option-cases (add_ℤ cq.mem_usage (neg (chunk_mem c)))) [
      | inl a ↦ rw (u, a)
      | inr (x, a) ↦ rw (u, a, below_zero (chunk_mem c) m)
    ]
  ]

  -- The bug: on a queue without a limit of which the first chunk takes memory,
  -- `li_chunkqueue_use_limit` does not put that memory on the new limit, and `li_chunkqueue_skip_all`
  -- then fails an assertion.
  pub use_limit_unaccounted :
      (c : Chunk) (cs : List Chunk)
      → cq.limit ≡ none
      → cq.queue ≡ c ∷ cs
      → 0 < chunk_mem c
      → skip_all (use_limit lims cq fresh l).0 (use_limit lims cq fresh l).1 ≡ none
  unfolding skip_all free_chunks
  use_limit_unaccounted c cs n e m =
      ap (λ p. skip_all p.0 p.1) (use_limit-none n)
      ∙ ap (λ xs. free_chunks new_limits limited xs >>= all_out limited) e
      ∙ rw (release-none c m)

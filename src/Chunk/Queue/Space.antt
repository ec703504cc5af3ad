-- ===== src/Chunk/Queue/Space.antt =====
-- A queue changes its limit, and asks it for space.
use lighttpd.Prelude.{
  ℕ, zero, suc, ◌≡◌, ◌↔◌, refl, ap, sym, ==_iff, if◌then◌else◌, ◌∙◌, Bool, true, Bool-cases, Option,
  none, some, inl, inr, List, ◌∷◌, arith,
}
use lighttpd.Prelude.Int.{leb_zero, ℤ, pos, negsuc, neg}
use lighttpd.Chunk.Defs.{ChunkQueue, Limits}
use lighttpd.Chunk.Limit.Locks.{exceeded}
use lighttpd.Chunk.World.{share-zero, IsWorld, add_ℤ-neg, cqlimit_update-IsWorld}
use lighttpd.Chunk.Queue.{set_limit, same_limit, limit_available, available}

same_limit_eq : (a b : Option ℕ) → same_limit a b ≡ true → a ≡ b
unfolding same_limit
same_limit_eq none none e = refl
same_limit_eq none (some j) e = cc
same_limit_eq (some i) none e = cc
same_limit_eq (some i) (some j) e = ap some ((==_iff i j).0 e)

-- Under right limits, `li_chunkqueue_set_limit` takes the queue's memory off the old limit and puts
-- it on the new one; no assertion fails, and every limit still counts the memory of its queues and
-- is locked exactly if that reaches it.
pub set_limit-IsWorld :
    (lims : Limits) (cq : ChunkQueue) (cql : Option ℕ) (qs : List ChunkQueue)
    → IsWorld lims (cq ∷ qs)
    → (lims' : Limits) × (set_limit lims cq cql ≡ some (lims', record cq { limit = cql }))
      × IsWorld lims' (record cq { limit = cql } ∷ qs)
unfolding set_limit
set_limit-IsWorld lims cq cql qs w = elim (Bool-cases (same_limit cql cq.limit)) [
  | inl same ↦
      let e = same_limit_eq cql cq.limit same in
      (lims, rw same (ap (λ l. some (lims, record cq { limit = l })) (sym e)), rw e w)
  | inr other ↦
      let (l1, e1, w1) =
        cqlimit_update-IsWorld lims cq (neg cq.mem_usage) qs 0
          (add_ℤ-neg cq.mem_usage cq.mem_usage (omega arith) ∙ ap some (omega arith)) w in
      let (l2, e2, w2) =
        cqlimit_update-IsWorld l1 (record cq { mem_usage = 0; limit = cql }) (pos cq.mem_usage) qs
          cq.mem_usage (ap some (omega arith))
          (record {
            counted = λ k. omega (arith, w1.counted k, share-zero k cq.limit, share-zero k cql);
            locks = w1.locks;
          }) in
      (l2, rw (other, e1, e2), w2)
]

available_zero :
    (l : ℤ) (n : ℕ) (b : Bool)
    → b ≡ exceeded l n
    → ((if leb_zero l then negsuc 0 else available l n) ≡ pos 0) ↔ (b ≡ true)
unfolding available
available_zero (pos zero) n b e = (λ h. cc, λ h. ground arith)
available_zero (pos (suc l)) n b e = (λ h. ground arith, λ h. ground arith)
available_zero (negsuc l) n b e = (λ h. cc, λ h. ground arith)

-- Under right limits, a queue that has a limit is told by `li_chunkqueue_limit_available` that no
-- byte is free exactly while the limit is locked.
pub limit_available_zero :
    (lims : Limits) (cq : ChunkQueue) (qs : List ChunkQueue) (i : ℕ)
    → IsWorld lims (cq ∷ qs)
    → cq.limit ≡ some i
    → (limit_available lims cq ≡ pos 0) ↔ ((lims i).locked ≡ true)
unfolding limit_available
limit_available_zero lims cq qs i w e =
    rw (e, limit_available)
      (available_zero (lims i).limit (lims i).current (lims i).locked (w.locks i))

-- ===== src/Chunk/Steal/All.antt =====
-- `li_chunkqueue_steal_all` and `li_chunkqueue_steal_chunk`.
use lighttpd.Prelude.{
  ◌>>=◌, ℕ, zero, suc, ◌+◌, ◌<◌, ◌≡◌, refl, sym, ap, subst, ◌∙◌, min, true, false, Bool-cases,
  ==_iff, Option, none, some, inl, inr, List, [], ◌∷◌, ◌++◌, arith, length, ◌==◌, append-nil,
  take-all, drop-all,
}
use lighttpd.Prelude.Int.{pos, neg, add_ℤ}
use lighttpd.Chunk.Defs.{in_memory, Chunk, ChunkQueue, Limits, chunk_length, chunk_mem}
use lighttpd.Chunk.Content.{octets, AreChunks}
use lighttpd.Chunk.Account.{total_mem, octets-append, length-octets, IsQueue}
use lighttpd.Chunk.World.{
  share, share-add, share-zero, IsWorld, IsWorld-swap, add_ℤ-neg, charge-IsWorld, release-IsWorld,
  with_usage, file_mem, cqlimit_update-IsWorld,
}
use lighttpd.Chunk.Limit.{cqlimit_update, release}
use lighttpd.Chunk.Queue.{same_limit, skip_all, all_out, free_chunks}
use lighttpd.Chunk.Steal.{Stolen, Stole, steal_all, steal_chunk, steal_first, take_in, give_out}
use lighttpd.Chunk.Steal.Loop.{IsStolen, IsStolen-chunk}
use lighttpd.Chunk.Steal.Laws.{HasMoved, HasMoved-after, take_in-IsQueue, give_out-IsQueue}

add_ℤ-none : (n m : ℕ) → n < m → add_ℤ n (neg m) ≡ none
add_ℤ-none n zero h = elim h [ ]
add_ℤ-none n (suc m) h = ground arith

same_limit_eq : (a b : Option ℕ) → same_limit a b ≡ true → a ≡ b
unfolding same_limit
same_limit_eq none none e = refl
same_limit_eq none (some j) e = cc
same_limit_eq (some i) none e = cc
same_limit_eq (some i) (some j) e = ap some ((==_iff i j).0 e)

module _ (lims : Limits) (out inq : ChunkQueue) (qs : List ChunkQueue) (o : IsQueue out)
    (i : IsQueue inq) (w : IsWorld lims (out ∷ inq ∷ qs)) where
  abbrev out_all : ChunkQueue
  out_all = record (take_in out inq.queue inq.size) { mem_usage = out.mem_usage + inq.mem_usage }

  abbrev in_none : ChunkQueue
  in_none = record (give_out inq [] inq.size) { mem_usage = 0 }

  all_octets : length (octets inq.queue) ≡ inq.size
  all_octets = length-octets inq.queue i.chunks ∙ sym i.size_is

  HasMoved-all :
      {r : Stole} (l : Limits)
      → r ≡ some (l, out_all, in_none, inq.size)
      → IsWorld l (out_all ∷ in_none ∷ qs)
      → HasMoved out inq inq.size qs r
  HasMoved-all l e w' = record {
    lims = l;
    out' = out_all;
    inq' = in_none;
    result = e;
    arrived =
        octets-append out.queue inq.queue
        ∙ ap (◌++◌ (octets out.queue))
            (sym (take-all inq.size (octets inq.queue) (omega (arith, all_octets))));
    stayed = sym (drop-all inq.size (octets inq.queue) (omega (arith, all_octets)));
    out_IsQueue =
        take_in-IsQueue out inq o i inq.queue inq.size _ i.chunks (sym i.size_is)
          (omega (arith, i.mem_is));
    in_IsQueue =
        give_out-IsQueue out inq o i [] inq.size 0 (omega arith) (omega (arith, i.size_is)) refl;
    out_closed = refl;
    in_closed = refl;
    world = w';
  }

  shared-IsWorld : inq.limit ≡ out.limit → IsWorld lims (out_all ∷ in_none ∷ qs)
  shared-IsWorld e = record {
    counted = λ k. omega (
      arith,
      w.counted k,
      share-add k out.limit out.mem_usage inq.mem_usage,
      share-zero k inq.limit,
      ap (λ l. share k l inq.mem_usage) e,
    );
    locks = w.locks;
  }

  HasMoved-none : HasMoved out inq 0 qs (some (lims, out, inq, 0))
  HasMoved-none = record {
    lims = lims;
    out' = out;
    inq' = inq;
    result = refl;
    arrived = sym (append-nil (octets out.queue));
    stayed = refl;
    out_IsQueue = o;
    in_IsQueue = i;
    out_closed = refl;
    in_closed = refl;
    world = w;
  }

  -- On two queues with right counters under right limits, `li_chunkqueue_steal_all` moves all
  -- octets, whether or not the queues share a limit; no assertion fails, and all counters are right
  -- again.
  pub steal_all-HasMoved : HasMoved out inq inq.size qs (steal_all lims out inq)
  unfolding steal_all
  steal_all-HasMoved = elim (Bool-cases (inq.size == 0)) [
    | inl z ↦ rw z (
        subst (λ n. HasMoved out inq n qs (some (lims, out, inq, 0)))
          (sym ((==_iff inq.size 0).0 z)) HasMoved-none)
    | inr nz ↦ elim (Bool-cases (same_limit inq.limit out.limit)) [
      | inl s ↦
          rw (nz, s) (HasMoved-all lims refl (shared-IsWorld (same_limit_eq inq.limit out.limit s)))
      | inr d ↦
          let (l1, e1, w1) =
            cqlimit_update-IsWorld lims out (pos inq.mem_usage) (inq ∷ qs)
              (out.mem_usage + inq.mem_usage) refl w in
          let (l2, e2, w2) =
            cqlimit_update-IsWorld l1 inq (neg inq.mem_usage)
              (record out { mem_usage = out.mem_usage + inq.mem_usage } ∷ qs) 0
              (add_ℤ-neg inq.mem_usage inq.mem_usage (omega arith) ∙ ap some (omega arith))
              (IsWorld-swap _ _ qs w1) in
          rw (nz, d, e1, e2)
            (HasMoved-all l2 refl
              (record { counted = λ k. omega (arith, w2.counted k); locks = w2.locks }))
    ]
  ]

  module _ (c : Chunk) (cs : List Chunk) (e : inq.queue ≡ c ∷ cs) where
    one_chunk : Stolen
    one_chunk = record {
      moved = c ∷ [];
      rest = cs;
      bytes = chunk_length c;
      mem_in = chunk_mem c;
      mem_out = chunk_mem c;
    }

    one_chunk-IsStolen : IsStolen inq.queue (chunk_length c) one_chunk
    unfolding one_chunk
    one_chunk-IsStolen =
        let v : AreChunks (c ∷ cs) = subst AreChunks e i.chunks in
        let m = IsStolen-chunk c cs v.0 v.1 in
        subst (λ xs. IsStolen xs (chunk_length c) one_chunk) (sym e) m

    -- On two queues with right counters and different limits, the limits right, and a chunk in `in`,
    -- `li_chunkqueue_steal_chunk` moves the octets of the first chunk; no assertion fails, and all
    -- counters are right again.
    pub steal_chunk-HasMoved :
        same_limit inq.limit out.limit ≡ false
        → HasMoved out inq (min (chunk_length c) inq.size) qs (steal_chunk lims out inq)
    unfolding steal_chunk steal_first one_chunk
    steal_chunk-HasMoved d =
        let (l1, e1, w1) =
          charge-IsWorld lims (take_in out (c ∷ []) (chunk_length c)) c.body (inq ∷ qs)
            (record { counted = w.counted; locks = w.locks }) in
        let out1 =
          with_usage (take_in out (c ∷ []) (chunk_length c)) (out.mem_usage + chunk_mem c) in
        let (l2, e2, w2) =
          release-IsWorld l1 (give_out inq cs (chunk_length c)) c.body (out1 ∷ qs)
            (record { counted = λ k. omega (arith, w1.counted k); locks = w1.locks })
            (omega (arith, i.mem_is, ap total_mem e)) in
        subst (HasMoved out inq (min (chunk_length c) inq.size) qs)
          (sym (ap (steal_first lims out inq) e))
          (rw (d, e1, e2)
            (HasMoved-after lims out inq (chunk_length c) qs o i w one_chunk one_chunk-IsStolen l2
              refl (IsWorld-swap _ out1 qs w2)))

    no_memory :
        out.queue ≡ []
        → 0 < chunk_mem c
        → release lims (take_in out (c ∷ []) (chunk_length c)) c.body ≡ none
    unfolding release cqlimit_update
    no_memory n m = elim (Bool-cases (in_memory c.body)) [
      | inl u ↦
          rw (u, add_ℤ-none out.mem_usage (chunk_mem c) (omega (arith, o.mem_is, ap total_mem n)))
      | inr f ↦ absurd (omega (arith, file_mem c.body f))
    ]

    -- Where the queues share a limit or both have none, `out` is empty and the first chunk of `in`
    -- takes memory, `li_chunkqueue_steal_chunk` leaves that memory on the account of `in`: its
    -- counters are wrong then, and `li_chunkqueue_skip_all` on `out` fails an assertion.
    pub steal_chunk_unaccounted :
        same_limit inq.limit out.limit ≡ true
        → out.queue ≡ []
        → 0 < chunk_mem c
        → (out' inq' : ChunkQueue) × (steal_chunk lims out inq
            ≡ some (lims, out', inq', chunk_length c))
          × (skip_all lims out' ≡ none)
          × ¬ IsQueue inq'
    unfolding steal_chunk steal_first skip_all free_chunks
    steal_chunk_unaccounted s n m = (
      take_in out (c ∷ []) (chunk_length c),
      give_out inq cs (chunk_length c),
      ap (steal_first lims out inq) e ∙ rw s,
      ap
            (λ xs.
              free_chunks lims (take_in out (c ∷ []) (chunk_length c)) (xs ++ (c ∷ []))
              >>= all_out (take_in out (c ∷ []) (chunk_length c)))
            n
          ∙ rw (no_memory n m),
      λ q. absurd (omega (arith, q.mem_is, i.mem_is, ap total_mem e)),
    )

-- ===== src/Chunk/Queue/Skip.antt =====
-- `li_chunkqueue_skip`, `li_chunkqueue_skip_all` and `li_chunkqueue_reset`: dropping octets.
use lighttpd.Prelude.{
  ℕ, ◌+◌, ◌-◌, ◌≤◌, ◌<◌, ◌≡◌, refl, sym, ap, subst, false, drop-min, drop-all, ◌∙◌, Bool-cases,
  ==_iff, leb→le, Option, some, inl, inr, List, [], ◌∷◌, ◌++◌, arith, drop, min, leb, ◌==◌,
  drop-nil, drop-append_ge, drop-append_le,
}
use lighttpd.Chunk.Defs.{Chunk, ChunkQueue, Limits, chunk_length, chunk_mem}
use lighttpd.Chunk.Content.{
  body_octets, octets, IsBody, AreChunks, length-body_octets, body_octets-drop, body_length-add,
  IsBody-add,
}
use lighttpd.Chunk.Account.{total, total_mem, length-octets, IsQueue}
use lighttpd.Chunk.World.{IsWorld, release-IsWorld}
use lighttpd.Chunk.Queue.{skip_loop, skip, free_chunks, skip_all, reset}

abbrev left : ChunkQueue → List Chunk → ChunkQueue
left cq rest = record cq { mem_usage = total_mem rest; queue = rest }

-- The loop has dropped n octets of `cs`, and the rest is what the queue holds.
pub record HasDropped (cq : ChunkQueue) (cs : List Chunk) (len bytes : ℕ) (qs : List ChunkQueue)
    (r : Option (Limits × ChunkQueue × ℕ)) : Type 0 where
  pub lims : Limits
  pub rest : List Chunk
  pub n : ℕ
  pub result : r ≡ some (lims, left cq rest, bytes + n)
  pub octets_are : octets rest ≡ drop len (octets cs)
  pub valid : AreChunks rest
  pub n_is : n ≡ min len (total cs)
  pub rest_size : total rest + n ≡ total cs
  pub world : IsWorld lims (left cq rest ∷ qs)

module _ (lims : Limits) (cq : ChunkQueue) (bytes : ℕ) (qs : List ChunkQueue)
    (w : IsWorld lims (cq ∷ qs)) where
  HasDropped-keep :
      (cs : List Chunk)
      → AreChunks cs
      → cq.mem_usage ≡ total_mem cs
      → HasDropped cq cs 0 bytes qs (some (lims, record cq { queue = cs }, bytes))
  HasDropped-keep cs v e = record {
    lims = lims;
    rest = cs;
    n = 0;
    result = λ j. some (lims, record cq { mem_usage = e j; queue = cs }, add_zero j);
    octets_are = refl;
    valid = v;
    n_is = omega arith;
    rest_size = omega arith;
    world = record { counted = λ k. rw (← e) (w.counted k); locks = w.locks };
  }
    where
      add_zero : bytes ≡ bytes + 0
      add_zero = omega arith

  HasDropped-nil :
      (len : ℕ)
      → cq.mem_usage ≡ 0
      → HasDropped cq [] len bytes qs (some (lims, record cq { queue = [] }, bytes))
  unfolding HasDropped-keep
  HasDropped-nil len e =
      let k = HasDropped-keep [] (omega arith) e in
      record {
        lims = k.lims;
        rest = k.rest;
        n = k.n;
        result = k.result;
        octets_are = sym (drop-nil len);
        valid = k.valid;
        n_is = omega (arith, k.n_is);
        rest_size = k.rest_size;
        world = k.world;
      }

  HasDropped-part :
      (c : Chunk) (cs : List Chunk) (len : ℕ)
      → IsBody c.body c.offset
      → AreChunks cs
      → len < chunk_length c
      → cq.mem_usage ≡ total_mem (c ∷ cs)
      → HasDropped cq (c ∷ cs) len bytes qs (
          some (lims, record cq { queue = record c { offset = c.offset + len } ∷ cs }, bytes + len))
  HasDropped-part c cs len h t lt e = record {
    lims = lims;
    rest = record c { offset = c.offset + len } ∷ cs;
    n = len;
    result =
        ap
          (λ m. some (
            lims,
            record cq { mem_usage = m; queue = record c { offset = c.offset + len } ∷ cs },
            bytes + len,
          ))
          e;
    octets_are =
        ap (λ xs. xs ++ octets cs) (body_octets-drop c.body c.offset len)
        ∙ sym (
            drop-append_le len _ (octets cs) (omega (arith, length-body_octets c.body c.offset h)));
    valid = (IsBody-add c.body c.offset len h (omega arith), t);
    n_is = omega arith;
    rest_size = omega (arith, body_length-add c.body c.offset len);
    world = record { counted = λ k. rw (← e) (w.counted k); locks = w.locks };
  }

module _ (cq : ChunkQueue) (c : Chunk) (cs : List Chunk) (len bytes : ℕ) (qs : List ChunkQueue)
    (h : IsBody c.body c.offset) (fits : chunk_length c ≤ len) where
  HasDropped-whole :
      (u : ℕ) {r : Option (Limits × ChunkQueue × ℕ)}
      → HasDropped
          (record cq { mem_usage = u })
          cs
          (len - chunk_length c)
          (bytes + chunk_length c)
          qs
          r
      → HasDropped cq (c ∷ cs) len bytes qs r
  HasDropped-whole u d = record {
    lims = d.lims;
    rest = d.rest;
    n = chunk_length c + d.n;
    result = d.result ∙ ap (λ k. some (d.lims, left cq d.rest, k)) (omega arith);
    octets_are =
        d.octets_are
        ∙ sym (
            drop-append_ge (body_octets c.body c.offset) len (len - chunk_length c) (octets cs)
              (omega (arith, length-body_octets c.body c.offset h)));
    valid = d.valid;
    n_is = omega (arith, d.n_is);
    rest_size = omega (arith, d.rest_size);
    world = d.world;
  }

pub skip_loop-HasDropped :
    (cs : List Chunk) (lims : Limits) (cq : ChunkQueue) (len bytes : ℕ) (qs : List ChunkQueue)
    → AreChunks cs
    → cq.mem_usage ≡ total_mem cs
    → IsWorld lims (cq ∷ qs)
    → HasDropped cq cs len bytes qs (skip_loop lims cq cs len bytes)
unfolding skip_loop
skip_loop-HasDropped [] lims cq len bytes qs v e w = HasDropped-nil lims cq bytes qs w len e
skip_loop-HasDropped (c ∷ cs) lims cq len bytes qs (h, t) e w =
    elim (Bool-cases (leb (chunk_length c) len)) [
      | inl fits ↦
          let (l1, e1, w1) = release-IsWorld lims cq c.body qs w (omega (arith, e)) in
          rw (fits, e1)
            (HasDropped-whole cq c cs len bytes qs h (leb→le _ _ fits) (cq.mem_usage - chunk_mem c)
              (skip_loop-HasDropped cs l1 (record cq { mem_usage = cq.mem_usage - chunk_mem c })
                (len - chunk_length c) (bytes + chunk_length c) qs t (omega (arith, e)) w1))
      | inr long ↦ elim (Bool-cases (len == 0)) [
        | inl z ↦
            let d : len ≡ 0 = (==_iff len 0).0 z in
            rw (long, z)
              (subst
                (λ k.
                  HasDropped cq (c ∷ cs) k bytes qs
                    (some (lims, record cq { queue = c ∷ cs }, bytes)))
                (sym d) (HasDropped-keep lims cq bytes qs w (c ∷ cs) (h, t) e))
        | inr nz ↦
            rw (long, nz) (HasDropped-part lims cq bytes qs w c cs len h t (ground (arith, long)) e)
      ]
    ]

-- What is left of a queue after n octets were dropped from its front.
pub record HasSkipped (cq : ChunkQueue) (n : ℕ) (qs : List ChunkQueue)
    (r : Option (Limits × ChunkQueue × ℕ)) : Type 0 where
  pub lims : Limits
  pub cq' : ChunkQueue
  pub result : r ≡ some (lims, cq', n)
  pub octets_are : octets cq'.queue ≡ drop n (octets cq.queue)
  pub gone : cq'.bytes_out ≡ cq.bytes_out + n
  pub valid : IsQueue cq'
  pub world : IsWorld lims (cq' ∷ qs)

module _ (lims : Limits) (cq : ChunkQueue) (qs : List ChunkQueue) (q : IsQueue cq)
    (w : IsWorld lims (cq ∷ qs)) where
  -- On a queue with right counters under right limits, `li_chunkqueue_skip` drops as many octets as
  -- asked for and there from the front, and says how many; no assertion fails, and the counters of
  -- the queue and all limits are right again.
  pub skip-HasSkipped : (len : ℕ) → HasSkipped cq (min len cq.size) qs (skip lims cq len)
  unfolding skip
  skip-HasSkipped len =
      let d = skip_loop-HasDropped cq.queue lims cq len 0 qs q.chunks q.mem_is w in
      let e : d.n ≡ min len cq.size = omega (arith, d.n_is, q.size_is) in
      let f : 0 + d.n ≡ d.n = omega arith in
      record {
        lims = d.lims;
        cq' = record (left cq d.rest) { bytes_out = cq.bytes_out + d.n; size = cq.size - d.n };
        result = rw (d.result, f, e);
        octets_are =
            d.octets_are
            ∙ drop-min len (octets cq.queue)
            ∙ ap (λ k. drop k (octets cq.queue))
                (omega (arith, q.size_is, length-octets cq.queue q.chunks));
        gone = rw e;
        valid = record {
          chunks = d.valid;
          size_is = omega (arith, d.rest_size, q.size_is);
          mem_is = refl;
          flow = omega (arith, d.n_is, q.flow, q.size_is);
        };
        world = record { counted = d.world.counted; locks = d.world.locks };
      }

-- Freeing all chunks takes their memory back.
pub free_chunks-IsWorld :
    (cs : List Chunk) (lims : Limits) (cq : ChunkQueue) (qs : List ChunkQueue)
    → cq.mem_usage ≡ total_mem cs
    → IsWorld lims (cq ∷ qs)
    → (lims' : Limits) × (free_chunks lims cq cs
        ≡ some (lims', record cq { mem_usage = 0; queue = [] }))
      × IsWorld lims' (record cq { mem_usage = 0; queue = [] } ∷ qs)
unfolding free_chunks
free_chunks-IsWorld [] lims cq qs e w = (
  lims,
  ap (λ m. some (lims, record cq { mem_usage = m; queue = [] })) e,
  record { counted = λ k. rw (← e) (w.counted k); locks = w.locks },
)
free_chunks-IsWorld (c ∷ cs) lims cq qs e w =
    let (l1, e1, w1) = release-IsWorld lims cq c.body qs w (omega (arith, e)) in
    rw e1 (
      free_chunks-IsWorld cs l1 (record cq { mem_usage = cq.mem_usage - chunk_mem c }) qs
        (omega (arith, e)) w1)

module _ (lims : Limits) (cq : ChunkQueue) (qs : List ChunkQueue) (q : IsQueue cq)
    (w : IsWorld lims (cq ∷ qs)) where
  -- On a queue with right counters under right limits, `li_chunkqueue_skip_all` drops all octets and
  -- says how many; no assertion fails, and all counters are right again.
  pub skip_all-HasSkipped : HasSkipped cq cq.size qs (skip_all lims cq)
  unfolding skip_all
  skip_all-HasSkipped =
      let (l, e, w') = free_chunks-IsWorld cq.queue lims cq qs q.mem_is w in
      record {
        lims = l;
        cq' = record cq { mem_usage = 0; queue = []; bytes_out = cq.bytes_out + cq.size; size = 0 };
        result = rw e;
        octets_are = sym (
            drop-all cq.size (octets cq.queue)
              (omega (arith, q.size_is, length-octets cq.queue q.chunks)));
        gone = refl;
        valid = record {
          chunks = omega arith;
          size_is = omega arith;
          mem_is = omega arith;
          flow = omega (arith, q.flow);
        };
        world = record { counted = w'.counted; locks = w'.locks };
      }

  abbrev cleared : ChunkQueue
  cleared = record cq {
    is_closed = false;
    bytes_in = 0;
    bytes_out = 0;
    size = 0;
    mem_usage = 0;
    queue = [];
  }

  -- On a queue with right counters under right limits, `li_chunkqueue_reset` gives an empty open
  -- queue that keeps its limit; its memory is taken off the limit, and no assertion fails.
  pub reset-IsWorld :
      (lims' : Limits) × (reset lims cq ≡ some (lims', cleared)) × IsWorld lims' (cleared ∷ qs)
  unfolding reset
  reset-IsWorld =
      let (l, e, w') =
        free_chunks-IsWorld cq.queue lims
          (record cq { is_closed = false; bytes_in = 0; bytes_out = 0; size = 0 }) qs q.mem_is
          (record { counted = w.counted; locks = w.locks }) in
      (l, rw e, record { counted = w'.counted; locks = w'.locks })

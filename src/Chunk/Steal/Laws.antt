-- ===== src/Chunk/Steal/Laws.antt =====
-- Moving data between two queues: what arrives, what stays, and the counters of both.
use lighttpd.Prelude.{
  ◌>>=◌, ℕ, ◌+◌, ◌-◌, ◌≡◌, refl, sym, ap, ◌∙◌, some, List, ◌∷◌, ◌++◌, arith, length, take, drop,
  min, length-take, take-min, drop-min,
}
use lighttpd.Prelude.Int.{pos, neg}
use lighttpd.Chunk.Defs.{Chunk, ChunkQueue, Limits}
use lighttpd.Chunk.Content.{octets, AreChunks}
use lighttpd.Chunk.Account.{
  total, total_mem, total-append, total_mem-append, AreChunks-append, octets-append, length-octets,
  IsQueue,
}
use lighttpd.Chunk.World.{IsWorld, IsWorld-swap, add_ℤ-neg, cqlimit_update-IsWorld}
use lighttpd.Chunk.Limit.{cqlimit_update}
use lighttpd.Chunk.Steal.{Stolen, Stole, steal_loop, steal_len, take_in, give_out}
use lighttpd.Chunk.Steal.Loop.{IsStolen, steal_loop-IsStolen}

-- n octets went from the front of `inq` to the end of `out`, with no assertion failed, and
-- all accounts are right again.
pub record HasMoved (out inq : ChunkQueue) (n : ℕ) (qs : List ChunkQueue) (r : Stole) : Type 0 where
  pub lims : Limits
  pub out' : ChunkQueue
  pub inq' : ChunkQueue
  pub result : r ≡ some (lims, out', inq', n)
  pub arrived : octets out'.queue ≡ octets out.queue ++ take n (octets inq.queue)
  pub stayed : octets inq'.queue ≡ drop n (octets inq.queue)
  pub out_IsQueue : IsQueue out'
  pub in_IsQueue : IsQueue inq'
  pub out_closed : out'.is_closed ≡ out.is_closed
  pub in_closed : inq'.is_closed ≡ inq.is_closed
  pub world : IsWorld lims (out' ∷ inq' ∷ qs)

module _ (out inq : ChunkQueue) (o : IsQueue out) (i : IsQueue inq) where
  pub take_in-IsQueue :
      (cs : List Chunk) (n m : ℕ)
      → AreChunks cs
      → total cs ≡ n
      → out.mem_usage + total_mem cs ≡ m
      → IsQueue (record (take_in out cs n) { mem_usage = m })
  take_in-IsQueue cs n m v t e = record {
    chunks = AreChunks-append out.queue cs o.chunks v;
    size_is = omega (arith, total-append out.queue cs, o.size_is);
    mem_is = omega (arith, total_mem-append out.queue cs, o.mem_is);
    flow = omega (arith, o.flow);
  }

  pub give_out-IsQueue :
      (cs : List Chunk) (n m : ℕ)
      → AreChunks cs
      → total cs + n ≡ total inq.queue
      → m ≡ total_mem cs
      → IsQueue (record (give_out inq cs n) { mem_usage = m })
  give_out-IsQueue cs n m v t e = record {
    chunks = v;
    size_is = omega (arith, i.size_is);
    mem_is = e;
    flow = omega (arith, i.flow, i.size_is);
  }

-- The two updates of `li_chunkqueue_steal_len`, on whatever its loop has moved.
unfoldable pub settle : Limits → ChunkQueue → ChunkQueue → Stolen → Stole
settle lims out inq s = do
  (lims', out') ← cqlimit_update lims (take_in out s.moved s.bytes) (pos s.mem_out)
  (lims'', inq') ← cqlimit_update lims' (give_out inq s.rest s.bytes) (neg s.mem_in)
  some (lims'', out', inq', s.bytes)

module _ (lims : Limits) (out inq : ChunkQueue) (len : ℕ) (qs : List ChunkQueue) (o : IsQueue out)
    (i : IsQueue inq) (w : IsWorld lims (out ∷ inq ∷ qs)) where
  module _ (s : Stolen) (t : IsStolen inq.queue len s) where
    stolen_bytes : s.bytes ≡ min len inq.size
    stolen_bytes = omega (
      arith,
      ap length t.moved_octets,
      length-take len (octets inq.queue),
      length-octets inq.queue i.chunks,
      length-octets s.moved t.moved_valid,
      t.moved_size,
      i.size_is,
    )

    abbrev out_after : ChunkQueue
    out_after = record (take_in out s.moved s.bytes) { mem_usage = out.mem_usage + s.mem_out }

    abbrev in_after : ChunkQueue
    in_after = record (give_out inq s.rest s.bytes) { mem_usage = inq.mem_usage - s.mem_in }

    settle_result :
        (l : Limits) × (settle lims out inq s ≡ some (l, out_after, in_after, s.bytes))
        × IsWorld l (out_after ∷ in_after ∷ qs)
    unfolding settle
    settle_result =
        let (l1, e1, w1) =
          cqlimit_update-IsWorld lims (take_in out s.moved s.bytes) (pos s.mem_out) (inq ∷ qs)
            (out.mem_usage + s.mem_out) refl (record { counted = w.counted; locks = w.locks }) in
        let (l2, e2, w2) =
          cqlimit_update-IsWorld l1 (give_out inq s.rest s.bytes) (neg s.mem_in) (out_after ∷ qs)
            (inq.mem_usage - s.mem_in)
            (add_ℤ-neg inq.mem_usage s.mem_in (omega (arith, i.mem_is, t.rest_mem)))
            (record { counted = λ k. omega (arith, w1.counted k); locks = w1.locks }) in
        (l2, rw (e1, e2), IsWorld-swap in_after out_after qs w2)

    pub HasMoved-after :
        {r : Stole} (l : Limits)
        → r ≡ some (l, out_after, in_after, s.bytes)
        → IsWorld l (out_after ∷ in_after ∷ qs)
        → HasMoved out inq (min len inq.size) qs r
    HasMoved-after l e w' =
        let n : min len inq.size ≡ min len (length (octets inq.queue)) =
          omega (arith, i.size_is, length-octets inq.queue i.chunks) in
        record {
          lims = l;
          out' = out_after;
          inq' = in_after;
          result = e ∙ ap (λ k. some (l, out_after, in_after, k)) stolen_bytes;
          arrived =
              octets-append out.queue s.moved
              ∙ ap (◌++◌ (octets out.queue)) (
                  t.moved_octets
                  ∙ take-min len (octets inq.queue)
                  ∙ ap (λ k. take k (octets inq.queue)) (sym n));
          stayed =
              t.rest_octets
              ∙ drop-min len (octets inq.queue)
              ∙ ap (λ k. drop k (octets inq.queue)) (sym n);
          out_IsQueue =
              take_in-IsQueue out inq o i s.moved s.bytes _ t.moved_valid t.moved_size
                (omega (arith, t.moved_mem));
          in_IsQueue =
              give_out-IsQueue out inq o i s.rest s.bytes _ t.rest_valid t.rest_size
                (omega (arith, t.rest_mem, i.mem_is));
          out_closed = refl;
          in_closed = refl;
          world = w';
        }

    pub settle-HasMoved : HasMoved out inq (min len inq.size) qs (settle lims out inq s)
    settle-HasMoved = let (l, e, w') = settle_result in HasMoved-after l e w'

  -- On two queues with right counters under right limits, `li_chunkqueue_steal_len` moves as many
  -- octets as asked for and there, from the front of one queue to the end of the other, unchanged
  -- and in order; no assertion fails, and the counters of both queues and all limits are right again.
  pub steal_len-HasMoved : HasMoved out inq (min len inq.size) qs (steal_len lims out inq len)
  unfolding steal_len settle
  steal_len-HasMoved =
      settle-HasMoved (steal_loop inq.queue len) (steal_loop-IsStolen inq.queue len i.chunks)

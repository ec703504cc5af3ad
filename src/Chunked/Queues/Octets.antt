-- ===== src/Chunked/Queues/Octets.antt =====
-- The octets that the encoder sends.
use lighttpd.Prelude.{
  ◌>>=◌, ◌≡◌, refl, sym, ap, ap₂, ◌∙◌, Bool, true, false, not, ◌&&◌, ◌||◌, Bool-cases, inl, inr,
  some, List, [], ◌∷◌, ◌++◌, map, append_assoc, append-nil, arith, length, take-all, drop-all, ltb,
  if◌then◌else◌,
}
use lighttpd.Chunk.Defs.{ChunkQueue, Limits}
use lighttpd.Chunk.Content.{Octet, byte, octets}
use lighttpd.Chunk.Account.{IsQueue, length-octets}
use lighttpd.Chunk.World.{IsWorld}
use lighttpd.Chunk.Queue.{append_mem}
use lighttpd.Chunk.Queue.Append.{append_bytearr-HasAppended, append_mem-HasAppended}
use lighttpd.Chunk.Steal.All.{steal_all-HasMoved}
use lighttpd.Chunked.Encode.{chunk_len, crlf, last_chunk}
use lighttpd.Chunked.Queues.{Queues, encode_chunk, encode_end, encode_queues, close_out}

-- `os` are the last octets of `out` now, and `in` is empty.
pub record HasEncoded (out inq : ChunkQueue) (os : List Octet) (closed : Bool)
    (qs : List ChunkQueue) (r : Queues) : Type 0 where
  pub lims : Limits
  pub out' : ChunkQueue
  pub inq' : ChunkQueue
  pub result : r ≡ some (lims, out', inq')
  pub sent : octets out'.queue ≡ octets out.queue ++ os
  pub emptied : octets inq'.queue ≡ []
  pub out_closed : out'.is_closed ≡ closed
  pub in_closed : inq'.is_closed ≡ inq.is_closed
  pub out_IsQueue : IsQueue out'
  pub in_IsQueue : IsQueue inq'
  pub world : IsWorld lims (out' ∷ inq' ∷ qs)

-- The chunk for the data in `in`, if there is any.
abbrev pub chunk_octets : ChunkQueue → List Octet
chunk_octets inq =
    if ltb 0 inq.size
    then map byte (chunk_len inq.size) ++ (octets inq.queue ++ map byte crlf)
    else []

module _ (lims : Limits) (out inq : ChunkQueue) (qs : List ChunkQueue) (o : IsQueue out)
    (i : IsQueue inq) (w : IsWorld lims (out ∷ inq ∷ qs)) where
  no_data : ltb 0 inq.size ≡ false → octets inq.queue ≡ []
  no_data e =
      nil (octets inq.queue) (ground (arith, length-octets inq.queue i.chunks, i.size_is, e))
    where
      nil : (xs : List Octet) → length xs ≡ 0 → xs ≡ []
      nil [] h = refl
      nil (x ∷ xs) h = absurd (omega arith)

  encode_chunk-HasEncoded :
      HasEncoded out inq (chunk_octets inq) out.is_closed qs (encode_chunk lims out inq)
  unfolding encode_chunk
  encode_chunk-HasEncoded = elim (Bool-cases (ltb 0 inq.size)) [
    | inl e ↦
        let a = append_bytearr-HasAppended lims out (inq ∷ qs) o w (chunk_len inq.size) in
        let m = steal_all-HasMoved a.lims a.cq' inq qs a.valid i a.world in
        let b = append_mem-HasAppended m.lims m.out' (m.inq' ∷ qs) m.out_IsQueue m.world crlf in
        let long : length (octets inq.queue) ≡ inq.size =
          length-octets inq.queue i.chunks ∙ sym i.size_is in
        let all : octets m.out'.queue ≡ octets a.cq'.queue ++ octets inq.queue =
          m.arrived
          ∙ ap (◌++◌ (octets a.cq'.queue))
              (take-all inq.size (octets inq.queue) (omega (arith, long))) in
        let line = map byte (chunk_len inq.size) in
        rw e (record {
          lims = b.lims;
          out' = b.cq';
          inq' = m.inq';
          result = rw (a.result, m.result, b.result);
          sent =
              b.octets_are
              ∙ rw (
                all,
                a.octets_are,
                append_assoc (octets out.queue) line (octets inq.queue),
                append_assoc (octets out.queue) (line ++ octets inq.queue) (map byte crlf),
                append_assoc line (octets inq.queue) (map byte crlf),
              );
          emptied = m.stayed ∙ drop-all inq.size (octets inq.queue) (omega (arith, long));
          out_closed = b.closed_is ∙ m.out_closed ∙ a.closed_is;
          in_closed = m.in_closed;
          out_IsQueue = b.valid;
          in_IsQueue = m.in_IsQueue;
          world = b.world;
        })
    | inr e ↦ rw e (record {
      lims = lims;
      out' = out;
      inq' = inq;
      result = refl;
      sent = sym (append-nil (octets out.queue));
      emptied = no_data e;
      out_closed = refl;
      in_closed = refl;
      out_IsQueue = o;
      in_IsQueue = i;
      world = w;
    })
  ]

-- The last chunk, where the encoder closes `out`.
abbrev pub end_octets : ChunkQueue → ChunkQueue → List Octet
end_octets out inq = if inq.is_closed && not out.is_closed then map byte last_chunk else []

module _ (lims : Limits) (out inq : ChunkQueue) where
  abbrev end_case : Bool → Bool → Queues
  end_case true true = some (lims, out, inq)
  end_case true false = do
    (l1, out1) ← append_mem lims out last_chunk
    some (l1, close_out out1, inq)
  end_case false _ = some (lims, out, inq)

  encode_end-case :
      (a b : Bool) → inq.is_closed ≡ a → out.is_closed ≡ b → encode_end lims out inq ≡ end_case a b
  unfolding encode_end
  encode_end-case true true e f =
      ap₂
        (λ x y.
          if x
          then if y then some (lims, out, inq) else end_case true false
          else some (lims, out, inq))
        e f
  encode_end-case true false e f =
      ap₂
        (λ x y.
          if x
          then if y then some (lims, out, inq) else end_case true false
          else some (lims, out, inq))
        e f
  encode_end-case false b e f =
      ap
        (λ x.
          if x
          then if out.is_closed then some (lims, out, inq) else end_case true false
          else some (lims, out, inq))
        e

module _ (lims : Limits) (out inq : ChunkQueue) (qs : List ChunkQueue) (o : IsQueue out)
    (i : IsQueue inq) (w : IsWorld lims (out ∷ inq ∷ qs)) (os : List Octet) (a b : Bool)
    {r : Queues} (h : HasEncoded out inq os b qs r) (at : inq.is_closed ≡ a) where
  abbrev last_octets : List Octet
  last_octets = if a && not b then map byte last_chunk else []

  ended : HasEncoded out inq (os ++ last_octets) (a || b) qs (encode_end h.lims h.out' h.inq')
  ended = go a b (h.in_closed ∙ at) h.out_closed
    where
      same :
          (c : Bool)
          → h.out'.is_closed ≡ c
          → {r' : Queues} → r' ≡ some (h.lims, h.out', h.inq')
          → HasEncoded out inq (os ++ []) c qs r'
      same c e f = record {
        lims = h.lims;
        out' = h.out';
        inq' = h.inq';
        result = f;
        sent = h.sent ∙ ap (◌++◌ (octets out.queue)) (sym (append-nil os));
        emptied = h.emptied;
        out_closed = e;
        in_closed = h.in_closed;
        out_IsQueue = h.out_IsQueue;
        in_IsQueue = h.in_IsQueue;
        world = h.world;
      }

      go :
          (a b : Bool)
          → h.inq'.is_closed ≡ a
          → h.out'.is_closed ≡ b
          → HasEncoded out inq
              (os ++ (if a && not b then map byte last_chunk else []))
              (a || b)
              qs
              (encode_end h.lims h.out' h.inq')
      go true true e f = same true f (encode_end-case h.lims h.out' h.inq' true true e f)
      go false true e f = same true f (encode_end-case h.lims h.out' h.inq' false true e f)
      go false false e f = same false f (encode_end-case h.lims h.out' h.inq' false false e f)
      go true false e f =
          let m =
            append_mem-HasAppended h.lims h.out' (h.inq' ∷ qs) h.out_IsQueue h.world last_chunk in
          record {
            lims = m.lims;
            out' = close_out m.cq';
            inq' = h.inq';
            result = encode_end-case h.lims h.out' h.inq' true false e f ∙ rw m.result refl;
            sent =
                m.octets_are
                ∙ ap (λ xs. xs ++ map byte last_chunk) h.sent
                ∙ append_assoc (octets out.queue) os (map byte last_chunk);
            emptied = h.emptied;
            out_closed = refl;
            in_closed = h.in_closed;
            out_IsQueue = record {
              chunks = m.valid.chunks;
              size_is = m.valid.size_is;
              mem_is = m.valid.mem_is;
              flow = m.valid.flow;
            };
            in_IsQueue = h.in_IsQueue;
            world = record { counted = m.world.counted; locks = m.world.locks };
          }

module _ (lims : Limits) (out inq : ChunkQueue) (qs : List ChunkQueue) (o : IsQueue out)
    (i : IsQueue inq) (w : IsWorld lims (out ∷ inq ∷ qs)) where
  -- On two queues with right counters under right limits, the encoder sends the line that
  -- `chunk_len` writes, all octets of `in` and a line end, if `in` has any, and then, if `in` is
  -- closed and `out` was not, the last chunk.
  pub encode_queues-HasEncoded :
      HasEncoded out inq
        (chunk_octets inq ++ end_octets out inq)
        (inq.is_closed || out.is_closed)
        qs
        (encode_queues lims out inq)
  unfolding encode_queues
  encode_queues-HasEncoded =
      let h = encode_chunk-HasEncoded lims out inq qs o i w in
      let e = ended lims out inq qs o i w (chunk_octets inq) inq.is_closed out.is_closed h refl in
      record {
        lims = e.lims;
        out' = e.out';
        inq' = e.inq';
        result = rw h.result e.result;
        sent = e.sent;
        emptied = e.emptied;
        out_closed = e.out_closed;
        in_closed = e.in_closed;
        out_IsQueue = e.out_IsQueue;
        in_IsQueue = e.in_IsQueue;
        world = e.world;
      }

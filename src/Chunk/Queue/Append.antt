-- ===== src/Chunk/Queue/Append.antt =====
-- The `li_chunkqueue_append_*` functions: new octets at the end of a queue.
use lighttpd.Prelude.{
  ℕ, ◌+◌, ◌-◌, ◌≤◌, ◌≡◌, refl, sym, ap, ◌∙◌, Bool-cases, ==_iff, le→leb, subst, true, Option, some,
  inl, inr, List, [], ◌∷◌, ◌++◌, append-nil, map, Bytes, arith, length, take, drop, ◌==◌, take-all,
}
use lighttpd.Prelude.Int.{pos}
use lighttpd.Chunk.Defs.{
  Body, string_chunk, mem_chunk, file_chunk, buffer_chunk, ChunkQueue, Limits, body_length,
  body_mem, new_chunk,
}
use lighttpd.Chunk.Content.{Octet, byte, file_range, body_octets, octets, IsBody}
use lighttpd.Chunk.Account.{
  total-append, total_mem-append, AreChunks-append, octets-append, IsQueue,
}
use lighttpd.Chunk.World.{IsWorld, cqlimit_update-IsWorld}
use lighttpd.Chunk.Limit.{cqlimit_update}
use lighttpd.Chunk.Queue.{
  push_chunk, append_string, append_bytearr, append_buffer, append_buffer2, append_mem, append_file,
}

-- The octets `os` are now the last ones of the queue.
pub record HasAppended (cq : ChunkQueue) (os : List Octet) (qs : List ChunkQueue)
    (r : Option (Limits × ChunkQueue)) : Type 0 where
  pub lims : Limits
  pub cq' : ChunkQueue
  pub result : r ≡ some (lims, cq')
  pub octets_are : octets cq'.queue ≡ octets cq.queue ++ os
  pub valid : IsQueue cq'
  pub closed_is : cq'.is_closed ≡ cq.is_closed
  pub world : IsWorld lims (cq' ∷ qs)

module _ (lims : Limits) (cq : ChunkQueue) (qs : List ChunkQueue) (q : IsQueue cq)
    (w : IsWorld lims (cq ∷ qs)) where
  HasAppended-nil : HasAppended cq [] qs (some (lims, cq))
  HasAppended-nil = record {
    lims = lims;
    cq' = cq;
    result = refl;
    octets_are = sym (append-nil (octets cq.queue));
    valid = q;
    closed_is = refl;
    world = w;
  }

  push_chunk-HasAppended :
      (b : Body) (n : ℕ)
      → IsBody b 0
      → body_length b 0 ≡ n
      → body_mem b ≡ n
      → HasAppended cq (body_octets b 0) qs (cqlimit_update lims (push_chunk cq b n) (pos n))
  push_chunk-HasAppended b n v l m =
      let (l1, e1, w1) =
        cqlimit_update-IsWorld lims (push_chunk cq b n) (pos n) qs (cq.mem_usage + n) refl
          (record { counted = w.counted; locks = w.locks }) in
      record {
        lims = l1;
        cq' = record (push_chunk cq b n) { mem_usage = cq.mem_usage + n };
        result = e1;
        octets_are =
            octets-append cq.queue (new_chunk b ∷ [])
            ∙ ap (◌++◌ (octets cq.queue)) (append-nil (body_octets b 0));
        closed_is = refl;
        valid = record {
          chunks = AreChunks-append cq.queue (new_chunk b ∷ []) q.chunks (v, omega arith);
          size_is = omega (arith, total-append cq.queue (new_chunk b ∷ []), q.size_is);
          mem_is = omega (arith, total_mem-append cq.queue (new_chunk b ∷ []), q.mem_is);
          flow = omega (arith, q.flow);
        };
        world = w1;
      }

  HasAppended-empty :
      (mem : Bytes) → (length mem == 0) ≡ true → HasAppended cq (map byte mem) qs (some (lims, cq))
  HasAppended-empty [] e = HasAppended-nil
  HasAppended-empty (x ∷ mem) e = absurd (ground (arith, e))

  -- On a queue with right counters under right limits, `li_chunkqueue_append_string` adds the
  -- bytes of the string at the end, the empty string too; no assertion fails, and the counters of
  -- the queue and all limits are right again.
  pub append_string-HasAppended :
      (str : Bytes) → HasAppended cq (map byte str) qs (append_string lims cq str)
  unfolding append_string
  append_string-HasAppended str = elim (Bool-cases (length str == 0)) [
    | inl z ↦ rw z (HasAppended-empty str z)
    | inr nz ↦
        rw nz
          (push_chunk-HasAppended (string_chunk str) (length str) (omega arith) (omega arith) refl)
  ]

  -- The same of `li_chunkqueue_append_mem`, on a queue with right counters under right limits: the
  -- bytes of `mem` are added at the end, no assertion fails, and all counters are right again.
  pub append_mem-HasAppended :
      (mem : Bytes) → HasAppended cq (map byte mem) qs (append_mem lims cq mem)
  unfolding append_mem
  append_mem-HasAppended mem = elim (Bool-cases (length mem == 0)) [
    | inl z ↦ rw z (HasAppended-empty mem z)
    | inr nz ↦
        rw nz (push_chunk-HasAppended (mem_chunk mem) (length mem) (omega arith) (omega arith) refl)
  ]

  -- `li_chunkqueue_append_bytearr`, on a queue with right counters under right limits, adds the
  -- bytes of the array at the end; no assertion fails, and all counters are right again.
  pub append_bytearr-HasAppended :
      (mem : Bytes) → HasAppended cq (map byte mem) qs (append_bytearr lims cq mem)
  unfolding append_bytearr
  append_bytearr-HasAppended mem = elim (Bool-cases (length mem == 0)) [
    | inl z ↦ rw z (HasAppended-empty mem z)
    | inr nz ↦
        rw nz (push_chunk-HasAppended (mem_chunk mem) (length mem) (omega arith) (omega arith) refl)
  ]

  -- `li_chunkqueue_append_buffer2`, on a queue with right counters under right limits, adds `len`
  -- bytes of the buffer from `offset` on, if these lie inside its used part; no assertion fails, and
  -- all counters are right again.
  pub append_buffer2-HasAppended :
      (buffer : Bytes) (offset len : ℕ)
      → offset + len ≤ length buffer
      → HasAppended cq
          (map byte (take len (drop offset buffer)))
          qs
          (append_buffer2 lims cq buffer offset len)
  unfolding append_buffer2
  append_buffer2-HasAppended buffer offset len h = elim (Bool-cases (len == 0)) [
    | inl z ↦ let e : len ≡ 0 = (==_iff len 0).0 z in rw (z, e) HasAppended-nil
    | inr nz ↦
        rw (nz, le→leb _ _ h)
          (push_chunk-HasAppended (buffer_chunk buffer offset len) len (omega arith, h)
            (omega arith) refl)
  ]

  -- `li_chunkqueue_append_buffer`, on a queue with right counters under right limits, adds the used
  -- part of the buffer; no assertion fails, and all counters are right again.
  pub append_buffer-HasAppended :
      (buffer : Bytes) → HasAppended cq (map byte buffer) qs (append_buffer lims cq buffer)
  unfolding append_buffer
  append_buffer-HasAppended buffer = elim (Bool-cases (length buffer == 0)) [
    | inl z ↦ rw z (HasAppended-empty buffer z)
    | inr nz ↦ rw nz (
        subst
          (λ xs. HasAppended cq (map byte xs) qs (
            cqlimit_update lims
              (push_chunk cq (buffer_chunk buffer 0 (length buffer)) (length buffer))
              (pos (length buffer))))
          (take-all (length buffer) buffer (omega arith))
          (push_chunk-HasAppended (buffer_chunk buffer 0 (length buffer)) (length buffer)
            (omega arith, omega arith) (omega arith) refl))
  ]

  -- `li_chunkqueue_append_file`, on a queue with right counters under right limits, adds a range of
  -- the file; the limits stay as they are and are still right, as are the queue's counters.
  pub append_file-HasAppended :
      (file start len : ℕ)
      → HasAppended cq (file_range file start len) qs (some (lims, append_file cq file start len))
  unfolding append_file
  append_file-HasAppended file start len = elim (Bool-cases (len == 0)) [
    | inl z ↦ let e : len ≡ 0 = (==_iff len 0).0 z in rw (z, e) HasAppended-nil
    | inr nz ↦ rw nz (record {
      lims = lims;
      cq' = push_chunk cq (file_chunk file start len) len;
      result = refl;
      octets_are =
          octets-append cq.queue (new_chunk (file_chunk file start len) ∷ [])
          ∙ ap (◌++◌ (octets cq.queue)) (append-nil _ ∙ file_range_zero);
      closed_is = refl;
      valid = record {
        chunks =
            AreChunks-append cq.queue (new_chunk (file_chunk file start len) ∷ []) q.chunks
              (omega arith, omega arith);
        size_is =
            omega (
              arith,
              total-append cq.queue (new_chunk (file_chunk file start len) ∷ []),
              q.size_is,
            );
        mem_is = omega (
          arith,
          total_mem-append cq.queue (new_chunk (file_chunk file start len) ∷ []),
          q.mem_is,
        );
        flow = omega (arith, q.flow);
      };
      world = record { counted = w.counted; locks = w.locks };
    })
  ]
    where
      file_range_zero : file_range file (start + 0) (len - 0) ≡ file_range file start len
      file_range_zero =
          let e : start + 0 ≡ start = omega arith in
          let d : len - 0 ≡ len = omega arith in rw (e, d)

-- ===== src/Chunk/Steal.antt =====
-- src/main/chunk.c: moving data from one chunk queue to another.
pub mod Loop
pub mod Laws
pub mod All
use lighttpd.Prelude.{
  ◌>>=◌, ℕ, zero, ◌+◌, ◌-◌, Bool, true, false, not, Option, none, some, List, [], ◌∷◌, ◌++◌, length,
  take, drop, leb, ◌==◌, if◌then◌else◌,
}
use lighttpd.Prelude.Int.{ℤ, pos, neg}
use lighttpd.Chunk.Defs.{
  Body, unused_chunk, string_chunk, mem_chunk, file_chunk, buffer_chunk, Chunk, ChunkQueue, Limits,
  chunk_length, chunk_mem, body_mem, new_chunk,
}
use lighttpd.Chunk.Limit.{cqlimit_update, charge, release}
use lighttpd.Chunk.Queue.{same_limit}

-- The locals of `li_chunkqueue_steal_len`: the chunks put into `out`, those left in `in`, and the
-- counters. `meminbytes` only falls, so `mem_in` is its absolute value.
pub record Stolen : Type 0 where
  pub moved : List Chunk
  pub rest : List Chunk
  pub bytes : ℕ
  pub mem_in : ℕ
  pub mem_out : ℕ

-- The new chunk for the first n bytes of a longer chunk. An unused chunk has length 0 and is
-- removed before.
unfoldable pub cut_body : Body → ℕ → ℕ → Option Body
cut_body unused_chunk offset n = none
cut_body (string_chunk str) offset n = some (mem_chunk (take n (drop offset str)))
cut_body (mem_chunk mem) offset n = some (mem_chunk (take n (drop offset mem)))
cut_body (file_chunk file start len) offset n = some (file_chunk file (start + offset) n)
cut_body (buffer_chunk buffer start len) offset n = some (buffer_chunk buffer (start + offset) n)

abbrev move_chunk : Chunk → Stolen → Stolen
move_chunk c s = record s {
  moved = c ∷ s.moved;
  bytes = chunk_length c + s.bytes;
  mem_in = chunk_mem c + s.mem_in;
  mem_out = chunk_mem c + s.mem_out;
}

abbrev stop : List Chunk → Stolen
stop rest = record { moved = []; rest = rest; bytes = 0; mem_in = 0; mem_out = 0 }

-- "copy first part of a chunk"
unfoldable pub cut_chunk : Chunk → List Chunk → ℕ → Stolen
unfolding cut_body
cut_chunk c cs len = elim (cut_body c.body c.offset len) [
  | none ↦ stop cs
  | some b ↦ record {
    moved = new_chunk b ∷ [];
    rest = record c { offset = c.offset + len } ∷ cs;
    bytes = len;
    mem_in = 0;
    mem_out = body_mem b;
  }
]

-- The loop of `li_chunkqueue_steal_len`.
unfoldable pub steal_loop : List Chunk → ℕ → Stolen
unfolding cut_chunk
steal_loop [] len = stop []
steal_loop (c ∷ cs) len =
    let whole = steal_loop cs (len - chunk_length c) in
    if len == 0
    then stop (c ∷ cs)
    else if chunk_length c == 0
    then record whole { mem_in = chunk_mem c + whole.mem_in }
    else if leb (chunk_length c) len
    then move_chunk c whole
    else cut_chunk c cs len

-- The limits, then `out` and `in`, and the number of bytes stolen.
abbrev pub Stole : Type 0
Stole = Option (Limits × ChunkQueue × ChunkQueue × ℕ)

abbrev pub take_in : ChunkQueue → List Chunk → ℕ → ChunkQueue
take_in cq cs n = record cq {
  queue = cq.queue ++ cs;
  bytes_in = cq.bytes_in + n;
  size = cq.size + n;
}

abbrev pub give_out : ChunkQueue → List Chunk → ℕ → ChunkQueue
give_out cq rest n = record cq { queue = rest; bytes_out = cq.bytes_out + n; size = cq.size - n }

unfoldable pub steal_len : Limits → ChunkQueue → ChunkQueue → ℕ → Stole
unfolding steal_loop
steal_len lims out inq len = do
  let s = steal_loop inq.queue len
  (lims', out') ← cqlimit_update lims (take_in out s.moved s.bytes) (pos s.mem_out)
  (lims'', inq') ← cqlimit_update lims' (give_out inq s.rest s.bytes) (neg s.mem_in)
  some (lims'', out', inq', s.bytes)

unfoldable pub steal_all : Limits → ChunkQueue → ChunkQueue → Stole
unfolding same_limit
steal_all lims out inq =
    if inq.size == 0
    then some (lims, out, inq, 0)
    else if not (same_limit inq.limit out.limit)
    then (do
      (lims', out') ← cqlimit_update lims out (pos inq.mem_usage)
      (lims'', inq') ← cqlimit_update lims' inq (neg inq.mem_usage)
      some (lims'', take_in out' inq.queue inq.size, give_out inq' [] inq.size, inq.size))
    else some (
      lims,
      record (take_in out inq.queue inq.size) { mem_usage = out.mem_usage + inq.mem_usage },
      record (give_out inq [] inq.size) { mem_usage = 0 },
      inq.size,
    )

-- `li_chunkqueue_steal_chunk`, on the chunks of `in`
steal_first : Limits → ChunkQueue → ChunkQueue → List Chunk → Stole
steal_first lims out inq [] = some (lims, out, inq, 0)
steal_first lims out inq (c ∷ cs) =
    let n = chunk_length c in
    if not (same_limit inq.limit out.limit)
    then (do
      (lims', out') ← charge lims (take_in out (c ∷ []) n) c.body
      (lims'', inq') ← release lims' (give_out inq cs n) c.body
      some (lims'', out', inq', n))
    else some (lims, take_in out (c ∷ []) n, give_out inq cs n, n)

unfoldable pub steal_chunk : Limits → ChunkQueue → ChunkQueue → Stole
unfolding steal_first same_limit
steal_chunk lims out inq = steal_first lims out inq inq.queue

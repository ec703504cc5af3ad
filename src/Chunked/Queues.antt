-- ===== src/Chunked/Queues.antt =====
-- `li_filter_chunked_encode` on its two chunk queues.
pub mod Octets
pub mod Sent
use lighttpd.Prelude.{
  ◌>>=◌, ℕ, Bool, true, false, not, Option, none, some, Bytes, ltb, if◌then◌else◌,
}
use lighttpd.Chunk.Defs.{ChunkQueue, Limits}
use lighttpd.Chunk.Queue.{append_bytearr, append_mem}
use lighttpd.Chunk.Steal.{steal_all}
use lighttpd.Chunked.Encode.{chunk_len, crlf, last_chunk}

-- The limits, `out` and `in`; none is a failed assertion.
abbrev pub Queues : Type 0
Queues = Option (Limits × ChunkQueue × ChunkQueue)

-- `if (in->length > 0)`
unfoldable pub encode_chunk : Limits → ChunkQueue → ChunkQueue → Queues
encode_chunk lims out inq =
    if ltb 0 inq.size
    then (do
      (l1, out1) ← append_bytearr lims out (chunk_len inq.size)
      (l2, out2, in2, n) ← steal_all l1 out1 inq
      (l3, out3) ← append_mem l2 out2 crlf
      some (l3, out3, in2))
    else some (lims, out, inq)

abbrev pub close_out : ChunkQueue → ChunkQueue
close_out out = record out { is_closed = true }

-- `if (in->is_closed)`
unfoldable pub encode_end : Limits → ChunkQueue → ChunkQueue → Queues
encode_end lims out inq =
    if inq.is_closed
    then if out.is_closed
      then some (lims, out, inq)
      else (do (l1, out1) ← append_mem lims out last_chunk; some (l1, close_out out1, inq))
    else some (lims, out, inq)

unfoldable pub encode_queues : Limits → ChunkQueue → ChunkQueue → Queues
unfolding encode_chunk encode_end
encode_queues lims out inq = do (l1, out1, in1) ← encode_chunk lims out inq; encode_end l1 out1 in1

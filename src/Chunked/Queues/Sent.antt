-- ===== src/Chunked/Queues/Sent.antt =====
-- li_filter_chunked_encode: the octets on the wire, written out.
use lighttpd.Prelude.{◌<◌, ◌&&◌, ◌||◌, not, List, Bytes, [], ◌∷◌, ◌++◌, map, ltb, if◌then◌else◌}
use lighttpd.Chunk.Defs.{ChunkQueue, Limits}
use lighttpd.Chunk.Content.{Octet, byte, octets}
use lighttpd.Chunk.Account.{IsQueue}
use lighttpd.Chunk.World.{IsWorld}
use lighttpd.Chunked.Encode.{chunk_len}
use lighttpd.Chunked.Hex.{IsLine, chunk_len-IsLine}
use lighttpd.Chunked.Queues.{Queues, encode_queues}
use lighttpd.Chunked.Queues.Octets.{HasEncoded, encode_queues-HasEncoded}

-- The chunk for the data in `in`, if there is any: the line, the data, and CR and LF.
abbrev pub chunk_after : Bytes → ChunkQueue → List Octet
chunk_after line inq =
    if ltb 0 inq.size then map byte line ++ (octets inq.queue ++ (byte 13 ∷ byte 10 ∷ [])) else []

-- "0", CR, LF, CR and LF, where `in` is closed and `out` is not
abbrev pub end_after : ChunkQueue → ChunkQueue → List Octet
end_after out inq =
    if inq.is_closed && not out.is_closed
    then byte 48 ∷ byte 13 ∷ byte 10 ∷ byte 13 ∷ byte 10 ∷ []
    else []

pub record HasSent (out inq : ChunkQueue) (qs : List ChunkQueue) (r : Queues) : Type 0 where
  pub line : Bytes
  pub is_size : IsLine inq.size line
  pub encoded :
      HasEncoded out inq
        (chunk_after line inq ++ end_after out inq)
        (inq.is_closed || out.is_closed)
        qs
        r

-- On two queues with right counters under right limits, where `in` holds less than 2^32 octets,
-- `li_filter_chunked_encode` sends, if there are any, a line of hexadecimal digits that give their
-- number, ended by CR and LF, all octets of `in`, and CR and LF; then, if `in` is closed and `out`
-- was not, "0" and two line ends, upon which `out` is closed. `in` is empty afterwards, no
-- assertion fails, and all counters and limits are right again.
pub encode_queues-HasSent :
    (lims : Limits) (out inq : ChunkQueue) (qs : List ChunkQueue)
    → IsQueue out
    → IsQueue inq
    → IsWorld lims (out ∷ inq ∷ qs)
    → inq.size < 4294967296
    → HasSent out inq qs (encode_queues lims out inq)
encode_queues-HasSent lims out inq qs o i w h = record {
  line = chunk_len inq.size;
  is_size = chunk_len-IsLine inq.size h;
  encoded = encode_queues-HasEncoded lims out inq qs o i w;
}

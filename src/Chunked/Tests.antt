-- ===== src/Chunked/Tests.antt =====
-- The encoder and the decoder on a few bytes.
use lighttpd.Prelude.{none, ◌+◌, ◌^◌, ◌≡◌, refl, true, false, some, Bytes, [], ◌∷◌, ◌++◌, arith}
use lighttpd.Prelude.Int.{pos, negsuc}
use lighttpd.Chunked.Encode.{chunk_len}
use lighttpd.Chunked.Queues.{encode_queues}
use lighttpd.Chunked.Queues.Sent.{HasSent, encode_queues-HasSent}
use lighttpd.Chunk.Defs.{mem_chunk, ChunkQueue, Limits}
use lighttpd.Chunk.Account.{IsQueue}
use lighttpd.Chunk.World.{IsWorld}
use lighttpd.Chunked.Decode.{copying, eof, Decoded, decode, initial}
use lighttpd.Chunked.Feed.{at, feed, finish}
use lighttpd.Chunked.Feed.Loop.{decode-feed}
use lighttpd.Chunked.Resume.{arrived, decode-resume}
use lighttpd.Chunked.RoundTrip.{send, empty_pipe, empty_output, decode-send}
use lighttpd.Chunked.Wrap.{chunk_len-wraps}

abbrev ok : Bytes
ok = b'o' ∷ b'k' ∷ []

abbrev begun : Bytes
begun = b'2' ∷ b'\r' ∷ b'\n' ∷ b'o' ∷ []

abbrev ended : Bytes
ended = b'k' ∷ b'\r' ∷ b'\n' ∷ b'0' ∷ b'\r' ∷ b'\n' ∷ b'\r' ∷ b'\n' ∷ []

abbrev half : Decoded
half = record {
  success = true;
  state = at copying (pos 1);
  rest = [];
  out = record { bytes = b'o' ∷ []; is_closed = false };
}

decode-send_example :
    decode
      (record {
        bytes = (send (ok ∷ [] ∷ ok ∷ []) empty_pipe).bytes ++ ok;
        is_closed = true;
        broken = false;
      })
      initial
      empty_output
    ≡ some (record {
      success = true;
      state = at eof (pos 0);
      rest = ok;
      out = record { bytes = b'o' ∷ b'k' ∷ b'o' ∷ b'k' ∷ []; is_closed = true };
    })
decode-send_example =
    decode-send (ok ∷ [] ∷ ok ∷ []) ok true false
      (omega arith, (omega arith, (omega arith, omega arith)))

decode-feed_example :
    decode (arrived begun) initial empty_output ≡ some (finish false false (feed begun initial []))
decode-feed_example = decode-feed (arrived begun) initial empty_output

half_lem : decode (arrived begun) initial empty_output ≡ some half
unfolding decode
half_lem = refl

decode-resume_example :
    decode (record { bytes = ended; is_closed = true; broken = false }) half.state half.out
    ≡ decode
        (record { bytes = begun ++ ended; is_closed = true; broken = false })
        initial
        empty_output
decode-resume_example = decode-resume begun ended true false initial empty_output half half_lem refl

chunk_len-wraps_example : chunk_len (16 ^ 8 + 16 ^ 7) ≡ chunk_len (16 ^ 7)
chunk_len-wraps_example = chunk_len-wraps 1 (16 ^ 7) (omega arith)

abbrev no_limits : Limits
no_limits i = record {
  limit = negsuc 0;
  current = 0;
  locked = false;
  reading = none;
  notify = false;
  notified = [];
}

abbrev empty_queue : ChunkQueue
empty_queue = record {
  is_closed = false;
  bytes_in = 0;
  bytes_out = 0;
  size = 0;
  mem_usage = 0;
  limit = none;
  queue = [];
}

abbrev ok_queue : ChunkQueue
ok_queue = record {
  is_closed = true;
  bytes_in = 2;
  bytes_out = 0;
  size = 2;
  mem_usage = 2;
  limit = none;
  queue = record { offset = 0; body = mem_chunk ok } ∷ [];
}

empty_queue-IsQueue : IsQueue empty_queue
empty_queue-IsQueue = record { chunks = omega arith; size_is = refl; mem_is = refl; flow = refl }

ok_queue-IsQueue : IsQueue ok_queue
ok_queue-IsQueue = record {
  chunks = (omega arith, omega arith);
  size_is = refl;
  mem_is = refl;
  flow = refl;
}

queues-IsWorld : IsWorld no_limits (empty_queue ∷ ok_queue ∷ [])
queues-IsWorld = record { counted = λ i. refl; locks = λ i. refl }

encode_queues-HasSent_example :
    HasSent empty_queue ok_queue [] (encode_queues no_limits empty_queue ok_queue)
encode_queues-HasSent_example =
    encode_queues-HasSent no_limits empty_queue ok_queue [] empty_queue-IsQueue ok_queue-IsQueue
      queues-IsWorld (omega arith)

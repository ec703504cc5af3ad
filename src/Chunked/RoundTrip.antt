-- ===== src/Chunked/RoundTrip.antt =====
-- What the encoder writes, the decoder reads back.
use lighttpd.Prelude.{
  ◌^◌, ◌<◌, ◌≤◌, ◌≡◌, refl, sym, ap, ◌∙◌, Bool, true, false, ◌||◌, inl, inr, Bool-cases, some,
  Bytes, List, [], ◌∷◌, ◌++◌, arith, append_assoc, append-nil, length, ltb, if◌then◌else◌,
}
use lighttpd.Prelude.Int.{pos}
use lighttpd.Chunked.Encode.{Pipe, last_chunk, encode, encode_data}
use lighttpd.Chunked.Decode.{new_chunklen, eof, Output, decode, initial}
use lighttpd.Chunked.Feed.{at, feed, finish}
use lighttpd.Chunked.Feed.Loop.{decode-feed}
use lighttpd.Chunked.Wire.{chunk, feed-chunk, feed-last_chunk}

-- One call of the encoder for each batch of data, then one that finds its source closed.
abbrev pub send : List Bytes → Pipe → Pipe
send [] out = (encode out (record { bytes = []; is_closed = true })).0
send (xs ∷ xss) out = send xss (encode out (record { bytes = xs; is_closed = false })).0

abbrev pub joined : List Bytes → Bytes
joined [] = []
joined (xs ∷ xss) = xs ++ joined xss

-- No batch is so long that its length has more than eight digits.
abbrev pub AreShort : List Bytes → Type 0
AreShort [] = 0 ≤ 0
AreShort (xs ∷ xss) = (length xs < 16 ^ 8) × AreShort xss

wire : Bytes → Bytes
wire xs = if ltb 0 (length xs) then chunk xs else []

wires : List Bytes → Bytes
wires [] = last_chunk
wires (xs ∷ xss) = wire xs ++ wires xss

abbrev open_pipe : Bytes → Pipe
open_pipe bs = record { bytes = bs; is_closed = false }

encode-wire :
    (out xs : Bytes)
    → (encode (open_pipe out) (record { bytes = xs; is_closed = false })).0
      ≡ open_pipe (out ++ wire xs)
unfolding encode encode_data wire
encode-wire out xs = elim (Bool-cases (ltb 0 (length xs))) [
  | inl e ↦ rw e
  | inr e ↦ rw e (ap open_pipe (sym (append-nil out)))
]

send-wires :
    (xss : List Bytes) (out : Bytes)
    → send xss (open_pipe out) ≡ record { bytes = out ++ wires xss; is_closed = true }
unfolding wires encode encode_data
send-wires [] out = refl
send-wires (xs ∷ xss) out =
    ap (send xss) (encode-wire out xs)
    ∙ send-wires xss (out ++ wire xs)
    ∙ ap (λ bs. record { bytes = bs; is_closed = true }) (append_assoc out (wire xs) (wires xss))

feed-wire :
    (xs rest out : Bytes)
    → length xs < 16 ^ 8
    → feed (wire xs ++ rest) (at new_chunklen (pos 0)) out
      ≡ feed rest (at new_chunklen (pos 0)) (out ++ xs)
unfolding wire
feed-wire [] rest out h = ap (feed rest (at new_chunklen (pos 0))) (sym (append-nil out))
feed-wire (x ∷ xs) rest out h =
    let e : ltb 0 (length (x ∷ xs)) ≡ true = ground arith in
    rw e (feed-chunk (x ∷ xs) rest out (pos 0) (omega arith) h)

feed-wires :
    (xss : List Bytes) (rest out : Bytes)
    → AreShort xss
    → feed (wires xss ++ rest) (at new_chunklen (pos 0)) out
      ≡ record { state = at eof (pos 0); content = out ++ joined xss; rest = rest }
unfolding wires
feed-wires [] rest out h = rw (append-nil out) (feed-last_chunk rest out (pos 0))
feed-wires (xs ∷ xss) rest out (h, t) =
    ap (λ bs. feed bs (at new_chunklen (pos 0)) out) (append_assoc (wire xs) (wires xss) rest)
    ∙ feed-wire xs (wires xss ++ rest) out h
    ∙ feed-wires xss rest (out ++ xs) t
    ∙ ap (λ bs. record { state = at eof (pos 0); content = bs; rest = rest })
        (append_assoc out xs (joined xss))

abbrev pub empty_pipe : Pipe
empty_pipe = open_pipe []

abbrev pub empty_output : Output
empty_output = record { bytes = []; is_closed = false }

-- However the data is cut into batches shorter than 2^32 bytes, what the encoder writes for them is
-- decoded to the data, closes the output, and leaves what follows in the input.
pub decode-send :
    (xss : List Bytes) (rest : Bytes) (closed broken : Bool)
    → AreShort xss
    → decode
        (record {
          bytes = (send xss empty_pipe).bytes ++ rest;
          is_closed = closed;
          broken = broken;
        })
        initial
        empty_output
      ≡ some (record {
        success = true;
        state = at eof (pos 0);
        rest = rest;
        out = record { bytes = joined xss; is_closed = true };
      })
unfolding finish
decode-send xss rest closed broken h =
    decode-feed
      (record { bytes = (send xss empty_pipe).bytes ++ rest; is_closed = closed; broken = broken })
      initial empty_output
    ∙ ap (λ (p : Pipe). some (finish (broken || closed) false (feed (p.bytes ++ rest) initial [])))
        (send-wires xss [])
    ∙ ap (λ f. some (finish (broken || closed) false f)) (feed-wires xss rest [] h)

-- ===== src/Chunked/Feed/Step.antt =====
-- One round of the decoder's loop against one step of the machine.
use lighttpd.Prelude.{
  ℕ, suc, ◌+◌, ◌≤◌, ◌≡◌, refl, sym, ap, ◌∙◌, ◌||◌, some, Bytes, [], ◌∷◌, arith, drop, drop-drop,
}
use lighttpd.Prelude.Int.{ℤ}
use lighttpd.Chunked.Decode.{
  ParseState, new_chunklen, reading_chunklen, found_r, copying, content_r, eof, failed, Input,
  Output, Ctx, done, read_byte, round, read_len, decode_loop,
}
use lighttpd.Chunked.Feed.{at, go, bite, feed, finish}

-- The bytes not read yet. In `copying` the reader is out of date, and the queue has been skipped.
abbrev pub unread : ParseState → ℕ → Bytes → Bytes
unread copying b q = q
unread _ b q = drop b q

abbrev pub weight : ParseState → ℕ
weight new_chunklen = 1
weight _ = 0

-- The states that begin by reading a byte.
abbrev pub IsReader : ParseState → Type 0
IsReader new_chunklen = ⊥
IsReader copying = ⊥
IsReader eof = ⊥
IsReader failed = ⊥
IsReader _ = 0 ≤ 0

abbrev pub ctx : Bytes → ℕ → ParseState → ℤ → Output → Ctx
ctx q b p n out = record { queue = q; bytes_in = b; state = at p n; out = out }

pub drop-next : (b : ℕ) (q : Bytes) {c : ℕ} {cs : Bytes} → drop b q ≡ c ∷ cs → drop (b + 1) q ≡ cs
drop-next b q e = sym (drop-drop b 1 q) ∙ ap (drop 1) e

-- A reader does with a byte what the machine does, and goes on behind it.
pub record Reads (p : ParseState) (n : ℤ) (c : ℕ) (cs : Bytes) (out : Output) (y : Ctx)
    : Type 0 where
  pub bitten : bite p n c ≡ go y.state []
  pub behind : unread y.state.parse_state y.bytes_in y.queue ≡ cs
  pub same_out : y.out ≡ out

pub unread-read_len :
    (c : ℕ) (n : ℤ) (b : ℕ) (q : Bytes)
    → unread (read_len c (at reading_chunklen n)).parse_state b q ≡ drop b q
unfolding read_len
unread-read_len c n b q = ground arith

pub read_byte-Reads :
    (p : ParseState) (n : ℤ) (q : Bytes) (b c : ℕ) (cs : Bytes) (out : Output)
    → IsReader p
    → drop b q ≡ c ∷ cs
    → Reads p n c cs out (read_byte p c (done (ctx q b p n out)))
unfolding read_byte bite
read_byte-Reads new_chunklen n q b c cs out h e = absurd h
read_byte-Reads copying n q b c cs out h e = absurd h
read_byte-Reads eof n q b c cs out h e = absurd h
read_byte-Reads failed n q b c cs out h e = absurd h
read_byte-Reads reading_chunklen n q b c cs out h e = record {
  bitten = refl;
  behind = unread-read_len c n (b + 1) q ∙ drop-next b q e;
  same_out = refl;
}
read_byte-Reads found_r n q b c cs out h e = record {
  bitten = ground arith;
  behind = ground (arith, drop-next b q e);
  same_out = ground arith;
}
read_byte-Reads content_r n q b c cs out h e = record {
  bitten = ground arith;
  behind = ground (arith, drop-next b q e);
  same_out = ground arith;
}
read_byte-Reads p n q b c cs out h e = record {
  bitten = ground arith;
  behind = ground (arith, drop-next b q e);
  same_out = ground arith;
}

-- Reading past the end.
pub read_end :
    (inp : Input) (p : ParseState) (n : ℤ) (q : Bytes) (b fuel : ℕ) (out : Output)
    → IsReader p
    → drop b q ≡ []
    → decode_loop inp (suc fuel) (ctx q b p n out)
      ≡ some (
          finish
            (inp.broken || inp.is_closed)
            out.is_closed
            (feed (unread p b q) (at p n) out.bytes))
unfolding decode_loop finish feed
read_end inp new_chunklen n q b fuel out h e = absurd h
read_end inp copying n q b fuel out h e = absurd h
read_end inp eof n q b fuel out h e = absurd h
read_end inp failed n q b fuel out h e = absurd h
read_end inp p n q b fuel out h e = rw (e, decode_loop, round) (ground arith)

-- Reading a byte.
pub read_next :
    (inp : Input) (p : ParseState) (n : ℤ) (q : Bytes) (b fuel c : ℕ) (cs : Bytes) (out : Output)
    → IsReader p
    → drop b q ≡ c ∷ cs
    → decode_loop inp (suc fuel) (ctx q b p n out)
      ≡ decode_loop inp fuel (read_byte p c (done (ctx q b p n out)))
unfolding decode_loop
read_next inp new_chunklen n q b fuel c cs out h e = absurd h
read_next inp copying n q b fuel c cs out h e = absurd h
read_next inp eof n q b fuel c cs out h e = absurd h
read_next inp failed n q b fuel c cs out h e = absurd h
read_next inp p n q b fuel c cs out h e = rw (e, decode_loop, round)

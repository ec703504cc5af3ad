-- ===== src/Chunked/Feed/Loop.antt =====
-- The loop of the decoder does what the machine does.
use lighttpd.Prelude.{
  ℕ, zero, suc, ◌+◌, ◌-◌, ◌*◌, ◌≤◌, ◌<◌, ◌≡◌, refl, sym, ap, ◌∙◌, Bool, ◌||◌, some, Bytes, [], ◌∷◌,
  ◌++◌, arith, append_assoc, append-nil, length, take, drop, min, drop-all, length-drop,
}
use lighttpd.Prelude.Int.{ℤ, pos, negsuc}
use lighttpd.Chunked.Decode.{
  ParseState, new_chunklen, reading_chunklen, copying, eof, failed, State, Input, Output, Ctx, done,
  read_byte, round, decode_loop, decode,
}
use lighttpd.Chunked.Feed.Step.{
  unread, weight, IsReader, ctx, drop-next, Reads, read_byte-Reads, read_end, read_next,
}
use lighttpd.Chunked.Feed.{at, go, bite, feed, finish}

-- Copying k bytes at once is copying them one by one.
feed-copying :
    (k n : ℕ) (bs out : Bytes)
    → k ≤ n
    → k ≤ length bs
    → feed bs (at copying (pos n)) out
      ≡ feed (drop k bs) (at copying (pos (n - k))) (out ++ take k bs)
unfolding feed
feed-copying zero n bs out h l = let e : n - 0 ≡ n = omega arith in rw (e, append-nil out) refl
feed-copying (suc k) zero bs out h l = elim h [ ]
feed-copying (suc k) (suc n) [] out h l = elim l [ ]
feed-copying (suc k) (suc n) (c ∷ bs) out h l =
    let e : suc n - suc k ≡ n - k = omega arith in
    rw e (
      feed-copying k n bs (out ++ (c ∷ [])) (omega arith) (omega arith)
      ∙ ap (feed (drop k bs) (at copying (pos (n - k)))) (append_assoc out (c ∷ []) (take k bs)))

feed-next :
    (p : ParseState) (n : ℤ) (c : ℕ) (cs out : Bytes) (s : State)
    → bite p n c ≡ go s []
    → feed (c ∷ cs) (at p n) out ≡ feed cs s out
unfolding feed
feed-next p n c cs out s e = rw (e, feed) (ap (feed cs s) (append-nil out))

copied-Reads :
    (c : ℕ) (q cs : Bytes) (out : Output)
    → q ≡ c ∷ cs
    → Reads copying (pos 0) c cs out (read_byte copying c (done (ctx q 0 copying (pos 0) out)))
unfolding read_byte bite
copied-Reads c q cs out e = record {
  bitten = ground arith;
  behind = ground (arith, drop-next 0 q e);
  same_out = ground arith;
}

pub stop_eof :
    (bs : Bytes) (n : ℤ) (out : Bytes)
    → feed bs (at eof n) out ≡ record { state = at eof n; content = out; rest = bs }
unfolding feed
stop_eof [] n out = refl
stop_eof (c ∷ bs) n out = refl

stop_failed :
    (bs : Bytes) (n : ℤ) (out : Bytes)
    → feed bs (at failed n) out ≡ record { state = at failed n; content = out; rest = bs }
unfolding feed
stop_failed [] n out = refl
stop_failed (c ∷ bs) n out = refl

stop_copying :
    (bs : Bytes) (n : ℕ) (out : Bytes)
    → feed bs (at copying (negsuc n)) out
      ≡ record { state = at copying (negsuc n); content = out; rest = bs }
unfolding feed
stop_copying [] n out = refl
stop_copying (c ∷ bs) n out = refl

weight-le : (p : ParseState) → weight p ≤ 1
weight-le new_chunklen = omega arith
weight-le _ = omega arith

-- Resetting the length takes no byte.
pub start_chunk :
    (ended : Bool) (bs : Bytes) (n : ℤ) (closed : Bool) (out : Bytes)
    → finish ended closed (feed bs (at reading_chunklen (negsuc 0)) out)
      ≡ finish ended closed (feed bs (at new_chunklen n) out)
unfolding finish feed
start_chunk ended [] n closed out = refl
start_chunk ended (c ∷ bs) n closed out = refl

module _ (inp : Input) where
  -- What the loop has to return, from any point where it has fuel for the bytes that are left.
  abbrev Returns : ℕ → Ctx → Type 0
  Returns fuel x =
      weight x.state.parse_state + 2 * length (unread x.state.parse_state x.bytes_in x.queue) < fuel
      → decode_loop inp fuel x
        ≡ some (
            finish (inp.broken || inp.is_closed) x.out.is_closed
              (feed (unread x.state.parse_state x.bytes_in x.queue) x.state x.out.bytes))

  joined :
      (p : ParseState) (n : ℤ) (c : ℕ) (cs : Bytes) (out : Output) (y : Ctx)
      → Reads p n c cs out y
      → finish
          (inp.broken || inp.is_closed)
          y.out.is_closed
          (feed (unread y.state.parse_state y.bytes_in y.queue) y.state y.out.bytes)
        ≡ finish (inp.broken || inp.is_closed) out.is_closed (feed (c ∷ cs) (at p n) out.bytes)
  joined p n c cs out y d = cc (
    d.behind,
    ap (λ (o : Output). o.bytes) d.same_out,
    ap (λ (o : Output). o.is_closed) d.same_out,
    feed-next p n c cs out.bytes y.state d.bitten,
  )

  reader-Returns :
      (fuel : ℕ) (q : Bytes) (b : ℕ) (p : ParseState) (n : ℤ) (out : Output)
      → IsReader p
      → unread p b q ≡ drop b q
      → ((y : Ctx) → Returns fuel y)
      → Returns (suc fuel) (ctx q b p n out)
  unfolding feed
  reader-Returns fuel q b p n out r u ih lt = go_on (drop b q) refl
    where
      go_on :
          (bs : Bytes)
          → drop b q ≡ bs
          → decode_loop inp (suc fuel) (ctx q b p n out)
            ≡ some (
                finish
                  (inp.broken || inp.is_closed)
                  out.is_closed
                  (feed (unread p b q) (at p n) out.bytes))
      go_on [] e = read_end inp p n q b fuel out r e
      go_on (c ∷ cs) e =
          let y = read_byte p c (done (ctx q b p n out)) in
          let d = read_byte-Reads p n q b c cs out r e in
          let w = weight-le y.state.parse_state in
          read_next inp p n q b fuel c cs out r e
          ∙ ih y (omega (arith, ap length d.behind, ap length (u ∙ e)))
          ∙ ap some (joined p n c cs out y d ∙ rw (u, e))

  abbrev copied : ℕ → Bytes → Output → Output
  copied n q out = record { bytes = out.bytes ++ take n q; is_closed = out.is_closed }

  -- The chunk goes on behind the bytes at hand.
  copy_stay :
      (fuel : ℕ) (q : Bytes) (b n k : ℕ) (out : Output)
      → n - length q ≡ suc k
      → decode_loop inp (suc fuel) (ctx q b copying (pos n) out)
        ≡ some (
            finish
              (inp.broken || inp.is_closed)
              out.is_closed
              (feed q (at copying (pos n)) out.bytes))
  unfolding decode_loop finish feed
  copy_stay fuel q b n k out h =
      let m : min n (length q) ≡ length q = omega arith in
      let f = feed-copying (length q) n q out.bytes (omega arith) (omega arith) in
      rw f (rw (m, h, drop-all (length q) q (omega arith), decode_loop, round))

  -- It ends with them.
  copy_end :
      (fuel : ℕ) (q : Bytes) (b n : ℕ) (out : Output)
      → length q ≡ n
      → decode_loop inp (suc fuel) (ctx q b copying (pos n) out)
        ≡ some (
            finish
              (inp.broken || inp.is_closed)
              out.is_closed
              (feed q (at copying (pos n)) out.bytes))
  unfolding decode_loop finish feed
  copy_end fuel q b n out h =
      let m : min n (length q) ≡ n = omega arith in
      let z : n - n ≡ 0 = omega arith in
      let f = feed-copying n n q out.bytes (omega arith) (omega arith) in
      rw f (rw (m, z, drop-all n q (omega arith), decode_loop, round) (ground arith))

  -- It ends before them.
  copy_next :
      (fuel : ℕ) (q : Bytes) (b n c : ℕ) (cs : Bytes) (out : Output)
      → n ≤ length q
      → drop n q ≡ c ∷ cs
      → decode_loop inp (suc fuel) (ctx q b copying (pos n) out)
        ≡ decode_loop inp fuel
            (read_byte copying c (done (ctx (drop n q) 0 copying (pos 0) (copied n q out))))
  unfolding decode_loop
  copy_next fuel q b n c cs out h e =
      let m : min n (length q) ≡ n = omega arith in
      let z : n - n ≡ 0 = omega arith in rw (m, z, decode_loop, round) (rw (e, decode_loop, round))

  copying-Returns :
      (fuel : ℕ) (q : Bytes) (b n : ℕ) (out : Output)
      → ((y : Ctx) → Returns fuel y)
      → Returns (suc fuel) (ctx q b copying (pos n) out)
  copying-Returns fuel q b n out ih lt = split (n - length q) refl (drop n q) refl
    where
      after :
          (c : ℕ) (cs : Bytes)
          → n ≤ length q
          → drop n q ≡ c ∷ cs
          → finish
              (inp.broken || inp.is_closed)
              out.is_closed
              (feed (c ∷ cs) (at copying (pos 0)) (out.bytes ++ take n q))
            ≡ finish
                (inp.broken || inp.is_closed)
                out.is_closed
                (feed q (at copying (pos n)) out.bytes)
      after c cs h e =
          let f = feed-copying n n q out.bytes (omega arith) h in
          let z : n - n ≡ 0 = omega arith in
          ap (finish (inp.broken || inp.is_closed) out.is_closed) (sym (f ∙ rw (z, e)))

      split :
          (k : ℕ)
          → n - length q ≡ k
          → (bs : Bytes) → drop n q ≡ bs
          → decode_loop inp (suc fuel) (ctx q b copying (pos n) out)
            ≡ some (
                finish
                  (inp.broken || inp.is_closed)
                  out.is_closed
                  (feed q (at copying (pos n)) out.bytes))
      split (suc k) h bs e = copy_stay fuel q b n k out h
      split zero h [] e = copy_end fuel q b n out (omega (arith, length-drop n q, ap length e))
      split zero h (c ∷ cs) e =
          let y = read_byte copying c (done (ctx (drop n q) 0 copying (pos 0) (copied n q out))) in
          let d = copied-Reads c (drop n q) cs (copied n q out) e in
          copy_next fuel q b n c cs out (omega arith) e
          ∙ ih y (
              omega (
                arith,
                weight-le y.state.parse_state,
                ap length d.behind,
                length-drop n q,
                ap length e,
              ))
          ∙ ap some (joined copying (pos 0) c cs (copied n q out) y d ∙ after c cs (omega arith) e)

  loop-Returns :
      (fuel : ℕ) (q : Bytes) (b : ℕ) (p : ParseState) (n : ℤ) (out : Output)
      → Returns fuel (ctx q b p n out)
  unfolding decode_loop finish
  loop-Returns zero q b p n out lt = elim lt [ ]
  loop-Returns (suc fuel) q b new_chunklen n out lt =
      loop-Returns fuel q b reading_chunklen (negsuc 0) out (omega arith)
      ∙ ap some (start_chunk (inp.broken || inp.is_closed) (drop b q) n out.is_closed out.bytes)
  loop-Returns (suc fuel) q b copying (pos n) out lt =
      copying-Returns fuel q b n out
        (λ y. loop-Returns fuel y.queue y.bytes_in y.state.parse_state y.state.cur_chunklen y.out)
        lt
  loop-Returns (suc fuel) q b copying (negsuc n) out lt = rw (stop_copying q n out.bytes)
  loop-Returns (suc fuel) q b eof n out lt = rw (stop_eof (drop b q) n out.bytes)
  loop-Returns (suc fuel) q b failed n out lt = rw (stop_failed (drop b q) n out.bytes)
  loop-Returns (suc fuel) q b p n out lt =
      reader-Returns fuel q b p n out (omega arith) refl
        (λ y. loop-Returns fuel y.queue y.bytes_in y.state.parse_state y.state.cur_chunklen y.out)
        lt

unread_zero : (p : ParseState) (q : Bytes) → unread p 0 q ≡ q
unread_zero copying q = refl
unread_zero _ q = refl

-- From every state and on every input, `li_filter_chunked_decode` returns within two rounds for each
-- byte and three more, and returns what the machine that is fed the input byte by byte says.
pub decode-feed :
    (inp : Input) (s : State) (out : Output)
    → decode inp s out
      ≡ some (finish (inp.broken || inp.is_closed) out.is_closed (feed inp.bytes s out.bytes))
unfolding decode
decode-feed inp s out =
    loop-Returns inp (2 * length inp.bytes + 3) inp.bytes 0 s.parse_state s.cur_chunklen out
      (omega (arith, weight-le s.parse_state, ap length (unread_zero s.parse_state inp.bytes)))
    ∙ ap (λ bs. some (finish (inp.broken || inp.is_closed) out.is_closed (feed bs s out.bytes)))
        (unread_zero s.parse_state inp.bytes)

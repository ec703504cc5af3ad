-- ===== src/Chunked/Feed.antt =====
-- The decoder of the chunked encoding as a machine that is fed one byte at a time.
mod Step
pub mod Loop
use lighttpd.Prelude.{
  ℕ, zero, suc, ◌+◌, Bool, true, false, ◌||◌, ◌⊎◌, inl, inr, Bytes, [], ◌∷◌, ◌++◌, ◌≡◌, refl, ◌==◌,
  if◌then◌else◌, append_assoc, append-nil, arith,
}
use lighttpd.Prelude.Int.{ℤ, pos, negsuc, leb_zero}
use lighttpd.Chunked.Decode.{
  ParseState, new_chunklen, reading_chunklen, found_r, copying, content_r, wait_rnrn, wait_nrn,
  wait_rn, wait_n, eof, failed, State, Input, Output, Decoded, read_len,
}

-- A byte is refused, or leads to a state and a piece of content.
pub data Bite : Type 0 where
  stop : Bite
  go : State → Bytes → Bite

abbrev pub at : ParseState → ℤ → State
at p n = record { parse_state = p; cur_chunklen = n }

abbrev move : Bool → ParseState → ParseState → ℤ → Bite
move b p q n = go (at (if b then p else q) n) []

unfoldable pub bite : ParseState → ℤ → ℕ → Bite
bite new_chunklen n c = go (read_len c (at reading_chunklen (negsuc 0))) []
bite reading_chunklen n c = go (read_len c (at reading_chunklen n)) []
bite found_r n c = move (c == b'\n') (if leb_zero n then wait_rn else copying) failed n
bite copying (pos zero) c = move (c == b'\r') content_r failed (pos 0)
bite copying (pos (suc n)) c = go (at copying (pos n)) (c ∷ [])
bite copying (negsuc n) c = stop
bite content_r n c = move (c == b'\n') new_chunklen failed n
bite wait_rnrn n c = move (c == b'\r') wait_nrn wait_rnrn n
bite wait_nrn n c = move (c == b'\n') wait_rn wait_rnrn n
bite wait_rn n c = move (c == b'\r') wait_n wait_rnrn n
bite wait_n n c = move (c == b'\n') eof wait_rnrn n
bite eof n c = stop
bite failed n c = stop

pub record Fed : Type 0 where
  pub state : State
  pub content : Bytes
  pub rest : Bytes

unfoldable pub feed : Bytes → State → Bytes → Fed
unfolding bite
feed [] s out = record { state = s; content = out; rest = [] }
feed (c ∷ cs) s out = elim (bite s.parse_state s.cur_chunklen c) [
  | stop ↦ record { state = s; content = out; rest = c ∷ cs }
  | go t o ↦ feed cs t (out ++ o)
]

pub Bite-cases : (b : Bite) → (b ≡ stop) ⊎ ((t : State) × (o : Bytes) × (b ≡ go t o))
Bite-cases stop = inl refl
Bite-cases (go t o) = inr (t, o, refl)

pub feed-stop :
    (c : ℕ) (xs : Bytes) (s : State) (out : Bytes)
    → bite s.parse_state s.cur_chunklen c ≡ stop
    → feed (c ∷ xs) s out ≡ record { state = s; content = out; rest = c ∷ xs }
unfolding feed
feed-stop c xs s out e = rw (e, feed)

pub feed-go :
    (c : ℕ) (xs : Bytes) (s t : State) (out o : Bytes)
    → bite s.parse_state s.cur_chunklen c ≡ go t o
    → feed (c ∷ xs) s out ≡ feed xs t (out ++ o)
unfolding feed
feed-go c xs s t out o e = rw (e, feed)

abbrev pub give_up : ℤ → Bytes → Decoded
give_up n content = record {
  success = false;
  state = at failed n;
  rest = [];
  out = record { bytes = content; is_closed = true };
}

abbrev wait : Bool → Bool → ParseState → ℤ → Bytes → Decoded
wait ended closed p n content = if ended then give_up n content else record {
  success = true;
  state = at p n;
  rest = [];
  out = record { bytes = content; is_closed = closed };
}

abbrev stay : Bool → ParseState → ℤ → Bytes → Bytes → Decoded
stay closed p n content rest = record {
  success = true;
  state = at p n;
  rest = rest;
  out = record { bytes = content; is_closed = closed };
}

-- What a call returns once all bytes are eaten or one is refused. In the middle of a chunk the
-- call waits for more, also if the source has ended, that is, is closed or broken.
unfoldable pub answer : Bool → Bool → ParseState → ℤ → Bytes → Bytes → Decoded
answer ended closed new_chunklen n content rest =
    wait ended closed reading_chunklen (negsuc 0) content
answer ended closed copying (pos zero) content rest = wait ended closed copying (pos 0) content
answer ended closed copying n content rest = stay closed copying n content rest
answer ended closed eof n content rest = stay true eof n content rest
answer ended closed failed n content rest = give_up n content
answer ended closed p n content rest = wait ended closed p n content

unfoldable pub finish : Bool → Bool → Fed → Decoded
unfolding answer
finish ended closed f =
    answer ended closed f.state.parse_state f.state.cur_chunklen f.content f.rest

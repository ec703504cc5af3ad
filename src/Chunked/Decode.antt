-- ===== src/Chunked/Decode.antt =====
-- `li_filter_chunked_decode`, on the bytes of the queue `in`. The reader of
-- src/main/chunk_parser.c is its position `bytes_in` in that queue.
use lighttpd.Prelude.{
  ℕ, zero, suc, ◌+◌, ◌-◌, ◌*◌, ◌/◌, ◌^◌, Bool, true, false, ◌&&◌, ◌||◌, Option, none, some, Bytes,
  [], ◌∷◌, ◌++◌, length, take, drop, min, leb, ltb, ◌==◌, if◌then◌else◌,
}
use lighttpd.Prelude.Int.{ℤ, pos, negsuc, leb_zero}

-- `parse_state`: 0 to 4, 10 to 14 and 20.
pub data ParseState : Type 0 where
  new_chunklen reading_chunklen found_r copying content_r : ParseState
  wait_rnrn wait_nrn wait_rn wait_n eof failed : ParseState

-- `liFilterChunkedDecodeState`
pub record State : Type 0 where
  pub parse_state : ParseState
  pub cur_chunklen : ℤ

-- The queue `in`. `broken` is a source of which the next read fails.
pub record Input : Type 0 where
  pub bytes : Bytes
  pub is_closed : Bool
  pub broken : Bool

pub record Output : Type 0 where
  pub bytes : Bytes
  pub is_closed : Bool

-- The locals of the function with the objects it changes.
pub record Ctx : Type 0 where
  pub queue : Bytes
  pub bytes_in : ℕ
  pub state : State
  pub out : Output

abbrev pub goto_state : Ctx → ParseState → Ctx
goto_state x p = record x {
  state = record { parse_state = p; cur_chunklen = x.state.cur_chunklen };
}

abbrev pub set_len : Ctx → ParseState → ℤ → Ctx
set_len x p n = record x { state = record { parse_state = p; cur_chunklen = n } }

-- `li_chunkqueue_skip(in, ctx.bytes_in)`
abbrev pub skip_done : Ctx → Ctx
skip_done x = record x { queue = drop x.bytes_in x.queue }

-- `li_chunk_parser_reset`
abbrev pub reset : Ctx → Ctx
reset x = record x { bytes_in = 0 }

-- `li_chunk_parser_done(&ctx, 1)`
abbrev pub done : Ctx → Ctx
done x = record x { bytes_in = x.bytes_in + 1 }

-- One round of the loop: go on, or return.
pub data Round : Type 0 where
  next : Ctx → Round
  leave : Ctx → Round
  error : Ctx → Round
  stay : Ctx → Round

abbrev int64_max : ℕ
int64_max = 2 ^ 63 - 1

-- The value of a hexadecimal digit.
unfoldable pub hex_value : ℕ → Option ℕ
hex_value c =
    if leb b'0' c && leb c b'9'
    then some (c - b'0')
    else if leb b'a' c && leb c b'f'
    then some (c - b'a' + 10)
    else if leb b'A' c && leb c b'F'
    then some (c - b'A' + 10)
    else none

-- The length with one more digit, unless that overflows.
unfoldable pub add_digit : ℤ → ℕ → Option ℤ
add_digit (negsuc _) digit = some (pos digit)
add_digit (pos n) digit =
    if ltb ((int64_max - digit) / 16) n then none else some (pos (16 * n + digit))

-- `case 1` on the byte read
unfoldable pub read_len : ℕ → State → State
unfolding hex_value add_digit
read_len c s = elim (hex_value c) [
  | some digit ↦ elim (add_digit s.cur_chunklen digit) [
    | some n ↦ record s { cur_chunklen = n }
    | none ↦ record s { parse_state = failed }
  ]
  | none ↦
      (if c == b'\r'
        then (if is_unset s.cur_chunklen
            then record s { parse_state = failed }
            else record s { parse_state = found_r })
        else record s { parse_state = failed })
]
  where
    is_unset : ℤ → Bool
    is_unset (pos n) = false
    is_unset (negsuc n) = true

-- `case 2` on the byte read
read_n : ℕ → Ctx → Ctx
read_n c x =
    if c == b'\n'
    then if leb_zero x.state.cur_chunklen
      then goto_state (reset (skip_done x)) wait_rn
      else goto_state (skip_done x) copying
    else goto_state x failed

-- `case 4` on the byte read
read_content_n : ℕ → Ctx → Ctx
read_content_n c x =
    if c == b'\n' then goto_state (reset (skip_done x)) new_chunklen else goto_state x failed

abbrev choose : Bool → ParseState → Ctx → Ctx
choose b p x = goto_state x (if b then p else wait_rnrn)

-- What each state does with the byte that it reads, which is marked as done.
unfoldable pub read_byte : ParseState → ℕ → Ctx → Ctx
unfolding read_len read_n read_content_n
read_byte reading_chunklen c x = record x { state = read_len c x.state }
read_byte found_r c x = read_n c x
read_byte copying c x = goto_state x (if c == b'\r' then content_r else failed)
read_byte content_r c x = read_content_n c x
read_byte wait_rnrn c x = choose (c == b'\r') wait_nrn x
read_byte wait_nrn c x = choose (c == b'\n') wait_rn x
read_byte wait_rn c x = choose (c == b'\r') wait_n x
read_byte wait_n c x = choose (c == b'\n') eof x
read_byte _ c x = x

-- `read_char`, then the rest of the case
read_char : Input → ParseState → Bytes → Ctx → Round
unfolding read_byte
read_char inp p [] x = if inp.broken || inp.is_closed then error x else leave x
read_char inp p (c ∷ _) x = next (read_byte p c (done x))

-- `case 3` from the second `if` on; the flag is `cur_chunklen == 0`
after_copy : Input → ℤ → Ctx → Round
unfolding read_char
after_copy inp (pos zero) x = read_char inp copying (drop 0 x.queue) (reset x)
after_copy inp n x = stay x

-- `case 3`: `cur_chunklen -= li_chunkqueue_steal_len(out, in, cur_chunklen)`
steal : ℤ → Ctx → Ctx
steal (negsuc n) x = x
steal (pos n) x =
    let k = min n (length x.queue) in
    record x {
      queue = drop k x.queue;
      state = record { parse_state = x.state.parse_state; cur_chunklen = pos (n - k) };
      out = record { bytes = x.out.bytes ++ take k x.queue; is_closed = x.out.is_closed };
    }

unfoldable pub round : Input → ParseState → Ctx → Round
unfolding read_char after_copy steal
round inp new_chunklen x = next (set_len x reading_chunklen (negsuc 0))
round inp copying x = let y = steal x.state.cur_chunklen x in after_copy inp y.state.cur_chunklen y
round inp eof x = leave (record x { out = record { bytes = x.out.bytes; is_closed = true } })
round inp failed x = error x
round inp p x = read_char inp p (drop x.bytes_in x.queue) x

-- The result of a call: what it returns, the state, and the queues.
pub record Decoded : Type 0 where
  pub success : Bool
  pub state : State
  pub rest : Bytes
  pub out : Output

abbrev pub give_up : Ctx → Decoded
give_up x = record {
  success = false;
  state = record { parse_state = failed; cur_chunklen = x.state.cur_chunklen };
  rest = [];
  out = record { bytes = x.out.bytes; is_closed = true };
}

abbrev pub accept : Ctx → Bytes → Decoded
accept x rest = record { success = true; state = x.state; rest = rest; out = x.out }

unfoldable pub decode_loop : Input → ℕ → Ctx → Option Decoded
unfolding round
decode_loop inp zero x = none
decode_loop inp (suc fuel) x = elim (round inp x.state.parse_state x) [
  | next y ↦ decode_loop inp fuel y
  | leave y ↦ some (accept y (drop y.bytes_in y.queue))
  | stay y ↦ some (accept y y.queue)
  | error y ↦ some (give_up y)
]

-- Each byte takes two rounds at most.
unfoldable pub decode : Input → State → Output → Option Decoded
unfolding decode_loop
decode inp s out =
    decode_loop inp (2 * length inp.bytes + 3)
      (record { queue = inp.bytes; bytes_in = 0; state = s; out = out })

abbrev pub initial : State
initial = record { parse_state = new_chunklen; cur_chunklen = pos 0 }

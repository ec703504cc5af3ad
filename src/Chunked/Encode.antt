-- ===== src/Chunked/Encode.antt =====
-- `li_filter_chunked_encode` and `http_chunk_append_len`, on the bytes of the two queues.
use lighttpd.Prelude.{
  ℕ, zero, suc, ◌+◌, ◌-◌, ◌/◌, ◌%◌, Bool, true, Bytes, [], ◌∷◌, ◌++◌, length, leb, ltb, ◌==◌,
  if◌then◌else◌,
}

-- The first loop: one digit for each time that `len` can be shifted, at most as many as there are
-- rounds.
unfoldable pub hex_length : ℕ → ℕ → ℕ
hex_length zero len = 0
hex_length (suc rounds) len = if len == 0 then 0 else suc (hex_length rounds (len / 16))

abbrev pub hex_digit : ℕ → ℕ
hex_digit d = d + (if leb d 9 then b'0' else b'a' - 10)

-- The second loop writes i digits, the last one first.
unfoldable pub hex_digits : ℕ → ℕ → Bytes
hex_digits zero len = []
hex_digits (suc j) len = hex_digits j (len / 16) ++ (hex_digit (len % 16) ∷ [])

unfoldable pub chunk_len : ℕ → Bytes
unfolding hex_length hex_digits
chunk_len len = hex_digits (hex_length 8 len) len ++ (b'\r' ∷ b'\n' ∷ [])

-- The bytes of a queue that matter here.
pub record Pipe : Type 0 where
  pub bytes : Bytes
  pub is_closed : Bool

abbrev pub crlf : Bytes
crlf = b'\r' ∷ b'\n' ∷ []

abbrev pub last_chunk : Bytes
last_chunk = b'0' ∷ b'\r' ∷ b'\n' ∷ b'\r' ∷ b'\n' ∷ []

unfoldable pub encode_data : Bytes → Bytes → Bytes
unfolding chunk_len
encode_data out inb =
    if ltb 0 (length inb) then out ++ (chunk_len (length inb) ++ (inb ++ crlf)) else out

-- The new `out` and `in`; the result is always LI_HANDLER_GO_ON.
unfoldable pub encode : Pipe → Pipe → Pipe × Pipe
unfolding encode_data
encode out inp =
    let sent : Pipe = record {
      bytes = encode_data out.bytes inp.bytes;
      is_closed = out.is_closed;
    } in
    let emptied : Pipe = record { bytes = []; is_closed = inp.is_closed } in
    if inp.is_closed
    then if out.is_closed
      then (sent, emptied)
      else (record { bytes = sent.bytes ++ last_chunk; is_closed = true }, emptied)
    else (sent, emptied)

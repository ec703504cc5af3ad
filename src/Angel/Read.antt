-- ===== src/Angel/Read.antt =====
-- common/angel_data.c: the functions that read a value from the buffer.
use lighttpd.Prelude.{ℕ, ◌-◌, Bool, ◌||◌, Option, none, some, Bytes, ltb, leb, if◌then◌else◌}
use lighttpd.Angel.Defs.{
  max_str_len, AngelBuffer, eof, invalid_string_length, done, failed, from_bytes, remaining,
  advance, bytes_at, ReadOf,
}

-- The bytes are copy_bytes, and `pos` moves behind them.
abbrev pub copy_bytes : {A : Type 0} → (Bytes → A) → AngelBuffer → ℕ → Option Bytes → ReadOf A
copy_bytes f b n none = none
copy_bytes f b n (some bs) = some (done (f bs) (advance n b))

-- `li_angel_data_read_int32`
unfoldable pub data_read_int32 : AngelBuffer → ReadOf ℕ
data_read_int32 b =
    if ltb (remaining b) 4 then some (failed eof b) else copy_bytes from_bytes b 4 (bytes_at b 4)

-- `li_angel_data_read_int64`
unfoldable pub data_read_int64 : AngelBuffer → ReadOf ℕ
data_read_int64 b =
    if ltb (remaining b) 8 then some (failed eof b) else copy_bytes from_bytes b 8 (bytes_at b 8)

-- `li_angel_data_read_char`
unfoldable pub data_read_char : AngelBuffer → ReadOf ℕ
data_read_char b =
    if ltb (remaining b) 1 then some (failed eof b) else copy_bytes from_bytes b 1 (bytes_at b 1)

-- `li_angel_data_read_mem`
unfoldable pub data_read_mem : AngelBuffer → ℕ → ReadOf Bytes
data_read_mem b len =
    if ltb (remaining b) len
    then some (failed eof b)
    else copy_bytes (λ bs. bs) b len (bytes_at b len)

-- `buf->pos -= sizeof(gint32)`
abbrev pub step_back : AngelBuffer → AngelBuffer
step_back b = record b { pos = b.pos - 4 }

-- `data_read_str` after `data_read_mem`
abbrev pub after_mem : ReadOf Bytes → ReadOf Bytes
after_mem none = none
after_mem (some (done s b)) = some (done s b)
after_mem (some (failed e b)) = some (failed e (step_back b))

-- `ilen < 0 || ilen > LI_ANGEL_DATA_MAX_STR_LEN`
abbrev pub is_bad_length : ℕ → Bool
is_bad_length ilen = leb 2147483648 ilen || ltb max_str_len ilen

-- `data_read_str` after the length, whose bytes are given
abbrev pub read_body : AngelBuffer → Option Bytes → ReadOf Bytes
read_body b none = none
read_body b (some bs) =
    let ilen = from_bytes bs in
    if is_bad_length ilen
    then some (failed invalid_string_length (step_back b))
    else after_mem (data_read_mem b ilen)

-- `li_angel_data_read_str`
unfoldable pub data_read_str : AngelBuffer → ReadOf Bytes
unfolding data_read_mem
data_read_str b =
    if ltb (remaining b) 4 then some (failed eof b) else read_body (advance 4 b) (bytes_at b 4)

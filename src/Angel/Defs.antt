-- ===== src/Angel/Defs.antt =====
-- common/angel_data.c: values in a buffer, as the workers and the angel send them to each other.
-- A gint32 or a gint64 is the unsigned number with the same bits, and its bytes are those of a
-- little-endian machine; sizes are `gsize` of 64 bits.
use lighttpd.Prelude.{
  ℕ, zero, suc, ◌+◌, ◌-◌, ◌*◌, ◌/◌, ◌%◌, Bool, Option, none, some, [], ◌∷◌, ◌++◌, Bytes, length,
  take, drop, ltb, leb, if◌then◌else◌,
}

-- `LI_ANGEL_DATA_MAX_STR_LEN`
abbrev pub max_str_len : ℕ
max_str_len = 1024

-- `liAngelBuffer`; `content` is the `data` of the source.
pub record AngelBuffer : Type 0 where
  pub content : Bytes
  pub pos : ℕ

-- `liAngelDataError`
pub data AngelError : Type 0 where
  eof : AngelError
  invalid_string_length : AngelError
  string_too_long : AngelError

-- What a function leaves behind: its value and the buffer, or an error and the buffer.
pub data Outcome (A B : Type 0) : Type 0 where
  done : A → B → Outcome A B
  failed : AngelError → B → Outcome A B

-- The bytes of a number of n bytes, as `memcpy` takes them.
unfoldable pub to_bytes : ℕ → ℕ → Bytes
to_bytes zero v = []
to_bytes (suc n) v = v % 256 ∷ to_bytes n (v / 256)

unfoldable pub from_bytes : Bytes → ℕ
from_bytes [] = 0
from_bytes (b ∷ bs) = b + 256 * from_bytes bs

-- `li_angel_data_write_int32`
abbrev pub data_write_int32 : Bytes → ℕ → Bytes
data_write_int32 buf i = buf ++ to_bytes 4 i

-- `li_angel_data_write_int64`
abbrev pub data_write_int64 : Bytes → ℕ → Bytes
data_write_int64 buf i = buf ++ to_bytes 8 i

-- `li_angel_data_write_char`
abbrev pub data_write_char : Bytes → ℕ → Bytes
data_write_char buf c = buf ++ to_bytes 1 c

-- `li_angel_data_write_str`
unfoldable pub data_write_str : Bytes → Bytes → Outcome Bool Bytes
data_write_str buf str =
    if ltb max_str_len (length str)
    then failed string_too_long buf
    else done Bool.true (data_write_int32 buf (length str) ++ str)

-- `li_angel_data_write_cstr`, of the len bytes at str
abbrev pub data_write_cstr : Bytes → Bytes → ℕ → Outcome Bool Bytes
data_write_cstr buf str len = data_write_str buf (take len str)

-- `buf->data->len - buf->pos`
abbrev pub remaining : AngelBuffer → ℕ
remaining b = (length b.content + (18446744073709551616 - b.pos)) % 18446744073709551616

abbrev pub advance : ℕ → AngelBuffer → AngelBuffer
advance n b = record b { pos = b.pos + n }

-- The n bytes at `pos`, if the buffer has them: else the source reads outside of it.
unfoldable pub bytes_at : AngelBuffer → ℕ → Option Bytes
bytes_at b n =
    if leb (b.pos + n) (length b.content) then some (take n (drop b.pos b.content)) else none

abbrev pub ReadOf : Type 0 → Type 0
ReadOf A = Option (Outcome A AngelBuffer)

-- ===== src/Encoding/Encode.antt =====
-- common/encoding.c: the tables, and the characters that are written for a byte. The tables are
-- the sets of the bytes at which they hold 1.
use lighttpd.Prelude.{
  ℕ, suc, ◌+◌, ◌/◌, ◌%◌, ◌≡◌, refl, ap, ◌∙◌, Bool, true, false, ◌&&◌, ◌||◌, Bytes, [], ◌∷◌, ◌++◌,
  arith, length, length-append, ltb, leb, ◌==◌, if◌then◌else◌,
}

-- `liEncoding`
pub data Encoding : Type 0 where
  hex html uri : Encoding

-- `hex_chars[d]`
abbrev pub hex_char : ℕ → ℕ
hex_char d = if ltb d 10 then 48 + d else 87 + d

-- `encode_map_html`: control characters, & < > DEL
abbrev pub encode_map_html : ℕ → Bool
encode_map_html c = ltb c 32 || (c == 38) || (c == 60) || (c == 62) || (c == 127)

abbrev between : ℕ → ℕ → ℕ → Bool
between lo hi c = leb lo c && leb c hi

-- `encode_map_uri`: all but ! ( ) * - . / 0-9 A-Z _ a-z
abbrev pub encode_map_uri : ℕ → Bool
encode_map_uri c =
    leb c 32
    || between 34 39 c
    || between 43 44 c
    || between 58 64 c
    || between 91 94 c
    || (c == 96)
    || leb 123 c

-- `map[c]`
unfoldable pub encode_map : Encoding → ℕ → Bool
encode_map hex c = true
encode_map html c = encode_map_html c
encode_map uri c = encode_map_uri c

-- `encoded_len`
abbrev pub encoded_len : Encoding → ℕ
encoded_len hex = 2
encoded_len html = 6
encoded_len uri = 3

-- What is written for a byte that needs to be encoded.
abbrev pub escape : Encoding → ℕ → Bytes
escape hex c = hex_char (c / 16 % 16) ∷ hex_char (c % 16) ∷ []
escape html c = 38 ∷ 35 ∷ 120 ∷ hex_char (c / 16 % 16) ∷ hex_char (c % 16) ∷ 59 ∷ []
escape uri c = 37 ∷ hex_char (c / 16 % 16) ∷ hex_char (c % 16) ∷ []

abbrev pub encode_char : Encoding → ℕ → Bytes
encode_char enc c = if encode_map enc c then escape enc c else c ∷ []

-- What the second loop writes, up to the end of the C string.
unfoldable pub encode_bytes : Encoding → Bytes → Bytes
unfolding encode_map
encode_bytes enc [] = []
encode_bytes enc (c ∷ str) =
    let rest = encode_bytes enc str in if c == 0 then [] else encode_char enc c ++ rest

-- `new_len` after the first loop
unfoldable pub count : Encoding → Bytes → ℕ
unfolding encode_map
count enc [] = 0
count enc (c ∷ str) =
    let rest = count enc str in
    if c == 0 then 0 else (if encode_map enc c then encoded_len enc + rest else suc rest)

length-escape : (enc : Encoding) (c : ℕ) → length (escape enc c) ≡ encoded_len enc
length-escape hex c = refl
length-escape html c = refl
length-escape uri c = refl

-- One byte in both loops.
length_step :
    (enc : Encoding) (c n : ℕ) (rest : Bytes) (stop escaped : Bool)
    → length rest ≡ n
    → length (if stop then [] else (if escaped then escape enc c else c ∷ []) ++ rest)
      ≡ (if stop then 0 else (if escaped then encoded_len enc + n else suc n))
length_step enc c n rest true escaped e = refl
length_step enc c n rest false true e =
    length-append (escape enc c) rest ∙ omega (arith, length-escape enc c)
length_step enc c n rest false false e = ap suc e

-- The first loop counts what the second one writes.
pub length-encode_bytes :
    (enc : Encoding) (str : Bytes) → length (encode_bytes enc str) ≡ count enc str
unfolding encode_bytes count
length-encode_bytes enc [] = refl
length-encode_bytes enc (c ∷ str) =
    length_step enc c (count enc str) (encode_bytes enc str) (c == 0) (encode_map enc c)
      (length-encode_bytes enc str)

-- ===== src/Encoding/Decode.antt =====
-- common/utils.c: li_url_decode. The decoded string is written over the encoded one, from its
-- start on; what is written never reaches what is still to be read.
use lighttpd.Prelude.{
  ℕ, zero, suc, ◌+◌, ◌-◌, ◌*◌, ◌/◌, ◌%◌, ◌<◌, ◌≡◌, Bool, true, false, ◌||◌, Option, none, some,
  Bytes, [], ◌∷◌, ◌++◌, arith, length, drop, ltb, leb, ◌==◌, lt→ltb, if◌then◌else◌,
}
use lighttpd.Encoding.Encode.{hex_char}

-- `hex2int`, with `none` for -1. For the other characters below '0' the source returns a negative
-- number; here it is the byte with the same bits.
unfoldable pub hex2int : ℕ → Option ℕ
hex2int c =
    if leb 97 c
    then valid (c - 97 + 10)
    else (if leb 65 c
        then valid (c - 65 + 10)
        else (if leb 48 c then valid (c - 48) else (if c == 47 then none else some (208 + c))))
  where
    valid : ℕ → Option ℕ
    valid res = if ltb 15 res then none else some res

-- The bits that a or b has, of w bits
bit_or : ℕ → ℕ → ℕ → ℕ
bit_or zero a b = 0
bit_or (suc w) a b =
    let rest = bit_or w (a / 2) (b / 2) in
    (if (a % 2 == 1) || (b % 2 == 1) then 1 else 0) + 2 * rest

-- `(a << 4) | b` as a byte; a digit b has no bit in common with the rest.
unfoldable pub join : ℕ → ℕ → ℕ
unfolding bit_or
join a b = if ltb b 16 then a % 16 * 16 + b else bit_or 8 (a % 16 * 16) b

-- '_' for control characters
unfoldable pub sanitize : ℕ → ℕ
sanitize c = if ltb c 32 || (c == 127) then 95 else c

unfoldable pub unescape : Option ℕ → Option ℕ → Bytes
unfolding join sanitize
unescape (some a) (some b) = sanitize (join a b) ∷ []
unescape _ _ = []

abbrev pub push : Bytes → Bytes × Bool → Bytes × Bool
push bs (out, complete) = (bs ++ out, complete)

-- A byte that starts no escape, or the two results for one that does and for one that does not.
abbrev pub escape_or_plain : ℕ → Bytes × Bool → Bytes × Bool → Bytes × Bool
escape_or_plain c escaped plain =
    if c == 0 then ([], true) else (if c == 37 then escaped else push (sanitize c ∷ []) plain)

-- What the loop writes, and whether it ends at the end of the string, not in an escape.
unfoldable pub decode_bytes : Bytes → Bytes × Bool
unfolding sanitize hex2int unescape
decode_bytes [] = ([], true)
decode_bytes (c ∷ []) = escape_or_plain c ([], false) ([], true)
decode_bytes (c ∷ a ∷ []) = escape_or_plain c ([], false) (decode_bytes (a ∷ []))
decode_bytes (c ∷ a ∷ b ∷ rest) =
    let plain = decode_bytes (a ∷ b ∷ rest) in
    let escaped = push (unescape (hex2int a) (hex2int b)) (decode_bytes rest) in
    escape_or_plain c (if (a == 0) || (b == 0) then ([], false) else escaped) plain

-- In an incomplete escape the function returns before it sets the new length.
abbrev pub url_decode_end : Bytes → Bytes × Bool → Bytes
url_decode_end path (out, complete) = if complete then out else out ++ drop (length out) path

unfoldable pub url_decode : Bytes → Bytes
unfolding decode_bytes
url_decode path = url_decode_end path (decode_bytes path)

hex2int-hex_char : (d : ℕ) → d < 16 → hex2int (hex_char d) ≡ some d
unfolding hex2int
hex2int-hex_char d h = ground arith

hex_char_pos : (d : ℕ) → d < 16 → (hex_char d == 0) ≡ false
hex_char_pos d h = ground arith

pub decode_bytes_plain :
    (c : ℕ) (s : Bytes)
    → (c == 0) ≡ false
    → (c == 37) ≡ false
    → decode_bytes (c ∷ s) ≡ push (sanitize c ∷ []) (decode_bytes s)
unfolding decode_bytes
decode_bytes_plain c [] z p = rw (z, p)
decode_bytes_plain c (a ∷ []) z p = rw (z, p)
decode_bytes_plain c (a ∷ b ∷ s) z p = rw (z, p)

pub decode_bytes_escape :
    (c : ℕ) (s : Bytes)
    → c < 256
    → decode_bytes (37 ∷ hex_char (c / 16 % 16) ∷ hex_char (c % 16) ∷ s)
      ≡ push (sanitize c ∷ []) (decode_bytes s)
unfolding decode_bytes unescape join
decode_bytes_escape c s h =
    let hi : c / 16 % 16 < 16 = omega arith in
    let lo : c % 16 < 16 = omega arith in
    let e : c / 16 % 16 % 16 * 16 + c % 16 ≡ c = omega arith in
    rw (
      hex_char_pos _ hi,
      hex_char_pos _ lo,
      hex2int-hex_char _ hi,
      hex2int-hex_char _ lo,
      lt→ltb _ _ lo,
      e,
    )

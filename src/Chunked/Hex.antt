-- ===== src/Chunked/Hex.antt =====
-- The line with the length of a chunk, read as a number in hexadecimal.
use lighttpd.Prelude.{
  ℕ, zero, suc, ◌+◌, ◌-◌, ◌*◌, ◌/◌, ◌%◌, ◌<◌, ◌≤◌, ◌≡◌, refl, ◌∙◌, inl, inr, ◌⊎◌, Bool-cases, Bytes,
  [], ◌∷◌, ◌++◌, arith, leb, ◌==◌, if◌then◌else◌,
}
use lighttpd.Chunked.Encode.{hex_length, hex_digit, hex_digits, chunk_len}
use lighttpd.Chunked.Wire.{bound, chunk_len_lem}

-- The digits 0 to 9 and a to f
abbrev pub AreHexDigits : Bytes → Type 0
AreHexDigits [] = 0 ≤ 0
AreHexDigits (c ∷ cs) = (((48 ≤ c) × (c ≤ 57)) ⊎ ((97 ≤ c) × (c ≤ 102))) × AreHexDigits cs

-- The number of which n has been read
abbrev pub hex_number : ℕ → Bytes → ℕ
hex_number n [] = n
hex_number n (c ∷ cs) = hex_number (16 * n + (if leb c 57 then c - 48 else c - 87)) cs

hex_number-append :
    (n : ℕ) (cs : Bytes) (c : ℕ)
    → hex_number n (cs ++ (c ∷ [])) ≡ 16 * hex_number n cs + (if leb c 57 then c - 48 else c - 87)
hex_number-append n [] c = refl
hex_number-append n (x ∷ cs) c =
    hex_number-append (16 * n + (if leb x 57 then x - 48 else x - 87)) cs c

append-AreHexDigits : (cs ds : Bytes) → AreHexDigits cs → AreHexDigits ds → AreHexDigits (cs ++ ds)
append-AreHexDigits [] ds h k = k
append-AreHexDigits (c ∷ cs) ds (x, h) k = (x, append-AreHexDigits cs ds h k)

digit_value :
    (d : ℕ) → d < 16 → (if leb (hex_digit d) 57 then hex_digit d - 48 else hex_digit d - 87) ≡ d
digit_value d h = ground arith

digit-AreHexDigits : (d : ℕ) → d < 16 → AreHexDigits (hex_digit d ∷ [])
digit-AreHexDigits d h = elim (Bool-cases (leb d 9)) [
  | inl e ↦ (rw e (inl (omega arith, ground (arith, e))), omega arith)
  | inr e ↦ (rw e (inr (ground (arith, e), ground (arith, e))), omega arith)
]

hex_digits-AreHexDigits : (i n : ℕ) → AreHexDigits (hex_digits i n)
unfolding hex_digits
hex_digits-AreHexDigits zero n = omega arith
hex_digits-AreHexDigits (suc i) n =
    append-AreHexDigits (hex_digits i (n / 16)) (hex_digit (n % 16) ∷ [])
      (hex_digits-AreHexDigits i (n / 16)) (digit-AreHexDigits (n % 16) (omega arith))

hex_number-hex_digits : (r n : ℕ) → n < bound r → hex_number 0 (hex_digits (hex_length r n) n) ≡ n
unfolding hex_length hex_digits
hex_number-hex_digits zero n h = omega arith
hex_number-hex_digits (suc r) n h = elim (Bool-cases (n == 0)) [
  | inl e ↦ rw e (ground (arith, e))
  | inr e ↦
      let ds = hex_digits (hex_length r (n / 16)) (n / 16) in
      let v = hex_number-hex_digits r (n / 16) (omega arith) in
      let d = digit_value (n % 16) (omega arith) in
      rw e (hex_number-append 0 ds (hex_digit (n % 16)) ∙ omega (arith, v, d))
]

-- A line of hexadecimal digits, ended by CR and LF, that gives the number n
pub record IsLine (n : ℕ) (line : Bytes) : Type 0 where
  pub digits : Bytes
  pub are_digits : AreHexDigits digits
  pub value_is : hex_number 0 digits ≡ n
  pub line_is : line ≡ digits ++ (13 ∷ 10 ∷ [])

-- Below 2^32 the line is the length.
pub chunk_len-IsLine : (n : ℕ) → n < 4294967296 → IsLine n (chunk_len n)
chunk_len-IsLine n h = record {
  digits = hex_digits (hex_length 8 n) n;
  are_digits = hex_digits-AreHexDigits (hex_length 8 n) n;
  value_is = hex_number-hex_digits 8 n (omega arith);
  line_is = chunk_len_lem n;
}

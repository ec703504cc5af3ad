-- ===== src/Chunked/Wrap.antt =====
-- The length line of a chunk of 2^32 bytes or more.
use lighttpd.Prelude.{
  ℕ, zero, suc, ◌+◌, ◌*◌, ◌/◌, ◌%◌, ◌^◌, ◌≤◌, ◌<◌, ◌≡◌, [], refl, ap, ◌∙◌, false, ◌∷◌, ◌++◌, arith,
  ◌==◌,
}
use lighttpd.Chunked.Encode.{hex_length, hex_digit, hex_digits, chunk_len, crlf}
use lighttpd.Chunked.Wire.{bound, chunk_len_lem}

-- j digits say nothing of what is above them.
hex_digits_low : (j q n : ℕ) → hex_digits j (q * bound j + n) ≡ hex_digits j n
unfolding hex_digits
hex_digits_low zero q n = refl
hex_digits_low (suc j) q n =
    let up : (q * bound (suc j) + n) / 16 ≡ q * bound j + n / 16 = omega arith in
    let low : (q * bound (suc j) + n) % 16 ≡ n % 16 = omega arith in
    rw (up, low) (ap (λ ds. ds ++ (hex_digit (n % 16) ∷ [])) (hex_digits_low j q (n / 16)))

bound_pos : (r : ℕ) → 0 < bound r
bound_pos zero = omega arith
bound_pos (suc r) = omega (arith, bound_pos r)

-- A number with at least r digits keeps r rounds busy.
hex_length_full : (r n : ℕ) → bound r ≤ n * 16 → 0 < n → hex_length r n ≡ r
unfolding hex_length
hex_length_full zero n b p = refl
hex_length_full (suc zero) n b p = let e : (n == 0) ≡ false = ground arith in rw e
hex_length_full (suc (suc r)) n b p =
    let e : (n == 0) ≡ false = ground arith in
    rw e
      (ap suc (hex_length_full (suc r) (n / 16) (omega arith) (positive r (n / 16) (omega arith))))
  where
    positive : (r m : ℕ) → bound (suc r) ≤ m * 16 → 0 < m
    positive r zero h = absurd (omega (arith, bound_pos r))
    positive r (suc m) h = omega arith

-- The bug: at most eight digits are written, so a chunk that is longer by a multiple of 2^32 bytes
-- gets the length line of the shorter one.
pub chunk_len-wraps : (q n : ℕ) → 16 ^ 7 ≤ n → chunk_len (q * 16 ^ 8 + n) ≡ chunk_len n
chunk_len-wraps q n h =
    let long : hex_length 8 (q * 16 ^ 8 + n) ≡ 8 =
      hex_length_full 8 (q * 16 ^ 8 + n) (omega arith) (omega arith) in
    let short : hex_length 8 n ≡ 8 = hex_length_full 8 n (omega arith) (omega arith) in
    chunk_len_lem (q * 16 ^ 8 + n)
    ∙ rw (long, chunk_len_lem n, short) (ap (λ ds. ds ++ crlf) (hex_digits_low 8 q n))

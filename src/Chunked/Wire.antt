-- ===== src/Chunked/Wire.antt =====
-- The pieces that the encoder writes, as the decoder reads them.
use lighttpd.Prelude.{
  ℕ, zero, suc, ◌+◌, ◌-◌, ◌*◌, ◌/◌, ◌%◌, ◌^◌, ◌<◌, ◌≡◌, refl, sym, ap, ◌∙◌, false, inl, inr,
  Bool-cases, ==_iff, some, Bytes, [], ◌∷◌, ◌++◌, arith, append_assoc, append-nil, length,
  length-append, ltb, ◌==◌,
}
use lighttpd.Prelude.Int.{ℤ, pos, negsuc}
use lighttpd.Chunked.Encode.{hex_length, hex_digit, hex_digits, chunk_len, last_chunk, crlf}
use lighttpd.Chunked.Decode.{
  ParseState, new_chunklen, reading_chunklen, found_r, copying, content_r, wait_rn, wait_n, eof,
  hex_value, add_digit, read_len,
}
use lighttpd.Chunked.Feed.{at, go, bite, feed, feed-go}
use lighttpd.Chunked.Feed.Loop.{stop_eof}

hex_value-hex_digit : (d : ℕ) → d < 16 → hex_value (hex_digit d) ≡ some d
unfolding hex_value
hex_value-hex_digit d h = ground arith

-- A digit is read.
read-digit :
    (d : ℕ) (z n : ℤ)
    → d < 16
    → add_digit z d ≡ some n
    → read_len (hex_digit d) (at reading_chunklen z) ≡ at reading_chunklen n
unfolding read_len
read-digit d z n h e = rw (hex_value-hex_digit d h, e, read_len)

feed-digit :
    (d : ℕ) (z n : ℤ) (rest out : Bytes)
    → d < 16
    → add_digit z d ≡ some n
    → feed (hex_digit d ∷ rest) (at reading_chunklen z) out ≡ feed rest (at reading_chunklen n) out
unfolding bite
feed-digit d z n rest out h e =
    feed-go (hex_digit d) rest (at reading_chunklen z) (at reading_chunklen n) out []
      (ap (λ s. go s []) (read-digit d z n h e))
    ∙ ap (feed rest (at reading_chunklen n)) (append-nil out)

-- The numbers of at most r digits.
abbrev pub bound : ℕ → ℕ
bound zero = 1
bound (suc r) = 16 * bound r

hex_length-zero : (r : ℕ) → hex_length r 0 ≡ 0
unfolding hex_length
hex_length-zero zero = refl
hex_length-zero (suc r) = refl

first_digit : (n : ℕ) → n / 16 ≡ 0 → add_digit (negsuc 0) (n % 16) ≡ some (pos n)
unfolding add_digit
first_digit n e = let d : n % 16 ≡ n = omega arith in ap (λ k. some (pos k)) d

-- Below 16 ^ 8 the check against overflow lets every digit pass.
later_digit : (n : ℕ) → n < 16 ^ 8 → add_digit (pos (n / 16)) (n % 16) ≡ some (pos n)
unfolding add_digit
later_digit n h =
    let fits : ltb ((2 ^ 63 - 1 - n % 16) / 16) (n / 16) ≡ false = ground arith in
    let sum : 16 * (n / 16) + n % 16 ≡ n = omega arith in rw fits (ap (λ k. some (pos k)) sum)

-- All digits are read, as the number that they stand for.
feed-hex_digits :
    (r n : ℕ) (rest out : Bytes)
    → n < bound r
    → n < 16 ^ 8
    → 0 < n
    → feed (hex_digits (hex_length r n) n ++ rest) (at reading_chunklen (negsuc 0)) out
      ≡ feed rest (at reading_chunklen (pos n)) out
unfolding hex_length hex_digits
feed-hex_digits zero n rest out b c p = absurd (omega arith)
feed-hex_digits (suc r) n rest out b c p =
    let nz : (n == 0) ≡ false = ground arith in
    rw (nz, hex_digits)
      (ap (λ xs. feed xs (at reading_chunklen (negsuc 0)) out)
          (append_assoc (hex_digits (hex_length r (n / 16)) (n / 16)) (hex_digit (n % 16) ∷ [])
            rest)
        ∙ elim (Bool-cases (n / 16 == 0)) [
          | inl z ↦ only ((==_iff (n / 16) 0).0 z)
          | inr m ↦
              feed-hex_digits r (n / 16) (hex_digit (n % 16) ∷ rest) out (omega arith) (omega arith)
                (ground (arith, m))
              ∙ feed-digit (n % 16) (pos (n / 16)) (pos n) rest out (omega arith) (later_digit n c)
        ])
  where
    only :
        n / 16 ≡ 0
        → feed
            (hex_digits (hex_length r (n / 16)) (n / 16) ++ (hex_digit (n % 16) ∷ rest))
            (at reading_chunklen (negsuc 0))
            out
          ≡ feed rest (at reading_chunklen (pos n)) out
    only z =
        ap
          (λ k.
            feed (hex_digits (hex_length r k) k ++ (hex_digit (n % 16) ∷ rest))
              (at reading_chunklen (negsuc 0)) out)
          z
        ∙ rw (hex_length-zero r)
            (feed-digit (n % 16) (negsuc 0) (pos n) rest out (omega arith) (first_digit n z))

-- The bytes after the digits, one at a time.
feed-plain :
    (c : ℕ) (p q : ParseState) (z n : ℤ) (rest out : Bytes)
    → bite p z c ≡ go (at q n) []
    → feed (c ∷ rest) (at p z) out ≡ feed rest (at q n) out
feed-plain c p q z n rest out e =
    feed-go c rest (at p z) (at q n) out [] e ∙ ap (feed rest (at q n)) (append-nil out)

feed-content :
    (xs rest out : Bytes)
    → feed (xs ++ rest) (at copying (pos (length xs))) out
      ≡ feed rest (at copying (pos 0)) (out ++ xs)
unfolding feed
feed-content [] rest out = ap (feed rest (at copying (pos 0))) (sym (append-nil out))
feed-content (x ∷ xs) rest out =
    feed-content xs rest (out ++ (x ∷ []))
    ∙ ap (feed rest (at copying (pos 0))) (append_assoc out (x ∷ []) xs)

pub chunk_len_lem : (n : ℕ) → chunk_len n ≡ hex_digits (hex_length 8 n) n ++ crlf
unfolding chunk_len
chunk_len_lem n = refl

start-feed :
    (bs out : Bytes) (z : ℤ)
    → 0 < length bs
    → feed bs (at new_chunklen z) out ≡ feed bs (at reading_chunklen (negsuc 0)) out
unfolding feed
start-feed [] out z h = elim h [ ]
start-feed (c ∷ bs) out z h = refl

regroup :
    (ds xs rest : Bytes)
    → ds ++ crlf ++ (xs ++ crlf) ++ rest ≡ ds ++ (b'\r' ∷ b'\n' ∷ (xs ++ (b'\r' ∷ b'\n' ∷ rest)))
regroup ds xs rest = simp append_assoc

begin_content : (n : ℕ) → 0 < n → bite found_r (pos n) b'\n' ≡ go (at copying (pos n)) []
unfolding bite
begin_content zero h = elim h [ ]
begin_content (suc n) h = refl

-- What the encoder writes for one batch of data.
abbrev pub chunk : Bytes → Bytes
chunk xs = chunk_len (length xs) ++ (xs ++ crlf)

-- One chunk, from its length to the line end after its content.
pub feed-chunk :
    (xs rest out : Bytes) (z : ℤ)
    → 0 < length xs
    → length xs < 16 ^ 8
    → feed (chunk xs ++ rest) (at new_chunklen z) out
      ≡ feed rest (at new_chunklen (pos 0)) (out ++ xs)
unfolding bite read_len
feed-chunk xs rest out z p h =
    let n = length xs in
    let ds = hex_digits (hex_length 8 n) n in
    let tail = b'\r' ∷ b'\n' ∷ rest in
    let body = xs ++ tail in
    ap (λ l. feed (l ++ (xs ++ crlf) ++ rest) (at new_chunklen z) out) (chunk_len_lem n)
    ∙ ap (λ l. feed l (at new_chunklen z) out) (regroup ds xs rest)
    ∙ start-feed (ds ++ (b'\r' ∷ b'\n' ∷ body)) out z
        (omega (arith, length-append ds (b'\r' ∷ b'\n' ∷ body)))
    ∙ feed-hex_digits 8 n (b'\r' ∷ b'\n' ∷ body) out (omega arith) h p
    ∙ feed-plain b'\r' reading_chunklen found_r (pos n) (pos n) (b'\n' ∷ body) out refl
    ∙ feed-plain b'\n' found_r copying (pos n) (pos n) body out (begin_content n p)
    ∙ feed-content xs tail out
    ∙ feed-plain b'\r' copying content_r (pos 0) (pos 0) (b'\n' ∷ rest) (out ++ xs) refl
    ∙ feed-plain b'\n' content_r new_chunklen (pos 0) (pos 0) rest (out ++ xs) refl

-- The end of the body: everything behind it is left alone.
pub feed-last_chunk :
    (rest out : Bytes) (z : ℤ)
    → feed (last_chunk ++ rest) (at new_chunklen z) out
      ≡ record { state = at eof (pos 0); content = out; rest = rest }
unfolding bite read_len
feed-last_chunk rest out z =
    start-feed (last_chunk ++ rest) out z (omega arith)
    ∙ feed-digit 0 (negsuc 0) (pos 0) (b'\r' ∷ b'\n' ∷ b'\r' ∷ b'\n' ∷ rest) out (omega arith) refl
    ∙ feed-plain b'\r' reading_chunklen found_r (pos 0) (pos 0) (b'\n' ∷ b'\r' ∷ b'\n' ∷ rest) out
        refl
    ∙ feed-plain b'\n' found_r wait_rn (pos 0) (pos 0) (b'\r' ∷ b'\n' ∷ rest) out refl
    ∙ feed-plain b'\r' wait_rn wait_n (pos 0) (pos 0) (b'\n' ∷ rest) out refl
    ∙ feed-plain b'\n' wait_n eof (pos 0) (pos 0) rest out refl
    ∙ stop_eof rest (pos 0) out

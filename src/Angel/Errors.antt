-- ===== src/Angel/Errors.antt =====
-- What a read leaves behind, whatever the buffer holds.
use lighttpd.Prelude.{
  ℕ, ◌+◌, ◌-◌, ◌≤◌, ◌<◌, ◌≡◌, refl, ap, ◌∙◌, ◌⊎◌, inl, inr, none, some, Bytes, arith, length, take,
  drop, ltb, le→leb, Bool-cases, if◌then◌else◌,
}
use lighttpd.Angel.Defs.{
  max_str_len, AngelBuffer, eof, invalid_string_length, done, failed, from_bytes, remaining,
  advance, bytes_at, ReadOf,
}
use lighttpd.Angel.Read.{
  copy_bytes, data_read_int32, data_read_int64, data_read_char, data_read_mem, data_read_str,
  read_body, after_mem, step_back, is_bad_length,
}

-- `pos` lies in the data, and a `gsize` counts them.
abbrev pub IsValid : AngelBuffer → Type 0
IsValid b = (b.pos ≤ length b.content) × (length b.content < 18446744073709551616)

abbrev pub part : AngelBuffer → ℕ → ℕ → Bytes
part b i n = take n (drop (b.pos + i) b.content)

-- A value of n bytes is f of the bytes at `pos`, which lie in the data, and `pos` is behind them;
-- the only error is that the data are too short, and it leaves the buffer alone.
abbrev pub IsRead : {A : Type 0} → (Bytes → A) → ℕ → AngelBuffer → ReadOf A → Type 0
IsRead f n b none = 1 ≤ 0
IsRead f n b (some (done v b')) =
    (b.pos + n ≤ length b.content) × (v ≡ f (part b 0 n)) × (b' ≡ advance n b)
IsRead f n b (some (failed e b')) = (e ≡ eof) × (b' ≡ b) × (length b.content < b.pos + n)

abbrev pub string_length : AngelBuffer → ℕ
string_length b = from_bytes (part b 0 4)

-- Like IsRead for a string: its length comes first, and is at most max_str_len.
abbrev pub IsStr : AngelBuffer → ReadOf Bytes → Type 0
IsStr b none = 1 ≤ 0
IsStr b (some (done s b')) =
    (b.pos + (4 + string_length b) ≤ length b.content)
    × (string_length b ≤ max_str_len)
    × (s ≡ part b 4 (string_length b))
    × (b' ≡ advance (4 + string_length b) b)
IsStr b (some (failed e b')) =
    (b' ≡ b)
    × (((e ≡ eof) × (length b.content < b.pos + (4 + string_length b)))
        ⊎ ((e ≡ invalid_string_length) × (max_str_len < string_length b)))

remaining_lem : (b : AngelBuffer) → IsValid b → remaining b ≡ length b.content - b.pos
remaining_lem b v = let (p, l) = v in omega (arith, p, l)

pub part_zero : (b : AngelBuffer) (n : ℕ) → part b 0 n ≡ take n (drop b.pos b.content)
part_zero b n = ap (λ i. take n (drop i b.content)) (omega arith)

bytes_at_lem :
    (b : AngelBuffer) (n : ℕ) → b.pos + n ≤ length b.content → bytes_at b n ≡ some (part b 0 n)
unfolding bytes_at
bytes_at_lem b n h = rw (le→leb _ _ h, part_zero b n) refl

-- The common shape of the readers
copy_bytes-IsRead :
    {A : Type 0} (f : Bytes → A) (n : ℕ) (b : AngelBuffer)
    → IsValid b
    → IsRead f n b
        (if ltb (remaining b) n then some (failed eof b) else copy_bytes f b n (bytes_at b n))
copy_bytes-IsRead f n b v = elim (Bool-cases (ltb (remaining b) n)) [
  | inl e ↦
      rw e (refl, refl, let (p, l) = v in let q = remaining_lem b v in ground (arith, p, q, e))
  | inr e ↦
      let h : b.pos + n ≤ length b.content =
        let (p, l) = v in let q = remaining_lem b v in ground (arith, p, q, e) in
      rw (e, bytes_at_lem b n h) (h, refl, refl)
]

pub data_read_int32-IsRead :
    (b : AngelBuffer) → IsValid b → IsRead from_bytes 4 b (data_read_int32 b)
unfolding data_read_int32
data_read_int32-IsRead b v = copy_bytes-IsRead from_bytes 4 b v

pub data_read_int64-IsRead :
    (b : AngelBuffer) → IsValid b → IsRead from_bytes 8 b (data_read_int64 b)
unfolding data_read_int64
data_read_int64-IsRead b v = copy_bytes-IsRead from_bytes 8 b v

pub data_read_char-IsRead : (b : AngelBuffer) → IsValid b → IsRead from_bytes 1 b (data_read_char b)
unfolding data_read_char
data_read_char-IsRead b v = copy_bytes-IsRead from_bytes 1 b v

pub data_read_mem-IsRead :
    (b : AngelBuffer) (len : ℕ) → IsValid b → IsRead (λ bs. bs) len b (data_read_mem b len)
unfolding data_read_mem
data_read_mem-IsRead b len v = copy_bytes-IsRead (λ bs. bs) len b v

step_back-advance : (b : AngelBuffer) → step_back (advance 4 b) ≡ b
step_back-advance b = ap (λ p. record b { pos = p }) (omega arith)

advance-advance : (m n : ℕ) (b : AngelBuffer) → advance n (advance m b) ≡ advance (m + n) b
advance-advance m n b = ap (λ p. record b { pos = p }) (omega arith)

part-advance : (b : AngelBuffer) (m n : ℕ) → part (advance m b) 0 n ≡ part b m n
part-advance b m n = ap (λ i. take n (drop i b.content)) (omega arith)

after_mem-IsStr :
    (b : AngelBuffer) (r : ReadOf Bytes)
    → string_length b ≤ max_str_len
    → IsRead (λ bs. bs) (string_length b) (advance 4 b) r
    → IsStr b (after_mem r)
after_mem-IsStr b none l h = h
after_mem-IsStr b (some (done s b')) l h =
    let (p, q, r) = h in (omega (arith, p), l, q ∙ part-advance b 4 _, r ∙ advance-advance 4 _ b)
after_mem-IsStr b (some (failed e b')) l h =
    let (p, q, r) = h in (ap step_back q ∙ step_back-advance b, inl (p, omega (arith, r)))

body-IsStr :
    (b : AngelBuffer)
    → IsValid (advance 4 b)
    → IsStr b (read_body (advance 4 b) (some (part b 0 4)))
body-IsStr b v = elim (Bool-cases (is_bad_length (string_length b))) [
  | inl e ↦ rw e (step_back-advance b, inr (refl, ground (arith, e)))
  | inr e ↦ rw e (
      after_mem-IsStr b _ (ground (arith, e))
        (data_read_mem-IsRead (advance 4 b) (string_length b) v))
]

-- If the position lies in the data and a gsize counts them, whatever the bytes are: no byte outside
-- of the data is read. A string that is read has the length
-- that its first four bytes give, at most max_str_len, it is the bytes that follow them, and the
-- position moves behind it. Otherwise the buffer is as before, and the error says that the length is
-- too large or that the data end too early.
pub data_read_str-IsStr : (b : AngelBuffer) → IsValid b → IsStr b (data_read_str b)
unfolding data_read_str
data_read_str-IsStr b v =
    let (p, l) = v in
    let q = remaining_lem b v in
    elim (Bool-cases (ltb (remaining b) 4)) [
      | inl e ↦ rw e (refl, inl (refl, ground (arith, p, q, e)))
      | inr e ↦
          let h : b.pos + 4 ≤ length b.content = ground (arith, p, q, e) in
          rw (e, bytes_at_lem b 4 h) (body-IsStr b (h, l))
    ]

-- ===== src/Radix/Word.antt =====
-- `rdxBase`: 32 bits, the highest first. Only bitwise operations are applied to it.
use lighttpd.Prelude.{
  ℕ, zero, suc, ◌+◌, ◌/◌, ◌%◌, ◌≤◌, ◌<◌, ◌≡◌, refl, ap, Bool, true, false, not, ◌&&◌, List, [], ◌∷◌,
  ◌++◌, Bytes, arith, length, take, drop, ◌==◌, if◌then◌else◌,
}

abbrev pub Word : Type 0
Word = List Bool

-- `a & b`
abbrev pub and_bits : Word → Word → Word
and_bits [] bs = []
and_bits (a ∷ xs) [] = []
and_bits (a ∷ xs) (b ∷ bs) = (a && b) ∷ and_bits xs bs

abbrev pub ones : ℕ → ℕ → Word
ones zero width = []
ones (suc n) zero = false ∷ ones n zero
ones (suc n) (suc width) = true ∷ ones n width

-- `RDX_MASK(width)`
abbrev pub rdx_mask : ℕ → Word
rdx_mask width = ones 32 width

-- `word & RDX_BIT(bit)`
abbrev pub get_bit : Word → ℕ → Bool
get_bit [] bit = false
get_bit (b ∷ bs) zero = b
get_bit (b ∷ bs) (suc bit) = get_bit bs bit

abbrev same_bit : Bool → Bool → Bool
same_bit true b = b
same_bit false b = not b

abbrev pub same_word : Word → Word → Bool
same_word [] [] = true
same_word (a ∷ xs) (b ∷ bs) = same_bit a b && same_word xs bs
same_word _ _ = false

abbrev bit_of : ℕ → ℕ → Bool
bit_of c place = c / place % 2 == 1

abbrev byte_bits : ℕ → Word
byte_bits c =
    bit_of c 128
    ∷ bit_of c 64
    ∷ bit_of c 32
    ∷ bit_of c 16
    ∷ bit_of c 8
    ∷ bit_of c 4
    ∷ bit_of c 2
    ∷ bit_of c 1
    ∷ []

-- n bytes from memory, zero behind the end
abbrev pub read_word : ℕ → Bytes → Word
read_word zero bs = []
read_word (suc n) [] = byte_bits 0 ++ read_word n []
read_word (suc n) (b ∷ bs) = byte_bits b ++ read_word n bs

abbrev pub read_words : ℕ → Bytes → List Word
read_words zero bs = []
read_words (suc n) bs = read_word 4 bs ∷ read_words n (drop 4 bs)

-- `rdx_get_input`: the bytes of the key, filled up with zeros, in network order.
unfoldable pub get_input : Bytes → ℕ → List Word
get_input key bits =
    read_words (if bits == 0 then 1 else (bits + 31) / 32) (take ((bits + 7) / 8) key)

pub same_word_refl : (a : Word) → same_word a a ≡ true
same_word_refl [] = refl
same_word_refl (true ∷ xs) = same_word_refl xs
same_word_refl (false ∷ xs) = same_word_refl xs

pub same_word→eq : (a b : Word) → same_word a b ≡ true → a ≡ b
same_word→eq [] [] e = refl
same_word→eq [] (b ∷ bs) e = cc
same_word→eq (a ∷ xs) [] e = cc
same_word→eq (true ∷ xs) (true ∷ bs) e = ap (◌∷◌ true) (same_word→eq xs bs e)
same_word→eq (true ∷ xs) (false ∷ bs) e = cc
same_word→eq (false ∷ xs) (true ∷ bs) e = cc
same_word→eq (false ∷ xs) (false ∷ bs) e = ap (◌∷◌ false) (same_word→eq xs bs e)

-- The full mask changes nothing.
pub and_bits-ones : (n : ℕ) (a : Word) → length a ≡ n → and_bits a (ones n n) ≡ a
and_bits-ones zero [] e = refl
and_bits-ones zero (a ∷ xs) e = absurd (omega arith)
and_bits-ones (suc n) [] e = absurd (omega arith)
and_bits-ones (suc n) (true ∷ xs) e = ap (◌∷◌ true) (and_bits-ones n xs (omega arith))
and_bits-ones (suc n) (false ∷ xs) e = ap (◌∷◌ false) (and_bits-ones n xs (omega arith))

-- A mask applied twice is applied once.
pub and_bits_twice :
    (n w : ℕ) (a : Word) → and_bits (and_bits a (ones n w)) (ones n w) ≡ and_bits a (ones n w)
and_bits_twice zero w [] = refl
and_bits_twice zero w (a ∷ xs) = refl
and_bits_twice (suc n) zero [] = refl
and_bits_twice (suc n) (suc w) [] = refl
and_bits_twice (suc n) zero (true ∷ xs) = ap (◌∷◌ false) (and_bits_twice n zero xs)
and_bits_twice (suc n) zero (false ∷ xs) = ap (◌∷◌ false) (and_bits_twice n zero xs)
and_bits_twice (suc n) (suc w) (true ∷ xs) = ap (◌∷◌ true) (and_bits_twice n w xs)
and_bits_twice (suc n) (suc w) (false ∷ xs) = ap (◌∷◌ false) (and_bits_twice n w xs)

pub length-and_bits : (n w : ℕ) (a : Word) → length a ≡ n → length (and_bits a (ones n w)) ≡ n
length-and_bits zero w [] e = refl
length-and_bits zero w (a ∷ xs) e = absurd (omega arith)
length-and_bits (suc n) w [] e = absurd (omega arith)
length-and_bits (suc n) zero (a ∷ xs) e = ap suc (length-and_bits n zero xs (omega arith))
length-and_bits (suc n) (suc w) (a ∷ xs) e = ap suc (length-and_bits n w xs (omega arith))

pub and_bits_zero :
    (n : ℕ) (a b : Word)
    → length a ≡ n
    → length b ≡ n
    → and_bits a (ones n 0) ≡ and_bits b (ones n 0)
and_bits_zero zero [] [] d e = refl
and_bits_zero zero [] (b ∷ bs) d e = absurd (omega arith)
and_bits_zero zero (a ∷ xs) bs d e = absurd (omega arith)
and_bits_zero (suc n) [] bs d e = absurd (omega arith)
and_bits_zero (suc n) (a ∷ xs) [] d e = absurd (omega arith)
and_bits_zero (suc n) (true ∷ xs) (true ∷ bs) d e =
    ap (◌∷◌ false) (and_bits_zero n xs bs (omega arith) (omega arith))
and_bits_zero (suc n) (true ∷ xs) (false ∷ bs) d e =
    ap (◌∷◌ false) (and_bits_zero n xs bs (omega arith) (omega arith))
and_bits_zero (suc n) (false ∷ xs) (true ∷ bs) d e =
    ap (◌∷◌ false) (and_bits_zero n xs bs (omega arith) (omega arith))
and_bits_zero (suc n) (false ∷ xs) (false ∷ bs) d e =
    ap (◌∷◌ false) (and_bits_zero n xs bs (omega arith) (omega arith))

-- Words that agree in w bits, but not in one bit more, differ in that bit.
pub same_word_next :
    (n w : ℕ) (a b : Word)
    → length a ≡ n
    → length b ≡ n
    → same_word (and_bits a (ones n w)) (and_bits b (ones n w)) ≡ true
    → same_word (and_bits a (ones n (suc w))) (and_bits b (ones n (suc w))) ≡ false
    → get_bit a w ≡ not (get_bit b w)
same_word_next zero w [] [] d e s t = cc
same_word_next zero w [] (b ∷ bs) d e s t = absurd (omega arith)
same_word_next zero w (a ∷ xs) bs d e s t = absurd (omega arith)
same_word_next (suc n) w [] bs d e s t = absurd (omega arith)
same_word_next (suc n) w (a ∷ xs) [] d e s t = absurd (omega arith)
same_word_next (suc n) zero (true ∷ xs) (false ∷ bs) d e s t = refl
same_word_next (suc n) zero (false ∷ xs) (true ∷ bs) d e s t = refl
same_word_next (suc n) zero (true ∷ xs) (true ∷ bs) d e s t = cc (s, t)
same_word_next (suc n) zero (false ∷ xs) (false ∷ bs) d e s t = cc (s, t)
same_word_next (suc n) (suc w) (true ∷ xs) (true ∷ bs) d e s t =
    same_word_next n w xs bs (omega arith) (omega arith) s t
same_word_next (suc n) (suc w) (false ∷ xs) (false ∷ bs) d e s t =
    same_word_next n w xs bs (omega arith) (omega arith) s t
same_word_next (suc n) (suc w) (true ∷ xs) (false ∷ bs) d e s t = cc
same_word_next (suc n) (suc w) (false ∷ xs) (true ∷ bs) d e s t = cc

-- The last bit of a mask is set in the full mask only.
pub ones_last : (n w : ℕ) → get_bit (ones (suc n) w) n ≡ true → suc n ≤ w
ones_last zero zero e = cc
ones_last zero (suc w) e = omega arith
ones_last (suc n) zero e = absurd (omega (arith, ones_last n zero e))
ones_last (suc n) (suc w) e = omega (arith, ones_last n w e)

-- The shorter one of two masks decides.
pub and_bits_shorter :
    (n v w : ℕ) (a : Word)
    → v ≤ w
    → and_bits (and_bits a (ones n w)) (ones n v) ≡ and_bits a (ones n v)
and_bits_shorter zero v w [] h = refl
and_bits_shorter zero v w (a ∷ xs) h = refl
and_bits_shorter (suc n) v w [] h = refl
and_bits_shorter (suc n) zero zero (a ∷ xs) h = and_bits_twice (suc n) zero (a ∷ xs)
and_bits_shorter (suc n) zero (suc w) (true ∷ xs) h =
    ap (◌∷◌ false) (and_bits_shorter n zero w xs (omega arith))
and_bits_shorter (suc n) zero (suc w) (false ∷ xs) h =
    ap (◌∷◌ false) (and_bits_shorter n zero w xs (omega arith))
and_bits_shorter (suc n) (suc v) zero (a ∷ xs) h = absurd (omega arith)
and_bits_shorter (suc n) (suc v) (suc w) (true ∷ xs) h =
    ap (◌∷◌ true) (and_bits_shorter n v w xs (omega arith))
and_bits_shorter (suc n) (suc v) (suc w) (false ∷ xs) h =
    ap (◌∷◌ false) (and_bits_shorter n v w xs (omega arith))

-- A mask keeps the bits of its width.
pub get_bit-and_bits :
    (n v w : ℕ) (a : Word) → w < v → v ≤ n → get_bit (and_bits a (ones n v)) w ≡ get_bit a w
get_bit-and_bits zero v w a h k = absurd (omega arith)
get_bit-and_bits (suc n) zero w a h k = absurd (omega arith)
get_bit-and_bits (suc n) (suc v) w [] h k = refl
get_bit-and_bits (suc n) (suc v) zero (true ∷ xs) h k = refl
get_bit-and_bits (suc n) (suc v) zero (false ∷ xs) h k = refl
get_bit-and_bits (suc n) (suc v) (suc w) (a ∷ xs) h k =
    get_bit-and_bits n v w xs (omega arith) (omega arith)

-- ===== src/Angel/RoundTrip.antt =====
-- What is written is read again: a message is a sequence of values.
use lighttpd.Prelude.{
  ℕ, zero, suc, ◌+◌, ◌*◌, ◌/◌, ◌%◌, ◌≤◌, ◌<◌, ◌≡◌, refl, sym, ap, ap₂, subst, ◌∙◌, inl, inr, Bool,
  true, false, none, some, List, [], ◌∷◌, ◌++◌, Bytes, arith, length, take, ltb, length-append,
  append_assoc, append-nil, take-append_ge, drop-append_ge,
}
use lighttpd.Angel.Defs.{
  max_str_len, AngelBuffer, Outcome, done, failed, to_bytes, from_bytes, data_write_int32,
  data_write_int64, data_write_char, data_write_str, advance, ReadOf,
}
use lighttpd.Angel.Read.{data_read_int32, data_read_int64, data_read_char, data_read_str}
use lighttpd.Angel.Errors.{
  IsValid, IsRead, IsStr, part, data_read_int32-IsRead, data_read_int64-IsRead,
  data_read_char-IsRead, data_read_str-IsStr,
}

-- A value of one of the types that have a writer and a reader
pub data Value : Type 0 where
  int32 : ℕ → Value
  int64 : ℕ → Value
  char : ℕ → Value
  str : Bytes → Value

abbrev pub write_value : Bytes → Value → Outcome Bool Bytes
write_value buf (int32 i) = done true (data_write_int32 buf i)
write_value buf (int64 i) = done true (data_write_int64 buf i)
write_value buf (char c) = done true (data_write_char buf c)
write_value buf (str s) = data_write_str buf s

-- The bytes of a value, and the condition that they hold it.
abbrev pub value_bytes : Value → Bytes
value_bytes (int32 i) = to_bytes 4 i
value_bytes (int64 i) = to_bytes 8 i
value_bytes (char c) = to_bytes 1 c
value_bytes (str s) = to_bytes 4 (length s) ++ s

abbrev pub Fits : Value → Type 0
Fits (int32 i) = i < 4294967296
Fits (int64 i) = i < 18446744073709551616
Fits (char c) = c < 256
Fits (str s) = length s ≤ max_str_len

abbrev pub as_value : {A : Type 0} → (A → Value) → ReadOf A → ReadOf Value
as_value f none = none
as_value f (some (done a b)) = some (done (f a) b)
as_value f (some (failed e b)) = some (failed e b)

-- A value of the same type as the given one is read.
abbrev pub read_value : Value → AngelBuffer → ReadOf Value
read_value (int32 i) b = as_value int32 (data_read_int32 b)
read_value (int64 i) b = as_value int64 (data_read_int64 b)
read_value (char c) b = as_value char (data_read_char b)
read_value (str s) b = as_value str (data_read_str b)

-- The reader stands behind `pre`, and `rest` is left.
abbrev pub at : Bytes → Bytes → AngelBuffer
at pre rest = record { content = pre ++ rest; pos = length pre }

abbrev limit : ℕ → ℕ
limit zero = 1
limit (suc n) = 256 * limit n

from_bytes-to_bytes : (n v : ℕ) → v < limit n → from_bytes (to_bytes n v) ≡ v
unfolding to_bytes from_bytes
from_bytes-to_bytes zero v h = omega (arith, h)
from_bytes-to_bytes (suc n) v h =
    let e = from_bytes-to_bytes n (v / 256) (omega (arith, h)) in
    ap (λ k. v % 256 + 256 * k) e ∙ omega arith

length-to_bytes : (n v : ℕ) → length (to_bytes n v) ≡ n
unfolding to_bytes
length-to_bytes zero v = refl
length-to_bytes (suc n) v = ap suc (length-to_bytes n (v / 256))

part-at : (pre x y rest : Bytes) → part (at pre (x ++ (y ++ rest))) (length x) (length y) ≡ y
part-at pre x y rest =
    ap (take (length y))
      (drop-append_ge pre _ (length x) _ refl ∙ drop-append_ge x (length x) 0 _ (omega arith))
    ∙ take-append_ge y (length y) 0 rest (omega arith)
    ∙ append-nil y

read_eq :
    {A : Type 0} (f : Bytes → A) (n : ℕ) (b : AngelBuffer) (r : ReadOf A)
    → IsRead f n b r
    → b.pos + n ≤ length b.content
    → r ≡ some (done (f (part b 0 n)) (advance n b))
read_eq f n b none h l = absurd (omega (arith, h))
read_eq f n b (some (done v b')) h l = let (p, q, r) = h in ap₂ (λ x y. some (done x y)) q r
read_eq f n b (some (failed e b')) h l = let (p, q, r) = h in absurd (omega (arith, l, r))

str_eq :
    (b : AngelBuffer) (n : ℕ) (r : ReadOf Bytes)
    → IsStr b r
    → from_bytes (part b 0 4) ≡ n
    → n ≤ max_str_len
    → b.pos + (4 + n) ≤ length b.content
    → r ≡ some (done (part b 4 n) (advance (4 + n) b))
str_eq b n none h e m l = absurd (omega (arith, h))
str_eq b n (some (done v b')) h e m l =
    let (p, q, r, t) = h in
    ap₂ (λ x y. some (done x y)) (r ∙ ap (part b 4) e) (t ∙ ap (λ k. advance (4 + k) b) e)
str_eq b n (some (failed f b')) h e m l =
    let (p, q) = h in
    elim q [ inl x ↦ absurd (omega (arith, x.1, e, l)) | inr x ↦ absurd (omega (arith, x.1, e, m)) ]

advance-at : (pre x rest : Bytes) → advance (length x) (at pre (x ++ rest)) ≡ at (pre ++ x) rest
advance-at pre x rest =
    ap₂ (λ c p. record { content = c; pos = p }) (sym (append_assoc pre x rest))
      (sym (length-append pre x))

le-at : (pre x rest : Bytes) → length pre + length x ≤ length (pre ++ (x ++ rest))
le-at pre x rest = omega (arith, length-append pre (x ++ rest), length-append x rest)

int-at :
    (n v : ℕ) (pre rest : Bytes) (r : ReadOf ℕ)
    → v < limit n
    → IsRead from_bytes n (at pre (to_bytes n v ++ rest)) r
    → r ≡ some (done v (at (pre ++ to_bytes n v) rest))
int-at n v pre rest r h i =
    let bs = to_bytes n v in
    let l : length bs ≡ n = length-to_bytes n v in
    let p : part (at pre (bs ++ rest)) 0 n ≡ bs =
      subst (λ k. part (at pre (bs ++ rest)) 0 k ≡ bs) l (part-at pre [] bs rest) in
    let a : advance n (at pre (bs ++ rest)) ≡ at (pre ++ bs) rest =
      subst (λ k. advance k (at pre (bs ++ rest)) ≡ at (pre ++ bs) rest) l
        (advance-at pre bs rest) in
    let e =
      read_eq from_bytes n (at pre (bs ++ rest)) r i
        (subst (λ k. length pre + k ≤ length (pre ++ (bs ++ rest))) l (le-at pre bs rest)) in
    e ∙ ap₂ (λ x b. some (done x b)) (ap from_bytes p ∙ from_bytes-to_bytes n v h) a

str-at :
    (s pre rest : Bytes) (r : ReadOf Bytes)
    → length s ≤ max_str_len
    → IsStr (at pre (value_bytes (str s) ++ rest)) r
    → r ≡ some (done s (at (pre ++ value_bytes (str s)) rest))
str-at s pre rest r h i =
    let bs = to_bytes 4 (length s) in
    let l : length bs ≡ 4 = length-to_bytes 4 (length s) in
    let b = at pre ((bs ++ s) ++ rest) in
    let p : part b 0 4 ≡ bs =
      subst (λ c. part (at pre c) 0 4 ≡ bs) (sym (append_assoc bs s rest))
        (subst (λ k. part (at pre (bs ++ (s ++ rest))) 0 k ≡ bs) l
          (part-at pre [] bs (s ++ rest))) in
    let m : length (bs ++ s) ≡ 4 + length s = length-append bs s ∙ ap (λ k. k + length s) l in
    let q : part b 4 (length s) ≡ s =
      subst (λ c. part (at pre c) 4 (length s) ≡ s) (sym (append_assoc bs s rest))
        (subst (λ k. part (at pre (bs ++ (s ++ rest))) k (length s) ≡ s) l
          (part-at pre bs s rest)) in
    let a : advance (4 + length s) b ≡ at (pre ++ (bs ++ s)) rest =
      subst (λ k. advance k b ≡ at (pre ++ (bs ++ s)) rest) m (advance-at pre (bs ++ s) rest) in
    let e =
      str_eq b (length s) r i (ap from_bytes p ∙ from_bytes-to_bytes 4 _ (omega (arith, h))) h
        (subst (λ k. length pre + k ≤ length b.content) m (le-at pre (bs ++ s) rest)) in
    e ∙ ap₂ (λ x c. some (done x c)) q a

-- Every read of a value that was written at `pos` gives the value.
read_value-value_bytes :
    (x : Value) (pre rest : Bytes)
    → Fits x
    → length (pre ++ (value_bytes x ++ rest)) < 18446744073709551616
    → read_value x (at pre (value_bytes x ++ rest)) ≡ some (done x (at (pre ++ value_bytes x) rest))
read_value-value_bytes x pre rest f l = go x f (omega (arith, le-at pre (value_bytes x) rest), l)
  where
    go :
        (x : Value)
        → Fits x
        → IsValid (at pre (value_bytes x ++ rest))
        → read_value x (at pre (value_bytes x ++ rest))
          ≡ some (done x (at (pre ++ value_bytes x) rest))
    go (int32 i) f v = ap (as_value int32) (int-at 4 i pre rest _ f (data_read_int32-IsRead _ v))
    go (int64 i) f v = ap (as_value int64) (int-at 8 i pre rest _ f (data_read_int64-IsRead _ v))
    go (char c) f v = ap (as_value char) (int-at 1 c pre rest _ f (data_read_char-IsRead _ v))
    go (str s) f v = ap (as_value str) (str-at s pre rest _ f (data_read_str-IsStr _ v))

write_value-value_bytes :
    (x : Value) (buf : Bytes) → Fits x → write_value buf x ≡ done true (buf ++ value_bytes x)
unfolding data_write_str
write_value-value_bytes (int32 i) buf f = refl
write_value-value_bytes (int64 i) buf f = refl
write_value-value_bytes (char c) buf f = refl
write_value-value_bytes (str s) buf f =
    let e : ltb max_str_len (length s) ≡ false = ground (arith, f) in
    rw e (ap (done true) (append_assoc buf (to_bytes 4 (length s)) s))

abbrev write_next : Outcome Bool Bytes → (Bytes → Outcome Bool Bytes) → Outcome Bool Bytes
write_next (done r buf) k = k buf
write_next (failed e buf) k = failed e buf

-- The values are written one after the other, up to the first error.
unfoldable pub write_values : Bytes → List Value → Outcome Bool Bytes
write_values buf [] = done true buf
write_values buf (x ∷ xs) = write_next (write_value buf x) (λ b. write_values b xs)

abbrev and_then : ReadOf Value → (AngelBuffer → ReadOf (List Value)) → ReadOf (List Value)
and_then none k = none
and_then (some (failed e b)) k = some (failed e b)
and_then (some (done x b)) k = elim (k b) [
  | none ↦ none
  | some (failed e b') ↦ some (failed e b')
  | some (done xs b') ↦ some (done (x ∷ xs) b')
]

-- Values of the same types as the given ones are read, up to the first error.
unfoldable pub read_values : List Value → AngelBuffer → ReadOf (List Value)
read_values [] b = some (done [] b)
read_values (x ∷ xs) b = and_then (read_value x b) (read_values xs)

abbrev pub all_bytes : List Value → Bytes
all_bytes [] = []
all_bytes (x ∷ xs) = value_bytes x ++ all_bytes xs

abbrev pub AllFit : List Value → Type 0
AllFit [] = 0 ≤ 0
AllFit (x ∷ xs) = Fits x × AllFit xs

write_all :
    (xs : List Value) (buf : Bytes)
    → AllFit xs
    → write_values buf xs ≡ done true (buf ++ all_bytes xs)
unfolding write_values
write_all [] buf f = ap (done true) (sym (append-nil buf))
write_all (x ∷ xs) buf f =
    let (g, h) = f in
    ap (λ r. write_next r (λ b. write_values b xs)) (write_value-value_bytes x buf g)
    ∙ write_all xs (buf ++ value_bytes x) h
    ∙ ap (done true) (append_assoc buf (value_bytes x) (all_bytes xs))

read_all :
    (xs : List Value) (pre rest : Bytes)
    → AllFit xs
    → length (pre ++ (all_bytes xs ++ rest)) < 18446744073709551616
    → read_values xs (at pre (all_bytes xs ++ rest))
      ≡ some (done xs (at (pre ++ all_bytes xs) rest))
unfolding read_values
read_all [] pre rest f l = ap (λ p. some (done [] (at p rest))) (sym (append-nil pre))
read_all (x ∷ xs) pre rest f l =
    let (g, h) = f in
    let a = append_assoc (value_bytes x) (all_bytes xs) rest in
    let l' = subst (λ c. length (pre ++ c) < 18446744073709551616) a l in
    subst
      (λ c.
        read_values (x ∷ xs) (at pre c)
        ≡ some (done (x ∷ xs) (at (pre ++ (value_bytes x ++ all_bytes xs)) rest)))
      (sym a)
      (ap (λ r. and_then r (read_values xs))
          (read_value-value_bytes x pre (all_bytes xs ++ rest) g l')
        ∙ ap
            (λ r.
              and_then (some (done x (at (pre ++ value_bytes x) (all_bytes xs ++ rest)))) (λ b. r))
            (read_all xs (pre ++ value_bytes x) rest h (
              subst (λ c. length c < 18446744073709551616)
                (sym (append_assoc pre (value_bytes x) (all_bytes xs ++ rest))) l'))
        ∙ ap (λ p. some (done (x ∷ xs) (at p rest)))
            (append_assoc pre (value_bytes x) (all_bytes xs)))

-- Whatever was in the buffer before and whatever follows: values that fit (an int32 below 2^32, an
-- int64 below 2^64, a char below 256, a string of at most 1024 bytes, in a buffer whose size a gsize
-- counts) are all written, and the readers of the same types, called at the old end of the buffer,
-- give the same values in the same order and stop at the new end.
pub read_values-write_values :
    (xs : List Value) (buf rest : Bytes)
    → AllFit xs
    → length (buf ++ (all_bytes xs ++ rest)) < 18446744073709551616
    → (out : Bytes) × (write_values buf xs ≡ done true out)
      × (read_values xs (record { content = out ++ rest; pos = length buf })
          ≡ some (done xs (record { content = out ++ rest; pos = length out })))
read_values-write_values xs buf rest f l = (
  buf ++ all_bytes xs,
  write_all xs buf f,
  subst
      (λ c.
        read_values xs (record { content = c; pos = length buf })
        ≡ some (done xs (at (buf ++ all_bytes xs) rest)))
      (sym (append_assoc buf (all_bytes xs) rest)) (read_all xs buf rest f l),
)

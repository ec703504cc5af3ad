-- ===== src/Chunk/Content.antt =====
-- What a chunk queue stands for: the sequence of octets that it will send.
use lighttpd.Prelude.{
  ℕ, zero, suc, ◌+◌, ◌-◌, ◌≤◌, ◌≡◌, refl, ap, sym, ◌∙◌, List, [], ◌∷◌, ◌++◌, Bytes, map, arith,
  length, take, drop, drop-drop, length-take, length-drop,
}
use lighttpd.Chunk.Defs.{
  Body, unused_chunk, string_chunk, mem_chunk, file_chunk, buffer_chunk, Chunk, body_length,
}

-- A byte in memory, or the byte at a position of a file.
pub data Octet : Type 0 where
  byte : ℕ → Octet
  file_at : ℕ → ℕ → Octet

-- n octets of a file
abbrev pub file_range : ℕ → ℕ → ℕ → List Octet
file_range file start zero = []
file_range file start (suc n) = file_at file start ∷ file_range file (suc start) n

abbrev pub body_octets : Body → ℕ → List Octet
body_octets unused_chunk offset = []
body_octets (string_chunk str) offset = map byte (drop offset str)
body_octets (mem_chunk mem) offset = map byte (drop offset mem)
body_octets (file_chunk file start len) offset = file_range file (start + offset) (len - offset)
body_octets (buffer_chunk buffer start len) offset =
    map byte (drop offset (take len (drop start buffer)))

abbrev pub octets : List Chunk → List Octet
octets [] = []
octets (c ∷ cs) = body_octets c.body c.offset ++ octets cs

-- The offsets stay inside the data.
abbrev pub IsBody : Body → ℕ → Type 0
IsBody unused_chunk offset = offset ≤ offset
IsBody (string_chunk str) offset = offset ≤ length str
IsBody (mem_chunk mem) offset = offset ≤ length mem
IsBody (file_chunk file start len) offset = offset ≤ len
IsBody (buffer_chunk buffer start len) offset = (offset ≤ len) × (start + len ≤ length buffer)

abbrev pub AreChunks : List Chunk → Type 0
AreChunks [] = 0 ≤ 0
AreChunks (c ∷ cs) = IsBody c.body c.offset × AreChunks cs

pub length-map : (xs : Bytes) → length (map byte xs) ≡ length xs
length-map [] = refl
length-map (x ∷ xs) = ap suc (length-map xs)

pub take-map : (n : ℕ) (xs : Bytes) → map byte (take n xs) ≡ take n (map byte xs)
take-map zero xs = refl
take-map (suc n) [] = refl
take-map (suc n) (x ∷ xs) = ap (◌∷◌ (byte x)) (take-map n xs)

drop-map : (n : ℕ) (xs : Bytes) → map byte (drop n xs) ≡ drop n (map byte xs)
drop-map zero xs = refl
drop-map (suc n) [] = refl
drop-map (suc n) (x ∷ xs) = drop-map n xs

pub take-take : (n m : ℕ) (xs : Bytes) → n ≤ m → take n (take m xs) ≡ take n xs
take-take zero m xs h = refl
take-take (suc n) zero xs h = elim h [ ]
take-take (suc n) (suc m) [] h = refl
take-take (suc n) (suc m) (x ∷ xs) h = ap (◌∷◌ x) (take-take n m xs (omega arith))

pub drop-take : (n m : ℕ) (xs : Bytes) → drop n (take m xs) ≡ take (m - n) (drop n xs)
drop-take zero m xs = let e : m - 0 ≡ m = omega arith in rw e
drop-take (suc n) zero xs = let e : 0 - suc n ≡ 0 = omega arith in rw e
drop-take (suc n) (suc m) [] = nil-take (suc m - suc n)
  where
    nil-take : (k : ℕ) → [] ≡ take {A = ℕ} k []
    nil-take zero = refl
    nil-take (suc k) = refl
drop-take (suc n) (suc m) (x ∷ xs) =
    let e : suc m - suc n ≡ m - n = omega arith in rw e (drop-take n m xs)

length-file_range : (f s n : ℕ) → length (file_range f s n) ≡ n
length-file_range f s zero = refl
length-file_range f s (suc n) = ap suc (length-file_range f (suc s) n)

pub take-file_range : (n f s m : ℕ) → n ≤ m → take n (file_range f s m) ≡ file_range f s n
take-file_range zero f s m h = refl
take-file_range (suc n) f s zero h = elim h [ ]
take-file_range (suc n) f s (suc m) h =
    ap (◌∷◌ (file_at f s)) (take-file_range n f (suc s) m (omega arith))

drop-file_range : (n f s m : ℕ) → drop n (file_range f s m) ≡ file_range f (s + n) (m - n)
drop-file_range zero f s m =
    let e : s + 0 ≡ s = omega arith in let d : m - 0 ≡ m = omega arith in rw (e, d)
drop-file_range (suc n) f s zero = let d : 0 - suc n ≡ 0 = omega arith in rw d
drop-file_range (suc n) f s (suc m) =
    let e : s + suc n ≡ suc s + n = omega arith in
    let d : suc m - suc n ≡ m - n = omega arith in rw (e, d) (drop-file_range n f (suc s) m)

-- A chunk has as many octets as its length says.
pub length-body_octets :
    (b : Body) (o : ℕ) → IsBody b o → length (body_octets b o) ≡ body_length b o
length-body_octets unused_chunk o h = refl
length-body_octets (string_chunk s) o h = length-map (drop o s) ∙ length-drop o s
length-body_octets (mem_chunk s) o h = length-map (drop o s) ∙ length-drop o s
length-body_octets (file_chunk f s l) o h = length-file_range f (s + o) (l - o)
length-body_octets (buffer_chunk b s l) o h = omega (
  arith,
  length-map (drop o (take l (drop s b))),
  length-drop o (take l (drop s b)),
  length-take l (drop s b),
  length-drop s b,
)

-- Raising the offset drops octets from the front.
pub body_octets-drop : (b : Body) (o n : ℕ) → body_octets b (o + n) ≡ drop n (body_octets b o)
body_octets-drop unused_chunk o zero = refl
body_octets-drop unused_chunk o (suc n) = refl
body_octets-drop (string_chunk s) o n = rw (← drop-drop o n s) (drop-map n (drop o s))
body_octets-drop (mem_chunk s) o n = rw (← drop-drop o n s) (drop-map n (drop o s))
body_octets-drop (file_chunk f s l) o n =
    let e : s + (o + n) ≡ s + o + n = omega arith in
    let d : l - (o + n) ≡ l - o - n = omega arith in
    rw (e, d) (sym (drop-file_range n f (s + o) (l - o)))
body_octets-drop (buffer_chunk b s l) o n =
    rw (← drop-drop o n (take l (drop s b))) (drop-map n (drop o (take l (drop s b))))

pub body_length-add :
    (b : Body) (o n : ℕ) → n ≤ body_length b o → body_length b (o + n) + n ≡ body_length b o
body_length-add unused_chunk o n h = omega arith
body_length-add (string_chunk s) o n h = omega arith
body_length-add (mem_chunk s) o n h = omega arith
body_length-add (file_chunk f s l) o n h = omega arith
body_length-add (buffer_chunk b s l) o n h = omega arith

pub IsBody-add : (b : Body) (o n : ℕ) → IsBody b o → n ≤ body_length b o → IsBody b (o + n)
IsBody-add unused_chunk o n h k = omega arith
IsBody-add (string_chunk s) o n h k = omega arith
IsBody-add (mem_chunk s) o n h k = omega arith
IsBody-add (file_chunk f s l) o n h k = omega arith
IsBody-add (buffer_chunk b s l) o n h k = (omega arith, omega arith)

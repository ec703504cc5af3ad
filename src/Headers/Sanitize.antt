-- ===== src/Headers/Sanitize.antt =====
-- What the value of a new header is.
use lighttpd.Prelude.{
  ℕ, zero, suc, ◌+◌, ◌-◌, ◌<◌, ◌≤◌, ◌≡◌, refl, sym, ap, ap₂, subst, ◌∙◌, inl, inr, Bool, true,
  false, Option, none, some, [], ◌∷◌, ◌++◌, Bytes, arith, length-append, take-append_ge,
  drop-append_ge, take-append-drop, append_assoc, append-nil, drop-all, length, set, take, drop,
  Bool-cases, if◌then◌else◌,
}
use lighttpd.Path.Memory.{length-set, take-set}
use lighttpd.Headers.Defs.{
  byte_at, is_eol, is_blank, find_eol, Unfold, store, unfold_byte, unfold_loop, unfolded_content,
  header_new,
}

-- The bytes after the moves, without the memory: a folding becomes one space.
abbrev pub unfolded : Bool → Bytes → Bytes
unfolded folding [] = []
unfolded folding (c ∷ cs) =
    let eol = unfolded true cs in
    let rest = unfolded false cs in
    if is_eol c
    then eol
    else if is_blank c
    then (if folding then eol else c ∷ rest)
    else if folding
    then 32 ∷ c ∷ rest
    else c ∷ rest

drop-set : (m : Bytes) (j c k : ℕ) → j < k → drop k (set m j c) ≡ drop k m
drop-set [] j c k h = refl
drop-set (x ∷ m) j c zero h = absurd (omega arith)
drop-set (x ∷ m) zero c (suc k) h = refl
drop-set (x ∷ m) (suc j) c (suc k) h = drop-set m j c k (omega arith)

drop-byte_at : (m : Bytes) (i : ℕ) → i < length m → drop i m ≡ byte_at m i ∷ drop (suc i) m
drop-byte_at [] i h = absurd (omega arith)
drop-byte_at (x ∷ m) zero h = refl
drop-byte_at (x ∷ m) (suc i) h = drop-byte_at m i (omega arith)

abbrev bit : Bool → ℕ
bit true = 1
bit false = 0

-- The moves stay behind the reads.
abbrev IsBehind : ℕ → Unfold → Type 0
IsBehind i s = (s.j + bit s.folding ≤ i) × (i ≤ length s.str)

module _ (m : Bytes) (i j c : ℕ) where
  -- One byte is read: what is there and what is still to come stay the same.
  abbrev IsStep : Bytes → Unfold → Type 0
  IsStep xs s =
      IsBehind (suc i) s
      × (length s.str ≡ length m)
      × (take s.j s.str ++ unfolded s.folding (drop (suc i) s.str) ≡ take j m ++ xs)

  abbrev at : Bool → Unfold
  at folding = record { str = m; j = j; folding = folding }

store-rest :
    (m : Bytes) (i j c : ℕ) (xs : Bytes)
    → j ≤ i
    → i < length m
    → take (suc j) (set m j c) ++ unfolded false (drop (suc i) (set m j c))
      ≡ take j m ++ (c ∷ unfolded false (drop (suc i) m))
store-rest m i j c xs h l =
    ap (λ x. x ++ unfolded false (drop (suc i) (set m j c))) (take-set m j c (omega (arith, h, l)))
    ∙ append_assoc (take j m) (c ∷ []) _
    ∙ ap (λ x. take j m ++ (c ∷ unfolded false x)) (drop-set m j c (suc i) (omega (arith, h)))

keep-IsStep :
    (m : Bytes) (i j c : ℕ)
    → j ≤ i
    → i < length m
    → IsStep m i j c (c ∷ unfolded false (drop (suc i) m)) (store c (at m i j c false))
keep-IsStep m i j c h l = (
  (omega (arith, h), subst (λ k. suc i ≤ k) (sym (length-set m j c)) (omega (arith, l))),
  length-set m j c,
  store-rest m i j c [] h l,
)

joined-IsStep :
    (m : Bytes) (i j c : ℕ)
    → suc j ≤ i
    → i < length m
    → IsStep m i j c
        (32 ∷ c ∷ unfolded false (drop (suc i) m))
        (store c (record (store 32 (at m i j c true)) { folding = false }))
joined-IsStep m i j c h l =
    let m' = set m j 32 in
    let l' : length m' ≡ length m = length-set m j 32 in
    let k : length (set m' (suc j) c) ≡ length m = length-set m' (suc j) c ∙ l' in
    (
      (omega (arith, h), subst (λ k. suc i ≤ k) (sym k) (omega (arith, l))),
      k,
      store-rest m' i (suc j) c [] h (subst (λ k. i < k) (sym l') l)
          ∙ ap (λ x. x ++ (c ∷ unfolded false (drop (suc i) m')))
              (take-set m j 32 (omega (arith, h, l)))
          ∙ append_assoc (take j m) (32 ∷ []) _
          ∙ ap (λ x. take j m ++ (32 ∷ c ∷ unfolded false x))
              (drop-set m j 32 (suc i) (omega (arith, h))),
    )

unfold_byte-IsStep :
    (m : Bytes) (i j c : ℕ) (folding : Bool)
    → IsBehind i (at m i j c folding)
    → i < length m
    → IsStep m i j c (unfolded folding (c ∷ drop (suc i) m)) (unfold_byte c (at m i j c folding))
unfold_byte-IsStep m i j c folding b l = elim (Bool-cases (is_eol c)) [
  | inl e ↦ rw e (eol folding b)
  | inr e ↦ elim (Bool-cases (is_blank c)) [
    | inl k ↦ blank folding e k b
    | inr k ↦ other folding e k b
  ]
]
  where
    eol :
        (f : Bool)
        → IsBehind i (at m i j c f)
        → IsBehind (suc i) (at m i j c true)
          × (length m ≡ length m)
          × (take j m ++ unfolded true (drop (suc i) m)
              ≡ take j m ++ unfolded true (drop (suc i) m))
    eol true b = ((omega (arith, b.0), omega (arith, l)), refl, refl)
    eol false b = ((omega (arith, b.0), omega (arith, l)), refl, refl)

    blank :
        (f : Bool)
        → is_eol c ≡ false
        → is_blank c ≡ true
        → IsBehind i (at m i j c f)
        → IsStep m i j c (unfolded f (c ∷ drop (suc i) m)) (unfold_byte c (at m i j c f))
    blank true e k b = rw (e, k) ((omega (arith, b.0), omega (arith, l)), refl, refl)
    blank false e k b = rw (e, k) (keep-IsStep m i j c (omega (arith, b.0)) l)

    other :
        (f : Bool)
        → is_eol c ≡ false
        → is_blank c ≡ false
        → IsBehind i (at m i j c f)
        → IsStep m i j c (unfolded f (c ∷ drop (suc i) m)) (unfold_byte c (at m i j c f))
    other true e k b = rw (e, k) (joined-IsStep m i j c (omega (arith, b.0)) l)
    other false e k b = rw (e, k) (keep-IsStep m i j c (omega (arith, b.0)) l)

-- The loop ends with what was to come unfolded_content behind what was there.
loop-unfolded :
    (n i : ℕ) (m : Bytes) (j : ℕ) (folding : Bool)
    → i + n ≡ length m
    → IsBehind i (record { str = m; j = j; folding = folding })
    → (s : Unfold) × (unfold_loop n i (record { str = m; j = j; folding = folding }) ≡ s)
      × (take s.j s.str ≡ take j m ++ unfolded folding (drop i m))
unfolding unfold_loop
loop-unfolded zero i m j folding e b = (
  _,
  refl,
  sym (
      ap (λ x. take j m ++ unfolded folding x) (drop-all i m (omega (arith, e)))
      ∙ append-nil (take j m)),
)
loop-unfolded (suc n) i m j folding e b =
    let l : i < length m = omega (arith, e) in
    let (b', k, r) = unfold_byte-IsStep m i j (byte_at m i) folding b l in
    let t = unfold_byte (byte_at m i) (record { str = m; j = j; folding = folding }) in
    let (s, p, q) = loop-unfolded n (suc i) t.str t.j t.folding (omega (arith, e, k)) b' in
    (s, p, q ∙ r ∙ ap (λ x. take j m ++ unfolded folding x) (sym (drop-byte_at m i l)))

plain_byte :
    (c : ℕ) (cs : Bytes) → is_eol c ≡ false → unfolded false (c ∷ cs) ≡ c ∷ unfolded false cs
plain_byte c cs e = elim (Bool-cases (is_blank c)) [
  | inl k ↦ rw (e, k) refl
  | inr k ↦ rw (e, k) refl
]

-- No byte before the first '\r' or '\n' changes.
abbrev IsFirst : ℕ → Bytes → Option ℕ → Type 0
IsFirst i m none = unfolded false (drop i m) ≡ drop i m
IsFirst i m (some k) =
    (i ≤ k)
    × (k ≤ length m)
    × (take k m ++ unfolded false (drop k m) ≡ take i m ++ unfolded false (drop i m))

take-byte_at : (m : Bytes) (i : ℕ) → i < length m → take (suc i) m ≡ take i m ++ (byte_at m i ∷ [])
take-byte_at [] i h = absurd (omega arith)
take-byte_at (x ∷ m) zero h = refl
take-byte_at (x ∷ m) (suc i) h = ap (◌∷◌ x) (take-byte_at m i (omega arith))

next-IsFirst :
    (i : ℕ) (m : Bytes) (o : Option ℕ)
    → i < length m
    → is_eol (byte_at m i) ≡ false
    → IsFirst (suc i) m o
    → IsFirst i m o
next-IsFirst i m none l e h =
    let d = drop-byte_at m i l in
    ap (unfolded false) d
    ∙ plain_byte (byte_at m i) (drop (suc i) m) e
    ∙ ap (◌∷◌ (byte_at m i)) h
    ∙ sym d
next-IsFirst i m (some k) l e h =
    let (a, b, c) = h in
    (
      omega (arith, a),
      b,
      c
          ∙ ap (λ x. x ++ unfolded false (drop (suc i) m)) (take-byte_at m i l)
          ∙ append_assoc (take i m) (byte_at m i ∷ []) _
          ∙ ap (λ x. take i m ++ x)
              (sym (plain_byte (byte_at m i) (drop (suc i) m) e)
                ∙ ap (unfolded false) (sym (drop-byte_at m i l))),
    )

find_eol-IsFirst : (n i : ℕ) (m : Bytes) → i + n ≡ length m → IsFirst i m (find_eol n m i)
unfolding find_eol
find_eol-IsFirst zero i m h =
    let d = drop-all i m (omega (arith, h)) in ap (unfolded false) d ∙ sym d
find_eol-IsFirst (suc n) i m h = elim (Bool-cases (is_eol (byte_at m i))) [
  | inl e ↦ rw e (omega arith, omega (arith, h), refl)
  | inr e ↦
      rw e
        (next-IsFirst i m _ (omega (arith, h)) e (find_eol-IsFirst n (suc i) m (omega (arith, h))))
]

unfolded_content-unfolded :
    (m : Bytes) (i : ℕ) (o : Option ℕ)
    → i ≤ length m
    → IsFirst i m o
    → unfolded_content m o ≡ take i m ++ unfolded false (drop i m)
unfolding unfolded_content
unfolded_content-unfolded m i none l f = sym (ap (λ x. take i m ++ x) f ∙ take-append-drop i m)
unfolded_content-unfolded m i (some k) l f =
    let (a, b, c) = f in
    let (s, p, q) = loop-unfolded (length m - k) k m k false (omega (arith, b)) (omega arith, b) in
    ap (λ s. take s.j s.str) p ∙ q ∙ c

-- The value of a new header, without the memory.
pub header_new-unfolded :
    (key val : Bytes) → (header_new key val).content ≡ key ++ (58 ∷ 32 ∷ unfolded false val)
unfolding header_new
header_new-unfolded key val =
    let m = key ++ (58 ∷ 32 ∷ val) in
    let l : length m ≡ length key + (2 + length val) =
      omega (arith, length-append key (58 ∷ 32 ∷ val)) in
    unfolded_content-unfolded m (length key + 2) _ (omega (arith, l))
      (find_eol-IsFirst _ _ m (omega (arith, l)))
    ∙ ap₂ (λ x y. x ++ unfolded false y) (take-append_ge key _ 2 _ refl)
        (drop-append_ge key _ 2 _ refl)
    ∙ append_assoc key (58 ∷ 32 ∷ []) (unfolded false val)

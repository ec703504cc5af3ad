-- ===== src/Path/Memory.antt =====
-- The memory of the path up to a place, and the way back to a slash.
use lighttpd.Prelude.{
  ℕ, zero, suc, ◌+◌, ◌<◌, ◌≤◌, ◌≡◌, refl, sym, ap, subst, ◌∙◌, true, false, List, Bytes, [], ◌∷◌,
  ◌++◌, arith, append_assoc, length, length-append, length-take, get_elem?, set, take, take-all,
  take-append_le,
}
use lighttpd.Path.Simplify.{is_slash, seek, drop_segment}
use lighttpd.Path.Segments.{IsToken, joined}

pub take-take : (k n : ℕ) (m : Bytes) → k ≤ n → take k (take n m) ≡ take k m
take-take zero n m h = refl
take-take (suc k) zero m h = absurd (omega arith)
take-take (suc k) (suc n) [] h = refl
take-take (suc k) (suc n) (x ∷ m) h = ap (◌∷◌ x) (take-take k n m (omega arith))

get_elem?-take : (j n : ℕ) (m : Bytes) → j < n → get_elem? (take n m) j ≡ get_elem? m j
get_elem?-take j zero m h = absurd (omega arith)
get_elem?-take j (suc n) [] h = refl
get_elem?-take zero (suc n) (x ∷ m) h = refl
get_elem?-take (suc j) (suc n) (x ∷ m) h = get_elem?-take j n m (omega arith)

get_elem?-append : (a b : Bytes) (i j : ℕ) → i ≡ length a + j → get_elem? (a ++ b) i ≡ get_elem? b j
get_elem?-append [] b i j h = ap (get_elem? b) (omega (arith, h))
get_elem?-append (x ∷ a) b zero j h = absurd (omega (arith, h))
get_elem?-append (x ∷ a) b (suc i) j h = get_elem?-append a b i j (omega (arith, h))

pub length-set : (m : Bytes) (i c : ℕ) → length (set m i c) ≡ length m
length-set [] i c = refl
length-set (x ∷ m) zero c = refl
length-set (x ∷ m) (suc i) c = ap suc (length-set m i c)

-- A character is written at the end.
pub take-set :
    (m : Bytes) (i c : ℕ) → i < length m → take (suc i) (set m i c) ≡ take i m ++ (c ∷ [])
take-set [] i c h = absurd (omega arith)
take-set (x ∷ m) zero c h = refl
take-set (x ∷ m) (suc i) c h = ap (◌∷◌ x) (take-set m i c (omega arith))

-- A beginning of what is written
pub take-part : (n : ℕ) (m a b : Bytes) → take n m ≡ a ++ b → take (length a) m ≡ a
take-part n m a b e =
    let l = ap length e in
    let k = length-append a b in
    let t = length-take n m in
    sym (take-take (length a) n m (omega (arith, l, k, t)))
    ∙ ap (take (length a)) e
    ∙ take-append_le (length a) a b (omega arith)
    ∙ take-all (length a) a (omega arith)

-- Going back over k characters that are no slash, to one that is.
seek_back :
    (m : Bytes) (i k : ℕ)
    → is_slash (get_elem? m i) ≡ true
    → ((j : ℕ) → j < k → is_slash (get_elem? m (suc (i + j))) ≡ false)
    → (n : ℕ) → n ≡ i + k
    → seek m n ≡ i
unfolding seek
seek_back m i k h g zero e = omega (arith, e)
seek_back m i zero h g (suc n) e =
    let d : suc n ≡ i = omega (arith, e) in
    let t : is_slash (get_elem? m (suc n)) ≡ true =
      subst (λ x. is_slash (get_elem? m x) ≡ true) (sym d) h in
    rw t d
seek_back m i (suc k) h g (suc n) e =
    let d : suc (i + k) ≡ suc n = omega (arith, e) in
    let t : is_slash (get_elem? m (suc n)) ≡ false =
      subst (λ x. is_slash (get_elem? m x) ≡ false) d (g k (omega arith)) in
    rw t (seek_back m i k h (λ j l. g j (omega arith)) n (omega (arith, e)))

token_char :
    (s rest : Bytes) (j : ℕ) → IsToken s → j < length s → is_slash (get_elem? (s ++ rest) j) ≡ false
token_char [] rest j h l = absurd (omega arith)
token_char (c ∷ s) rest zero h l = h.0
token_char (c ∷ s) rest (suc j) h l = token_char s rest j h.1 (omega arith)

next_place : (a j : ℕ) → suc (a + j) ≡ a + suc j
next_place a j = omega arith

-- With a segment behind others, dropping it leads to the end of the others.
pub drop_segment-joined :
    (n : ℕ) (m : Bytes) (ss : List Bytes) (s rest : Bytes)
    → take n m ≡ joined (s ∷ ss) ++ rest
    → IsToken s
    → drop_segment m (length (joined (s ∷ ss))) ≡ length (joined ss)
unfolding drop_segment
drop_segment-joined n m ss s rest e h =
    let a = joined ss in
    let l = length-append a (47 ∷ s) in
    let f = append_assoc a (47 ∷ s) rest in
    let whole : take n m ≡ a ++ (47 ∷ s ++ rest) = e ∙ f in
    let t = length-take n m in
    let w = ap length whole in
    let v = length-append a (47 ∷ s ++ rest) in
    let u = length-append s rest in
    let at = λ (j : ℕ) (p : j ≤ length s).
      sym (get_elem?-take (length a + j) n m (omega (arith, t, w, v, u, p)))
      ∙ ap (λ x. get_elem? x (length a + j)) whole
      ∙ get_elem?-append a (47 ∷ s ++ rest) (length a + j) j refl in
    let end : length (joined (s ∷ ss)) ≡ suc (length a + length s) = omega (arith, l) in
    let zero_at : length a ≡ length a + 0 = omega arith in
    let suc_at = λ (j : ℕ). next_place (length a) j in
    ap (drop_segment m) end
    ∙ seek_back m (length a) (length s)
        (ap is_slash (ap (get_elem? m) zero_at ∙ at 0 (omega arith)))
        (λ j i.
          ap is_slash (ap (get_elem? m) (suc_at j) ∙ at (suc j) (omega arith))
          ∙ token_char s rest j h i)
        (length a + length s) refl

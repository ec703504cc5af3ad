-- ===== src/Wait/Chain.antt =====
-- Elements that are linked to each other in the order of a list.
use lighttpd.Prelude.{
  ℕ, ◌≡◌, refl, sym, ap, subst, ◌∙◌, inl, inr, ◌⊎◌, Bool, true, false, ◌||◌, Option, some, List, [],
  ◌∷◌, ◌++◌, arith, ◌==◌, ==_refl, Bool-cases,
}
use lighttpd.Wait.Defs.{Elem, set_elem}

abbrev pub mem : ℕ → List ℕ → Bool
mem a [] = false
mem a (x ∷ xs) = (a == x) || mem a xs

abbrev pub IsDistinct : List ℕ → Type 0
IsDistinct [] = true ≡ true
IsDistinct (x ∷ xs) = (mem x xs ≡ false) × IsDistinct xs

-- The pointer to the first element of a list that goes on with n, and to the last of one behind p
abbrev pub first : List ℕ → Option ℕ → Option ℕ
first [] n = n
first (x ∷ xs) n = some x

abbrev pub last : Option ℕ → List ℕ → Option ℕ
last p [] = p
last p (x ∷ xs) = last (some x) xs

-- The elements are linked in the order of the list, behind p and before n.
abbrev pub Chain : (ℕ → Elem) → Option ℕ → List ℕ → Option ℕ → Type 0
Chain s p [] n = true ≡ true
Chain s p (x ∷ xs) n = ((s x).prev ≡ p) × ((s x).next ≡ first xs n) × Chain s (some x) xs n

-- The links of the elements of the list are the same.
abbrev pub SameLinks : List ℕ → (ℕ → Elem) → (ℕ → Elem) → Type 0
SameLinks xs s t = (a : ℕ) → mem a xs ≡ true → ((t a).prev ≡ (s a).prev) × ((t a).next ≡ (s a).next)

pub frame-Chain :
    (s t : ℕ → Elem) (p : Option ℕ) (xs : List ℕ) (n : Option ℕ)
    → SameLinks xs s t
    → Chain s p xs n
    → Chain t p xs n
frame-Chain s t p [] n h c = refl
frame-Chain s t p (x ∷ xs) n h c =
    let (a, b, d) = c in
    let (e, f) = h x (rw (==_refl x) refl) in
    (e ∙ a, f ∙ b, frame-Chain s t (some x) xs n (λ y m. h y (ground (arith, m))) d)

pub first-append : (xs ys : List ℕ) (n : Option ℕ) → first (xs ++ ys) n ≡ first xs (first ys n)
first-append [] ys n = refl
first-append (x ∷ xs) ys n = refl

pub last-append : (p : Option ℕ) (xs ys : List ℕ) → last p (xs ++ ys) ≡ last (last p xs) ys
last-append p [] ys = refl
last-append p (x ∷ xs) ys = last-append (some x) xs ys

pub split-Chain :
    (s : ℕ → Elem) (p : Option ℕ) (xs ys : List ℕ) (n : Option ℕ)
    → Chain s p (xs ++ ys) n
    → Chain s p xs (first ys n) × Chain s (last p xs) ys n
split-Chain s p [] ys n c = (refl, c)
split-Chain s p (x ∷ xs) ys n c =
    let (a, b, d) = c in
    let (l, r) = split-Chain s (some x) xs ys n d in ((a, b ∙ first-append xs ys n, l), r)

pub join-Chain :
    (s : ℕ → Elem) (p : Option ℕ) (xs ys : List ℕ) (n : Option ℕ)
    → Chain s p xs (first ys n)
    → Chain s (last p xs) ys n
    → Chain s p (xs ++ ys) n
join-Chain s p [] ys n c d = d
join-Chain s p (x ∷ xs) ys n c d =
    let (a, b, e) = c in (a, b ∙ sym (first-append xs ys n), join-Chain s (some x) xs ys n e d)

pub mem-append : (a : ℕ) (xs ys : List ℕ) → mem a (xs ++ ys) ≡ (mem a xs || mem a ys)
mem-append a [] ys = refl
mem-append a (x ∷ xs) ys = ground (arith, mem-append a xs ys)

pub set_elem_same : (a : ℕ) (x : Elem) (s : ℕ → Elem) → set_elem a x s a ≡ x
set_elem_same a x s = rw (==_refl a) refl

pub set_elem_other :
    (a : ℕ) (x : Elem) (s : ℕ → Elem) (b : ℕ) → (b == a) ≡ false → set_elem a x s b ≡ s b
set_elem_other a x s b h = rw h refl

-- A member is no element outside.
pub mem_other : (a b : ℕ) (xs : List ℕ) → mem a xs ≡ false → mem b xs ≡ true → (b == a) ≡ false
mem_other a b [] h m = absurd (ground (arith, m))
mem_other a b (x ∷ xs) h m = elim (Bool-cases (b == x)) [
  | inl e ↦ ground (arith, h, e)
  | inr e ↦ mem_other a b xs (ground (arith, h)) (ground (arith, m, e))
]

-- Nothing outside of the list matters.
pub outside-Chain :
    (s : ℕ → Elem) (a : ℕ) (x : Elem) (p : Option ℕ) (xs : List ℕ) (n : Option ℕ)
    → mem a xs ≡ false
    → Chain s p xs n
    → Chain (set_elem a x s) p xs n
outside-Chain s a x p xs n h c =
    frame-Chain s (set_elem a x s) p xs n
      (λ b m.
        let e = set_elem_other a x s b (mem_other a b xs h m) in
        (ap (λ y. y.prev) e, ap (λ y. y.next) e))
      c

-- The last element goes on with n.
pub last-Chain :
    (s : ℕ → Elem) (p : Option ℕ) (xs : List ℕ) (a : ℕ) (m n : Option ℕ)
    → mem a xs ≡ false
    → Chain s p (xs ++ (a ∷ [])) m
    → Chain (set_elem a (record (s a) { next = n }) s) p (xs ++ (a ∷ [])) n
last-Chain s p xs a m n h c =
    let (l, r) = split-Chain s p xs (a ∷ []) m c in
    let e = set_elem_same a (record (s a) { next = n }) s in
    join-Chain (set_elem a (record (s a) { next = n }) s) p xs (a ∷ []) n
      (outside-Chain s a _ p xs (some a) h l) (ap (λ y. y.prev) e ∙ r.0, ap (λ y. y.next) e, refl)

-- The first element comes behind q.
pub first-Chain :
    (s : ℕ → Elem) (p q : Option ℕ) (b : ℕ) (xs : List ℕ) (n : Option ℕ)
    → mem b xs ≡ false
    → Chain s p (b ∷ xs) n
    → Chain (set_elem b (record (s b) { prev = q }) s) q (b ∷ xs) n
first-Chain s p q b xs n h c =
    let e = set_elem_same b (record (s b) { prev = q }) s in
    (ap (λ y. y.prev) e, ap (λ y. y.next) e ∙ c.1, outside-Chain s b _ (some b) xs n h c.2)

pub split-IsDistinct :
    (xs : List ℕ) (e : ℕ) (ys : List ℕ)
    → IsDistinct (xs ++ (e ∷ ys))
    → (mem e xs ≡ false) × (mem e ys ≡ false) × IsDistinct (xs ++ ys)
split-IsDistinct [] e ys d = (refl, d.0, d.1)
split-IsDistinct (x ∷ xs) e ys d =
    let (h, k) = d in
    let (a, b, c) = split-IsDistinct xs e ys k in
    let m = mem-append x xs (e ∷ ys) in
    let n = mem-append x xs ys in (ground (arith, a, h, m), b, (ground (arith, h, m, n), c))

-- A member of the first part is none of the second.
pub IsDistinct-apart :
    (a : ℕ) (xs ys : List ℕ) → IsDistinct (xs ++ ys) → mem a xs ≡ true → mem a ys ≡ false
IsDistinct-apart a [] ys d m = absurd (ground (arith, m))
IsDistinct-apart a (x ∷ xs) ys d m = elim (Bool-cases (a == x)) [
  | inl e ↦
      let f : a ≡ x = ground (arith, e) in
      let n = mem-append x xs ys in subst (λ z. mem z ys ≡ false) (sym f) (ground (arith, d.0, n))
  | inr e ↦ IsDistinct-apart a xs ys d.1 (ground (arith, m, e))
]

pub snoc_cases : (xs : List ℕ) → (xs ≡ []) ⊎ ((ys : List ℕ) × (a : ℕ) × (xs ≡ ys ++ (a ∷ [])))
snoc_cases [] = inl refl
snoc_cases (x ∷ xs) = elim (snoc_cases xs) [
  | inl e ↦ inr ([], x, ap (◌∷◌ x) e)
  | inr (ys, a, e) ↦ inr (x ∷ ys, a, ap (◌∷◌ x) e)
]

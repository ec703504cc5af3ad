-- ===== src/Wait/Unlink.antt =====
-- An element leaves its neighbours.
use lighttpd.Prelude.{
  ℕ, ◌≡◌, refl, sym, ap, subst, ◌∙◌, inl, inr, true, false, Option, none, some, List, [], ◌∷◌, ◌++◌,
  arith, append_assoc, ◌==◌, ==_refl, Bool-cases,
}
use lighttpd.Wait.Defs.{
  WaitQueue, set_elem, put_elem, is_elem, set_next, set_prev, skip_next, skip_prev,
}
use lighttpd.Wait.Chain.{
  mem, IsDistinct, first, last, Chain, mem-append, set_elem_other, last-Chain, first-Chain,
  split-IsDistinct, snoc_cases, last-append,
}

-- Where e stands between ys and zs, of which ys begins behind p
module _ (e : ℕ) (p : Option ℕ) (ys zs : List ℕ) where
  -- The fields that the code goes by
  abbrev pub IsBetween : WaitQueue → Type 0
  IsBetween q =
      ((q.elems e).prev ≡ last p ys)
      × ((q.elems e).next ≡ first zs none)
      × (q.head ≡ first (ys ++ (e ∷ zs)) none)
      × (mem e ys ≡ false)
      × (mem e zs ≡ false)

  -- The links of ys go on with zs, and nothing else changes but the head.
  abbrev pub HasSkippedNext : WaitQueue → Option WaitQueue → Type 0
  HasSkippedNext q r =
      (q1 : WaitQueue) × (r ≡ some q1)
      × (q1.head ≡ first (ys ++ zs) none)
      × (q1.tail ≡ q.tail)
      × (q1.queue_length ≡ q.queue_length)
      × Chain q1.elems p ys (first zs none)
      × ((x : ℕ) → mem x ys ≡ false → q1.elems x ≡ q.elems x)
      × ((x : ℕ) → (q1.elems x).queued ≡ (q.elems x).queued)

  -- The links of zs come behind ys, and nothing else changes but the tail.
  abbrev pub HasSkippedPrev : WaitQueue → Option WaitQueue → Type 0
  HasSkippedPrev q r =
      (q1 : WaitQueue) × (r ≡ some q1)
      × (q1.tail ≡ elim zs [ [] ↦ last p ys | x ∷ xs ↦ q.tail ])
      × (q1.head ≡ q.head)
      × (q1.queue_length ≡ q.queue_length)
      × Chain q1.elems (last p ys) zs none
      × ((x : ℕ) → mem x zs ≡ false → q1.elems x ≡ q.elems x)
      × ((x : ℕ) → (q1.elems x).queued ≡ (q.elems x).queued)

-- A change of one link is none of `queued`.
pub queued-next :
    (q : WaitQueue) (a : ℕ) (n : Option ℕ) (x : ℕ)
    → (set_elem a (record (q.elems a) { next = n }) q.elems x).queued ≡ (q.elems x).queued
queued-next q a n x = elim (Bool-cases (x == a)) [
  | inl e ↦ let f : x ≡ a = ground (arith, e) in rw e (ap (λ z. (q.elems z).queued) (sym f))
  | inr e ↦ rw e refl
]

pub queued-prev :
    (q : WaitQueue) (a : ℕ) (n : Option ℕ) (x : ℕ)
    → (set_elem a (record (q.elems a) { prev = n }) q.elems x).queued ≡ (q.elems x).queued
queued-prev q a n x = elim (Bool-cases (x == a)) [
  | inl e ↦ let f : x ≡ a = ground (arith, e) in rw e (ap (λ z. (q.elems z).queued) (sym f))
  | inr e ↦ rw e refl
]

-- The head of a queue that does not begin with e
head_other :
    (e : ℕ) (ys : List ℕ) (a : ℕ) (zs : List ℕ)
    → mem e (ys ++ (a ∷ [])) ≡ false
    → is_elem e (first ((ys ++ (a ∷ [])) ++ zs) none) ≡ false
head_other e [] a zs m = ground (arith, m)
head_other e (y ∷ ys) a zs m = ground (arith, m)

first_snoc :
    (ys : List ℕ) (a : ℕ) (xs zs : List ℕ)
    → first ((ys ++ (a ∷ [])) ++ xs) none ≡ first ((ys ++ (a ∷ [])) ++ zs) none
first_snoc [] a xs zs = refl
first_snoc (y ∷ ys) a xs zs = refl

pub mem_last : (ys : List ℕ) (a x : ℕ) → mem x (ys ++ (a ∷ [])) ≡ false → (x == a) ≡ false
mem_last ys a x h = let m = mem-append x ys (a ∷ []) in ground (arith, h, m)

skip_next-head :
    (e : ℕ) (p : Option ℕ) (zs : List ℕ) (q : WaitQueue)
    → IsBetween e p [] zs q
    → HasSkippedNext e p [] zs q (skip_next e q)
skip_next-head e p zs q b =
    let (i, j, k, l, m) = b in
    let t : is_elem e q.head ≡ true = ap (is_elem e) k ∙ ==_refl e in
    rw t (record q { head = (q.elems e).next }, refl, j, refl, refl, refl, λ x h. refl, λ x. refl)

skip_next-behind :
    (e : ℕ) (p : Option ℕ) (ys : List ℕ) (a : ℕ) (zs : List ℕ) (q : WaitQueue)
    → IsBetween e p (ys ++ (a ∷ [])) zs q
    → mem a ys ≡ false
    → Chain q.elems p (ys ++ (a ∷ [])) (some e)
    → HasSkippedNext e p (ys ++ (a ∷ [])) zs q (skip_next e q)
skip_next-behind e p ys a zs q b d c =
    let (i, j, k, l, m) = b in
    let t : is_elem e q.head ≡ false = ap (is_elem e) k ∙ head_other e ys a (e ∷ zs) l in
    let n = (q.elems e).next in
    let u : (q.elems e).prev ≡ some a = i ∙ last-append p ys (a ∷ []) in
    rw t (
      put_elem a (record (q.elems a) { next = n }) q,
      ap (λ x. set_next x n q) u,
      k ∙ first_snoc ys a (e ∷ zs) zs,
      refl,
      refl,
      subst (λ f. Chain (set_elem a (record (q.elems a) { next = n }) q.elems) p (ys ++ (a ∷ [])) f)
          j (last-Chain q.elems p ys a (some e) n d c),
      λ x h. set_elem_other a _ q.elems x (mem_last ys a x h),
      queued-next q a n,
    )

pub skip_next-HasSkippedNext :
    (e : ℕ) (p : Option ℕ) (ys zs : List ℕ) (q : WaitQueue)
    → IsBetween e p ys zs q
    → IsDistinct (ys ++ (e ∷ zs))
    → Chain q.elems p ys (some e)
    → HasSkippedNext e p ys zs q (skip_next e q)
skip_next-HasSkippedNext e p ys zs q b d c = elim (snoc_cases ys) [
  | inl r ↦
      subst (λ y. HasSkippedNext e p y zs q (skip_next e q)) (sym r)
        (skip_next-head e p zs q (subst (λ y. IsBetween e p y zs q) r b))
  | inr (xs, a, r) ↦
      let f = subst IsDistinct (ap (λ y. y ++ (e ∷ zs)) r ∙ append_assoc xs (a ∷ []) (e ∷ zs)) d in
      subst (λ y. HasSkippedNext e p y zs q (skip_next e q)) (sym r)
        (skip_next-behind e p xs a zs q (subst (λ y. IsBetween e p y zs q) r b)
          (split-IsDistinct xs a (e ∷ zs) f).0 (subst (λ y. Chain q.elems p y (some e)) r c))
]

pub tail_other :
    (e b : ℕ) (zs : List ℕ) → mem e (b ∷ zs) ≡ false → is_elem e (last (some b) zs) ≡ false
tail_other e b [] m = ground (arith, m)
tail_other e b (z ∷ zs) m = tail_other e z zs (ground (arith, m))

pub skip_prev-HasSkippedPrev :
    (e : ℕ) (p : Option ℕ) (ys zs : List ℕ) (q : WaitQueue)
    → ((q.elems e).prev ≡ last p ys)
    → ((q.elems e).next ≡ first zs none)
    → q.tail ≡ last (some e) zs
    → mem e zs ≡ false
    → IsDistinct zs
    → Chain q.elems (some e) zs none
    → HasSkippedPrev e p ys zs q (skip_prev e q)
skip_prev-HasSkippedPrev e p ys [] q i j k m d c =
    let t : is_elem e q.tail ≡ true = ap (is_elem e) k ∙ ==_refl e in
    rw t (record q { tail = (q.elems e).prev }, refl, i, refl, refl, refl, λ x h. refl, λ x. refl)
skip_prev-HasSkippedPrev e p ys (b ∷ zs) q i j k m d c =
    let t : is_elem e q.tail ≡ false = ap (is_elem e) k ∙ tail_other e b zs m in
    let n = (q.elems e).prev in
    rw t (
      put_elem b (record (q.elems b) { prev = n }) q,
      ap (λ x. set_prev x n q) j,
      refl,
      refl,
      refl,
      subst (λ f. Chain (set_elem b (record (q.elems b) { prev = n }) q.elems) f (b ∷ zs) none) i
          (first-Chain q.elems (some e) n b zs none d.0 c),
      λ x h. set_elem_other b _ q.elems x (ground (arith, h)),
      queued-prev q b n,
    )

-- ===== src/Wait/Remove.antt =====
-- A wait queue as the list of its elements, and an element that is taken out.
use lighttpd.Prelude.{
  ℕ, ◌-◌, ◌≡◌, refl, sym, ap, subst, ◌∙◌, inl, inr, Bool, true, false, Option, none, some, List, [],
  ◌∷◌, ◌++◌, arith, append-nil, length, length-append, ◌==◌, ==_refl, Bool-cases, if◌then◌else◌,
}
use lighttpd.Wait.Defs.{
  WaitQueue, is_null, and_then, skip_next, skip_prev, let_go, let_out, waitqueue_remove,
}
use lighttpd.Wait.Chain.{
  mem, IsDistinct, first, last, Chain, frame-Chain, split-Chain, join-Chain, mem-append,
  outside-Chain, split-IsDistinct, IsDistinct-apart, last-append,
}
use lighttpd.Wait.Unlink.{skip_next-HasSkippedNext, skip_prev-HasSkippedPrev}

-- The tail is the last element, if there is one.
abbrev pub IsTail : List ℕ → Option ℕ → Type 0
IsTail [] o = true ≡ true
IsTail (x ∷ xs) o = o ≡ last (some x) xs

-- The queue has the elements of the list in their order. What stands before the first does not matter.
pub record IsQueue (q : WaitQueue) (xs : List ℕ) : Type 0 where
  pub before : Option ℕ
  pub is_chain : Chain q.elems before xs none
  pub is_head : q.head ≡ first xs none
  pub is_tail : IsTail xs q.tail
  pub is_queued : (a : ℕ) → (q.elems a).queued ≡ mem a xs
  pub is_distinct : IsDistinct xs
  pub is_count : q.queue_length ≡ length xs

pub IsTail-append :
    (ys : List ℕ) (b : ℕ) (zs : List ℕ) (o : Option ℕ)
    → o ≡ last (some b) zs
    → IsTail (ys ++ (b ∷ zs)) o
IsTail-append [] b zs o h = h
IsTail-append (y ∷ ys) b zs o h = h ∙ sym (last-append (some y) ys (b ∷ zs))

pub tail_append :
    (ys : List ℕ) (b : ℕ) (zs : List ℕ) (o : Option ℕ)
    → IsTail (ys ++ (b ∷ zs)) o
    → o ≡ last (some b) zs
tail_append [] b zs o h = h
tail_append (y ∷ ys) b zs o h = h ∙ last-append (some y) ys (b ∷ zs)

skipped-IsTail :
    (p : Option ℕ) (ys : List ℕ) (e : ℕ) (zs : List ℕ) (o r : Option ℕ)
    → o ≡ last (some e) zs
    → r ≡ elim zs as (λ x. Option ℕ) [ [] ↦ last p ys | x ∷ xs ↦ o ]
    → IsTail (ys ++ zs) r
skipped-IsTail p [] e [] o r h k = refl
skipped-IsTail p (y ∷ ys) e [] o r h k = k ∙ ap (last (some y)) (sym (append-nil ys))
skipped-IsTail p ys e (z ∷ zs) o r h k = IsTail-append ys z zs r (k ∙ h)

-- Which elements are queued when e is none any more
pub queued_without :
    (q : WaitQueue) (e : ℕ) (ys zs : List ℕ)
    → ((a : ℕ) → (q.elems a).queued ≡ mem a (ys ++ (e ∷ zs)))
    → mem e ys ≡ false
    → mem e zs ≡ false
    → (a : ℕ) → ((let_go e q).elems a).queued ≡ mem a (ys ++ zs)
queued_without q e ys zs h m n a = elim (Bool-cases (a == e)) [
  | inl r ↦
      let s : a ≡ e = ground (arith, r) in
      let t = mem-append e ys zs in
      rw r (subst (λ x. false ≡ mem x (ys ++ zs)) (sym s) (ground (arith, t, m, n)))
  | inr r ↦
      let t = mem-append a ys zs in
      let u = mem-append a ys (e ∷ zs) in rw r (h a ∙ ground (arith, t, u, r))
]

-- The timer is no matter of the list.
pub timer-IsQueue :
    (b : Bool) (t : Option ℕ) (q : WaitQueue) (xs : List ℕ)
    → IsQueue q xs
    → IsQueue (if b then record q { timer = t } else q) xs
timer-IsQueue true t q xs h = record {
  before = h.before;
  is_chain = h.is_chain;
  is_head = h.is_head;
  is_tail = h.is_tail;
  is_queued = h.is_queued;
  is_distinct = h.is_distinct;
  is_count = h.is_count;
}
timer-IsQueue false t q xs h = h

-- Elements of the second part are none of the first.
IsDistinct-other :
    (a : ℕ) (ys zs : List ℕ) → IsDistinct (ys ++ zs) → mem a zs ≡ true → mem a ys ≡ false
IsDistinct-other a ys zs d m = elim (Bool-cases (mem a ys)) [
  | inl r ↦ let t = IsDistinct-apart a ys zs d r in absurd (ground (arith, t, m))
  | inr r ↦ r
]

second-IsDistinct : (ys zs : List ℕ) → IsDistinct (ys ++ zs) → IsDistinct zs
second-IsDistinct [] zs d = d
second-IsDistinct (y ∷ ys) zs d = second-IsDistinct ys zs d.1

-- The state after e has left its neighbours, before it is marked
abbrev pub IsUnlinked : ℕ → List ℕ → List ℕ → WaitQueue → Type 0
IsUnlinked e ys zs q =
    (q1 : WaitQueue) × (q2 : WaitQueue) × (skip_next e q ≡ some q1)
    × (skip_prev e q1 ≡ some q2)
    × ((p : Option ℕ) × Chain q2.elems p (ys ++ zs) none)
    × (q2.head ≡ first (ys ++ zs) none)
    × IsTail (ys ++ zs) q2.tail
    × (q2.queue_length ≡ q.queue_length)
    × ((a : ℕ) → (q2.elems a).queued ≡ (q.elems a).queued)
    × (q1.tail ≡ q.tail)
    × (q2.elems e ≡ q.elems e)

pub unlink-IsUnlinked :
    (e : ℕ) (ys zs : List ℕ) (q : WaitQueue) → IsQueue q (ys ++ (e ∷ zs)) → IsUnlinked e ys zs q
unlink-IsUnlinked e ys zs q h =
    let p = h.before in
    let (l, r) = split-Chain q.elems p ys (e ∷ zs) none h.is_chain in
    let (m, n, d) = split-IsDistinct ys e zs h.is_distinct in
    let (q1, e1, h1, t1, c1, ch1, s1, k1) =
      skip_next-HasSkippedNext e p ys zs q (r.0, r.1, h.is_head, m, n) h.is_distinct l in
    let z = s1 e m in
    let cz =
      frame-Chain q.elems q1.elems (some e) zs none
        (λ a x.
          let y = s1 a (IsDistinct-other a ys zs d x) in (ap (λ v. v.prev) y, ap (λ v. v.next) y))
        r.2 in
    let t = tail_append ys e zs q.tail h.is_tail in
    let (q2, e2, t2, h2, c2, ch2, s2, k2) =
      skip_prev-HasSkippedPrev e p ys zs q1 (ap (λ v. v.prev) z ∙ r.0) (ap (λ v. v.next) z ∙ r.1)
        (t1 ∙ t) n (second-IsDistinct ys zs d) cz in
    let cy =
      frame-Chain q1.elems q2.elems p ys (first zs none)
        (λ a x.
          let y = s2 a (IsDistinct-apart a ys zs d x) in (ap (λ v. v.prev) y, ap (λ v. v.next) y))
        ch1 in
    (
      q1,
      q2,
      e1,
      e2,
      (p, join-Chain q2.elems p ys zs none cy ch2),
      h2 ∙ h1,
      skipped-IsTail p ys e zs q1.tail q2.tail (t1 ∙ t) t2,
      c2 ∙ c1,
      λ a. k2 a ∙ k1 a,
      t1,
      s2 e n ∙ z,
    )

-- The list without e
abbrev pub delete : ℕ → List ℕ → List ℕ
delete e [] = []
delete e (x ∷ xs) = let rest = delete e xs in if e == x then xs else x ∷ rest

pub find_mem :
    (e : ℕ) (xs : List ℕ)
    → mem e xs ≡ true
    → (ys : List ℕ) × (zs : List ℕ) × (xs ≡ ys ++ (e ∷ zs)) × (delete e xs ≡ ys ++ zs)
find_mem e [] m = absurd (ground (arith, m))
find_mem e (x ∷ xs) m = elim (Bool-cases (e == x)) [
  | inl r ↦ let s : e ≡ x = ground (arith, r) in rw r ([], xs, ap (λ z. z ∷ xs) (sym s), refl)
  | inr r ↦
      let (ys, zs, a, b) = find_mem e xs (ground (arith, m, r)) in
      rw r (x ∷ ys, zs, ap (◌∷◌ x) a, ap (◌∷◌ x) b)
]

pub delete_other : (e : ℕ) (xs : List ℕ) → mem e xs ≡ false → delete e xs ≡ xs
delete_other e [] m = refl
delete_other e (x ∷ xs) m =
    let r : (e == x) ≡ false = ground (arith, m) in
    rw r (ap (◌∷◌ x) (delete_other e xs (ground (arith, m))))

remove_between :
    (e : ℕ) (ys zs : List ℕ) (q : WaitQueue)
    → IsQueue q (ys ++ (e ∷ zs))
    → (q' : WaitQueue) × (waitqueue_remove e q ≡ some q') × IsQueue q' (ys ++ zs)
unfolding waitqueue_remove
remove_between e ys zs q h =
    let (q1, q2, e1, e2, (p, c), hd, tl, n, k, tt, ee) = unlink-IsUnlinked e ys zs q h in
    let (m, o, d) = split-IsDistinct ys e zs h.is_distinct in
    let t : mem e (ys ++ (e ∷ zs)) ≡ true =
      let w = mem-append e ys (e ∷ zs) in let r = ==_refl e in ground (arith, w, r) in
    let q3 = let_go e (record q2 { queue_length = q2.queue_length - 1 }) in
    let v : mem e (ys ++ zs) ≡ false = let w = mem-append e ys zs in ground (arith, w, m, o) in
    rw (h.is_queued e ∙ t) (
      let_out e q2,
      ap (λ x. and_then x (λ q1. and_then (skip_prev e q1) (λ q2. some (let_out e q2)))) e1
          ∙ ap (λ x. and_then x (λ q2. some (let_out e q2))) e2,
      timer-IsQueue (is_null q3.head) none q3 (ys ++ zs) (record {
        before = p;
        is_chain = outside-Chain q2.elems e _ p (ys ++ zs) none v c;
        is_head = hd;
        is_tail = tl;
        is_queued = queued_without q2 e ys zs (λ a. k a ∙ h.is_queued a) m o;
        is_distinct = d;
        is_count =
            let w = length-append ys zs in
            let x = length-append ys (e ∷ zs) in omega (arith, n, h.is_count, w, x);
      }),
    )

-- If the queue has the elements of a list in their order: li_waitqueue_remove follows no null pointer
-- and leaves the queue with the elements of the list but e, in their order, whether e is the first,
-- the last, the only one, one between others or none of them.
pub waitqueue_remove-delete :
    (e : ℕ) (q : WaitQueue) (xs : List ℕ)
    → IsQueue q xs
    → (q' : WaitQueue) × (waitqueue_remove e q ≡ some q') × IsQueue q' (delete e xs)
unfolding waitqueue_remove
waitqueue_remove-delete e q xs h = elim (Bool-cases (mem e xs)) [
  | inl m ↦
      let (ys, zs, a, b) = find_mem e xs m in
      let (q', r, i) = remove_between e ys zs q (subst (IsQueue q) a h) in
      (q', r, subst (IsQueue q') (sym b) i)
  | inr m ↦ rw (h.is_queued e ∙ m) (q, refl, subst (IsQueue q) (sym (delete_other e xs m)) h)
]

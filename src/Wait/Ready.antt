-- ===== src/Wait/Ready.antt =====
-- All elements that are ready are taken out.
use lighttpd.Prelude.{
  ℕ, zero, suc, ◌+◌, ◌-◌, ◌≤◌, ◌≡◌, refl, sym, ap, ap₂, subst, ◌∙◌, inl, inr, Bool, true, false,
  Option, none, some, List, [], ◌∷◌, ◌++◌, arith, length, ltb, ==_refl, Bool-cases,
}
use lighttpd.Wait.Defs.{WaitQueue, let_go, cut_at, pop_ready_loop, waitqueue_pop_ready}
use lighttpd.Wait.Chain.{
  mem, IsDistinct, first, last, Chain, mem_other, mem-append, set_elem_same, set_elem_other,
  outside-Chain,
}
use lighttpd.Wait.Unlink.{queued-next}
use lighttpd.Wait.Remove.{IsTail, IsQueue, queued_without}

-- Whether the time of an element and the delay are not over
abbrev pub is_early : ℕ → WaitQueue → ℕ → Bool
is_early now q x = ltb now ((q.elems x).ts + q.delay)

abbrev pub AllReady : ℕ → WaitQueue → List ℕ → Type 0
AllReady now q [] = true ≡ true
AllReady now q (x ∷ xs) = (is_early now q x ≡ false) × AllReady now q xs

abbrev pub IsEarly : ℕ → WaitQueue → List ℕ → Type 0
IsEarly now q [] = true ≡ true
IsEarly now q (x ∷ xs) = is_early now q x ≡ true

-- The elements up to the first that is not ready are out, i more than before.
abbrev pub HasPoppedReady : ℕ → ℕ → WaitQueue → List ℕ → Option (ℕ × WaitQueue) → Type 0
HasPoppedReady i now q xs r =
    (ready : List ℕ) × (rest : List ℕ) × (q' : WaitQueue) × (xs ≡ ready ++ rest)
    × (r ≡ some (i + length ready, q'))
    × AllReady now q ready
    × IsEarly now q rest
    × IsQueue q' rest

-- The queue from some element on, all before it being out
record IsPart (p : Option ℕ) (q : WaitQueue) (xs : List ℕ) : Type 0 where
  is_chain : Chain q.elems p xs none
  is_tail : IsTail xs q.tail
  is_queued : (a : ℕ) → (q.elems a).queued ≡ mem a xs
  is_distinct : IsDistinct xs
  is_count : q.queue_length ≡ length xs
  is_outside : (a : ℕ) → p ≡ some a → mem a xs ≡ false

cut_at-IsQueue :
    (p : Option ℕ) (q : WaitQueue) (x : ℕ) (xs : List ℕ)
    → IsPart p q (x ∷ xs)
    → IsQueue (cut_at p (record q { head = some x })) (x ∷ xs)
cut_at-IsQueue none q x xs h = record {
  before = none;
  is_chain = h.is_chain;
  is_head = refl;
  is_tail = h.is_tail;
  is_queued = h.is_queued;
  is_distinct = h.is_distinct;
  is_count = h.is_count;
}
cut_at-IsQueue (some a) q x xs h = record {
  before = some a;
  is_chain =
      outside-Chain q.elems a (record (q.elems a) { next = none }) (some a) (x ∷ xs) none
        (h.is_outside a refl) h.is_chain;
  is_head = refl;
  is_tail = h.is_tail;
  is_queued = λ b. queued-next q a none b ∙ h.is_queued b;
  is_distinct = h.is_distinct;
  is_count = h.is_count;
}

-- x is out, and the next element is the first.
abbrev without : ℕ → WaitQueue → WaitQueue
without x q = let q1 = let_go x q in record q1 { queue_length = q1.queue_length - 1 }

without-IsPart :
    (p : Option ℕ) (q : WaitQueue) (x : ℕ) (xs : List ℕ)
    → IsPart p q (x ∷ xs)
    → IsPart (some x) (without x q) xs
without-IsPart p q x xs h =
    let m = h.is_distinct.0 in
    record {
      is_chain =
          outside-Chain q.elems x (record (q.elems x) { ts = 0; queued = false }) (some x) xs none m
            h.is_chain.2;
      is_tail = tail_rest xs h.is_tail;
      is_queued = queued_without q x [] xs h.is_queued refl m;
      is_distinct = h.is_distinct.1;
      is_count = omega (arith, h.is_count);
      is_outside = λ a e.
          subst (λ o. elim o as (λ z. Type 0) [ none ↦ true ≡ true | some b ↦ mem b xs ≡ false ]) e
            m;
    }
  where
    tail_rest : (ys : List ℕ) → q.tail ≡ last (some x) ys → IsTail ys q.tail
    tail_rest [] t = refl
    tail_rest (y ∷ ys) t = t

-- The elements of xs are the same without x.
without-elems :
    (q : WaitQueue) (x : ℕ) (xs : List ℕ) (y : ℕ)
    → mem x xs ≡ false
    → mem y xs ≡ true
    → (without x q).elems y ≡ q.elems y
without-elems q x xs y h m = set_elem_other x _ q.elems y (mem_other x y xs h m)

early_eq :
    (now : ℕ) (q r : WaitQueue) (y : ℕ)
    → r.elems y ≡ q.elems y
    → r.delay ≡ q.delay
    → is_early now r y ≡ is_early now q y
early_eq now q r y e d = ap₂ (λ z w. ltb now (z.ts + w)) e d

frame-AllReady :
    (now : ℕ) (q r : WaitQueue) (ys zs : List ℕ)
    → ((y : ℕ) → mem y (ys ++ zs) ≡ true → r.elems y ≡ q.elems y)
    → r.delay ≡ q.delay
    → AllReady now r ys
    → AllReady now q ys
frame-AllReady now q r [] zs h d a = refl
frame-AllReady now q r (y ∷ ys) zs h d (a, b) = (
  sym (early_eq now q r y (h y (rw (==_refl y) refl)) d) ∙ a,
  frame-AllReady now q r ys zs (λ w m. h w (ground (arith, m))) d b,
)

frame-IsEarly :
    (now : ℕ) (q r : WaitQueue) (ys zs : List ℕ)
    → ((y : ℕ) → mem y (ys ++ zs) ≡ true → r.elems y ≡ q.elems y)
    → r.delay ≡ q.delay
    → IsEarly now r zs
    → IsEarly now q zs
frame-IsEarly now q r ys [] h d a = refl
frame-IsEarly now q r ys (z ∷ zs) h d a =
    sym (
      early_eq now q r z
        (h z (let w = mem-append z ys (z ∷ zs) in let v = ==_refl z in ground (arith, w, v))) d)
    ∙ a

loop-HasPoppedReady :
    (fuel now i : ℕ) (p : Option ℕ) (q : WaitQueue) (xs : List ℕ)
    → length xs + 1 ≤ fuel
    → IsPart p q xs
    → HasPoppedReady i now q xs (pop_ready_loop fuel now (first xs none) i q)
unfolding pop_ready_loop
loop-HasPoppedReady zero now i p q xs f h = absurd (omega (arith, f))
loop-HasPoppedReady (suc fuel) now i p q [] f h = (
  [],
  [],
  record q { head = none; tail = none },
  refl,
  ap (λ n. some (n, record q { head = none; tail = none })) (omega arith),
  refl,
  refl,
  record {
    before = none;
    is_chain = refl;
    is_head = refl;
    is_tail = refl;
    is_queued = h.is_queued;
    is_distinct = refl;
    is_count = h.is_count;
  },
)
loop-HasPoppedReady (suc fuel) now i p q (x ∷ xs) f h = elim (Bool-cases (is_early now q x)) [
  | inl e ↦ rw e (
    [],
    x ∷ xs,
    cut_at (q.elems x).prev (record q { head = some x }),
    refl,
    ap (λ n. some (n, cut_at (q.elems x).prev (record q { head = some x }))) (omega arith),
    refl,
    e,
    subst (λ o. IsQueue (cut_at o (record q { head = some x })) (x ∷ xs)) (sym h.is_chain.0)
        (cut_at-IsQueue p q x xs h),
  )
  | inr e ↦
      let q1 = without x q in
      let n : (q1.elems x).next ≡ first xs none =
        ap (λ y. y.next) (set_elem_same x (record (q.elems x) { ts = 0; queued = false }) q.elems)
        ∙ h.is_chain.1 in
      let (a, b, q', s, r, v, w, k) =
        loop-HasPoppedReady fuel now (suc i) (some x) q1 xs (omega (arith, f))
          (without-IsPart p q x xs h) in
      let t : (y : ℕ) → mem y (a ++ b) ≡ true → q1.elems y ≡ q.elems y =
        λ y m. without-elems q x xs y h.is_distinct.0 (ap (mem y) s ∙ m) in
      rw e (
        x ∷ a,
        b,
        q',
        ap (◌∷◌ x) s,
        ap (λ o. pop_ready_loop fuel now o (suc i) q1) n ∙ r ∙ ap (λ n. some (n, q')) (omega arith),
        (e, frame-AllReady now q q1 a b t refl v),
        frame-IsEarly now q q1 a b t refl w,
        k,
      )
]

-- If the queue has the elements of a list in their order and nothing stands before the first:
-- li_waitqueue_pop_ready ends, takes out the elements up to the first that is not ready, and returns
-- their number; the queue has the others in their order. What it returns besides is the old head.
pub waitqueue_pop_ready-HasPoppedReady :
    (now : ℕ) (q : WaitQueue) (xs : List ℕ)
    → (h : IsQueue q xs) → h.before ≡ none
    → ((waitqueue_pop_ready now q).0 ≡ first xs none)
      × HasPoppedReady 0 now q xs (waitqueue_pop_ready now q).1
unfolding waitqueue_pop_ready
waitqueue_pop_ready-HasPoppedReady now q xs h b = (
  h.is_head,
  subst (λ o. HasPoppedReady 0 now q xs (pop_ready_loop (q.queue_length + 1) now o 0 q))
      (sym h.is_head)
      (loop-HasPoppedReady (q.queue_length + 1) now 0 none q xs (omega (arith, h.is_count))
        (record {
          is_chain = subst (λ o. Chain q.elems o xs none) b h.is_chain;
          is_tail = h.is_tail;
          is_queued = h.is_queued;
          is_distinct = h.is_distinct;
          is_count = h.is_count;
          is_outside = λ a e.
              subst
                (λ o. elim o as (λ z. Type 0) [ none ↦ true ≡ true | some b ↦ mem b xs ≡ false ]) e
                refl;
        })),
)

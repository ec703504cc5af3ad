-- ===== src/Wait/Pop.antt =====
-- The head of a wait queue is taken out.
use lighttpd.Prelude.{
  ℕ, ◌+◌, ◌-◌, ◌≡◌, refl, sym, ap, subst, ◌∙◌, inl, inr, true, false, Option, none, some, List, [],
  ◌∷◌, arith, ltb, ==_refl, Bool-cases, if◌then◌else◌,
}
use lighttpd.Wait.Defs.{
  WaitQueue, put_elem, is_elem, and_then, set_prev, let_go, take_head, waitqueue_pop,
  waitqueue_pop_force, pop_ready_head, pop_any_head,
}
use lighttpd.Wait.Chain.{set_elem_other, outside-Chain, first-Chain}
use lighttpd.Wait.Unlink.{queued-prev, tail_other}
use lighttpd.Wait.Remove.{IsQueue, queued_without}

-- Without its head the queue has the other elements.
abbrev IsRest : Option WaitQueue → List ℕ → Type 0
IsRest r xs = (q' : WaitQueue) × (r ≡ some q') × IsQueue q' xs

take_head-IsRest :
    (h : ℕ) (zs : List ℕ) (q : WaitQueue) → IsQueue q (h ∷ zs) → IsRest (take_head h q) zs
take_head-IsRest h [] q i =
    let t : is_elem h q.tail ≡ true = ap (is_elem h) i.is_tail ∙ ==_refl h in
    rw t (
      let_go h
          (record q { tail = none; head = (q.elems h).next; queue_length = q.queue_length - 1 }),
      refl,
      record {
        before = none;
        is_chain = refl;
        is_head = i.is_chain.1;
        is_tail = refl;
        is_queued = queued_without q h [] [] i.is_queued refl refl;
        is_distinct = refl;
        is_count = omega (arith, i.is_count);
      },
    )
take_head-IsRest h (b ∷ zs) q i =
    let (m, d) = i.is_distinct in
    let t : is_elem h q.tail ≡ false = ap (is_elem h) i.is_tail ∙ tail_other h b zs m in
    let q1 = put_elem b (record (q.elems b) { prev = none }) q in
    let n : (q.elems h).next ≡ some b = i.is_chain.1 in
    let s : q1.elems h ≡ q.elems h = set_elem_other b _ q.elems h (ground (arith, m)) in
    rw t (
      let_go h (record q1 { head = (q1.elems h).next; queue_length = q1.queue_length - 1 }),
      ap
          (λ x. and_then x (λ q1. some (
            let_go h (record q1 { head = (q1.elems h).next; queue_length = q1.queue_length - 1 }))))
          (ap (λ x. set_prev x none q) n),
      record {
        before = none;
        is_chain =
            outside-Chain q1.elems h _ none (b ∷ zs) none m
              (first-Chain q.elems (some h) none b zs none d.0 i.is_chain.2);
        is_head = ap (λ x. x.next) s ∙ n;
        is_tail = i.is_tail;
        is_queued =
            queued_without q1 h [] (b ∷ zs) (λ a. queued-prev q b none a ∙ i.is_queued a) refl m;
        is_distinct = d;
        is_count = omega (arith, i.is_count);
      },
    )

-- The first element comes out if it has waited for the delay, and nothing changes otherwise.
abbrev pub IsPopped : ℕ → WaitQueue → List ℕ → Option ℕ × Option WaitQueue → Type 0
IsPopped now q [] r = r ≡ (none, some q)
IsPopped now q (x ∷ xs) r =
    if ltb now ((q.elems x).ts + q.delay)
    then r ≡ (none, some q)
    else (q' : WaitQueue) × (r ≡ (some x, some q')) × IsQueue q' xs

-- The first element comes out if there is one.
abbrev pub IsForced : WaitQueue → List ℕ → Option ℕ × Option WaitQueue → Type 0
IsForced q [] r = r ≡ (none, some q)
IsForced q (x ∷ xs) r = (q' : WaitQueue) × (r ≡ (some x, some q')) × IsQueue q' xs

ready-IsPopped :
    (now : ℕ) (q : WaitQueue) (x : ℕ) (xs : List ℕ)
    → IsRest (take_head x q) xs
    → IsPopped now q (x ∷ xs) (pop_ready_head now (some x) q)
ready-IsPopped now q x xs (q', e, j) = elim (Bool-cases (ltb now ((q.elems x).ts + q.delay))) [
  | inl r ↦ rw r refl
  | inr r ↦ rw r (q', ap (λ z. (some x, z)) e, j)
]

-- If the queue has the elements of a list in their order: li_waitqueue_pop_force returns the first of
-- them, and li_waitqueue_pop returns it if its time and the delay are over; the queue has the others
-- in their order then. Without such an element nothing changes. No null pointer is followed.
pub waitqueue_pop-IsPopped :
    (now : ℕ) (q : WaitQueue) (xs : List ℕ)
    → IsQueue q xs
    → IsPopped now q xs (waitqueue_pop now q) × IsForced q xs (waitqueue_pop_force q)
unfolding waitqueue_pop waitqueue_pop_force
waitqueue_pop-IsPopped now q [] i =
    (ap (λ o. pop_ready_head now o q) i.is_head, ap (λ o. pop_any_head o q) i.is_head)
waitqueue_pop-IsPopped now q (x ∷ xs) i =
    let (q', e, j) = take_head-IsRest x xs q i in
    (
      subst (λ o. IsPopped now q (x ∷ xs) (pop_ready_head now o q)) (sym i.is_head)
          (ready-IsPopped now q x xs (q', e, j)),
      (q', ap (λ o. pop_any_head o q) i.is_head ∙ ap (λ z. (some x, z)) e, j),
    )

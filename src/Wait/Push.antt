-- ===== src/Wait/Push.antt =====
-- An element goes to the end of a wait queue.
use lighttpd.Prelude.{
  ℕ, suc, ◌≡◌, refl, sym, ap, subst, ◌∙◌, inl, inr, Bool, true, false, not, ◌||◌, Option, none,
  some, List, [], ◌∷◌, ◌++◌, arith, append-nil, length, length-append, ◌==◌, ==_refl, Bool-cases,
  if◌then◌else◌,
}
use lighttpd.Wait.Defs.{
  Elem, WaitQueue, set_elem, put_elem, is_elem, is_null, and_then, set_next, set_prev, link_behind,
  insert_elem, skip_prev, move_elem, start_timer, waitqueue_push,
}
use lighttpd.Wait.Chain.{
  mem, IsDistinct, first, Chain, frame-Chain, join-Chain, mem-append, set_elem_same, set_elem_other,
  outside-Chain, last-Chain, split-IsDistinct, snoc_cases, last-append,
}
use lighttpd.Wait.Unlink.{queued-next, tail_other, mem_last}
use lighttpd.Wait.Remove.{
  IsTail, IsQueue, IsTail-append, tail_append, timer-IsQueue, unlink-IsUnlinked, delete, find_mem,
  delete_other,
}

-- A write that keeps `queued`
queued-put :
    (q : WaitQueue) (e : ℕ) (y : Elem) (x : ℕ)
    → y.queued ≡ (q.elems e).queued
    → (set_elem e y q.elems x).queued ≡ (q.elems x).queued
queued-put q e y x h = elim (Bool-cases (x == e)) [
  | inl r ↦ let f : x ≡ e = ground (arith, r) in rw r (h ∙ ap (λ z. (q.elems z).queued) (sym f))
  | inr r ↦ rw r refl
]

-- e stands behind the list now.
abbrev IsBehind : ℕ → Option ℕ → List ℕ → WaitQueue → Option WaitQueue → Type 0
IsBehind e p xs q r =
    (q3 : WaitQueue) × (r ≡ some q3)
    × Chain q3.elems p (xs ++ (e ∷ [])) none
    × (q3.head ≡ q.head)
    × (q3.tail ≡ some e)
    × (q3.queue_length ≡ q.queue_length)
    × ((x : ℕ) → (q3.elems x).queued ≡ (q.elems x).queued)
    × ((q3.elems e).ts ≡ (q.elems e).ts)

link_behind-IsBehind :
    (e : ℕ) (p : Option ℕ) (ys : List ℕ) (a : ℕ) (q : WaitQueue)
    → mem e (ys ++ (a ∷ [])) ≡ false
    → mem a ys ≡ false
    → q.tail ≡ some a
    → Chain q.elems p (ys ++ (a ∷ [])) none
    → IsBehind e p (ys ++ (a ∷ [])) q (link_behind e q)
link_behind-IsBehind e p ys a q m d t c =
    let x = record (q.elems e) { prev = q.tail; next = none } in
    let q1 = put_elem e x q in
    let q2 = put_elem a (record (q1.elems a) { next = some e }) q1 in
    let c1 = outside-Chain q.elems e x p (ys ++ (a ∷ [])) none m c in
    let c2 = last-Chain q1.elems p ys a none (some e) d c1 in
    let z : q2.elems e ≡ x =
      set_elem_other a _ q1.elems e (mem_last ys a e m) ∙ set_elem_same e x q.elems in
    (
      record q2 { tail = some e },
      ap (λ o. and_then (set_next o (some e) q1) (λ q2. some (record q2 { tail = some e }))) t,
      join-Chain q2.elems p (ys ++ (a ∷ [])) (e ∷ []) none c2
          (ap (λ y. y.prev) z ∙ t ∙ sym (last-append p ys (a ∷ [])), ap (λ y. y.next) z, refl),
      refl,
      refl,
      refl,
      λ y. queued-next q1 a (some e) y ∙ queued-put q e x y refl,
      ap (λ y. y.ts) z,
    )

snoc-IsDistinct :
    (xs : List ℕ) (e : ℕ) → IsDistinct xs → mem e xs ≡ false → IsDistinct (xs ++ (e ∷ []))
snoc-IsDistinct [] e d m = (refl, refl)
snoc-IsDistinct (x ∷ xs) e d m =
    let w = mem-append x xs (e ∷ []) in
    (ground (arith, d.0, m, w), snoc-IsDistinct xs e d.1 (ground (arith, m)))

-- The queue where e has been counted and marked, and put behind the others
behind-IsQueue :
    (e : ℕ) (p : Option ℕ) (xs : List ℕ) (q : WaitQueue) (r : Option WaitQueue)
    → IsBehind e p xs q r
    → IsDistinct xs
    → mem e xs ≡ false
    → first (xs ++ (e ∷ [])) none ≡ q.head
    → q.queue_length ≡ suc (length xs)
    → ((x : ℕ) → (q.elems x).queued ≡ (mem x xs || (x == e)))
    → (q' : WaitQueue) × (r ≡ some q')
      × IsQueue q' (xs ++ (e ∷ []))
      × ((q'.elems e).ts ≡ (q.elems e).ts)
behind-IsQueue e p xs q r (q3, s, c, h, t, n, k, ts) d m f l w = (
  q3,
  s,
  record {
    before = p;
    is_chain = c;
    is_head = h ∙ sym f;
    is_tail = IsTail-append xs e [] q3.tail t;
    is_queued = λ x. let v = mem-append x xs (e ∷ []) in k x ∙ w x ∙ ground (arith, v);
    is_distinct = snoc-IsDistinct xs e d m;
    is_count = let v = length-append xs (e ∷ []) in omega (arith, n, l, v);
  },
  ts,
)

-- What a push leaves: e at the end, with the time of q
abbrev IsEnd : ℕ → List ℕ → WaitQueue → Option WaitQueue → Type 0
IsEnd e xs q r =
    (q' : WaitQueue) × (r ≡ some q')
    × IsQueue q' (xs ++ (e ∷ []))
    × ((q'.elems e).ts ≡ (q.elems e).ts)

first_more :
    (ys : List ℕ) (a : ℕ) (zs : List ℕ)
    → first ((ys ++ (a ∷ [])) ++ zs) none ≡ first (ys ++ (a ∷ [])) none
first_more [] a zs = refl
first_more (y ∷ ys) a zs = refl

null_snoc : (ys : List ℕ) (a : ℕ) → is_null (first (ys ++ (a ∷ [])) none) ≡ false
null_snoc [] a = refl
null_snoc (y ∷ ys) a = refl

-- e, marked and counted
abbrev marked : ℕ → WaitQueue → WaitQueue
marked e q =
    put_elem e (record (q.elems e) { queued = true })
      (record q { queue_length = suc q.queue_length })

queued-marked :
    (e : ℕ) (q : WaitQueue) (xs : List ℕ)
    → ((x : ℕ) → (q.elems x).queued ≡ mem x xs)
    → (x : ℕ) → ((marked e q).elems x).queued ≡ (mem x xs || (x == e))
queued-marked e q xs h x = elim (Bool-cases (x == e)) [
  | inl r ↦ rw r (ground arith)
  | inr r ↦ rw r (h x ∙ ground arith)
]

ts-marked : (e : ℕ) (q : WaitQueue) → ((marked e q).elems e).ts ≡ (q.elems e).ts
ts-marked e q = ap (λ y. y.ts) (set_elem_same e (record (q.elems e) { queued = true }) q.elems)

insert_elem-alone : (e : ℕ) (q : WaitQueue) → IsQueue q [] → IsEnd e [] q (insert_elem e q)
insert_elem-alone e q h =
    let q1 = marked e q in
    let x = record (q1.elems e) { prev = none; next = none } in
    let q2 = record (put_elem e x q1) { head = some e; tail = some e } in
    let z : q2.elems e ≡ x = set_elem_same e x q1.elems in
    (
      q2,
      ap (λ b. if b then some q2 else link_behind e q1) (ap is_null h.is_head),
      record {
        before = none;
        is_chain = (ap (λ y. y.prev) z, ap (λ y. y.next) z, refl);
        is_head = refl;
        is_tail = refl;
        is_queued =
            λ a. queued-put q1 e x a refl ∙ queued-marked e q [] h.is_queued a ∙ ground arith;
        is_distinct = (refl, refl);
        is_count = ap suc h.is_count;
      },
      ap (λ y. y.ts) z ∙ ts-marked e q,
    )

insert_elem-more :
    (e : ℕ) (ys : List ℕ) (a : ℕ) (q : WaitQueue)
    → IsQueue q (ys ++ (a ∷ []))
    → mem e (ys ++ (a ∷ [])) ≡ false
    → IsEnd e (ys ++ (a ∷ [])) q (insert_elem e q)
insert_elem-more e ys a q h m =
    let q1 = marked e q in
    let xs = ys ++ (a ∷ []) in
    let x = record (q1.elems e) { prev = none; next = none } in
    let q2 = record (put_elem e x q1) { head = some e; tail = some e } in
    let b =
      link_behind-IsBehind e h.before ys a q1 m (split-IsDistinct ys a [] h.is_distinct).0
        (tail_append ys a [] q.tail h.is_tail)
        (outside-Chain q.elems e _ h.before xs none m h.is_chain) in
    let (q', r, i, t) =
      behind-IsQueue e h.before xs q1 _ b h.is_distinct m (first_more ys a (e ∷ []) ∙ sym h.is_head)
        (ap suc h.is_count) (queued-marked e q xs h.is_queued) in
    (
      q',
      ap (λ b. if b then some q2 else link_behind e q1) (ap is_null h.is_head ∙ null_snoc ys a) ∙ r,
      i,
      t ∙ ts-marked e q,
    )

insert_elem-IsEnd :
    (e : ℕ) (xs : List ℕ) (q : WaitQueue)
    → IsQueue q xs
    → mem e xs ≡ false
    → IsEnd e xs q (insert_elem e q)
insert_elem-IsEnd e xs q h m = elim (snoc_cases xs) [
  | inl r ↦
      subst (λ x. IsEnd e x q (insert_elem e q)) (sym r)
        (insert_elem-alone e q (subst (IsQueue q) r h))
  | inr (ys, a, r) ↦
      subst (λ x. IsEnd e x q (insert_elem e q)) (sym r)
        (insert_elem-more e ys a q (subst (IsQueue q) r h) (subst (λ x. mem e x ≡ false) r m))
]

skip_prev_other :
    (e : ℕ) (q : WaitQueue)
    → is_elem e q.tail ≡ false
    → skip_prev e q ≡ set_prev (q.elems e).next (q.elems e).prev q
skip_prev_other e q t = rw t refl

queued-between :
    (e : ℕ) (ys zs : List ℕ) (x : ℕ) → mem x (ys ++ (e ∷ zs)) ≡ (mem x (ys ++ zs) || (x == e))
queued-between e ys zs x =
    let v = mem-append x ys zs in let w = mem-append x ys (e ∷ zs) in ground (arith, v, w)

move_elem-between :
    (e : ℕ) (ys : List ℕ) (b : ℕ) (zs vs : List ℕ) (a : ℕ) (q : WaitQueue)
    → IsQueue q (ys ++ (e ∷ b ∷ zs))
    → ys ++ (b ∷ zs) ≡ vs ++ (a ∷ [])
    → IsEnd e (ys ++ (b ∷ zs)) q (move_elem e q)
move_elem-between e ys b zs vs a q h s =
    let (q1, q2, e1, e2, (p, c), hd, tl, n, k, tt, ee) = unlink-IsUnlinked e ys (b ∷ zs) q h in
    let (m, o, d) = split-IsDistinct ys e (b ∷ zs) h.is_distinct in
    let xs = vs ++ (a ∷ []) in
    let t : is_elem e q1.tail ≡ false =
      ap (is_elem e) (tt ∙ tail_append ys e (b ∷ zs) q.tail h.is_tail) ∙ tail_other e b zs o in
    let v : mem e xs ≡ false =
      ap (mem e) (sym s) ∙ (let w = mem-append e ys (b ∷ zs) in ground (arith, w, m, o)) in
    let d' = subst IsDistinct s d in
    let l =
      link_behind-IsBehind e p vs a q2 v (split-IsDistinct vs a [] d').0
        (tail_append vs a [] q2.tail (subst (λ x. IsTail x q2.tail) s tl))
        (subst (λ x. Chain q2.elems p x none) s c) in
    let (q', r, i, u) =
      behind-IsQueue e p xs q2 _ l d' v
        (first_more vs a (e ∷ []) ∙ ap (λ x. first x none) (sym s) ∙ sym hd)
        (let f = length-append ys (e ∷ b ∷ zs) in
          let g = length-append ys (b ∷ zs) in
          let j = ap length s in omega (arith, n, h.is_count, f, g, j))
        (λ x.
          k x ∙ h.is_queued x ∙ queued-between e ys (b ∷ zs) x ∙ ap (λ y. mem x y || (x == e)) s) in
    (
      q',
      ap
            (λ x.
              and_then x
                (λ q1. and_then (set_prev (q1.elems e).next (q1.elems e).prev q1) (link_behind e)))
            e1
          ∙ ap (λ x. and_then x (link_behind e)) (sym (skip_prev_other e q1 t) ∙ e2)
          ∙ r,
      subst (λ x. IsQueue q' (x ++ (e ∷ []))) (sym s) i,
      u ∙ ap (λ y. y.ts) ee,
    )

-- The same queue, with another time of e
abbrev stamped : ℕ → ℕ → WaitQueue → WaitQueue
stamped now e q = put_elem e (record (q.elems e) { ts = now }) q

stamped-IsQueue :
    (now e : ℕ) (q : WaitQueue) (xs : List ℕ) → IsQueue q xs → IsQueue (stamped now e q) xs
stamped-IsQueue now e q xs h = record {
  before = h.before;
  is_chain =
      frame-Chain q.elems (stamped now e q).elems h.before xs none (λ a m. links a) h.is_chain;
  is_head = h.is_head;
  is_tail = h.is_tail;
  is_queued = λ a. queued-put q e (record (q.elems e) { ts = now }) a refl ∙ h.is_queued a;
  is_distinct = h.is_distinct;
  is_count = h.is_count;
}
  where
    links :
        (a : ℕ)
        → (((stamped now e q).elems a).prev ≡ (q.elems a).prev)
          × (((stamped now e q).elems a).next ≡ (q.elems a).next)
    links a = elim (Bool-cases (a == e)) [
      | inl r ↦
          let f : a ≡ e = ground (arith, r) in
          rw r (ap (λ z. (q.elems z).prev) (sym f), ap (λ z. (q.elems z).next) (sym f))
      | inr r ↦ rw r (refl, refl)
    ]

started-IsEnd :
    (e : ℕ) (xs : List ℕ) (q : WaitQueue) (r : Option WaitQueue)
    → IsEnd e xs q r
    → IsEnd e xs q (and_then r (λ q2. some (start_timer q2)))
started-IsEnd e xs q r (q', s, i, t) = (
  start_timer q',
  ap (λ x. and_then x (λ q2. some (start_timer q2))) s,
  timer-IsQueue (is_null q'.timer) (some q'.delay) q' (xs ++ (e ∷ [])) i,
  timer_ts (is_null q'.timer) ∙ t,
)
  where
    timer_ts :
        (b : Bool)
        → ((if b then record q' { timer = some q'.delay } else q').elems e).ts ≡ (q'.elems e).ts
    timer_ts true = refl
    timer_ts false = refl

-- e is there and is not the tail, or it is.
member-IsEnd :
    (e : ℕ) (ys zs : List ℕ) (q : WaitQueue)
    → IsQueue q (ys ++ (e ∷ zs))
    → IsEnd e (ys ++ zs) q (
        if is_elem e q.tail then some q else and_then (move_elem e q) (λ q2. some (start_timer q2)))
member-IsEnd e ys [] q h =
    let t : is_elem e q.tail ≡ true =
      ap (is_elem e) (tail_append ys e [] q.tail h.is_tail) ∙ ==_refl e in
    (
      q,
      ap (λ b. if b then some q else and_then (move_elem e q) (λ q2. some (start_timer q2))) t,
      subst (λ x. IsQueue q (x ++ (e ∷ []))) (sym (append-nil ys)) h,
      refl,
    )
member-IsEnd e ys (b ∷ zs) q h =
    let (m, o, d) = split-IsDistinct ys e (b ∷ zs) h.is_distinct in
    let t : is_elem e q.tail ≡ false =
      ap (is_elem e) (tail_append ys e (b ∷ zs) q.tail h.is_tail) ∙ tail_other e b zs o in
    let i : IsEnd e (ys ++ (b ∷ zs)) q (move_elem e q) = elim (snoc_cases (ys ++ (b ∷ zs))) [
      | inl r ↦
          let f = ap length r in let g = length-append ys (b ∷ zs) in absurd (omega (arith, f, g))
      | inr (vs, a, r) ↦ move_elem-between e ys b zs vs a q h r
    ] in
    subst
      (λ x.
        IsEnd e (ys ++ (b ∷ zs)) q
          (if x then some q else and_then (move_elem e q) (λ q2. some (start_timer q2))))
      (sym t) (started-IsEnd e (ys ++ (b ∷ zs)) q _ i)

abbrev after_queued : ℕ → ℕ → WaitQueue → Bool → Option WaitQueue
after_queued now e q b =
    if not b
    then and_then (insert_elem e (stamped now e q)) (λ q2. some (start_timer q2))
    else if is_elem e q.tail
    then some (stamped now e q)
    else and_then (move_elem e (stamped now e q)) (λ q2. some (start_timer q2))

-- If the queue has the elements of a list in their order: li_waitqueue_push follows no null pointer and
-- leaves the queue with the elements of the list other than e in their order and e behind them, whether
-- e was in the queue before or not; the time of e is the given one.
pub waitqueue_push-delete :
    (now e : ℕ) (q : WaitQueue) (xs : List ℕ)
    → IsQueue q xs
    → (q' : WaitQueue) × (waitqueue_push now e q ≡ some q')
      × IsQueue q' (delete e xs ++ (e ∷ []))
      × ((q'.elems e).ts ≡ now)
unfolding waitqueue_push
waitqueue_push-delete now e q xs h =
    let q1 = stamped now e q in
    let i = stamped-IsQueue now e q xs h in
    let u : (q1.elems e).ts ≡ now =
      ap (λ y. y.ts) (set_elem_same e (record (q.elems e) { ts = now }) q.elems) in
    elim (Bool-cases (mem e xs)) [
      | inl m ↦
          let (ys, zs, a, b) = find_mem e xs m in
          let (q', r, j, t) = member-IsEnd e ys zs q1 (subst (IsQueue q1) a i) in
          (
            q',
            ap (after_queued now e q) (h.is_queued e ∙ m) ∙ r,
            subst (λ x. IsQueue q' (x ++ (e ∷ []))) (sym b) j,
            t ∙ u,
          )
      | inr m ↦
          let (q', r, j, t) = started-IsEnd e xs q1 _ (insert_elem-IsEnd e xs q1 i m) in
          (
            q',
            ap (after_queued now e q) (h.is_queued e ∙ m) ∙ r,
            subst (λ x. IsQueue q' (x ++ (e ∷ []))) (sym (delete_other e xs m)) j,
            t ∙ u,
          )
    ]

-- ===== src/Wait/Tests.antt =====
-- A queue of three elements, of which the first has waited long enough.
use lighttpd.Prelude.{
  ℕ, ◌≡◌, refl, inl, inr, true, false, Option, none, some, [], ◌∷◌, ◌++◌, ◌==◌, Bool-cases,
  if◌then◌else◌,
}
use lighttpd.Wait.Defs.{
  Elem, WaitQueue, and_then, waitqueue_push, waitqueue_pop, waitqueue_pop_force, waitqueue_remove,
  pop_ready_loop, waitqueue_pop_ready,
}
use lighttpd.Wait.Chain.{mem, first}
use lighttpd.Wait.Remove.{IsQueue, delete, waitqueue_remove-delete}
use lighttpd.Wait.Pop.{IsPopped, IsForced, waitqueue_pop-IsPopped}
use lighttpd.Wait.Push.{waitqueue_push-delete}
use lighttpd.Wait.Ready.{HasPoppedReady, waitqueue_pop_ready-HasPoppedReady}

abbrev waiting : ℕ → ℕ → Option ℕ → Option ℕ → Elem
waiting e ts prev next = record { queued = true; ts = ts; prev = prev; next = next }

abbrev three_elems : ℕ → Elem
three_elems a =
    if a == 1
    then waiting 1 0 none (some 2)
    else if a == 2
    then waiting 2 100 (some 1) (some 3)
    else if a == 3
    then waiting 3 100 (some 2) none
    else record { queued = false; ts = 0; prev = none; next = none }

abbrev three : WaitQueue
three = record {
  head = some 1;
  tail = some 3;
  timer = some 50;
  delay = 50;
  queue_length = 3;
  elems = three_elems;
}

three_queued : (a : ℕ) → (three.elems a).queued ≡ mem a (1 ∷ 2 ∷ 3 ∷ [])
three_queued a = elim (Bool-cases (a == 1)) [
  | inl e ↦ rw e refl
  | inr e ↦ elim (Bool-cases (a == 2)) [
    | inl f ↦ rw (e, f) refl
    | inr f ↦ elim (Bool-cases (a == 3)) [ inl g ↦ rw (e, f, g) refl | inr g ↦ rw (e, f, g) refl ]
  ]
]

abbrev three-IsQueue : IsQueue three (1 ∷ 2 ∷ 3 ∷ [])
three-IsQueue = record {
  before = none;
  is_chain = (refl, refl, (refl, refl, (refl, refl, refl)));
  is_head = refl;
  is_tail = refl;
  is_queued = three_queued;
  is_distinct = (refl, (refl, (refl, refl)));
  is_count = refl;
}

-- The element in the middle
waitqueue_remove-delete_example :
    (q' : WaitQueue) × (waitqueue_remove 2 three ≡ some q') × IsQueue q' (delete 2 (1 ∷ 2 ∷ 3 ∷ []))
waitqueue_remove-delete_example = waitqueue_remove-delete 2 three (1 ∷ 2 ∷ 3 ∷ []) three-IsQueue

-- The head goes to the end.
waitqueue_push-delete_example :
    (q' : WaitQueue) × (waitqueue_push 120 1 three ≡ some q')
    × IsQueue q' (delete 1 (1 ∷ 2 ∷ 3 ∷ []) ++ (1 ∷ []))
    × ((q'.elems 1).ts ≡ 120)
waitqueue_push-delete_example = waitqueue_push-delete 120 1 three (1 ∷ 2 ∷ 3 ∷ []) three-IsQueue

waitqueue_pop-IsPopped_example :
    IsPopped 60 three (1 ∷ 2 ∷ 3 ∷ []) (waitqueue_pop 60 three)
    × IsForced three (1 ∷ 2 ∷ 3 ∷ []) (waitqueue_pop_force three)
waitqueue_pop-IsPopped_example = waitqueue_pop-IsPopped 60 three (1 ∷ 2 ∷ 3 ∷ []) three-IsQueue

waitqueue_pop_ready-HasPoppedReady_example :
    ((waitqueue_pop_ready 60 three).0 ≡ first (1 ∷ 2 ∷ 3 ∷ []) none)
    × HasPoppedReady 0 60 three (1 ∷ 2 ∷ 3 ∷ []) (waitqueue_pop_ready 60 three).1
waitqueue_pop_ready-HasPoppedReady_example =
    waitqueue_pop_ready-HasPoppedReady 60 three (1 ∷ 2 ∷ 3 ∷ []) three-IsQueue refl

abbrev left_over : Option (ℕ × WaitQueue) → Option WaitQueue
left_over none = none
left_over (some (n, q)) = some q

-- Element 1 comes out of the queue as ready and goes back into it, and element 4 behind it. The head
-- still points back to 1, so that the next call, which takes nothing out, cuts off 4.
abbrev cut_off : Option WaitQueue
cut_off = and_then (left_over (waitqueue_pop_ready 60 three).1) (λ q.
    and_then (waitqueue_push 120 1 q)
      (λ q1. and_then (waitqueue_push 120 4 q1) (λ q2. left_over (waitqueue_pop_ready 121 q2).1)))

abbrev next_of : ℕ → Option WaitQueue → Option ℕ × ℕ
next_of a none = (none, 0)
next_of a (some q) = ((q.elems a).next, q.queue_length)

cut_off_next : next_of 1 cut_off ≡ (none, 4)
unfolding waitqueue_pop_ready waitqueue_push pop_ready_loop
cut_off_next = refl

-- ===== src/Wait/Defs.antt =====
-- common/waitqueue.c: elements that wait for a time. An element is named by a number, and the memory
-- is a function from the names; times are numbers of 10 ms, and a queue is shorter than 2^32.
use lighttpd.Prelude.{
  ℕ, zero, suc, ◌+◌, ◌-◌, Bool, true, false, not, Option, none, some, ltb, ◌==◌, if◌then◌else◌,
}

-- `liWaitQueueElem`
pub record Elem : Type 0 where
  pub queued : Bool
  pub ts : ℕ
  pub prev : Option ℕ
  pub next : Option ℕ

-- `liWaitQueue` and the elements; `timer` is the time after which an active timer fires.
pub record WaitQueue : Type 0 where
  pub head : Option ℕ
  pub tail : Option ℕ
  pub timer : Option ℕ
  pub delay : ℕ
  pub queue_length : ℕ
  pub elems : ℕ → Elem

abbrev pub set_elem : ℕ → Elem → (ℕ → Elem) → ℕ → Elem
set_elem e x s a = if a == e then x else s a

abbrev pub put_elem : ℕ → Elem → WaitQueue → WaitQueue
put_elem e x q = record q { elems = set_elem e x q.elems }

-- `p->next = n` and `p->prev = n`; none where p is NULL
abbrev pub set_next : Option ℕ → Option ℕ → WaitQueue → Option WaitQueue
set_next none n q = none
set_next (some a) n q = some (put_elem a (record (q.elems a) { next = n }) q)

abbrev pub set_prev : Option ℕ → Option ℕ → WaitQueue → Option WaitQueue
set_prev none n q = none
set_prev (some a) n q = some (put_elem a (record (q.elems a) { prev = n }) q)

-- Whether a pointer is the element
abbrev pub is_elem : ℕ → Option ℕ → Bool
is_elem e none = false
is_elem e (some a) = e == a

abbrev pub is_null : Option ℕ → Bool
is_null none = true
is_null (some a) = false

abbrev pub and_then : Option WaitQueue → (WaitQueue → Option WaitQueue) → Option WaitQueue
and_then none k = none
and_then (some q) k = k q

-- `li_waitqueue_update`
abbrev pub waitqueue_update : ℕ → WaitQueue → WaitQueue
waitqueue_update now q = elim q.head [
  | none ↦ record q { timer = none }
  | some h ↦
      let repeat = ((q.elems h).ts + q.delay) - now in
      record q { timer = some (if ltb repeat 5 then 5 else repeat) }
]

-- `li_waitqueue_stop`
abbrev pub waitqueue_stop : WaitQueue → WaitQueue
waitqueue_stop q = record q { timer = none }

-- `li_waitqueue_set_delay`
abbrev pub waitqueue_set_delay : ℕ → ℕ → WaitQueue → WaitQueue
waitqueue_set_delay now delay q =
    let q1 = record q { delay = delay } in if is_null q.timer then q1 else waitqueue_update now q1

-- The element goes behind the tail, which is not NULL.
abbrev pub link_behind : ℕ → WaitQueue → Option WaitQueue
link_behind e q =
    let q1 = put_elem e (record (q.elems e) { prev = q.tail; next = none }) q in
    and_then (set_next q1.tail (some e) q1) (λ q2. some (record q2 { tail = some e }))

-- An element that is in no queue goes to the end.
abbrev pub insert_elem : ℕ → WaitQueue → Option WaitQueue
insert_elem e q =
    let q1 =
      put_elem e (record (q.elems e) { queued = true })
        (record q { queue_length = suc q.queue_length }) in
    let alone = record (put_elem e (record (q1.elems e) { prev = none; next = none }) q1) {
      head = some e;
      tail = some e;
    } in
    let behind = link_behind e q1 in if is_null q.head then some alone else behind

-- The element before e, or the head, gets what follows e.
abbrev pub skip_next : ℕ → WaitQueue → Option WaitQueue
skip_next e q =
    let n = (q.elems e).next in
    if is_elem e q.head then some (record q { head = n }) else set_next (q.elems e).prev n q

-- An element that is not the tail goes to the end.
abbrev pub move_elem : ℕ → WaitQueue → Option WaitQueue
move_elem e q =
    and_then (skip_next e q)
      (λ q1. and_then (set_prev (q1.elems e).next (q1.elems e).prev q1) (link_behind e))

abbrev pub start_timer : WaitQueue → WaitQueue
start_timer q = if is_null q.timer then record q { timer = some q.delay } else q

-- `li_waitqueue_push`
unfoldable pub waitqueue_push : ℕ → ℕ → WaitQueue → Option WaitQueue
waitqueue_push now e q =
    let q1 = put_elem e (record (q.elems e) { ts = now }) q in
    let inserted = and_then (insert_elem e q1) (λ q2. some (start_timer q2)) in
    let moved = and_then (move_elem e q1) (λ q2. some (start_timer q2)) in
    if not (q.elems e).queued then inserted else if is_elem e q.tail then some q1 else moved

-- The element is out: `ts = 0`, `queued = FALSE`.
abbrev pub let_go : ℕ → WaitQueue → WaitQueue
let_go e q = put_elem e (record (q.elems e) { ts = 0; queued = false }) q

-- The head h is taken out.
abbrev pub take_head : ℕ → WaitQueue → Option WaitQueue
take_head h q =
    and_then
      (if is_elem h q.tail
        then some (record q { tail = none })
        else set_prev (q.elems h).next none q)
      (λ q1.
        some
          (let_go h (record q1 { head = (q1.elems h).next; queue_length = q1.queue_length - 1 })))

-- The first element, if it is ready
abbrev pub pop_ready_head : ℕ → Option ℕ → WaitQueue → Option ℕ × Option WaitQueue
pop_ready_head now none q = (none, some q)
pop_ready_head now (some h) q =
    let taken = take_head h q in
    if ltb now ((q.elems h).ts + q.delay) then (none, some q) else (some h, taken)

-- `li_waitqueue_pop`: the element, and the queue without it
unfoldable pub waitqueue_pop : ℕ → WaitQueue → Option ℕ × Option WaitQueue
waitqueue_pop now q = pop_ready_head now q.head q

abbrev pub pop_any_head : Option ℕ → WaitQueue → Option ℕ × Option WaitQueue
pop_any_head none q = (none, some q)
pop_any_head (some h) q = (some h, take_head h q)

-- `li_waitqueue_pop_force`
unfoldable pub waitqueue_pop_force : WaitQueue → Option ℕ × Option WaitQueue
waitqueue_pop_force q = pop_any_head q.head q

-- The element after e, or the tail, gets what precedes e.
abbrev pub skip_prev : ℕ → WaitQueue → Option WaitQueue
skip_prev e q =
    let p = (q.elems e).prev in
    if is_elem e q.tail then some (record q { tail = p }) else set_prev (q.elems e).next p q

-- The element is out, and the timer is stopped if none is left.
abbrev pub let_out : ℕ → WaitQueue → WaitQueue
let_out e q =
    let q1 = let_go e (record q { queue_length = q.queue_length - 1 }) in
    if is_null q1.head then record q1 { timer = none } else q1

-- `li_waitqueue_remove`
unfoldable pub waitqueue_remove : ℕ → WaitQueue → Option WaitQueue
waitqueue_remove e q =
    let out =
      and_then (skip_next e q) (λ q1. and_then (skip_prev e q1) (λ q2. some (let_out e q2))) in
    if (q.elems e).queued then out else some q

-- `if (p) p->next = NULL`
abbrev pub cut_at : Option ℕ → WaitQueue → WaitQueue
cut_at none q = q
cut_at (some a) q = put_elem a (record (q.elems a) { next = none }) q

-- The loop of `li_waitqueue_pop_ready`: the number of elements that are out, i of them so far
unfoldable pub pop_ready_loop : ℕ → ℕ → Option ℕ → ℕ → WaitQueue → Option (ℕ × WaitQueue)
pop_ready_loop zero now e i q = none
pop_ready_loop (suc fuel) now none i q = some (i, record q { head = none; tail = none })
pop_ready_loop (suc fuel) now (some e) i q =
    let q1 = let_go e q in
    let rest =
      pop_ready_loop fuel now (q1.elems e).next (suc i)
        (record q1 { queue_length = q1.queue_length - 1 }) in
    if ltb now ((q.elems e).ts + q.delay)
    then some (i, cut_at (q.elems e).prev (record q { head = some e }))
    else rest

-- `li_waitqueue_pop_ready`: the old head, the number and the queue
unfoldable pub waitqueue_pop_ready : ℕ → WaitQueue → Option ℕ × Option (ℕ × WaitQueue)
unfolding pop_ready_loop
waitqueue_pop_ready now q = (q.head, pop_ready_loop (q.queue_length + 1) now q.head 0 q)

-- `li_waitqueue_init`, of the fields; the elements are those of the memory.
abbrev pub waitqueue_init : ℕ → (ℕ → Elem) → WaitQueue
waitqueue_init delay elems = record {
  head = none;
  tail = none;
  timer = none;
  delay = delay;
  queue_length = 0;
  elems = elems;
}

-- ===== src/Actions/Release.antt =====
-- li_action_stack_reset after an error: what is released, and in which order.
use lighttpd.Prelude.{
  ℕ, zero, suc, ◌+◌, ◌≡◌, refl, sym, ap, ap₂, subst, ◌∙◌, Bool, true, false, List, [], ◌∷◌, ◌++◌,
  append_assoc, append-nil, arith, length, drop, ==_refl, ◌==◌,
}
use lighttpd.Actions.Defs.{
  HandlerResult, error, Action, nothing, setting, settingptr, function, condition, list, balancer,
  Element, Vr, Callbacks,
}
use lighttpd.Actions.Stack.{
  drop_regex, release_action, release_all, stack_reset, backend_stack_reset,
}
use lighttpd.Actions.Execute.{
  Turn, return, set_slot, modify_at, after_func, after_check, after_select, is_handled, perform,
  turn,
}
use lighttpd.Actions.Failure.{release_all-stack}
use lighttpd.Actions.Meaning.{on, counted}
use lighttpd.Actions.Meaning.Turns.{pending}

-- A call of a `cleanup` or of a `finished` callback, with the value in the slot
pub data Release : Type 0 where
  cleaned : ℕ → ℕ → Release
  finished_with : ℕ → ℕ → Release

-- A function with a cleanup is cleaned up where its slot is used, a balancer is finished.
abbrev pub releases_of : Action → ℕ → List Release
releases_of (function f true) (suc slot) = cleaned f (suc slot) ∷ []
releases_of (function f true) zero = []
releases_of (function f false) slot = []
releases_of (balancer b backlog) slot = finished_with b slot ∷ []
releases_of nothing slot = []
releases_of (setting i v) slot = []
releases_of (settingptr i v) slot = []
releases_of (condition c regexp t u) slot = []
releases_of (list xs) slot = []

abbrev pub regexes_of : Action → ℕ
regexes_of (condition c true t u) = 1
regexes_of _ = 0

-- From the top of the stack to its end
abbrev pub releases : List Element → List Release
releases [] = []
releases (e ∷ es) = releases_of e.act e.slot ++ releases es

-- The conditions with a regular expression
abbrev pub regexes : List Element → ℕ
regexes [] = 0
regexes (e ∷ es) = regexes_of e.act + regexes es

abbrev pub Log : Type 0
Log = List Release

drop-nil : (n : ℕ) → drop {A = ℕ} n [] ≡ []
drop-nil zero = refl
drop-nil (suc n) = refl

drop_add : (m n : ℕ) (xs : List ℕ) → drop (m + n) xs ≡ drop n (drop m xs)
drop_add zero n xs = ap (λ k. drop k xs) (omega arith)
drop_add (suc m) n [] = drop-nil (suc m + n) ∙ sym (drop-nil n)
drop_add (suc m) n (x ∷ xs) =
    let e : suc m + n ≡ suc (m + n) = omega arith in ap (λ k. drop k (x ∷ xs)) e ∙ drop_add m n xs

-- The callbacks that release write down that they are called.
pub record IsLogged (cb : Callbacks Log) : Type 0 where
  pub cleanup_is :
      (f : ℕ) (vr : Vr Log) (slot : ℕ) → cb.cleanup f vr slot ≡ vr.rest ++ (cleaned f slot ∷ [])
  pub finished_is :
      (b : ℕ) (vr : Vr Log) (slot : ℕ)
      → cb.finished b vr slot ≡ vr.rest ++ (finished_with b slot ∷ [])

-- `vr1` is the request with these elements on the stacks.
pub record HasReleased (es : List Element) (vr1 : Vr Log) (t : Turn Log) : Type 0 where
  pub vr' : Vr Log
  pub result : t ≡ return error vr'
  pub stack : vr'.stack ≡ []
  pub backend_stack : vr'.backend_stack ≡ []
  pub backend_failed : vr'.backend_failed ≡ false
  pub backend_finished : vr'.backend_finished ≡ false
  pub regex_stack : vr'.regex_stack ≡ drop (regexes es + regexes vr1.backend_stack) vr1.regex_stack
  pub released : vr'.rest ≡ vr1.rest ++ (releases es ++ releases vr1.backend_stack)

module _ (cb : Callbacks Log) where
  -- The callback of the element fails, with this request and this value in the slot.
  abbrev pub Fails : Action → Element → Vr Log → Vr Log → ℕ → Type 0
  Fails (function f h) e vr vr1 slot = cb.func f vr e.slot ≡ (error, vr1, slot)
  Fails (condition c r t u) e vr vr1 slot =
      ((cb.check c vr).0 ≡ error) × ((cb.check c vr).2 ≡ vr1) × (slot ≡ e.slot)
  Fails (balancer b g) e vr vr1 slot =
      (is_handled vr.state ≡ false)
      × (cb.select b vr e.backlog_provided e.slot ≡ (error, vr1, slot))
  Fails _ e vr vr1 slot = ⊥

module _ (cb : Callbacks Log) (logged : IsLogged cb) where
  abbrev Released : Log → ℕ → Vr Log → Vr Log → Type 0
  Released log n vr vr' =
      (vr'.rest ≡ vr.rest ++ log)
      × (vr'.regex_stack ≡ drop n vr.regex_stack)
      × (vr'.backend_stack ≡ vr.backend_stack)

  unchanged : (vr : Vr Log) → Released [] 0 vr vr
  unchanged vr = (sym (append-nil vr.rest), refl, refl)

  dropped : (xs : List ℕ) → drop_regex xs ≡ drop 1 xs
  dropped [] = refl
  dropped (x ∷ xs) = refl

  release_action-Released :
      (a : Action) (slot : ℕ) (vr : Vr Log)
      → Released (releases_of a slot) (regexes_of a) vr (release_action cb a slot vr)
  unfolding release_action
  release_action-Released nothing slot vr = unchanged vr
  release_action-Released (setting i v) slot vr = unchanged vr
  release_action-Released (settingptr i v) slot vr = unchanged vr
  release_action-Released (list xs) slot vr = unchanged vr
  release_action-Released (function f true) zero vr = unchanged vr
  release_action-Released (function f true) (suc slot) vr =
      let z : (suc slot == 0) ≡ false = ground arith in
      rw z (logged.cleanup_is f vr (suc slot), refl, refl)
  release_action-Released (function f false) zero vr = unchanged vr
  release_action-Released (function f false) (suc slot) vr =
      let z : (suc slot == 0) ≡ false = ground arith in rw z (unchanged vr)
  release_action-Released (condition c true t u) slot vr =
      (sym (append-nil vr.rest), dropped vr.regex_stack, refl)
  release_action-Released (condition c false t u) slot vr = unchanged vr
  release_action-Released (balancer b backlog) slot vr = (logged.finished_is b vr slot, refl, refl)

  release_all-Released :
      (es : List Element) (vr : Vr Log)
      → Released (releases es) (regexes es) vr (release_all cb es vr)
  unfolding release_all
  release_all-Released [] vr = unchanged vr
  release_all-Released (e ∷ es) vr =
      let (l, r, b) = release_action-Released e.act e.slot vr in
      let (l', r', b') = release_all-Released es (release_action cb e.act e.slot vr) in
      (
        l'
            ∙ ap (λ x. x ++ releases es) l
            ∙ append_assoc vr.rest (releases_of e.act e.slot) (releases es),
        r'
            ∙ ap (drop (regexes es)) r
            ∙ sym (drop_add (regexes_of e.act) (regexes es) vr.regex_stack),
        b' ∙ b,
      )

  stack_reset-HasReleased :
      (es : List Element) (vr1 vr : Vr Log)
      → vr.stack ≡ es
      → vr.backend_stack ≡ vr1.backend_stack
      → vr.regex_stack ≡ vr1.regex_stack
      → vr.rest ≡ vr1.rest
      → HasReleased es vr1 (return error (stack_reset cb vr))
  unfolding stack_reset backend_stack_reset
  stack_reset-HasReleased es vr1 vr s b r l =
      let (l1, r1, b1) = release_all-Released vr.stack vr in
      let vr2 : Vr Log = record (release_all cb vr.stack vr) { stack = [] } in
      let (l2, r2, b2) = release_all-Released vr2.backend_stack vr2 in
      let e : vr2.backend_stack ≡ vr1.backend_stack = b1 ∙ b in
      record {
        vr' = stack_reset cb vr;
        result = refl;
        stack = release_all-stack cb vr2.backend_stack vr2;
        backend_stack = refl;
        backend_failed = refl;
        backend_finished = refl;
        regex_stack =
            r2
            ∙ ap₂ (λ x xs. drop (regexes x) xs) e (r1 ∙ ap₂ (λ x xs. drop (regexes x) xs) s r)
            ∙ sym (drop_add (regexes es) (regexes vr1.backend_stack) vr1.regex_stack);
        released =
            l2
            ∙ ap₂ (λ x xs. xs ++ releases x) e (l1 ∙ ap₂ (λ x xs. xs ++ releases x) s l)
            ∙ append_assoc vr1.rest (releases es) (releases vr1.backend_stack);
      }

  module _ (e : Element) (es : List Element) (vr1 : Vr Log) (slot : ℕ)
      (kept : vr1.stack ≡ e ∷ es) where
    abbrev pub left_behind : Element
    left_behind = record e { slot = slot }

    set_slot-stack : (set_slot (length es) slot vr1).stack ≡ left_behind ∷ es
    unfolding modify_at
    set_slot-stack =
        ap (modify_at (length es) (λ x. record x { slot = slot })) kept
        ∙ rw (==_refl (length es)) refl

    reset :
        HasReleased
          (left_behind ∷ es)
          vr1
          (return error (stack_reset cb (set_slot (length es) slot vr1)))
    reset =
        stack_reset-HasReleased (left_behind ∷ es) vr1 (set_slot (length es) slot vr1)
          set_slot-stack refl refl refl

    perform-HasReleased :
        (a : Action) (vr : Vr Log)
        → Fails cb a e vr vr1 slot
        → HasReleased (left_behind ∷ es) vr1 (perform cb a e (length es) vr)
    unfolding perform after_func after_check after_select
    perform-HasReleased nothing vr h = absurd h
    perform-HasReleased (setting i v) vr h = absurd h
    perform-HasReleased (settingptr i v) vr h = absurd h
    perform-HasReleased (list xs) vr h = absurd h
    perform-HasReleased (function f c) vr h =
        subst (λ x. HasReleased (left_behind ∷ es) vr1 (after_func cb (length es) x)) (sym h) reset
    perform-HasReleased (balancer b g) vr h = rw h.0 (
        subst (λ x. HasReleased (left_behind ∷ es) vr1 (after_select cb (length es) x)) (sym h.1)
          reset)
    perform-HasReleased (condition c r t u) vr (x, y, z) =
        let s : vr1.stack ≡ left_behind ∷ es =
          kept ∙ ap (λ k. record e { slot = k } ∷ es) (sym z) in
        check_error (cb.check c vr) x y s
      where
        check_error :
            (q : HandlerResult × Bool × Vr Log)
            → q.0 ≡ error
            → q.2 ≡ vr1
            → vr1.stack ≡ left_behind ∷ es
            → HasReleased (left_behind ∷ es) vr1 (after_check cb (length es) t u q)
        check_error (res, holds, vr2) e1 e2 s =
            subst
              (λ p.
                HasReleased (left_behind ∷ es) vr1 (after_check cb (length es) t u (p, holds, vr2)))
              (sym e1)
              (subst (λ v. HasReleased (left_behind ∷ es) vr1 (return error (stack_reset cb v)))
                (sym e2) (stack_reset-HasReleased (left_behind ∷ es) vr1 vr1 s refl refl refl))

-- Let the callbacks that release an element write down their calls, let no backend have failed, and
-- let the callback of an action that is not finished return an error and leave the action stack as
-- it is. Then one round of the loop ends with that error, empty stacks and no flag of the backend;
-- the elements are released once each, those of the stack from its top with the slot as the
-- callback left it, then those that wait for the end of the backend: a function's cleanup is called
-- where it has one and its slot is not 0, a balancer's finished always, and for each condition with
-- a regular expression one match is dropped.
pub turn-HasReleased :
    (cb : Callbacks Log) (vr vr1 : Vr Log) (a : Action) (slot slot' : ℕ) (b : Bool)
    (es : List Element)
    → IsLogged cb
    → vr1.stack ≡ pending a slot b ∷ es
    → Fails cb a (pending a slot b) (counted (on vr (pending a slot b ∷ es))) vr1 slot'
    → HasReleased (pending a slot' b ∷ es) vr1 (turn cb (on vr (pending a slot b ∷ es)))
unfolding turn
turn-HasReleased cb vr vr1 a slot slot' b es logged kept h =
    perform-HasReleased cb logged (pending a slot b) es vr1 slot' kept a
      (counted (on vr (pending a slot b ∷ es))) h

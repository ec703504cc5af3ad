-- ===== src/Actions/Meaning/Turns.antt =====
-- One round of the interpreter for each kind of action, where no backend has failed.
use lighttpd.Prelude.{
  ℕ, suc, ◌≡◌, refl, ap, ◌∙◌, Bool, true, false, not, ◌&&◌, ==_refl, none, some, List, ◌∷◌, length,
  ◌==◌, if◌then◌else◌,
}
use lighttpd.Actions.Defs.{
  Action, nothing, setting, settingptr, function, condition, list, Actions, Target, Element, Vr,
  Callbacks,
}
use lighttpd.Actions.Stack.{enter, release_action, pop}
use lighttpd.Actions.Execute.{
  again, item, set_at, modify_at, enter_target, after_func, after_check, next_item, perform,
  leave_finished, turn,
}
use lighttpd.Actions.Meaning.{on, counted, IsCalmFunc, IsCalmCheck}

modify_top :
    (f : Element → Element) (e : Element) (s : List Element)
    → modify_at (length s) f (e ∷ s) ≡ f e ∷ s
unfolding modify_at
modify_top f e s = rw (==_refl (length s))

abbrev pub pending : Action → ℕ → Bool → Element
pending a slot backlog = record {
  act = a;
  slot = slot;
  finished = false;
  backlog_provided = backlog;
}

abbrev pub finished_at : Action → ℕ → Bool → Element
finished_at a slot backlog = record {
  act = a;
  slot = slot;
  finished = true;
  backlog_provided = backlog;
}

module _ {E : Type 0} (cb : Callbacks E) (vr : Vr E) (s : List Element) (b : Bool) where
  pub turn_nothing : turn cb (on vr (pending nothing 0 b ∷ s)) ≡ again (on (counted vr) s)
  unfolding turn pop
  turn_nothing = refl

  pub turn_setting :
      (i v : ℕ)
      → turn cb (on vr (pending (setting i v) 0 b ∷ s))
        ≡ again (on (record (counted vr) { options = set_at vr.options i v }) s)
  unfolding turn pop
  turn_setting i v = refl

  pub turn_settingptr :
      (i v : ℕ)
      → turn cb (on vr (pending (settingptr i v) 0 b ∷ s))
        ≡ again (on (record (counted vr) { optionptrs = set_at vr.optionptrs i v }) s)
  unfolding turn pop
  turn_settingptr i v = refl

  pub turn_list_end :
      (xs : Actions) (p : ℕ)
      → item xs p ≡ none
      → turn cb (on vr (pending (list xs) p b ∷ s)) ≡ again (on (counted vr) s)
  unfolding turn perform next_item pop
  turn_list_end xs p e =
      ap
        (λ o.
          next_item cb o (pending (list xs) p b) (length s)
            (counted (on vr (pending (list xs) p b ∷ s))))
        e

  pub turn_list_next :
      (xs : Actions) (p : ℕ) (a : Action)
      → item xs p ≡ some a
      → turn cb (on vr (pending (list xs) p b ∷ s))
        ≡ again (enter (on (counted vr) (pending (list xs) (suc p) b ∷ s)) a)
  unfolding turn perform next_item
  turn_list_next xs p a e =
      ap
        (λ o.
          next_item cb o (pending (list xs) p b) (length s)
            (counted (on vr (pending (list xs) p b ∷ s))))
        e
      ∙ ap (λ st. again (enter (on (counted vr) st) a))
          (modify_top (λ x. record x { slot = suc p }) (pending (list xs) p b) s)

  pub turn_function :
      (f : ℕ) (h : Bool)
      → IsCalmFunc cb f
      → let c = cb.func f (counted vr) 0 in
        turn cb (on vr (pending (function f h) 0 b ∷ s))
        ≡ again (on c.1 (finished_at (function f h) c.2 b ∷ s))
  unfolding turn perform after_func modify_at
  turn_function f h c =
      let e = pending (function f h) 0 b in
      let k = cb.func f (counted vr) 0 in
      let put : Element → Element = λ x. record x { slot = k.2 } in
      let end : Element → Element = λ x. record x { finished = true } in
      ap (after_func cb (length s)) (c.calm (counted vr) (e ∷ s) 0)
      ∙ ap (λ st. again (on k.1 st))
          (ap (modify_at (length s) end) (modify_top put e s) ∙ modify_top end (put e) s)

  pub turn_check :
      (c : ℕ) (r : Bool) (t u : Target)
      → IsCalmCheck cb c
      → let k = cb.check c (counted vr) in
        turn cb (on vr (pending (condition c r t u) 0 b ∷ s))
        ≡ again
            (enter_target (on k.2 (finished_at (condition c r t u) 0 b ∷ s)) (if k.1 then t else u))
  unfolding turn perform after_check modify_at
  turn_check c r t u k =
      let e = pending (condition c r t u) 0 b in
      let h = cb.check c (counted vr) in
      ap (after_check cb (length s) t u) (k.calm (counted vr) (e ∷ s))
      ∙ ap (λ st. again (enter_target (on h.2 st) (if h.1 then t else u)))
          (modify_top (λ x. record x { finished = true }) e s)

  pub turn_function_end :
      (f : ℕ) (h : Bool) (slot : ℕ)
      → IsCalmFunc cb f
      → turn cb (on vr (finished_at (function f h) slot b ∷ s))
        ≡ again (on (release_action cb (function f h) slot vr) s)
  unfolding turn leave_finished pop release_action
  turn_function_end f h slot c =
      let e = finished_at (function f h) slot b in
      cleaned (not (slot == 0) && h) (cb.cleanup f (on vr (e ∷ s)) slot) (cb.cleanup f vr slot)
        (c.calm_cleanup vr (e ∷ s) slot)
    where
      cleaned :
          (x : Bool) (old new : E)
          → old ≡ new
          → again
              (record (if x
                then record (on vr (finished_at (function f h) slot b ∷ s)) { rest = old }
                else on vr (finished_at (function f h) slot b ∷ s)) { stack = s })
            ≡ again (on (if x then record vr { rest = new } else vr) s)
      cleaned true old new e = ap (λ r. again (record (on vr s) { rest = r })) e
      cleaned false old new e = refl

  pub turn_condition_end :
      (c : ℕ) (r : Bool) (t u : Target)
      → turn cb (on vr (finished_at (condition c r t u) 0 b ∷ s))
        ≡ again (on (release_action cb (condition c r t u) 0 vr) s)
  unfolding turn leave_finished pop release_action
  turn_condition_end c true t u = refl
  turn_condition_end c false t u = refl

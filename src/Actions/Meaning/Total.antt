-- ===== src/Actions/Meaning/Total.antt =====
-- The rounds that an action without balancers takes.
use lighttpd.Prelude.{
  ℕ, zero, suc, ◌+◌, ◌-◌, ◌≤◌, ◌≡◌, refl, ◌∙◌, Bool, true, false, some, [], arith, if◌then◌else◌,
}
use lighttpd.Actions.Defs.{
  go_on, Action, nothing, setting, settingptr, function, condition, list, balancer, Actions, nil,
  cons, Target, no_target, target, Vr, Callbacks,
}
use lighttpd.Actions.Stack.{enter}
use lighttpd.Actions.Execute.{turn, execute}
use lighttpd.Actions.Meaning.{
  on, counted, IsCalm, eval, rounds, rounds_list, rounds_target, size, size_list, size_target,
}
use lighttpd.Actions.Meaning.Refine.{with_fuel, execute-eval}

module _ {E : Type 0} (cb : Callbacks E) where
  either_le : (b : Bool) (x y m n : ℕ) → x ≤ m → y ≤ n → (if b then x else y) ≤ m + n
  either_le true x y m n p q = omega arith
  either_le false x y m n p q = omega arith

  mutual
    unfolding rounds size

    rounds-size : (a : Action) (vr : Vr E) → rounds cb a vr ≤ size a
    rounds-size nothing vr = omega arith
    rounds-size (setting i v) vr = omega arith
    rounds-size (settingptr i v) vr = omega arith
    rounds-size (function f h) vr = omega arith
    rounds-size (condition c g t u) vr =
        let r = cb.check c (counted vr) in
        let p =
          either_le r.1 (rounds_target cb t r.2) (rounds_target cb u r.2) (size_target t)
            (size_target u) (rounds_target-size t r.2) (rounds_target-size u r.2) in
        omega (arith, p)
    rounds-size (list xs) vr = rounds_list-size xs vr
    rounds-size (balancer b g) vr = omega arith

    rounds_list-size : (xs : Actions) (vr : Vr E) → rounds_list cb xs vr ≤ size_list xs
    rounds_list-size nil vr = omega arith
    rounds_list-size (cons a xs) vr =
        omega (arith, rounds-size a (counted vr), rounds_list-size xs (eval cb a (counted vr)))

    rounds_target-size : (t : Target) (vr : Vr E) → rounds_target cb t vr ≤ size_target t
    rounds_target-size no_target vr = omega arith
    rounds_target-size (target a) vr = rounds-size a vr

  -- From an empty stack the loop ends after the last round.
  execute_end : (k : ℕ) (vr : Vr E) → 1 ≤ k → execute cb k (on vr []) ≡ some (go_on, on vr [])
  unfolding execute turn
  execute_end zero vr h = absurd (omega arith)
  execute_end (suc k) vr h = refl

  -- Let every callback of the action, which holds no balancer, go on, do the same whatever is on
  -- the action stack, and leave the stack as it is and the flag of a failed backend unset. Then a
  -- request with an empty stack and no failed backend, on which the action is entered, ends within
  -- `size a + 1` rounds of the loop: the result is that of applying the actions in order, and the
  -- stack is empty.
  pub execute-enter :
      (a : Action) (vr : Vr E)
      → IsCalm cb a
      → execute cb (suc (size a)) (enter (on vr []) a) ≡ some (go_on, on (eval cb a vr) [])
  unfolding enter
  execute-enter a vr c =
      let p = rounds-size a vr in
      let k = suc (size a) - rounds cb a vr in
      with_fuel cb (enter (on vr []) a) (omega arith)
      ∙ execute-eval cb a vr [] false k c
      ∙ execute_end k (eval cb a vr) (omega arith)

-- ===== src/Actions/Meaning/Refine.antt =====
-- The interpreter against the meaning of actions.
use lighttpd.Prelude.{
  ℕ, zero, suc, ◌+◌, ◌≡◌, ap, ◌∙◌, Bool, true, false, some, List, ◌∷◌, arith, if◌then◌else◌,
}
use lighttpd.Actions.Defs.{
  Action, nothing, setting, settingptr, function, condition, list, balancer, Actions, nil, cons,
  Target, no_target, target, Element, Vr, Callbacks,
}
use lighttpd.Actions.Stack.{enter, backlog_below}
use lighttpd.Actions.Execute.{Turn, again, return, item, enter_target, turn, execute}
use lighttpd.Actions.Meaning.{
  on, counted, IsCalm, AreCalm, IsCalmTarget, eval, eval_list, eval_target, rounds, rounds_list,
  rounds_target,
}
use lighttpd.Actions.Meaning.Turns.{
  pending, finished_at, turn_nothing, turn_setting, turn_settingptr, turn_list_end, turn_list_next,
  turn_function, turn_check, turn_function_end, turn_condition_end,
}

module _ {E : Type 0} (cb : Callbacks E) where
  one_round :
      (vr vr' : Vr E) (n k : ℕ)
      → n ≡ suc k
      → turn cb vr ≡ again vr'
      → execute cb n vr ≡ execute cb k vr'
  unfolding execute
  one_round vr vr' zero k e t = absurd (omega arith)
  one_round vr vr' (suc n) k e t =
      ap (λ (x : Turn E). elim x [ again v ↦ execute cb n v | return r v ↦ some (r, v) ]) t
      ∙ ap (λ n. execute cb n vr') (omega (arith, e))

  pub with_fuel : {n m : ℕ} (vr : Vr E) → n ≡ m → execute cb n vr ≡ execute cb m vr
  with_fuel vr e = ap (λ n. execute cb n vr) e

  -- The rest of a list from position p on.
  abbrev IsRest : Actions → ℕ → Actions → Type 0
  IsRest all p xs = (i : ℕ) → item all (p + i) ≡ item xs i

  IsRest-next :
      (all xs : Actions) (a : Action) (p : ℕ) → IsRest all p (cons a xs) → IsRest all (suc p) xs
  IsRest-next all xs a p h i =
      let e : suc p + i ≡ p + suc i = omega arith in ap (item all) e ∙ h (suc i)

  IsRest-item : (all xs : Actions) (p : ℕ) → IsRest all p xs → item all p ≡ item xs 0
  IsRest-item all xs p h = let e : p ≡ p + 0 = omega arith in ap (item all) e ∙ h 0

  branches :
      (holds : Bool) (vr : Vr E) (s : List Element) (k : ℕ) (t u : Target)
      → execute cb (rounds_target cb t vr + k) (enter_target (on vr s) t)
        ≡ execute cb k (on (eval_target cb t vr) s)
      → execute cb (rounds_target cb u vr + k) (enter_target (on vr s) u)
        ≡ execute cb k (on (eval_target cb u vr) s)
      → execute cb
          ((if holds then rounds_target cb t vr else rounds_target cb u vr) + k)
          (enter_target (on vr s) (if holds then t else u))
        ≡ execute cb k (on (if holds then eval_target cb t vr else eval_target cb u vr) s)
  branches true vr s k t u ht hu = ht
  branches false vr s k t u ht hu = hu

  mutual
    unfolding eval rounds enter

    pub execute-eval :
        (a : Action) (vr : Vr E) (s : List Element) (b : Bool) (k : ℕ)
        → IsCalm cb a
        → execute cb (rounds cb a vr + k) (on vr (pending a 0 b ∷ s))
          ≡ execute cb k (on (eval cb a vr) s)
    execute-eval nothing vr s b k c = one_round _ _ (1 + k) k (omega arith) (turn_nothing cb vr s b)
    execute-eval (setting i v) vr s b k c =
        one_round _ _ (1 + k) k (omega arith) (turn_setting cb vr s b i v)
    execute-eval (settingptr i v) vr s b k c =
        one_round _ _ (1 + k) k (omega arith) (turn_settingptr cb vr s b i v)
    execute-eval (function f h) vr s b k c =
        let r = cb.func f (counted vr) 0 in
        one_round _ _ (2 + k) (1 + k) (omega arith) (turn_function cb vr s b f h c)
        ∙ one_round _ _ (1 + k) k (omega arith) (turn_function_end cb r.1 s b f h r.2 c)
    execute-eval (condition c g t u) vr s b k (h, ht, hu) =
        let r = cb.check c (counted vr) in
        let e = finished_at (condition c g t u) 0 b in
        one_round _ _ (rounds cb (condition c g t u) vr + k) _ (omega arith)
          (turn_check cb vr s b c g t u h)
        ∙ branches r.1 r.2 (e ∷ s) (1 + k) t u (execute-eval_target t r.2 (e ∷ s) (1 + k) ht)
            (execute-eval_target u r.2 (e ∷ s) (1 + k) hu)
        ∙ one_round _ _ (1 + k) k (omega arith) (turn_condition_end cb _ s b c g t u)
    execute-eval (list xs) vr s b k c =
        execute-eval_list xs xs 0 (λ i. ap (item xs) (omega arith)) vr s b k c
    execute-eval (balancer x y) vr s b k c = absurd c

    execute-eval_target :
        (t : Target) (vr : Vr E) (s : List Element) (k : ℕ)
        → IsCalmTarget cb t
        → execute cb (rounds_target cb t vr + k) (enter_target (on vr s) t)
          ≡ execute cb k (on (eval_target cb t vr) s)
    execute-eval_target no_target vr s k h = with_fuel (on vr s) (omega arith)
    execute-eval_target (target a) vr s k h = execute-eval a vr s (backlog_below s) k h

    execute-eval_list :
        (all xs : Actions) (p : ℕ)
        → IsRest all p xs
        → (vr : Vr E) (s : List Element) (b : Bool) (k : ℕ) → AreCalm cb xs
        → execute cb (rounds_list cb xs vr + k) (on vr (pending (list all) p b ∷ s))
          ≡ execute cb k (on (eval_list cb xs vr) s)
    execute-eval_list all nil p h vr s b k c =
        one_round _ _ (1 + k) k (omega arith)
          (turn_list_end cb vr s b all p (IsRest-item all nil p h))
    execute-eval_list all (cons a xs) p h vr s b k (ca, cs) =
        let r1 = rounds cb a (counted vr) in
        let r2 = rounds_list cb xs (eval cb a (counted vr)) in
        let s' = pending (list all) (suc p) b ∷ s in
        one_round _ _ (1 + (r1 + r2) + k) (r1 + (r2 + k)) (omega arith)
          (turn_list_next cb vr s b all p a (IsRest-item all (cons a xs) p h))
        ∙ execute-eval a (counted vr) s' (backlog_below s') (r2 + k) ca
        ∙ execute-eval_list all xs (suc p) (IsRest-next all xs a p h) (eval cb a (counted vr)) s b k
            cs

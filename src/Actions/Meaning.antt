-- ===== src/Actions/Meaning.antt =====
-- What actions mean, without a stack: a request is changed by one action after the other.
pub mod Turns
pub mod Refine
pub mod Total
use lighttpd.Prelude.{ℕ, zero, suc, ◌+◌, ◌≤◌, ◌≡◌, Bool, true, false, List, if◌then◌else◌}
use lighttpd.Actions.Defs.{
  HandlerResult, go_on, Action, nothing, setting, settingptr, function, condition, list, balancer,
  Actions, nil, cons, Target, no_target, target, Element, Vr, Called, Callbacks,
}
use lighttpd.Actions.Stack.{drop_regex, release_action}
use lighttpd.Actions.Execute.{set_at}

module _ {E : Type 0} where
  -- The request with this stack, no backend having failed.
  abbrev pub on : Vr E → List Element → Vr E
  on vr s = record vr { stack = s; backend_failed = false }

  abbrev pub counted : Vr E → Vr E
  counted vr = record vr { actions_executed = suc vr.actions_executed }

  module _ (cb : Callbacks E) where
    -- The function goes on, and neither looks at the stack nor changes it.
    pub record IsCalmFunc (f : ℕ) : Type 0 where
      pub calm :
          (vr : Vr E) (s : List Element) (slot : ℕ)
          → cb.func f (on vr s) slot ≡ (go_on, on (cb.func f vr slot).1 s, (cb.func f vr slot).2)
      pub calm_cleanup :
          (vr : Vr E) (s : List Element) (slot : ℕ)
          → cb.cleanup f (on vr s) slot ≡ cb.cleanup f vr slot

    pub record IsCalmCheck (c : ℕ) : Type 0 where
      pub calm :
          (vr : Vr E) (s : List Element)
          → cb.check c (on vr s) ≡ (go_on, (cb.check c vr).1, on (cb.check c vr).2 s)

    abbrev mutual
      pub IsCalm : Action → Type 0
      IsCalm nothing = 0 ≤ 0
      IsCalm (setting i v) = 0 ≤ 0
      IsCalm (settingptr i v) = 0 ≤ 0
      IsCalm (function f has_cleanup) = IsCalmFunc f
      IsCalm (condition c regexp t u) = IsCalmCheck c × IsCalmTarget t × IsCalmTarget u
      IsCalm (list xs) = AreCalm xs
      IsCalm (balancer b backlog) = ⊥

      pub AreCalm : Actions → Type 0
      AreCalm nil = 0 ≤ 0
      AreCalm (cons a xs) = IsCalm a × AreCalm xs

      pub IsCalmTarget : Target → Type 0
      IsCalmTarget no_target = 0 ≤ 0
      IsCalmTarget (target a) = IsCalm a

    unfoldable mutual
      pub eval : Action → Vr E → Vr E
      eval nothing vr = counted vr
      eval (setting i v) vr = record (counted vr) { options = set_at vr.options i v }
      eval (settingptr i v) vr = record (counted vr) { optionptrs = set_at vr.optionptrs i v }
      eval (function f has_cleanup) vr =
          let (r, vr', slot) = cb.func f (counted vr) 0 in
          release_action cb (function f has_cleanup) slot vr'
      eval (condition c regexp t u) vr =
          let (r, holds, vr') = cb.check c (counted vr) in
          let then_vr = eval_target t vr' in
          let else_vr = eval_target u vr' in
          release_action cb (condition c regexp t u) 0 (if holds then then_vr else else_vr)
      eval (list xs) vr = eval_list xs vr
      eval (balancer b backlog) vr = vr

      pub eval_list : Actions → Vr E → Vr E
      eval_list nil vr = counted vr
      eval_list (cons a xs) vr = eval_list xs (eval a (counted vr))

      pub eval_target : Target → Vr E → Vr E
      eval_target no_target vr = vr
      eval_target (target a) vr = eval a vr

    -- The rounds of the loop.
    unfoldable mutual
      unfolding eval

      pub rounds : Action → Vr E → ℕ
      rounds nothing vr = 1
      rounds (setting i v) vr = 1
      rounds (settingptr i v) vr = 1
      rounds (function f has_cleanup) vr = 2
      rounds (condition c regexp t u) vr =
          let (r, holds, vr') = cb.check c (counted vr) in
          let then_rounds = rounds_target t vr' in
          let else_rounds = rounds_target u vr' in 2 + (if holds then then_rounds else else_rounds)
      rounds (list xs) vr = rounds_list xs vr
      rounds (balancer b backlog) vr = 0

      pub rounds_list : Actions → Vr E → ℕ
      rounds_list nil vr = 1
      rounds_list (cons a xs) vr =
          1 + (rounds a (counted vr) + rounds_list xs (eval a (counted vr)))

      pub rounds_target : Target → Vr E → ℕ
      rounds_target no_target vr = 0
      rounds_target (target a) vr = rounds a vr

-- Enough rounds, whatever the conditions say.
unfoldable mutual
  pub size : Action → ℕ
  size nothing = 1
  size (setting i v) = 1
  size (settingptr i v) = 1
  size (function f has_cleanup) = 2
  size (condition c regexp t u) = 2 + (size_target t + size_target u)
  size (list xs) = size_list xs
  size (balancer b backlog) = 0

  pub size_list : Actions → ℕ
  size_list nil = 1
  size_list (cons a xs) = 1 + (size a + size_list xs)

  pub size_target : Target → ℕ
  size_target no_target = 0
  size_target (target a) = size a

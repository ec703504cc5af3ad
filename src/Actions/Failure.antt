-- ===== src/Actions/Failure.antt =====
-- What the interpreter does when no backend takes the request.
use lighttpd.Prelude.{
  ℕ, zero, ◌≡◌, refl, sym, subst, ◌∙◌, Bool, true, false, not, ◌&&◌, none, List, [], ◌∷◌, ◌++◌,
  ◌==◌, if◌then◌else◌,
}
use lighttpd.Actions.Defs.{
  go_on, handle_request_headers, handle_response_headers, Action, nothing, setting, settingptr,
  function, condition, list, balancer, Element, Vr, Callbacks,
}
use lighttpd.Actions.Stack.{
  provides_backlog, is_balancer, drop_regex, release_action, release_all, pop,
}
use lighttpd.Actions.Execute.{
  Turn, again, return, after_failure, unavailable, is_handled, unwind, turn,
}

-- No balancer of the stack provides a backlog.
unfoldable pub NoBacklog : List Element → Type 0
NoBacklog [] = zero ≡ zero
NoBacklog (e ∷ es) = (provides_backlog e.act ≡ false) × NoBacklog es

module _ {E : Type 0} where
  abbrev pub IsUnavailable : Turn E → Type 0
  IsUnavailable (again vr) = ⊥
  IsUnavailable (return r vr) =
      (r ≡ go_on)
      × (vr.stack ≡ [])
      × (vr.http_status ≡ 503)
      × (vr.state ≡ handle_response_headers)
      × (vr.backend ≡ none)

  module _ (cb : Callbacks E) where
    abbrev Kept : Vr E → Vr E → Type 0
    Kept vr old = (vr.stack ≡ old.stack) × (vr.state ≡ old.state) × (vr.backend ≡ old.backend)

    either-Kept : (b : Bool) (x old : Vr E) → Kept x old → Kept (if b then x else old) old
    either-Kept true x old h = h
    either-Kept false x old h = (refl, refl, refl)

    release-Kept : (a : Action) (slot : ℕ) (vr : Vr E) → Kept (release_action cb a slot vr) vr
    unfolding release_action
    release-Kept nothing slot vr = (refl, refl, refl)
    release-Kept (setting i v) slot vr = (refl, refl, refl)
    release-Kept (settingptr i v) slot vr = (refl, refl, refl)
    release-Kept (function f h) slot vr =
        either-Kept (not (slot == 0) && h) (record vr { rest = cb.cleanup f vr slot }) vr
          (refl, refl, refl)
    release-Kept (condition c r t u) slot vr =
        either-Kept r (record vr { regex_stack = drop_regex vr.regex_stack }) vr (refl, refl, refl)
    release-Kept (list xs) slot vr = (refl, refl, refl)
    release-Kept (balancer b g) slot vr = (refl, refl, refl)

    pub release_all-stack :
        (es : List Element) (vr : Vr E) → (release_all cb es vr).stack ≡ vr.stack
    unfolding release_all
    release_all-stack [] vr = refl
    release_all-stack (e ∷ es) vr =
        release_all-stack es (release_action cb e.act e.slot vr) ∙ (release-Kept e.act e.slot vr).0

    left-Kept :
        (b : Bool) (x y vr : Vr E) (es : List Element)
        → Kept y vr
        → x.state ≡ vr.state
        → x.backend ≡ vr.backend
        → Kept
            (if b then record x { stack = es } else record y { stack = es })
            (record vr { stack = es })
    left-Kept true x y vr es h s b = (refl, s, b)
    left-Kept false x y vr es h s b = (refl, h.1, h.2)

    -- Leaving an element keeps the rest of the stack, the state and the backend.
    pop-Kept :
        (e : Element) (es : List Element) (vr : Vr E)
        → let top = record vr { stack = e ∷ es } in Kept (pop cb top) (record vr { stack = es })
    unfolding pop
    pop-Kept e es vr =
        let top : Vr E = record vr { stack = e ∷ es } in
        left-Kept (is_balancer e.act && not vr.backend_finished)
          (record top { backend_stack = vr.backend_stack ++ (e ∷ []) })
          (release_action cb e.act e.slot top) top es (release-Kept e.act e.slot top) refl refl

    unwind-Kept :
        (es : List Element) (vr : Vr E)
        → vr.stack ≡ es
        → NoBacklog es
        → Kept (unwind cb es vr) (record vr { stack = [] })
    unfolding unwind NoBacklog
    unwind-Kept [] vr e h = (e, refl, refl)
    unwind-Kept (x ∷ es) vr e h =
        let p : Kept (pop cb vr) (record vr { stack = es }) =
          subst (λ s. Kept (pop cb (record vr { stack = s })) (record vr { stack = es })) (sym e)
            (pop-Kept x es vr) in
        let (q1, q2, q3) = unwind-Kept es (pop cb vr) p.0 h.1 in rw h.0 (q1, q2 ∙ p.1, q3 ∙ p.2)

    after_failure-IsUnavailable :
        (vr : Vr E)
        → vr.stack ≡ []
        → vr.state ≡ handle_request_headers
        → vr.backend ≡ none
        → IsUnavailable (after_failure cb vr)
    unfolding after_failure unavailable is_handled
    after_failure-IsUnavailable vr e s b =
        subst (λ x. IsUnavailable (after_failure cb (record vr { stack = x }))) (sym e)
          (subst (λ x. IsUnavailable (after_failure cb (record vr { stack = []; state = x })))
            (sym s)
            (subst
              (λ x. IsUnavailable (
                after_failure cb
                  (record vr { stack = []; state = handle_request_headers; backend = x })))
              (sym b) (refl, refl, refl, refl, refl)))

  -- Where a backend has failed and no balancer on the stack provides a backlog, one round of the
  -- loop ends it: the stack is empty, the backend is gone, and the response has status 503.
  pub turn-IsUnavailable :
      (cb : Callbacks E) (vr : Vr E) (e : Element) (es : List Element)
      → vr.stack ≡ e ∷ es
      → vr.backend_failed ≡ true
      → NoBacklog (e ∷ es)
      → IsUnavailable (turn cb vr)
  unfolding turn
  turn-IsUnavailable cb vr e es h f n =
      let vr2 : Vr E = record vr {
        stack = e ∷ es;
        backend_failed = true;
        state = handle_request_headers;
        backend = none;
      } in
      let (k, s, b) = unwind-Kept cb (e ∷ es) vr2 refl n in
      subst (λ x. IsUnavailable (turn cb (record vr { backend_failed = x }))) (sym f)
        (subst (λ x. IsUnavailable (turn cb (record vr { stack = x; backend_failed = true })))
          (sym h) (after_failure-IsUnavailable cb (unwind cb (e ∷ es) vr2) k s b))

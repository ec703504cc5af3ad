-- ===== src/Actions/Execute.antt =====
-- `li_action_execute`, one round of its loop at a time.
use lighttpd.Prelude.{
  ℕ, zero, suc, Bool, true, false, ◌&&◌, Option, none, some, List, [], ◌∷◌, length, ◌==◌,
  if◌then◌else◌,
}
use lighttpd.Actions.Defs.{
  HandlerResult, go_on, comeback, wait_for_event, error, VrState, clean, handle_request_headers,
  read_content, handle_response_headers, Action, nothing, setting, settingptr, function, condition,
  list, balancer, Actions, nil, cons, Target, no_target, target, Element, Vr, Called, Callbacks,
}
use lighttpd.Actions.Stack.{
  is_balancer, provides_backlog, enter, backend_stack_reset, stack_reset, pop,
}

-- `li_vrequest_is_handled`
unfoldable pub is_handled : VrState → Bool
is_handled clean = false
is_handled handle_request_headers = false
is_handled _ = true

abbrev pub set_at : (ℕ → ℕ) → ℕ → ℕ → ℕ → ℕ
set_at f i v j = if i == j then v else f j

-- The element with n others below it.
unfoldable pub modify_at : ℕ → (Element → Element) → List Element → List Element
modify_at n f [] = []
modify_at n f (e ∷ es) =
    let rest = modify_at n f es in if length es == n then f e ∷ es else e ∷ rest

abbrev pub item : Actions → ℕ → Option Action
item nil i = none
item (cons a xs) zero = some a
item (cons a xs) (suc i) = item xs i

-- One round of the loop: go on, or return.
pub data Turn (E : Type 0) : Type 0 where
  again : Vr E → Turn E
  return : HandlerResult → Vr E → Turn E

module _ {E : Type 0} where
  -- `li_vrequest_handle_direct`: whether it took the request. The streams are not modelled.
  abbrev pub handle_direct : Vr E → Bool × Vr E
  handle_direct vr =
      if is_handled vr.state
      then (false, vr)
      else (true, record vr { state = handle_response_headers; backend = none })

  -- `if (li_vrequest_handle_direct(vr)) vr->response.http_status = 503`
  unfoldable pub unavailable : Vr E → Vr E
  unfolding is_handled
  unavailable vr =
      let (took, vr') = handle_direct vr in if took then record vr' { http_status = 503 } else vr'

  abbrev pub modify : ℕ → (Element → Element) → Vr E → Vr E
  modify n f vr = record vr { stack = modify_at n f vr.stack }

  -- The callback has written `*context`, and may have pushed other actions.
  abbrev pub set_slot : ℕ → ℕ → Vr E → Vr E
  set_slot n slot = modify n (λ e. record e { slot = slot })

  abbrev pub set_finished : ℕ → Vr E → Vr E
  set_finished n = modify n (λ e. record e { finished = true })

  abbrev pub set_unfinished : ℕ → Vr E → Vr E
  set_unfinished n = modify n (λ e. record e { finished = false })

  abbrev pub enter_target : Vr E → Target → Vr E
  enter_target vr no_target = vr
  enter_target vr (target a) = enter vr a

  module _ (cb : Callbacks E) where
    -- "we remove the balancer itself so it doesn't loop forever"
    unfoldable pub drop_failed : ℕ → Vr E → Vr E
    unfolding pop
    drop_failed n vr = if vr.backend_failed && (length vr.stack == suc n) then pop cb vr else vr

    -- After `func`, on the element with n others below it.
    unfoldable pub after_func : ℕ → Called E → Turn E
    unfolding stack_reset modify_at
    after_func n (go_on, vr, slot) = again (set_finished n (set_slot n slot vr))
    after_func n (error, vr, slot) = return error (stack_reset cb (set_slot n slot vr))
    after_func n (comeback, vr, slot) = return comeback (set_slot n slot vr)
    after_func n (wait_for_event, vr, slot) =
        if length vr.stack == suc n
        then return wait_for_event (set_slot n slot vr)
        else again (set_slot n slot vr)

    -- After `li_condition_check`.
    unfoldable pub after_check : ℕ → Target → Target → HandlerResult × Bool × Vr E → Turn E
    unfolding stack_reset modify_at
    after_check n t u (go_on, holds, vr) =
        again (enter_target (set_finished n vr) (if holds then t else u))
    after_check n t u (error, holds, vr) = return error (stack_reset cb vr)
    after_check n t u (comeback, holds, vr) = return comeback vr
    after_check n t u (wait_for_event, holds, vr) = return wait_for_event vr

    -- After `select` or `fallback`.
    unfoldable pub after_select : ℕ → Called E → Turn E
    unfolding stack_reset drop_failed modify_at
    after_select n (go_on, vr, slot) = again (drop_failed n (set_finished n (set_slot n slot vr)))
    after_select n (error, vr, slot) = return error (stack_reset cb (set_slot n slot vr))
    after_select n (comeback, vr, slot) = return comeback (set_slot n slot vr)
    after_select n (wait_for_event, vr, slot) = return wait_for_event (set_slot n slot vr)

    -- `case LI_ACTION_TLIST`, with the item at the position, if there is one.
    unfoldable pub next_item : Option Action → Element → ℕ → Vr E → Turn E
    unfolding pop modify_at enter
    next_item none e n vr = again (pop cb vr)
    next_item (some a) e n vr = again (enter (set_slot n (suc e.slot) vr) a)

    -- `switch (a->type)` for the top element, with n others below it.
    unfoldable pub perform : Action → Element → ℕ → Vr E → Turn E
    unfolding pop next_item after_func after_check after_select is_handled modify_at
    perform nothing e n vr = again (pop cb vr)
    perform (setting i v) e n vr = again (pop cb (record vr { options = set_at vr.options i v }))
    perform (settingptr i v) e n vr =
        again (pop cb (record vr { optionptrs = set_at vr.optionptrs i v }))
    perform (function f has_cleanup) e n vr = after_func n (cb.func f vr e.slot)
    perform (condition c regexp t u) e n vr = after_check n t u (cb.check c vr)
    perform (list xs) e n vr = next_item (item xs e.slot) e n vr
    perform (balancer b backlog) e n vr =
        if is_handled vr.state
        then again (set_finished n vr)
        else after_select n (cb.select b vr e.backlog_provided e.slot)

    -- "set by li_vrequest_backend_error": look for a balancer that provides backlog.
    unfoldable pub unwind : List Element → Vr E → Vr E
    unfolding pop
    unwind [] vr = vr
    unwind (e ∷ es) vr =
        let rest = unwind es (pop cb vr) in if provides_backlog e.act then vr else rest

    -- `fallback` of the balancer on top.
    fall_back : Action → Element → ℕ → Vr E → Turn E
    unfolding after_select modify_at
    fall_back (balancer b backlog) e n vr = after_select n (
        cb.fallback b (set_unfinished n (record vr { backend_failed = false })) e.backlog_provided
          e.slot vr.backend_error)
    fall_back _ e n vr = again vr

    unfoldable pub after_failure : Vr E → Turn E
    unfolding fall_back unavailable
    after_failure vr = elim vr.stack [
      | [] ↦ return go_on (unavailable vr)
      | e ∷ es ↦ fall_back e.act e (length es) vr
    ]

    -- The element is finished; a balancer waits until there is a backend with response headers.
    unfoldable pub leave_finished : Bool → Vr E → Turn E
    unfolding pop
    leave_finished false vr = again (pop cb vr)
    leave_finished true vr = elim vr.state [
      | handle_request_headers ↦ return error vr
      | clean ↦ return wait_for_event vr
      | read_content ↦ return wait_for_event vr
      | _ ↦ again (pop cb vr)
    ]

    unfoldable pub turn : Vr E → Turn E
    unfolding perform unwind after_failure leave_finished unavailable
    turn vr = elim vr.stack [
      | [] ↦ return go_on (if vr.backend_failed then unavailable vr else vr)
      | e ∷ es ↦
          (if vr.backend_failed
            then after_failure
                (unwind vr.stack (record vr { state = handle_request_headers; backend = none }))
            else if e.finished
            then leave_finished (is_balancer e.act) vr
            else perform e.act e (length es)
                (record vr { actions_executed = suc vr.actions_executed }))
    ]

    unfoldable pub execute : ℕ → Vr E → Option (HandlerResult × Vr E)
    unfolding turn
    execute zero vr = none
    execute (suc fuel) vr = elim (turn vr) [
      | again vr' ↦ execute fuel vr'
      | return res vr' ↦ some (res, vr')
    ]

    -- `li_vrequest_backend_finished`
    unfoldable pub vrequest_backend_finished : Vr E → Vr E
    unfolding is_handled backend_stack_reset
    vrequest_backend_finished vr =
        if is_handled vr.state
        then backend_stack_reset cb (record vr { backend_finished = true })
        else vr

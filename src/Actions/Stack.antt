-- ===== src/Actions/Stack.antt =====
-- The action stack: entering, leaving and releasing actions.
use lighttpd.Prelude.{
  ℕ, Bool, true, false, not, ◌&&◌, ◌||◌, List, [], ◌∷◌, ◌++◌, ◌==◌, if◌then◌else◌,
}
use lighttpd.Actions.Defs.{Action, function, condition, balancer, Element, Vr, Callbacks}

abbrev pub provides_backlog : Action → Bool
provides_backlog (balancer b backlog) = backlog
provides_backlog _ = false

abbrev pub is_balancer : Action → Bool
is_balancer (balancer b backlog) = true
is_balancer _ = false

-- The backlog that an action on top of this stack is provided with.
abbrev pub backlog_below : List Element → Bool
backlog_below [] = false
backlog_below (e ∷ es) = e.backlog_provided || provides_backlog e.act

-- `g_array_set_size(rs, rs->len - 1)` on a stack that may be empty
abbrev pub drop_regex : List ℕ → List ℕ
drop_regex [] = []
drop_regex (r ∷ rs) = rs

module _ {E : Type 0} where
  -- `li_action_enter`
  unfoldable pub enter : Vr E → Action → Vr E
  enter vr a = record vr {
    stack =
        record { act = a; slot = 0; finished = false; backlog_provided = backlog_below vr.stack }
        ∷ vr.stack;
  }

  module _ (cb : Callbacks E) where
    -- `action_stack_element_release`
    unfoldable pub release_action : Action → ℕ → Vr E → Vr E
    release_action (function f has_cleanup) slot vr =
        if not (slot == 0) && has_cleanup then record vr { rest = cb.cleanup f vr slot } else vr
    release_action (condition c regexp t u) slot vr =
        if regexp then record vr { regex_stack = drop_regex vr.regex_stack } else vr
    release_action (balancer b backlog) slot vr = record vr { rest = cb.finished b vr slot }
    release_action _ slot vr = vr

    abbrev pub release_element : Element → Vr E → Vr E
    release_element e vr = release_action e.act e.slot vr

    unfoldable pub release_all : List Element → Vr E → Vr E
    unfolding release_action
    release_all [] vr = vr
    release_all (e ∷ es) vr = release_all es (release_element e vr)

    unfoldable pub backend_stack_reset : Vr E → Vr E
    unfolding release_all
    backend_stack_reset vr = record (release_all vr.backend_stack vr) { backend_stack = [] }

    -- `li_action_stack_reset`
    unfoldable pub stack_reset : Vr E → Vr E
    unfolding backend_stack_reset
    stack_reset vr =
        let vr' = backend_stack_reset (record (release_all vr.stack vr) { stack = [] }) in
        record vr' { backend_failed = false; backend_finished = false }

    -- `action_stack_pop`
    unfoldable pub pop : Vr E → Vr E
    unfolding release_action
    pop vr = elim vr.stack [
      | [] ↦ vr
      | e ∷ es ↦
          (if is_balancer e.act && not vr.backend_finished
            then record vr { backend_stack = vr.backend_stack ++ (e ∷ []); stack = es }
            else record (release_element e vr) { stack = es })
    ]

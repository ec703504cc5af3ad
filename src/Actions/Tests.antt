-- ===== src/Actions/Tests.antt =====
-- A configuration that sets an option and then either sets another one or runs a function.
use lighttpd.Prelude.{ℕ, zero, suc, ◌≡◌, refl, true, false, none, some, List, [], ◌∷◌, ◌++◌, arith}
use lighttpd.Actions.Defs.{
  go_on, error, handle_request_headers, read_content, Action, nothing, setting, function, condition,
  list, balancer, nil, cons, no_target, target, Element, Vr, Callbacks,
}
use lighttpd.Actions.Stack.{enter, release_action}
use lighttpd.Actions.Execute.{turn, execute}
use lighttpd.Actions.Meaning.{on, counted, eval, IsCalm, size}
use lighttpd.Actions.Meaning.Turns.{pending}
use lighttpd.Actions.Meaning.Total.{execute-enter}
use lighttpd.Actions.Failure.{NoBacklog, IsUnavailable, turn-IsUnavailable}
use lighttpd.Actions.Release.{Log, cleaned, finished_with, releases, HasReleased, turn-HasReleased}

-- `rest` counts the calls of the function. The condition holds for status 200; function 1 and
-- every balancer fail.
abbrev callbacks : Callbacks ℕ
callbacks = record {
  func = λ f vr slot. elim f [
    | suc n ↦ (error, vr, slot)
    | zero ↦ (go_on, record vr { rest = suc vr.rest }, 1)
  ];
  cleanup = λ f vr slot. suc vr.rest;
  check = λ c vr. (go_on, true, vr);
  select = λ b vr backlog slot. (error, vr, slot);
  fallback = λ b vr backlog slot err. (error, vr, slot);
  finished = λ b vr slot. vr.rest;
}

abbrev request : Vr ℕ
request = record {
  stack = [];
  backend_stack = [];
  regex_stack = [];
  backend_failed = false;
  backend_finished = false;
  backend_error = 0;
  state = handle_request_headers;
  backend = none;
  http_status = 0;
  options = λ i. 0;
  optionptrs = λ i. 0;
  actions_executed = 0;
  rest = 0;
}

abbrev config : Action
config = list (
    cons (setting 3 1) (
      cons (condition 0 false (target (function 0 true)) (target (setting 4 1)))
        (cons nothing nil)))

branch-IsCalm :
    IsCalm callbacks (condition 0 false (target (function 0 true)) (target (setting 4 1)))
branch-IsCalm = (
  record { calm = λ vr s. refl },
  record { calm = λ vr s slot. refl; calm_cleanup = λ vr s slot. refl },
  omega arith,
)

config-IsCalm : IsCalm callbacks config
config-IsCalm = (omega arith, (branch-IsCalm, (omega arith, omega arith)))

execute-enter_example :
    execute callbacks (suc (size config)) (enter (on request []) config)
    ≡ some (go_on, on (eval callbacks config request) [])
execute-enter_example = execute-enter callbacks config request config-IsCalm

-- The function has run once, and its cleanup after it.
config_rest : (eval callbacks config request).rest ≡ 2
unfolding eval release_action
config_rest = refl

abbrev waiting : Vr ℕ
waiting = record request {
  stack = pending (function 0 true) 1 false ∷ pending (balancer 2 false) 0 false ∷ [];
  backend_failed = true;
  backend = some 5;
  state = read_content;
}

turn-IsUnavailable_example : IsUnavailable (turn callbacks waiting)
unfolding NoBacklog
turn-IsUnavailable_example =
    turn-IsUnavailable callbacks waiting (pending (function 0 true) 1 false)
      (pending (balancer 2 false) 0 false ∷ []) refl refl (refl, (refl, refl))

-- The function fails with 7 in its slot; a balancer waits for the end of its backend.
abbrev logging : Callbacks Log
logging = record {
  func = λ f vr slot. (error, vr, 7);
  cleanup = λ f vr slot. vr.rest ++ (cleaned f slot ∷ []);
  check = λ c vr. (go_on, true, vr);
  select = λ b vr backlog slot. (error, vr, slot);
  fallback = λ b vr backlog slot err. (error, vr, slot);
  finished = λ b vr slot. vr.rest ++ (finished_with b slot ∷ []);
}

abbrev below : List Element
below =
    pending (condition 3 true no_target no_target) 0 false ∷ pending (function 4 true) 2 false ∷ []

abbrev logged_request : Vr Log
logged_request = record {
  stack = pending (function 1 true) 0 false ∷ below;
  backend_stack = pending (balancer 2 false) 5 false ∷ [];
  regex_stack = 9 ∷ [];
  backend_failed = false;
  backend_finished = false;
  backend_error = 0;
  state = handle_request_headers;
  backend = none;
  http_status = 0;
  options = λ i. 0;
  optionptrs = λ i. 0;
  actions_executed = 0;
  rest = [];
}

turn-HasReleased_example :
    HasReleased
      (pending (function 1 true) 7 false ∷ below)
      (counted logged_request)
      (turn logging logged_request)
turn-HasReleased_example =
    turn-HasReleased logging logged_request (counted logged_request) (function 1 true) 0 7 false
      below (record { cleanup_is = λ f vr slot. refl; finished_is = λ b vr slot. refl }) refl refl

-- Both functions, from the top of the stack
releases_in_order :
    releases (pending (function 1 true) 7 false ∷ below) ≡ cleaned 1 7 ∷ cleaned 4 2 ∷ []
releases_in_order = refl

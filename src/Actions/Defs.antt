-- ===== src/Actions/Defs.antt =====
-- include/lighttpd/actions.h and the parts of `liVRequest` that the interpreter touches. A callback
-- is named by a number, which stands for the function and its `param`.
use lighttpd.Prelude.{ℕ, Bool, Option, List}

-- `liHandlerResult`
pub data HandlerResult : Type 0 where
  go_on comeback wait_for_event error : HandlerResult

-- `liVRequestState`
pub data VrState : Type 0 where
  clean handle_request_headers read_content handle_response_headers write_content failed : VrState

-- `liAction`, without its reference count: the list of a TLIST, and a target that may be NULL.
mutual
  pub data Action : Type 0 where
    nothing : Action
    -- `data.setting.ndx`, `data.setting.value`
    setting : ℕ → ℕ → Action
    settingptr : ℕ → ℕ → Action
    -- whether there is a cleanup callback
    function : ℕ → Bool → Action
    -- the condition, whether it is of type REGEXP, `target`, `target_else`
    condition : ℕ → Bool → Target → Target → Action
    list : Actions → Action
    -- `provide_backlog`
    balancer : ℕ → Bool → Action

  pub data Actions : Type 0 where
    nil : Actions
    cons : Action → Actions → Actions

  pub data Target : Type 0 where
    no_target : Target
    target : Action → Target

-- `action_stack_element`; `slot` is the union of `context` and `pos`.
pub record Element : Type 0 where
  pub act : Action
  pub slot : ℕ
  pub finished : Bool
  pub backlog_provided : Bool

-- `liVRequest` with its `liActionStack`, the last element of `stack` first. `rest` is what only the
-- callbacks know.
pub record Vr (E : Type 0) : Type 0 where
  pub stack : List Element
  pub backend_stack : List Element
  pub regex_stack : List ℕ
  pub backend_failed : Bool
  pub backend_finished : Bool
  pub backend_error : ℕ
  pub state : VrState
  pub backend : Option ℕ
  pub http_status : ℕ
  pub options : ℕ → ℕ
  pub optionptrs : ℕ → ℕ
  pub actions_executed : ℕ
  pub rest : E

-- What a callback returns: its result, the request, and what it left in `*context`.
abbrev pub Called : Type 0 → Type 0
Called E = HandlerResult × Vr E × ℕ

-- The code behind the function pointers. `cleanup` and `finished` are taken to change nothing of the
-- request but `rest`.
pub record Callbacks (E : Type 0) : Type 0 where
  pub func : ℕ → Vr E → ℕ → Called E
  pub cleanup : ℕ → Vr E → ℕ → E
  pub check : ℕ → Vr E → HandlerResult × Bool × Vr E
  pub select : ℕ → Vr E → Bool → ℕ → Called E
  pub fallback : ℕ → Vr E → Bool → ℕ → ℕ → Called E
  pub finished : ℕ → Vr E → ℕ → E

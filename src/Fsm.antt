-- ===== src/Fsm.antt =====
-- utility/fsm.c: the event queue and the dispatcher of the hierarchical state machine. A state is the
-- list of its identifier and its ancestors', NULL is the empty list, and the parent is the tail;
-- identifiers are unique, so pointers to states are equal where the first identifiers are. The
-- handlers and actions are arguments: they change the user's data and dispatch events. Each call of
-- the queue holds the lock and is one step.
pub mod Nesting
pub mod Run
pub mod Idle
pub mod Examples
use re_boot.Base.{ℕ, zero, suc, ◌==◌, if◌then◌else◌, Bool, true, false, ◌&&◌, Option, none, some}
use re_boot.Base.{List, [], ◌∷◌, ◌++◌, leb, length}

abbrev pub State : Type 0
State = List ℕ

-- Equality of pointers to states.
unfoldable pub same_state : State → State → Bool
same_state [] [] = true
same_state [] (y ∷ t) = false
same_state (x ∷ s) [] = false
same_state (x ∷ s) (y ∷ t) = x == y

-- `fsm_event_t`, without the link of the queue.
pub record FsmEvent : Type 0 where
  pub kind : ℕ
  pub payload : ℕ

-- `fsm_transition_t`; an action is its number, if there is one.
pub record Transition : Type 0 where
  pub from : State
  pub event : ℕ
  pub to : State
  pub action : Option ℕ

-- The calls of one transition, in order.
pub data Call : Type 0 where
  exit : ℕ → Call
  act : Option ℕ → FsmEvent → Call
  entry : ℕ → Call

-- The loop of `fsm_run` that looks for a common ancestor.
unfoldable pub find_exit_target : State → State → State
unfolding same_state
find_exit_target [] curr = []
find_exit_target (t ∷ target) curr =
    let rest = find_exit_target target curr in
    if same_state (t ∷ target) curr then t ∷ target else rest

-- The states that the loop of `fsm_exit_up_to` leaves, and those that `fsm_enter_down_from` stacks.
unfoldable pub up_to : State → State → List ℕ
unfolding same_state
up_to [] target = []
up_to (s ∷ state) target =
    let rest = up_to state target in if same_state (s ∷ state) target then [] else s ∷ rest

unfoldable pub exits : List ℕ → List Call
exits [] = []
exits (s ∷ states) = exit s ∷ exits states

-- The loop over the stack, from its top, which is the outermost state.
unfoldable pub entries : List ℕ → List Call
entries [] = []
entries (s ∷ stack) = entries stack ++ entry s ∷ []

-- `none` where the stack of ten states is too small.
unfoldable pub transition_calls : State → Transition → FsmEvent → Option (List Call)
unfolding find_exit_target up_to exits entries
transition_calls current t event =
    let exit_target = find_exit_target t.to current in
    let stack = up_to t.to exit_target in
    if leb (length stack) 10
    then some (exits (up_to current exit_target) ++ act t.action event ∷ entries stack)
    else none

-- The first row of the table for the state and the event.
unfoldable pub find_transition : List Transition → State → FsmEvent → Option Transition
unfolding same_state
find_transition [] current event = none
find_transition (t ∷ table) current event =
    let rest = find_transition table current event in
    if same_state t.from current && (t.event == event.kind) then some t else rest

-- `fsm_t` with the data of the user.
pub record Fsm (U : Type 0) : Type 0 where
  pub current : State
  pub user : U
  pub queue : List FsmEvent

-- `fsm_dispatch`, which is `fsm_queue_push`.
unfoldable pub fsm_dispatch : {U : Type 0} → Fsm U → FsmEvent → Fsm U
fsm_dispatch fsm event = record fsm { queue = fsm.queue ++ event ∷ [] }

-- A handler's effect: the user's data, and the events that it dispatches.
abbrev pub Handler : Type 0 → Type 0
Handler U = Call → U → U × List FsmEvent

unfoldable pub dispatch_all : {U : Type 0} → Fsm U → List FsmEvent → Fsm U
unfolding fsm_dispatch
dispatch_all fsm [] = fsm
dispatch_all fsm (e ∷ events) = dispatch_all (fsm_dispatch fsm e) events

-- The calls, with what they dispatch.
unfoldable pub run_calls : {U : Type 0} → Handler U → List Call → Fsm U → Fsm U
unfolding dispatch_all
run_calls handler [] fsm = fsm
run_calls handler (c ∷ calls) fsm =
    let (user, events) = handler c fsm.user in
    run_calls handler calls (dispatch_all (record fsm { user = user }) events)

-- One round of the loop of `fsm_run`, for an event that was taken off the queue.
unfoldable pub process :
    {U : Type 0} → Handler U → List Transition → FsmEvent → Fsm U → Option (Fsm U)
process handler table event fsm = elim (find_transition table fsm.current event) [
  | none ↦ some fsm
  | some t ↦ elim (transition_calls fsm.current t event) [
    | none ↦ none
    | some calls ↦ some (record (run_calls handler calls fsm) { current = t.to })
  ]
]

-- What `fsm_run` comes to: its queue is empty, or the stack of states was too small, or it still runs
-- after the rounds of the bound.
pub data Ran (U : Type 0) : Type 0 where
  idle running : Fsm U → Ran U
  overflow : Ran U

unfoldable pub fsm_run : {U : Type 0} → Handler U → List Transition → ℕ → Fsm U → Ran U
fsm_run handler table zero fsm = running fsm
fsm_run handler table (suc rounds) fsm = elim fsm.queue [
  | [] ↦ idle fsm
  | event ∷ queue ↦ elim (process handler table event (record fsm { queue = queue })) [
    | none ↦ overflow
    | some fsm' ↦ fsm_run handler table rounds fsm'
  ]
]

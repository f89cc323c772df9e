-- ===== src/Session/Rounds.antt =====
-- One event of a session, from the state machine's calls to the action.
use re_boot.Base.{
  ℕ, suc, ◌≡◌, refl, sym, ap, ◌∙◌, arith, ◌==◌, if◌then◌else◌, Bool, false, none, some, List, [],
  ◌∷◌, ◌++◌, append_assoc, append-nil, Bool-cases, inl, inr,
}
use re_boot.Fsm.{
  State, FsmEvent, Transition, Call, exit, act, entry, Fsm, Handler, idle, fsm_dispatch, fsm_run,
  dispatch_all, run_calls, process, find_transition, transition_calls,
}
use re_boot.Session.{Context, Effect}
use re_boot.Session.Loop.{fsm_table, run_action, handler}

dispatch_all_queue :
    {U : Type 0} (fsm : Fsm U) (events : List FsmEvent)
    → dispatch_all fsm events ≡ record fsm { queue = fsm.queue ++ events }
unfolding dispatch_all fsm_dispatch
dispatch_all_queue fsm [] =
    ap (λ (q : List FsmEvent). record fsm { queue = q }) (sym (append-nil fsm.queue))
dispatch_all_queue fsm (e ∷ events) =
    dispatch_all_queue (record fsm { queue = fsm.queue ++ e ∷ [] }) events
    ∙ ap (λ (q : List FsmEvent). record fsm { queue = q }) (append_assoc fsm.queue (e ∷ []) events)

abbrev pub machine : State → Context → List FsmEvent → Fsm Context
machine current c queue = record { current = current; user = c; queue = queue }

act_call :
    (driver n : ℕ) (e : FsmEvent) (c : Context) (effect : Effect)
    → c.fault ≡ false
    → run_action driver n e c ≡ effect
    → handler driver (act (some n) e) c ≡ effect
unfolding handler
act_call driver n e c effect ok done =
    ap (λ (b : Bool). if b then (c, []) else run_action driver n e c) ok ∙ done

calls_of : ℕ → ℕ → ℕ → FsmEvent → List Call
calls_of x n y e = if y == x then act (some n) e ∷ [] else exit x ∷ act (some n) e ∷ entry y ∷ []

flat_calls :
    (x n y kind : ℕ) (e : FsmEvent)
    → transition_calls
        (x ∷ [])
        (record { from = x ∷ []; event = kind; to = y ∷ []; action = some n })
        e
      ≡ some (calls_of x n y e)
unfolding transition_calls calls_of
flat_calls x n y kind e = ground arith

-- The first of some calls.
call_step :
    (driver : ℕ) (k : Call) (calls : List Call) (current : State) (c : Context)
    (queue : List FsmEvent) (effect : Effect)
    → handler driver k c ≡ effect
    → run_calls (handler driver) (k ∷ calls) (machine current c queue)
      ≡ run_calls (handler driver) calls (machine current effect.0 (queue ++ effect.1))
unfolding run_calls
call_step driver k calls current c queue effect h = rw h (
    ap (run_calls (handler driver) calls)
      (dispatch_all_queue (machine current effect.0 queue) effect.1))

no_calls : (driver : ℕ) (fsm : Fsm Context) → run_calls (handler driver) [] fsm ≡ fsm
unfolding run_calls
no_calls driver fsm = refl

still :
    (driver : ℕ) (k : Call) (calls : List Call) (current : State) (c : Context)
    (queue : List FsmEvent)
    → handler driver k c ≡ (c, [])
    → run_calls (handler driver) (k ∷ calls) (machine current c queue)
      ≡ run_calls (handler driver) calls (machine current c queue)
still driver k calls current c queue h =
    call_step driver k calls current c queue (c, []) h
    ∙ ap (λ (q : List FsmEvent). run_calls (handler driver) calls (machine current c q))
        (append-nil queue)

exit_nothing : (driver x : ℕ) (c : Context) → handler driver (exit x) c ≡ (c, [])
unfolding handler
exit_nothing driver x c = refl

entry_nothing : (driver x : ℕ) (c : Context) → handler driver (entry x) c ≡ (c, [])
unfolding handler
entry_nothing driver x c = refl

run_flat_calls :
    (driver n x y : ℕ) (e : FsmEvent) (c : Context) (queue : List FsmEvent) (effect : Effect)
    → handler driver (act (some n) e) c ≡ effect
    → run_calls (handler driver) (calls_of x n y e) (machine (x ∷ []) c queue)
      ≡ machine (x ∷ []) effect.0 (queue ++ effect.1)
unfolding calls_of
run_flat_calls driver n x y e c queue effect h = elim (Bool-cases (y == x)) [
  | inl s ↦ rw s (
      call_step driver (act (some n) e) [] (x ∷ []) c queue effect h
      ∙ no_calls driver (machine (x ∷ []) effect.0 (queue ++ effect.1)))
  | inr s ↦ rw s (
      still driver (exit x) (act (some n) e ∷ entry y ∷ []) (x ∷ []) c queue
        (exit_nothing driver x c)
      ∙ call_step driver (act (some n) e) (entry y ∷ []) (x ∷ []) c queue effect h
      ∙ still driver (entry y) [] (x ∷ []) effect.0 (queue ++ effect.1)
          (entry_nothing driver y effect.0)
      ∙ no_calls driver (machine (x ∷ []) effect.0 (queue ++ effect.1)))
]

process_row :
    {U : Type 0} (h : Handler U) (table : List Transition) (e : FsmEvent) (fsm : Fsm U)
    (t : Transition) (calls : List Call)
    → find_transition table fsm.current e ≡ some t
    → transition_calls fsm.current t e ≡ some calls
    → process h table e fsm ≡ some (record (run_calls h calls fsm) { current = t.to })
unfolding process
process_row h table e fsm t calls f g = rw (f, process) (rw (g, process) refl)

process_no_row :
    {U : Type 0} (h : Handler U) (table : List Transition) (e : FsmEvent) (fsm : Fsm U)
    → find_transition table fsm.current e ≡ none
    → process h table e fsm ≡ some fsm
unfolding process
process_no_row h table e fsm f = rw (f, process) refl

one_process :
    (driver n x y kind : ℕ) (e : FsmEvent) (c : Context) (queue : List FsmEvent) (effect : Effect)
    → find_transition fsm_table (x ∷ []) e
      ≡ some (record { from = x ∷ []; event = kind; to = y ∷ []; action = some n })
    → handler driver (act (some n) e) c ≡ effect
    → process (handler driver) fsm_table e (machine (x ∷ []) c queue)
      ≡ some (machine (y ∷ []) effect.0 (queue ++ effect.1))
one_process driver n x y kind e c queue effect found h =
    process_row (handler driver) fsm_table e (machine (x ∷ []) c queue) _ (calls_of x n y e) found
      (flat_calls x n y kind e)
    ∙ ap (λ (fsm : Fsm Context). some (record fsm { current = y ∷ [] }))
        (run_flat_calls driver n x y e c queue effect h)

-- A round with a row for the state and the event.
pub fire :
    (driver rounds n x y kind : ℕ) (e : FsmEvent) (c : Context) (queue : List FsmEvent)
    (effect : Effect)
    → find_transition fsm_table (x ∷ []) e
      ≡ some (record { from = x ∷ []; event = kind; to = y ∷ []; action = some n })
    → c.fault ≡ false
    → run_action driver n e c ≡ effect
    → fsm_run (handler driver) fsm_table (suc rounds) (machine (x ∷ []) c (e ∷ queue))
      ≡ fsm_run (handler driver) fsm_table rounds (machine (y ∷ []) effect.0 (queue ++ effect.1))
unfolding fsm_run
fire driver rounds n x y kind e c queue effect found ok done =
    rw
      (
        one_process driver n x y kind e c queue effect found (act_call driver n e c effect ok done),
        fsm_run,
      )
      refl

-- A round without one.
pub ignore :
    (driver rounds x : ℕ) (e : FsmEvent) (c : Context) (queue : List FsmEvent)
    → find_transition fsm_table (x ∷ []) e ≡ none
    → fsm_run (handler driver) fsm_table (suc rounds) (machine (x ∷ []) c (e ∷ queue))
      ≡ fsm_run (handler driver) fsm_table rounds (machine (x ∷ []) c queue)
unfolding fsm_run
ignore driver rounds x e c queue found =
    rw (process_no_row (handler driver) fsm_table e (machine (x ∷ []) c queue) found, fsm_run) refl

-- With nothing in the queue the machine rests.
pub rest :
    (driver rounds : ℕ) (current : State) (c : Context)
    → fsm_run (handler driver) fsm_table (suc rounds) (machine current c [])
      ≡ idle (machine current c [])
unfolding fsm_run
rest driver rounds current c = refl

-- ===== src/Fsm/Examples.antt =====
-- A machine of three states without parents, with handlers that dispatch nothing, and a few that do.
use re_boot.Base.{
  ℕ, ◌≡◌, ◌≢◌, refl, sym, ap, ◌∙◌, arith, none, some, List, [], ◌∷◌, ◌++◌, All, length, true, ==→eq,
  ap₂, ltb, if◌then◌else◌,
}
use re_boot.Fsm.{
  State, FsmEvent, Transition, Call, Fsm, same_state, transition_calls, fsm_run, process,
  find_transition, run_calls, dispatch_all, fsm_dispatch, Ran, idle, overflow, running,
}
use re_boot.Fsm.Nesting.{IsConsistent, active_after, transition_calls-active}
use re_boot.Fsm.Run.{logging, IsLogged, IsKnown, RanLogged, fsm_run-RanLogged}
use re_boot.Fsm.Idle.{fsm_run-idle}

abbrev Known : State → Type 0
Known s = (id : ℕ) × (s ≡ id ∷ [])

tail_empty : (below a : State) → below ++ a ≡ [] → a ≡ []
tail_empty [] a e = e
tail_empty (b ∷ below) a e = cc

tail_of : (List ℕ) → List ℕ
tail_of [] = []
tail_of (x ∷ xs) = xs

same_one : (x y : ℕ) → same_state (x ∷ []) (y ∷ []) ≡ true → x ∷ [] ≡ y ∷ []
unfolding same_state
same_one x y h = ap (λ n. n ∷ []) (==→eq x y h)

not_null : (y : ℕ) → same_state [] (y ∷ []) ≢ true
unfolding same_state
not_null y e = cc

Known-IsConsistent : (a b : State) → Known a → Known b → IsConsistent a b
Known-IsConsistent a b (x, ea) (y, eb) [] c e same =
    e ∙ eb ∙ same_one y x (ap₂ same_state (sym (e ∙ eb)) (sym ea) ∙ same) ∙ sym ea
Known-IsConsistent a b (x, ea) (y, eb) (z ∷ below) c e same =
    let null : c ≡ [] = tail_empty below c (unfold tail_of in ap tail_of (e ∙ eb)) in
    absurd (not_null x (ap₂ same_state (sym null) (sym ea) ∙ same))

abbrev table : List Transition
table =
    record { from = 1 ∷ []; event = 5; to = 2 ∷ []; action = some 0 }
    ∷ record { from = 2 ∷ []; event = 6; to = 3 ∷ []; action = none }
    ∷ []

table-IsKnown : All (IsKnown Known) table
table-IsKnown = (
  record { to_known = (2, refl); depth = omega arith },
  (record { to_known = (3, refl); depth = omega arith }, tt),
)

abbrev machine : Fsm (List Call)
machine = record {
  current = 1 ∷ [];
  user = [];
  queue = record { kind = 5; payload = 0 } ∷ record { kind = 6; payload = 0 } ∷ [];
}

abbrev silent : Call → List Call → List FsmEvent
silent c log = []

-- Dispatches another event at each of the first three calls.
abbrev noisy : Call → List Call → List FsmEvent
noisy c log = if ltb (length log) 3 then record { kind = 6; payload = length log } ∷ [] else []

-- The machine comes to rest in its third state, past events that it ignores there.
noisy_state : Ran (List Call) → State
noisy_state (idle fsm) = fsm.current
noisy_state overflow = []
noisy_state (running fsm) = 0 ∷ []

noisy_ends : noisy_state (fsm_run (logging noisy) table 7 machine) ≡ 3 ∷ []
unfolding noisy_state fsm_run process find_transition transition_calls run_calls dispatch_all
    fsm_dispatch same_state
noisy_ends = refl

start-IsLogged : IsLogged (1 ∷ []) machine
unfolding active_after
start-IsLogged = refl

transition_calls-active_example :
    (calls : List Call) × (transition_calls
        (1 ∷ [])
        (record { from = 1 ∷ []; event = 5; to = 2 ∷ []; action = none })
        (record { kind = 5; payload = 0 })
      ≡ some calls)
    × (active_after calls (1 ∷ []) ≡ some (2 ∷ []))
transition_calls-active_example =
    transition_calls-active (1 ∷ [])
      (record { from = 1 ∷ []; event = 5; to = 2 ∷ []; action = none })
      (record { kind = 5; payload = 0 }) (omega arith)
      (Known-IsConsistent (1 ∷ []) (2 ∷ []) (1, refl) (2, refl))

fsm_run-RanLogged_example : RanLogged (1 ∷ []) (fsm_run (logging noisy) table 7 machine)
fsm_run-RanLogged_example =
    fsm_run-RanLogged Known Known-IsConsistent table table-IsKnown noisy (1 ∷ []) 7 machine
      (1, refl) start-IsLogged

fsm_run-idle_example :
    (fsm : Fsm (List Call)) × (fsm_run (logging silent) table 3 machine ≡ idle fsm)
    × IsLogged (1 ∷ []) fsm
    × (fsm.queue ≡ [])
fsm_run-idle_example =
    fsm_run-idle silent (λ c log. refl) Known Known-IsConsistent table table-IsKnown (1 ∷ []) 3
      machine (1, refl) start-IsLogged (omega arith)

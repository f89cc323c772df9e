-- ===== src/Fsm/Run.antt =====
-- Whole runs of the dispatcher, with a log of the calls as the user's data.
use re_boot.Base.{
  ℕ, zero, suc, ◌≡◌, refl, sym, ap, ◌∙◌, arith, ◌≤◌, true, false, Option, none, some,
}
use re_boot.Base.{List, [], ◌∷◌, ◌++◌, length, All, append-nil, append_assoc, inl, inr, ◌⊎◌, eq→==}
use mathlib.Core.Path.{subst}
use mathlib.Core.Option
use re_boot.Fsm.{
  State, FsmEvent, Transition, Call, exit, act, entry, Fsm, Handler, fsm_dispatch, dispatch_all,
  run_calls,
}
use re_boot.Fsm.{transition_calls, find_transition, process, Ran, idle, overflow, running, fsm_run}
use re_boot.Fsm.Nesting.{active_after, IsConsistent, transition_calls-active}

-- Handlers that write down each call, and dispatch whatever events they like.
abbrev pub logging : (Call → List Call → List FsmEvent) → Handler (List Call)
logging policy call log = (log ++ call ∷ [], policy call log)

-- The log leads from the initial state to the current one.
abbrev pub IsLogged : State → Fsm (List Call) → Type 0
IsLogged start fsm = active_after fsm.user start ≡ some fsm.current

dispatch_all-user :
    (fsm : Fsm (List Call)) (events : List FsmEvent)
    → ((dispatch_all fsm events).user ≡ fsm.user)
      × ((dispatch_all fsm events).current ≡ fsm.current)
unfolding dispatch_all
dispatch_all-user fsm [] = (refl, refl)
dispatch_all-user fsm (e ∷ events) = dispatch_all-user (fsm_dispatch fsm e) events

run_calls-user :
    (policy : Call → List Call → List FsmEvent) (calls : List Call) (fsm : Fsm (List Call))
    → (run_calls (logging policy) calls fsm).user ≡ fsm.user ++ calls
unfolding run_calls
run_calls-user policy [] fsm = sym (append-nil fsm.user)
run_calls-user policy (c ∷ calls) fsm =
    let fsm' : Fsm (List Call) = record fsm { user = fsm.user ++ c ∷ [] } in
    let events = policy c fsm.user in
    run_calls-user policy calls (dispatch_all fsm' events)
    ∙ ap (λ (t : List Call). t ++ calls) ((dispatch_all-user fsm' events).0)
    ∙ append_assoc fsm.user (c ∷ []) calls

exit_inverse :
    (x y : ℕ) (a : List Call) (s m : List ℕ)
    → active_after (exit x ∷ a) (y ∷ s) ≡ some m
    → (x ≡ y) × (active_after a s ≡ some m)
unfolding active_after
exit_inverse x y a s m h = ground arith

exit_step :
    (x y : ℕ) (a : List Call) (s : List ℕ)
    → x ≡ y
    → active_after (exit x ∷ a) (y ∷ s) ≡ active_after a s
unfolding active_after
exit_step x y a s e = rw (eq→== x y e) refl

some-injective : {x y : List ℕ} → some x ≡ some y → x ≡ y
some-injective {x} e = ap (λ o. Option.get_or o x) e

active_nil : (s : List ℕ) → active_after [] s ≡ some s
unfolding active_after
active_nil s = refl

act_step :
    (k : Option ℕ) (e : FsmEvent) (a : List Call) (s : List ℕ)
    → active_after (act k e ∷ a) s ≡ active_after a s
unfolding active_after
act_step k e a s = refl

entry_step :
    (x : ℕ) (a : List Call) (s : List ℕ) → active_after (entry x ∷ a) s ≡ active_after a (x ∷ s)
unfolding active_after
entry_step x a s = refl

-- Calls after calls.
active_after-append :
    (a b : List Call) (s m : List ℕ)
    → active_after a s ≡ some m
    → active_after (a ++ b) s ≡ active_after b m
active_after-append [] b s m h = ap (active_after b) (some-injective (sym (active_nil s) ∙ h))
active_after-append (exit x ∷ a) b [] m h = absurd (unfold active_after in cc)
active_after-append (exit x ∷ a) b (y ∷ s) m h =
    let (e, rest) = exit_inverse x y a s m h in
    exit_step x y (a ++ b) s e ∙ active_after-append a b s m rest
active_after-append (act k e ∷ a) b s m h =
    act_step k e (a ++ b) s ∙ active_after-append a b s m (sym (act_step k e a s) ∙ h)
active_after-append (entry x ∷ a) b s m h =
    entry_step x (a ++ b) s ∙ active_after-append a b (x ∷ s) m (sym (entry_step x a s) ∙ h)

-- The row that is found is the first or a later one.
row-case :
    (row : Transition) (table : List Transition) (current : State) (event : FsmEvent)
    (t : Transition)
    → find_transition (row ∷ table) current event ≡ some t
    → (find_transition table current event ≡ some t) ⊎ (some row ≡ some t)
unfolding find_transition
row-case row table current event t e = ground arith

find_transition-All :
    (P : Transition → Type 0) (table : List Transition) (current : State) (event : FsmEvent)
    (t : Transition)
    → All P table
    → find_transition table current event ≡ some t
    → P t
find_transition-All P [] current event t v e = absurd (unfold find_transition in cc)
find_transition-All P (row ∷ table) current event t v e =
    elim (row-case row table current event t e) [
      | inl later ↦ find_transition-All P table current event t v.1 later
      | inr same ↦ subst P (ap (λ o. Option.get_or o row) same) v.0
    ]

pub process-none :
    (handler : Handler (List Call)) (table : List Transition) (event : FsmEvent)
    (fsm : Fsm (List Call))
    → find_transition table fsm.current event ≡ none
    → process handler table event fsm ≡ some fsm
unfolding process
process-none handler table event fsm e = rw (e, process) refl

pub process-some :
    (handler : Handler (List Call)) (table : List Transition) (event : FsmEvent)
    (fsm : Fsm (List Call)) (t : Transition) (calls : List Call)
    → find_transition table fsm.current event ≡ some t
    → transition_calls fsm.current t event ≡ some calls
    → process handler table event fsm
      ≡ some (record (run_calls handler calls fsm) { current = t.to })
unfolding process
process-some handler table event fsm t calls e e' = rw (e, e', process) refl

pub process_fails :
    (handler : Handler (List Call)) (table : List Transition) (event : FsmEvent)
    (fsm : Fsm (List Call)) (t : Transition)
    → find_transition table fsm.current event ≡ some t
    → transition_calls fsm.current t event ≡ none
    → process handler table event fsm ≡ none
unfolding process
process_fails handler table event fsm t e e' = rw (e, e', process) refl

-- What a run comes to: idle with an empty queue, or still running; in both with a log that nests, and
-- never with too small a stack.
abbrev pub RanLogged : State → Ran (List Call) → Type 0
RanLogged start (idle fsm) = IsLogged start fsm × (fsm.queue ≡ [])
RanLogged start overflow = true ≡ false
RanLogged start (running fsm) = IsLogged start fsm

-- A table whose states are all among known states: each has at most ten states up to the root, and
-- known states with one identifier are the same.
module _ (Known : State → Type 0) where
  pub record IsKnown (t : Transition) : Type 0 where
    pub to_known : Known t.to
    pub depth : length t.to ≤ 10

module _ (Known : State → Type 0)
    (consistent : (a b : State) → Known a → Known b → IsConsistent a b) (table : List Transition)
    (rows : All (IsKnown Known) table) (policy : Call → List Call → List FsmEvent)
    (start : State) where
  -- One event keeps the log, and never fails.
  pub process-IsLogged :
      (event : FsmEvent) (fsm : Fsm (List Call))
      → Known fsm.current
      → IsLogged start fsm
      → (fsm' : Fsm (List Call)) × (process (logging policy) table event fsm ≡ some fsm')
        × IsLogged start fsm'
        × Known fsm'.current
  process-IsLogged event fsm k v = go (find_transition table fsm.current event) refl
    where
      go :
          (found : Option Transition)
          → find_transition table fsm.current event ≡ found
          → (fsm' : Fsm (List Call)) × (process (logging policy) table event fsm ≡ some fsm')
            × IsLogged start fsm'
            × Known fsm'.current
      go none e = (fsm, process-none (logging policy) table event fsm e, v, k)
      go (some t) e =
          let row = find_transition-All (IsKnown Known) table fsm.current event t rows e in
          let (calls, made, active) =
            transition_calls-active fsm.current t event row.depth
              (consistent fsm.current t.to k row.to_known) in
          (
            record (run_calls (logging policy) calls fsm) { current = t.to },
            process-some (logging policy) table event fsm t calls e made,
            ap (λ log. active_after log start) (run_calls-user policy calls fsm)
                ∙ active_after-append fsm.user calls start fsm.current v
                ∙ active,
            row.to_known,
          )

  pub run_empty :
      (rounds : ℕ) (fsm : Fsm (List Call))
      → fsm.queue ≡ []
      → fsm_run (logging policy) table (suc rounds) fsm ≡ idle (record fsm { queue = [] })
  unfolding fsm_run
  run_empty rounds fsm e =
      ap
        (λ (queue : List FsmEvent).
          fsm_run (logging policy) table (suc rounds) (record fsm { queue = queue }))
        e

  pub run_event :
      (rounds : ℕ) (fsm fsm' : Fsm (List Call)) (event : FsmEvent) (queue : List FsmEvent)
      → fsm.queue ≡ event ∷ queue
      → process (logging policy) table event (record fsm { queue = queue }) ≡ some fsm'
      → fsm_run (logging policy) table (suc rounds) fsm ≡ fsm_run (logging policy) table rounds fsm'
  unfolding fsm_run
  run_event rounds fsm fsm' event queue e e' =
      ap
        (λ (queue : List FsmEvent).
          fsm_run (logging policy) table (suc rounds) (record fsm { queue = queue }))
        e
      ∙ rw (e', fsm_run) refl

  -- Whatever the handlers dispatch, behind any number of rounds of fsm_run on a table of known
  -- states of at most ten levels, with known states equal where their identifiers are: the exits
  -- and entries nest, from the initial state to the current one, whether the run has ended or goes
  -- on; the stack never overflows, and where the run has ended the queue is empty.
  pub fsm_run-RanLogged :
      (rounds : ℕ) (fsm : Fsm (List Call))
      → Known fsm.current
      → IsLogged start fsm
      → RanLogged start (fsm_run (logging policy) table rounds fsm)
  fsm_run-RanLogged zero fsm k v = unfold fsm_run in v
  fsm_run-RanLogged (suc rounds) fsm k v =
      go fsm.queue refl (λ fsm' k' v'. fsm_run-RanLogged rounds fsm' k' v')
    where
      go :
          (queue : List FsmEvent)
          → fsm.queue ≡ queue
          → ((fsm' : Fsm (List Call))
              → Known fsm'.current
              → IsLogged start fsm'
              → RanLogged start (fsm_run (logging policy) table rounds fsm'))
          → RanLogged start (fsm_run (logging policy) table (suc rounds) fsm)
      go [] e later = rw (run_empty rounds fsm e) (v, refl)
      go (event ∷ queue) e later =
          let (fsm', made, v', k') = process-IsLogged event (record fsm { queue = queue }) k v in
          rw (run_event rounds fsm fsm' event queue e made) (later fsm' k' v')

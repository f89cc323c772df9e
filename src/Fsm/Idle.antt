-- ===== src/Fsm/Idle.antt =====
-- A run whose handlers dispatch nothing comes to an end.
use re_boot.Base.{
  ℕ, zero, suc, ◌≡◌, refl, ap, ◌∙◌, arith, ◌<◌, Option, none, some, List, [], ◌∷◌, ◌++◌, length,
  All,
}
use mathlib.Core.Path.{subst}
use re_boot.Fsm.{
  State, FsmEvent, Transition, Call, Fsm, dispatch_all, run_calls, transition_calls,
  find_transition,
}
use re_boot.Fsm.{process, idle, fsm_run}
use re_boot.Fsm.Nesting.{IsConsistent}
use re_boot.Fsm.Run.{
  logging, IsLogged, IsKnown, process-IsLogged, process-none, process-some, process_fails,
  run_event, run_empty,
}

same_length : {a b : List FsmEvent} → a ≡ b → length a ≡ length b
same_length e = ap (λ (t : List FsmEvent). length t) e

module _ (policy : Call → List Call → List FsmEvent)
    (quiet : (c : Call) (log : List Call) → policy c log ≡ []) where
  run_calls-queue :
      (calls : List Call) (fsm : Fsm (List Call))
      → (run_calls (logging policy) calls fsm).queue ≡ fsm.queue
  unfolding run_calls dispatch_all
  run_calls-queue [] fsm = refl
  run_calls-queue (c ∷ calls) fsm =
      let fsm' : Fsm (List Call) = record fsm { user = fsm.user ++ c ∷ [] } in
      ap
        (λ (events : List FsmEvent).
          (run_calls (logging policy) calls (dispatch_all fsm' events)).queue)
        (quiet c fsm.user)
      ∙ run_calls-queue calls fsm'

  -- The queue that an event leaves, whatever becomes of the event.
  abbrev Keeps : List FsmEvent → Option (Fsm (List Call)) → Type 0
  Keeps queue none = Unit
  Keeps queue (some fsm) = fsm.queue ≡ queue

  process-Keeps :
      (table : List Transition) (event : FsmEvent) (fsm : Fsm (List Call))
      → Keeps fsm.queue (process (logging policy) table event fsm)
  process-Keeps table event fsm = by_row (find_transition table fsm.current event) refl
    where
      by_calls :
          (t : Transition)
          → find_transition table fsm.current event ≡ some t
          → (made : Option (List Call)) → transition_calls fsm.current t event ≡ made
          → Keeps fsm.queue (process (logging policy) table event fsm)
      by_calls t e none e' = rw (process_fails (logging policy) table event fsm t e e') tt
      by_calls t e (some calls) e' =
          rw (process-some (logging policy) table event fsm t calls e e')
            (run_calls-queue calls fsm)

      by_row :
          (found : Option Transition)
          → find_transition table fsm.current event ≡ found
          → Keeps fsm.queue (process (logging policy) table event fsm)
      by_row none e = rw (process-none (logging policy) table event fsm e) refl
      by_row (some t) e = by_calls t e (transition_calls fsm.current t event) refl

  module _ (Known : State → Type 0)
      (consistent : (a b : State) → Known a → Known b → IsConsistent a b) (table : List Transition)
      (rows : All (IsKnown Known) table) (start : State) where
    -- If the handlers dispatch nothing, `fsm_run` on a table of known states of at most ten levels
    -- empties the queue in one round for each event and one more, and the exits and entries nest, from
    -- the initial state to the one that is then current.
    pub fsm_run-idle :
        (rounds : ℕ) (fsm : Fsm (List Call))
        → Known fsm.current
        → IsLogged start fsm
        → length fsm.queue < rounds
        → (fsm' : Fsm (List Call)) × (fsm_run (logging policy) table rounds fsm ≡ idle fsm')
          × IsLogged start fsm'
          × (fsm'.queue ≡ [])
    fsm_run-idle zero fsm k v enough = absurd (omega arith)
    fsm_run-idle (suc rounds) fsm k v enough =
        go fsm.queue refl (λ fsm' k' v' small. fsm_run-idle rounds fsm' k' v' small)
      where
        go :
            (queue : List FsmEvent)
            → fsm.queue ≡ queue
            → ((fsm' : Fsm (List Call))
                → Known fsm'.current
                → IsLogged start fsm'
                → length fsm'.queue < rounds
                → (fsm'' : Fsm (List Call)) × (fsm_run (logging policy) table rounds fsm'
                    ≡ idle fsm'')
                  × IsLogged start fsm''
                  × (fsm''.queue ≡ []))
            → (fsm' : Fsm (List Call)) × (fsm_run (logging policy) table (suc rounds) fsm
                ≡ idle fsm')
              × IsLogged start fsm'
              × (fsm'.queue ≡ [])
        go [] e later = (
          record fsm { queue = [] },
          run_empty Known consistent table rows policy start rounds fsm e,
          v,
          refl,
        )
        go (event ∷ queue) e later =
            let fsm0 : Fsm (List Call) = record fsm { queue = queue } in
            let (fsm', made, v', k') =
              process-IsLogged Known consistent table rows policy start event fsm0 k v in
            let kept : fsm'.queue ≡ queue =
              subst (Keeps queue) made (process-Keeps table event fsm0) in
            let (fsm'', run, v'', done) =
              later fsm' k' v' (omega (arith, same_length kept, same_length e)) in
            (
              fsm'',
              run_event Known consistent table rows policy start rounds fsm fsm' event queue e made
                  ∙ run,
              v'',
              done,
            )

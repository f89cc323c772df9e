-- ===== src/Session/Sends.antt =====
-- A segment or the end of its sector, as a round of the machine comes to rest behind it.
use re_boot.Base.{ℕ, suc, ◌≡◌, inl, inr, refl, sym, ◌∙◌, some, [], ◌∷◌}
use mathlib.Core.Path.{subst}
use re_boot.Fsm.{Ran, idle, fsm_run, find_transition}
use re_boot.Session.{Context, event_of}
use re_boot.Session.Loop.{handler, fsm_table, run_action, st_send_window, st_verify}
use re_boot.Session.Rounds.{machine, fire, rest}
use re_boot.Session.Actions.{IsOk, Ready}
use re_boot.Session.Progress.{
  IsPaced, Same, Moved, Ended, act_send_window-Moved, act_crc_verify-Ended,
}

pub IsPaced-IsOk : (node : ℕ) (c : Context) → IsPaced node c → IsOk node c
unfolding Ready
IsPaced-IsOk node c paced = paced.ready.0

module _ (node driver : ℕ) where
  -- What the loop does behind a run that rests in the window or in the verification.
  pub after_send :
      (x kind rounds : ℕ) (c : Context) (P : Ran Context → Type 0)
      → find_transition fsm_table (x ∷ []) (event_of kind)
        ≡ some (record { from = x ∷ []; event = kind; to = st_send_window; action = some 3 })
      → IsPaced node c
      → ((c' : Context) → Moved node c c' → P (idle (machine st_send_window c' [])))
      → ((c' : Context) → Ended node c c' → P (idle (machine st_verify c' [])))
      → P (
          fsm_run
            (handler driver)
            fsm_table
            (suc (suc (suc rounds)))
            (machine (x ∷ []) c (event_of kind ∷ [])))
  unfolding find_transition run_action IsOk Ended Same
  after_send x kind rounds c P found paced moved ended = elim (act_send_window-Moved node c paced) [
    | inl (c', sent, m) ↦
        subst P
          (sym (
            fire driver (suc (suc rounds)) 3 x 3 kind (event_of kind) c [] (c', []) found
              (IsPaced-IsOk node c paced).0 sent
            ∙ rest driver (suc rounds) st_send_window c'))
          (moved c' m)
    | inr (c', sent, e) ↦
        let (c'', verified, e') = act_crc_verify-Ended node c' e.0 in
        subst P
          (sym (
            fire driver (suc (suc rounds)) 3 x 3 kind (event_of kind) c [] (c', event_of 4 ∷ [])
              found (IsPaced-IsOk node c paced).0 sent
            ∙ fire driver (suc rounds) 4 3 4 4 (event_of 4) c' [] (c'', []) refl
                (IsPaced-IsOk node c' e.0).0 verified
            ∙ rest driver rounds st_verify c''))
          (ended c'' (e'.0, (e'.1.0 ∙ e.1.0, e'.1.1 ∙ e.1.1, e'.1.2 ∙ e.1.2)))
  ]

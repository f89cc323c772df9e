-- ===== src/Session/Liveness.antt =====
-- A target that answers brings a session to its end: rounds of the loop of init/main.c, one by one.
use re_boot.Base.{
  ℕ, zero, suc, ◌+◌, ◌%◌, ◌≤◌, ◌≡◌, inl, inr, refl, sym, ap, ◌∙◌, arith, ◌==◌, true, false, [], ◌∷◌,
  ◌++◌, length,
}
use mathlib.Core.Path.{subst}
use re_boot.Transport.{Packet}
use re_boot.Fsm.{FsmEvent, Fsm, Ran, idle, fsm_run, find_transition}
use re_boot.Session.{Context, event_of, act_send_reset, act_app_jump}
use re_boot.Session.Loop.{
  handler, fsm_table, run_action, command_event, session_round, session_start, st_send_reset,
  st_send_window, st_verify, st_app_jump, st_done,
}
use re_boot.Session.Rounds.{machine, fire, rest}
use re_boot.Session.Actions.{Leaves, IsOk, Ready, Loaded, Sized, Written, Stopped, act_done-Leaves}
use re_boot.Session.Progress.{
  IsPaced, Same, Moved, Ended, Next, Complete, act_next_sector-Next, act_build_pipeline-IsPaced,
}
use re_boot.Session.Accepted.{IsAccepted, Stored, act_target_info-Stored}
use re_boot.Session.Sends.{IsPaced-IsOk, after_send}
use re_boot.Session.Target.{
  signal_info, reset_first, answer, IsPlain, Finishes, Finishes-session_round, Finishes-done,
  session_round-response,
}

module _ (node driver : ℕ) (pkt : Packet) (plain : IsPlain node) where
  -- A machine whose round comes to this finishes.
  Leads : Ran Context → Type 0
  Leads r =
      (fsm : Fsm Context)
      → fsm.user.fsm_running ≡ true
      → session_round driver (answer pkt fsm.current) fsm ≡ r
      → Finishes driver pkt fsm

  Leads-idle : (fsm : Fsm Context) → Finishes driver pkt fsm → Leads (idle fsm)
  unfolding Leads
  Leads-idle fsm finishes before on ran =
      Finishes-session_round driver pkt before fsm on ran finishes

  -- No other code is that of the node.
  other_code :
      (command : ℕ) (c : Context)
      → IsOk node c
      → (command == (0x30 + node) % 256) ≡ false
      → (command == (0x30 + c.node_id) % 256) ≡ false
  unfolding IsOk
  other_code command c ok other = ap (λ (n : ℕ). command == (0x30 + n) % 256) ok.1 ∙ other

  jump-Finishes : (c : Context) → Complete node c → Finishes driver pkt (machine st_app_jump c [])
  unfolding find_transition run_action command_event answer Complete Written IsOk IsPlain Stopped
      Leaves
  jump-Finishes c complete =
      let (c', left, stopped) = act_done-Leaves node c complete.0 in
      Finishes-session_round driver pkt (machine st_app_jump c []) (machine st_done c' [])
        complete.1
        (session_round-response driver 0x37 8 6 c _ (other_code 0x37 c complete.0.0 plain.2) refl (
          fire driver 6 8 6 7 8 (event_of 8) c [] (c', []) refl complete.0.0.0 left
          ∙ rest driver 5 st_done c'))
        (Finishes-done driver pkt c' stopped.1)

  -- One acknowledged segment.
  window_round :
      (c : Context)
      → IsPaced node c
      → ((c' : Context) → Moved node c c' → Finishes driver pkt (machine st_send_window c' []))
      → ((c' : Context) → Ended node c c' → Finishes driver pkt (machine st_verify c' []))
      → Finishes driver pkt (machine st_send_window c [])
  unfolding find_transition command_event answer IsPlain Leads
  window_round c paced moved ended =
      after_send node driver 3 3 4 c Leads refl paced
        (λ c' m. Leads-idle (machine st_send_window c' []) (moved c' m))
        (λ c' e. Leads-idle (machine st_verify c' []) (ended c' e)) (machine st_send_window c [])
        paced.on
        (session_round-response driver 0x31 3 3 c _
          (other_code 0x31 c (IsPaced-IsOk node c paced) plain.0) refl refl)

  -- A sector behind which no more than `left` are to be sent.
  Remaining : ℕ → Context → Type 0
  Remaining left c = length c.pipeline.sectors ≤ left + 1 + c.current_sector

  -- If its verification finishes, so does a sector that is sent, since its offset moves.
  window-Finishes :
      (left : ℕ)
      → ((c : Context)
          → IsPaced node c
          → Remaining left c
          → Finishes driver pkt (machine st_verify c []))
      → (bytes : ℕ) (c : Context) → IsPaced node c
      → Remaining left c
      → c.sector_size ≤ bytes + c.offset
      → Finishes driver pkt (machine st_send_window c [])
  unfolding Moved Ended Same Remaining
  window-Finishes left verified zero c paced few room =
      window_round c paced (λ c' (moved, same, on, inside). absurd (omega arith))
        (λ c' (ended, (sector, all, size)). verified c' ended (omega arith))
  window-Finishes left verified (suc bytes) c paced few room =
      window_round c paced
        (λ c' (moved, (sector, all, size), on, inside).
          window-Finishes left verified bytes c' moved (omega arith) (omega arith))
        (λ c' (ended, (sector, all, size)). verified c' ended (omega arith))

  -- A sector that is right is the last, or is followed by the next.
  verify_round :
      (c : Context)
      → IsPaced node c
      → ((c' : Context)
          → Next node c c'
          → ((c'' : Context)
              → Moved node c' c''
              → Finishes driver pkt (machine st_send_window c'' []))
            × ((c'' : Context)
                → Ended node c' c''
                → Finishes driver pkt (machine st_verify c'' [])))
      → Finishes driver pkt (machine st_verify c [])
  unfolding find_transition run_action act_app_jump command_event answer IsPlain Leads IsOk Complete
      Next Written
  verify_round c paced next =
      let heard =
        session_round-response driver 0x33 5 4 c
          (fsm_run (handler driver) fsm_table 7 (machine st_verify c (event_of 5 ∷ [])))
          (other_code 0x33 c (IsPaced-IsOk node c paced) plain.1) refl refl in
      elim (act_next_sector-Next node c paced) [
        | inl (c', left, complete) ↦
            Finishes-session_round driver pkt (machine st_verify c [])
              (machine st_app_jump (act_app_jump c').0 []) paced.on
              (heard
                ∙ fire driver 6 6 4 5 5 (event_of 5) c [] (c', event_of 7 ∷ []) refl
                    (IsPaced-IsOk node c paced).0 left
                ∙ fire driver 5 7 5 6 7 (event_of 7) c' [] ((act_app_jump c').0, []) refl
                    complete.0.0.0 refl
                ∙ rest driver 4 st_app_jump (act_app_jump c').0)
              (jump-Finishes (act_app_jump c').0 complete)
        | inr (c', left, n) ↦
            let (moved, ended) = next c' n in
            subst Leads
              (sym (
                fire driver 6 6 4 5 5 (event_of 5) c [] (c', event_of 1 ∷ []) refl
                  (IsPaced-IsOk node c paced).0 left))
              (after_send node driver 5 1 3 c' Leads refl n.0
                (λ c'' m. Leads-idle (machine st_send_window c'' []) (moved c'' m))
                (λ c'' e. Leads-idle (machine st_verify c'' []) (ended c'' e)))
              (machine st_verify c []) paced.on heard
      ]

  -- All sectors from one on are sent.
  verify-Finishes :
      (left : ℕ) (c : Context)
      → IsPaced node c
      → Remaining left c
      → Finishes driver pkt (machine st_verify c [])
  unfolding Remaining Next Ready Moved Ended Same
  verify-Finishes zero c paced few = verify_round c paced (λ c' (next, sector, all, size).
      let (ok, at, few', one, room) = next.ready in absurd (omega arith))
  verify-Finishes (suc left) c paced few = verify_round c paced (λ c' (next, sector, all, size). (
    λ c'' (moved, (sector', all', size'), on, inside).
        window-Finishes left (verify-Finishes left) c''.sector_size c'' moved (omega arith)
          (omega arith),
    λ c'' (ended, (sector', all', size')). verify-Finishes left c'' ended (omega arith),
  ))

  -- The machine that waits for the information, on a context that has the image's addresses.
  info-Finishes :
      (c c0 : Context)
      → IsAccepted driver c0 pkt
      → c0.node_id ≡ node
      → c.hex_base_address ≡ c0.hex_base_address
      → c.hex_end_address ≡ c0.hex_end_address
      → Loaded node c
      → c.fsm_running ≡ true
      → Finishes driver pkt (machine st_send_reset c [])
  unfolding find_transition run_action answer Leads Stored Sized Loaded IsOk Moved Ended Same
      Remaining Ready
  info-Finishes c c0 accepted same base end loaded on =
      let copied : Context = record c { copies = c.copies ++ pkt ∷ [] } in
      let e : FsmEvent = record { kind = 2; payload = length c.copies + 1 } in
      let (c1, taken, stored) =
        act_target_info-Stored node driver pkt c c0 accepted base end loaded on in
      let (c2, built, paced) = act_build_pipeline-IsPaced node c1 stored.0 stored.1 stored.2 in
      let left = length c2.pipeline.sectors in
      subst Leads
        (sym (
          signal_info driver pkt c
            (accepted.own ∙ ap (λ (n : ℕ). (0x30 + n) % 256) (same ∙ sym loaded.0.1))
          ∙ fire driver 6 1 1 2 2 e copied [] (c1, event_of 1 ∷ []) refl loaded.0.0 taken
          ∙ fire driver 5 2 2 3 1 (event_of 1) c1 [] (c2, event_of 1 ∷ []) refl stored.0.0.0.0
              built))
        (after_send node driver 3 1 2 c2 Leads refl paced
          (λ c3 (moved, (sector, all, size), on', inside).
            Leads-idle (machine st_send_window c3 []) (
              window-Finishes left (verify-Finishes left) c3.sector_size c3 moved (omega arith)
                (omega arith)))
          (λ c3 (ended, (sector, all, size)).
            Leads-idle (machine st_verify c3 []) (verify-Finishes left c3 ended (omega arith))))
        (machine st_send_reset c []) on refl

-- A file of at least one byte of data and fewer than 2^32, and a target that answers what the
-- machine waits for: its information once, in a packet of 8 bytes with the node's code, whose
-- flash address is not above the image's, which is not empty, with a sector size of 1 to 2^31 - 1
-- and a segment size, over CAN cut down to 4, of 1 to 60, and then an acknowledged segment, a
-- right sector and an acknowledged jump, none of which has the node's code: after some rounds the
-- loop of main ends, in the last state.
pub session_start-Finishes :
    (driver : ℕ) (pkt : Packet) (c : Context)
    → Loaded c.node_id c
    → IsAccepted driver c pkt
    → IsPlain c.node_id
    → Finishes driver pkt (session_start c)
unfolding answer session_start Loaded IsOk act_send_reset
session_start-Finishes driver pkt c loaded accepted plain =
    let started : Context = record c { fsm_running = true } in
    Finishes-session_round driver pkt (session_start c)
      (machine st_send_reset (act_send_reset started).0 []) refl (reset_first driver c loaded.0.0)
      (info-Finishes c.node_id driver pkt plain (act_send_reset started).0 c accepted refl refl refl
        loaded refl)

-- ===== src/Session/Safety.antt =====
-- The loop of `main` over the packets of a whole session.
use re_boot.Base.{
  ℕ, ◌≡◌, ◌⊎◌, inl, inr, refl, sym, ap, ◌∙◌, if◌then◌else◌, Bool, true, false, Option, List, [],
  ◌∷◌, Bool-cases, All, append-nil,
}
use mathlib.Core.Path.{subst}
use re_boot.Transport.{Packet}
use re_boot.Fsm.{State, FsmEvent, Fsm, Ran, idle, overflow, running, fsm_run, find_transition}
use re_boot.Session.{Context, event_of, act_send_reset}
use re_boot.Session.Loop.{
  fsm_table, run_action, handler, st_init, st_send_reset, next_round, session_round, session_start,
  session,
}
use re_boot.Session.Rounds.{machine, fire}
use re_boot.Session.Actions.{IsOk, Ready, Stopped, Loaded, Written}
use re_boot.Session.Phases.{Waiting, for_info, for_ack, for_crc, for_jump, Settles}
use re_boot.Session.Signals.{IsTrusted, Signalled, nothing, coded, info, signals, responds}

-- The machine rests with no event left, nothing undefined has happened, and the session has ended or
-- waits for the target with what that phase needs.
pub IsSound : ℕ → Ran Context → Type 0
IsSound node (idle fsm) =
    (fsm.queue ≡ []) × (Stopped node fsm.user ⊎ Waiting node fsm.current fsm.user)
IsSound node overflow = ⊥
IsSound node (running fsm) = ⊥

Waiting-node : (node : ℕ) (s : State) (c : Context) → Waiting node s c → c.node_id ≡ node
unfolding Loaded Ready Written IsOk
Waiting-node node s c (for_info h) = h.0.1
Waiting-node node s c (for_ack h) = h.0.1
Waiting-node node s c (for_crc h) = h.0.1
Waiting-node node s c (for_jump h) = h.0.1

round-Waiting :
    (node driver : ℕ) (pkt : Option Packet) (s : State) (c : Context)
    → Waiting node s c
    → IsTrusted node driver pkt
    → (s' : State) × (c' : Context) × (session_round driver pkt (machine s c [])
        ≡ idle (machine s' c' []))
      × (Stopped node c' ⊎ Waiting node s' c')
unfolding session_round Settles
round-Waiting node driver pkt s c w trusted =
    let own = subst (λ (n : ℕ). IsTrusted n driver pkt) (sym (Waiting-node node s c w)) trusted in
    let (c', events, signalled, kind) = signals driver pkt s c [] own in
    let (s'', c'', ran, h) = responds node driver 1 s c c' events kind w in
    (s'', c'', ap (fsm_run (handler driver) fsm_table 7) signalled ∙ ran, h)

-- The reset of the target does not depend on what the packet signals, and leaves it.
Signalled-reset :
    (driver : ℕ) (c c' : Context) (events : List FsmEvent)
    → Signalled driver c c' events
    → Signalled driver (act_send_reset c).0 (act_send_reset c').0 events
unfolding act_send_reset
Signalled-reset driver c c' events nothing = nothing
Signalled-reset driver c c' events (coded kind known) = coded kind known
Signalled-reset driver c c' events (info pkt sane) = info pkt sane

Signalled-fault :
    (driver : ℕ) (c c' : Context) (events : List FsmEvent)
    → Signalled driver c c' events
    → c.fault ≡ false
    → c'.fault ≡ false
Signalled-fault driver c c' events nothing h = h
Signalled-fault driver c c' events (coded kind known) h = h
Signalled-fault driver c c' events (info pkt sane) h = h

reset_round :
    (node driver : ℕ) (c c' : Context) (events : List FsmEvent)
    → Loaded node c
    → Signalled driver c c' events
    → Settles node driver 7 (machine st_init c' (event_of 1 ∷ events))
unfolding Settles find_transition run_action Loaded IsOk act_send_reset
reset_round node driver c c' events loaded kind =
    let (s, c'', ran, h) =
      responds node driver 0 st_send_reset (act_send_reset c).0 (act_send_reset c').0 events
        (Signalled-reset driver c c' events kind) (for_info loaded) in
    (
      s,
      c'',
      fire driver 6 0 0 1 1 (event_of 1) c' events ((act_send_reset c').0, []) refl
            (Signalled-fault driver c c' events kind loaded.0.0) refl
          ∙ ap
              (λ (q : List FsmEvent).
                fsm_run (handler driver) fsm_table 6
                  (machine st_send_reset (act_send_reset c').0 q))
              (append-nil events)
          ∙ ran,
      h,
    )

round_start :
    (driver : ℕ) (pkt : Option Packet) (c : Context)
    → Loaded c.node_id c
    → IsTrusted c.node_id driver pkt
    → (s : State) × (c' : Context) × (session_round driver pkt (session_start c)
        ≡ idle (machine s c' []))
      × (Stopped c.node_id c' ⊎ Waiting c.node_id s c')
unfolding session_round session_start Settles Loaded IsOk
round_start driver pkt c loaded trusted =
    let started : Context = record c { fsm_running = true } in
    let (c', events, signalled, kind) =
      signals driver pkt st_init started (event_of 1 ∷ []) trusted in
    let (s, c'', ran, h) = reset_round c.node_id driver started c' events loaded kind in
    (s, c'', ap (fsm_run (handler driver) fsm_table 7) signalled ∙ ran, h)

taken : {A : Type 0} (b : Bool) (x y : A) → b ≡ true → (if b then x else y) ≡ x
taken b x y h = rw h refl

passed : {A : Type 0} (b : Bool) (x y : A) → b ≡ false → (if b then x else y) ≡ y
passed b x y h = rw h refl

session_off :
    (driver : ℕ) (pkts : List (Option Packet)) (fsm : Fsm Context)
    → fsm.user.fsm_running ≡ false
    → session driver pkts fsm ≡ idle fsm
unfolding session
session_off driver [] fsm off = refl
session_off driver (pkt ∷ pkts) fsm off = passed fsm.user.fsm_running _ (idle fsm) off

session_on :
    (driver : ℕ) (pkt : Option Packet) (pkts : List (Option Packet)) (fsm fsm' : Fsm Context)
    → fsm.user.fsm_running ≡ true
    → session_round driver pkt fsm ≡ idle fsm'
    → session driver (pkt ∷ pkts) fsm ≡ session driver pkts fsm'
unfolding session next_round
session_on driver pkt pkts fsm fsm' on ran =
    taken fsm.user.fsm_running _ (idle fsm) on
    ∙ ap (λ (r : Ran Context). next_round r (session driver pkts)) ran

session_from :
    (node driver : ℕ) (pkts : List (Option Packet)) (s : State) (c : Context)
    → Stopped node c ⊎ Waiting node s c
    → All (IsTrusted node driver) pkts
    → IsSound node (session driver pkts (machine s c []))
unfolding session IsSound Stopped
session_from node driver [] s c h trusted = (refl, h)
session_from node driver (pkt ∷ pkts) s c (inl stopped) trusted =
    subst (IsSound node) (sym (session_off driver (pkt ∷ pkts) (machine s c []) stopped.1))
      (refl, inl stopped)
session_from node driver (pkt ∷ pkts) s c (inr w) (first, trusted) =
    elim (Bool-cases c.fsm_running) [
      | inl on ↦
          let (s', c', ran, h) = round-Waiting node driver pkt s c w first in
          subst (IsSound node)
            (sym (session_on driver pkt pkts (machine s c []) (machine s' c' []) on ran))
            (session_from node driver pkts s' c' h trusted)
      | inr off ↦
          subst (IsSound node) (sym (session_off driver (pkt ∷ pkts) (machine s c []) off))
            (refl, inr w)
    ]

-- A file of at least one byte of data and fewer than 2^32, a target of any node, and the packets
-- that the rounds of the loop of main find, of which those with the node's code report a sector
-- size of 1 at least and a segment size, over CAN cut down to 4, of 1 to 60: the session never
-- divides by zero or leaves an array, every call of fsm_run comes back, and behind each the
-- machine has ended or rests in one of the four states that wait, with what the next packet needs
-- there.
pub session-IsSound :
    (driver : ℕ) (pkt : Option Packet) (pkts : List (Option Packet)) (c : Context)
    → Loaded c.node_id c
    → All (IsTrusted c.node_id driver) (pkt ∷ pkts)
    → IsSound c.node_id (session driver (pkt ∷ pkts) (session_start c))
unfolding session_start
session-IsSound driver pkt pkts c loaded (first, trusted) =
    let (s, c', ran, h) = round_start driver pkt c loaded first in
    subst (IsSound c.node_id)
      (sym (session_on driver pkt pkts (session_start c) (machine s c' []) refl ran))
      (session_from c.node_id driver pkts s c' h trusted)

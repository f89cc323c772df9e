-- ===== src/Session/Loop.antt =====
-- init/fsm_table.c, `act_fsm_signal_generation` of init/fsm_actions.c and the loop of init/main.c: a
-- session with the target, on the state machine of Fsm.
use re_boot.Base.{
  ℕ, ◌+◌, ◌%◌, ◌==◌, if◌then◌else◌, true, Option, none, some, List, [], ◌∷◌, ◌++◌, length,
}
use re_boot.Transport.{Packet}
use re_boot.Fsm.{
  State, FsmEvent, Transition, exit, act, entry, Fsm, Handler, Ran, idle, overflow, running,
  fsm_dispatch, fsm_run,
}
use re_boot.Session.{
  Context, Effect, event_of, act_send_reset, act_target_info, act_build_pipeline, act_send_window,
  act_crc_verify, act_crc_nack, act_next_sector, act_app_jump, act_done,
}

-- The states of `state_id_t`, which have no parents and no handlers.
abbrev pub st_init : State
st_init = 0 ∷ []

abbrev pub st_send_reset : State
st_send_reset = 1 ∷ []

abbrev pub st_build_pipe : State
st_build_pipe = 2 ∷ []

abbrev pub st_send_window : State
st_send_window = 3 ∷ []

abbrev pub st_verify : State
st_verify = 4 ∷ []

abbrev pub st_next_sector : State
st_next_sector = 5 ∷ []

abbrev pub st_app_jump : State
st_app_jump = 6 ∷ []

abbrev pub st_done : State
st_done = 7 ∷ []

abbrev row : State → ℕ → State → ℕ → Transition
row from event to action = record { from = from; event = event; to = to; action = some action }

-- The actions are numbered as `run_action` has them.
abbrev pub fsm_table : List Transition
fsm_table =
    row st_init 1 st_send_reset 0
    ∷ row st_send_reset 2 st_build_pipe 1
    ∷ row st_build_pipe 1 st_send_window 2
    ∷ row st_send_window 1 st_send_window 3
    ∷ row st_send_window 3 st_send_window 3
    ∷ row st_send_window 4 st_verify 4
    ∷ row st_verify 5 st_next_sector 6
    ∷ row st_verify 6 st_send_window 5
    ∷ row st_next_sector 1 st_send_window 3
    ∷ row st_next_sector 7 st_app_jump 7
    ∷ row st_app_jump 8 st_done 8
    ∷ []

unfoldable pub run_action : ℕ → ℕ → FsmEvent → Context → Effect
run_action driver n e c =
    if n == 0
    then act_send_reset c
    else if n == 1
    then act_target_info driver e c
    else if n == 2
    then act_build_pipeline c
    else if n == 3
    then act_send_window c
    else if n == 4
    then act_crc_verify c
    else if n == 5
    then act_crc_nack c
    else if n == 6
    then act_next_sector c
    else if n == 7
    then act_app_jump c
    else act_done c

-- Behind a fault nothing is said of what happens.
unfoldable pub handler : ℕ → Handler Context
handler driver (exit s) c = (c, [])
handler driver (entry s) c = (c, [])
handler driver (act none e) c = (c, [])
handler driver (act (some n) e) c = if c.fault then (c, []) else run_action driver n e c

-- The event of a command that has a fixed code.
unfoldable pub command_event : ℕ → Option ℕ
command_event cmd =
    if cmd == 0x31
    then some 3
    else if cmd == 0x33
    then some 5
    else if cmd == 0x34
    then some 6
    else if cmd == 0x37
    then some 8
    else none

-- `act_fsm_signal_generation`, where the queue of packets has one or none.
unfoldable pub signal_generation : Option Packet → Fsm Context → Fsm Context
unfolding command_event
signal_generation none fsm = fsm
signal_generation (some pkt) fsm =
    if pkt.command == (0x30 + fsm.user.node_id) % 256
    then fsm_dispatch
        (record fsm { user = record fsm.user { copies = fsm.user.copies ++ pkt ∷ [] } })
        (record { kind = 2; payload = length fsm.user.copies + 1 })
    else elim (command_event pkt.command) [
      | none ↦ fsm
      | some kind ↦ fsm_dispatch fsm (event_of kind)
    ]

-- The body of the loop of `main`; the events of one packet are done after six rounds.
unfoldable pub session_round : ℕ → Option Packet → Fsm Context → Ran Context
unfolding handler signal_generation
session_round driver pkt fsm = fsm_run (handler driver) fsm_table 7 (signal_generation pkt fsm)

-- The machine before the loop: it runs, and the first event waits.
unfoldable pub session_start : Context → Fsm Context
session_start c = record {
  current = st_init;
  user = record c { fsm_running = true };
  queue = event_of 1 ∷ [];
}

-- What follows a round that has ended.
unfoldable pub next_round : Ran Context → (Fsm Context → Ran Context) → Ran Context
next_round (idle fsm) go = go fsm
next_round overflow go = overflow
next_round (running fsm) go = running fsm

-- The loop of `main`, with what each round finds in the queue of packets; it may also end with the
-- list, on an interrupt.
unfoldable pub session : ℕ → List (Option Packet) → Fsm Context → Ran Context
unfolding session_round next_round
session driver [] fsm = idle fsm
session driver (pkt ∷ pkts) fsm =
    if fsm.user.fsm_running
    then next_round (session_round driver pkt fsm) (session driver pkts)
    else idle fsm

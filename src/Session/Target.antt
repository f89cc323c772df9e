-- ===== src/Session/Target.antt =====
-- A target that answers what it is sent, and the loop of init/main.c with it.
use re_boot.Base.{
  arith, length, ◌++◌, ℕ, zero, suc, ◌+◌, ◌%◌, ◌≡◌, refl, ap, ◌∙◌, ◌==◌, if◌then◌else◌, Bool, true,
  false, Option, none, some, [], ◌∷◌,
}
use re_boot.Transport.{Packet}
use re_boot.Fsm.{State, Fsm, Ran, idle, running, fsm_dispatch, fsm_run, find_transition}
use re_boot.Session.{Context, event_of, act_send_reset}
use re_boot.Session.Loop.{
  handler, fsm_table, command_event, signal_generation, session_round, session_start, run_action,
  st_send_reset, next_round, st_done,
}
use re_boot.Session.Rounds.{machine, fire, rest}

abbrev response : ℕ → Packet
response command = record { command = command; len = 0; bytes = [] }

-- What the target answers where the machine rests: its information, an acknowledged segment, a sector
-- that is right, an acknowledged jump.
unfoldable pub answer : Packet → State → Option Packet
answer pkt [] = none
answer pkt (s ∷ up) =
    if s == 1
    then some pkt
    else if s == 3
    then some (response 0x31)
    else if s == 4
    then some (response 0x33)
    else if s == 6
    then some (response 0x37)
    else none

-- At most so many rounds of the loop with such a target.
pub serve : ℕ → Packet → ℕ → Fsm Context → Ran Context
unfolding answer
serve driver pkt zero fsm = running fsm
serve driver pkt (suc rounds) fsm =
    let rest = serve driver pkt rounds in
    if fsm.user.fsm_running
    then next_round (session_round driver (answer pkt fsm.current) fsm) rest
    else idle fsm

-- No answer has the code of the node's information.
unfoldable pub IsPlain : ℕ → Type 0
IsPlain node =
    ((0x31 == (0x30 + node) % 256) ≡ false)
    × ((0x33 == (0x30 + node) % 256) ≡ false)
    × ((0x37 == (0x30 + node) % 256) ≡ false)

-- The loop comes to its end in the last state.
unfoldable pub Finishes : ℕ → Packet → Fsm Context → Type 0
Finishes driver pkt fsm =
    (rounds : ℕ) × (c : Context) × (serve driver pkt rounds fsm ≡ idle (machine st_done c []))
    × (c.fsm_running ≡ false)

passed : {A : Type 0} (b : Bool) (x y : A) → b ≡ false → (if b then x else y) ≡ y
passed b x y h = rw h refl

chosen : {A : Type 0} (b : Bool) (x y : A) → b ≡ true → (if b then x else y) ≡ x
chosen b x y h = rw h refl

-- One round, and then the rest.
pub Finishes-session_round :
    (driver : ℕ) (pkt : Packet) (fsm fsm' : Fsm Context)
    → fsm.user.fsm_running ≡ true
    → session_round driver (answer pkt fsm.current) fsm ≡ idle fsm'
    → Finishes driver pkt fsm'
    → Finishes driver pkt fsm
unfolding Finishes serve next_round
Finishes-session_round driver pkt fsm fsm' on ran (rounds, c, done, off) = (
  suc rounds,
  c,
  chosen fsm.user.fsm_running _ (idle fsm) on
      ∙ ap (λ (r : Ran Context). next_round r (serve driver pkt rounds)) ran
      ∙ done,
  off,
)

pub Finishes-done :
    (driver : ℕ) (pkt : Packet) (c : Context)
    → c.fsm_running ≡ false
    → Finishes driver pkt (machine st_done c [])
unfolding Finishes serve
Finishes-done driver pkt c off =
    (1, c, passed c.fsm_running _ (idle (machine st_done c [])) off, off)

signal_code :
    (command kind x : ℕ) (c : Context)
    → (command == (0x30 + c.node_id) % 256) ≡ false
    → command_event command ≡ some kind
    → signal_generation (some (response command)) (machine (x ∷ []) c [])
      ≡ machine (x ∷ []) c (event_of kind ∷ [])
unfolding signal_generation fsm_dispatch
signal_code command kind x c other code = rw other (rw code refl)

-- A round in which the target answers with a command that has a fixed code.
pub session_round-response :
    (driver command kind x : ℕ) (c : Context) (r : Ran Context)
    → (command == (0x30 + c.node_id) % 256) ≡ false
    → command_event command ≡ some kind
    → fsm_run (handler driver) fsm_table 7 (machine (x ∷ []) c (event_of kind ∷ [])) ≡ r
    → session_round driver (some (response command)) (machine (x ∷ []) c []) ≡ r
unfolding session_round
session_round-response driver command kind x c r other code ran =
    ap (fsm_run (handler driver) fsm_table 7) (signal_code command kind x c other code) ∙ ran

-- The round that has the information.
pub signal_info :
    (driver : ℕ) (pkt : Packet) (c : Context)
    → pkt.command ≡ (0x30 + c.node_id) % 256
    → session_round driver (some pkt) (machine st_send_reset c [])
      ≡ fsm_run (handler driver) fsm_table 7 (
          machine st_send_reset
            (record c { copies = c.copies ++ pkt ∷ [] })
            (record { kind = 2; payload = length c.copies + 1 } ∷ []))
unfolding session_round signal_generation fsm_dispatch
signal_info driver pkt c own =
    let hit : (pkt.command == (0x30 + c.node_id) % 256) ≡ true = ground (arith, own) in rw hit refl

-- The first round, in which there is no packet yet.
pub reset_first :
    (driver : ℕ) (c : Context)
    → c.fault ≡ false
    → session_round driver none (session_start c)
      ≡ idle (machine st_send_reset (act_send_reset (record c { fsm_running = true })).0 [])
unfolding session_round signal_generation session_start find_transition run_action act_send_reset
reset_first driver c ok =
    let started : Context = record c { fsm_running = true } in
    fire driver 6 0 0 1 1 (event_of 1) started [] ((act_send_reset started).0, []) refl ok refl
    ∙ rest driver 5 st_send_reset (act_send_reset started).0

-- ===== src/Session/Deaf.antt =====
-- `act_fsm_signal_generation` for a node whose information has the code of an acknowledged segment.
use re_boot.Base.{
  ℕ, ◌+◌, ◌%◌, ◌≡◌, ◌≢◌, inl, inr, sym, ap, ◌∙◌, arith, ◌==◌, false, Option, none, some, Bool-cases,
  Option-cases, All, All-append,
}
use re_boot.Transport.{Packet}
use re_boot.Fsm.{FsmEvent, Fsm, fsm_dispatch}
use re_boot.Session.{Context}
use re_boot.Session.Loop.{command_event, signal_generation}

-- An event other than EVT_SEG_ACK.
unfoldable pub NoAck : FsmEvent → Type 0
NoAck e = e.kind ≢ 3

command_event_other :
    (command kind : ℕ) → (command == 0x31) ≡ false → command_event command ≡ some kind → kind ≢ 3
unfolding command_event
command_event_other command kind other code is = ground arith

-- For a node whose information has the code of an acknowledged segment, no packet makes an event that
-- acknowledges a segment.
pub signal_generation-NoAck :
    (pkt : Option Packet) (fsm : Fsm Context)
    → (0x30 + fsm.user.node_id) % 256 ≡ 0x31
    → All NoAck fsm.queue
    → All NoAck (signal_generation pkt fsm).queue
unfolding signal_generation fsm_dispatch NoAck
signal_generation-NoAck none fsm same before = before
signal_generation-NoAck (some pkt) fsm same before =
    elim (Bool-cases (pkt.command == (0x30 + fsm.user.node_id) % 256)) [
      | inl own ↦ rw own (All-append NoAck fsm.queue _ before ((λ is. omega arith), tt))
      | inr other ↦ elim (Option-cases (command_event pkt.command)) [
        | inl silent ↦ rw (other, silent) before
        | inr (kind, code) ↦
            rw (other, code)
              (All-append NoAck fsm.queue _ before (
                command_event_other pkt.command kind
                    (ap (λ (n : ℕ). pkt.command == n) (sym same) ∙ other) code,
                tt,
              ))
      ]
    ]

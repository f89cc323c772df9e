-- ===== src/Session/Signals.antt =====
-- What a packet signals to the state machine, and what that does in each phase of a session.
use re_boot.Base.{
  ℕ, suc, ◌+◌, ◌%◌, ◌≡◌, ◌⊎◌, inl, inr, refl, sym, ap, ◌==◌, Bool, true, false, Option, none, some,
  List, [], ◌∷◌, ◌++◌, length, Bool-cases, append-nil,
}
use re_boot.Transport.{Packet}
use re_boot.Fsm.{State, FsmEvent, fsm_dispatch, find_transition}
use re_boot.Session.{Context, event_of}
use re_boot.Session.Loop.{command_event, signal_generation}
use re_boot.Session.Rounds.{machine}
use re_boot.Session.Actions.{IsOk, Ready, Written, IsSane}
use re_boot.Session.Phases.{
  Waiting, for_info, for_ack, for_crc, for_jump, Settles, resting, skips, sends, informs, rejects,
  confirms, finishes,
}

-- The packet of the target, if there is one, is not its information, or that makes sense.
unfoldable pub IsTrusted : ℕ → ℕ → Option Packet → Type 0
IsTrusted node driver none = Unit
IsTrusted node driver (some pkt) =
    ((pkt.command == (0x30 + node) % 256) ≡ false) ⊎ IsSane driver pkt

-- The events of the commands that have a fixed code.
pub data IsCode : ℕ → Type 0 where
  taken : IsCode 3
  confirmed : IsCode 5
  rejected : IsCode 6
  jumped : IsCode 8

-- What a packet adds to the context, and to the queue of events.
pub data Signalled (driver : ℕ) (c : Context) : Context → List FsmEvent → Type 0 where
  nothing : Signalled driver c c []
  coded : (kind : ℕ) → IsCode kind → Signalled driver c c (event_of kind ∷ [])
  info :
      (pkt : Packet)
      → IsSane driver pkt
      → Signalled driver c
          (record c { copies = c.copies ++ pkt ∷ [] })
          (record { kind = 2; payload = length c.copies + 1 } ∷ [])

command_event_cases :
    (cmd : ℕ)
    → (command_event cmd ≡ none) ⊎ ((kind : ℕ) × (command_event cmd ≡ some kind) × IsCode kind)
unfolding command_event
command_event_cases cmd = elim (Bool-cases (cmd == 0x31)) [
  | inl a ↦ inr (3, rw (a, command_event) refl, taken)
  | inr a ↦ elim (Bool-cases (cmd == 0x33)) [
    | inl b ↦ inr (5, rw (a, b) refl, confirmed)
    | inr b ↦ elim (Bool-cases (cmd == 0x34)) [
      | inl d ↦ inr (6, rw (a, b, d) refl, rejected)
      | inr d ↦ elim (Bool-cases (cmd == 0x37)) [
        | inl f ↦ inr (8, rw (a, b, d, f) refl, jumped)
        | inr f ↦ inl (rw (a, b, d, f) refl)
      ]
    ]
  ]
]

informed :
    (driver : ℕ) (pkt : Packet) (same : Bool)
    → same ≡ true
    → (same ≡ false) ⊎ IsSane driver pkt
    → IsSane driver pkt
informed driver pkt same own (inl other) = cc
informed driver pkt same own (inr sane) = sane

pub signals :
    (driver : ℕ) (pkt : Option Packet) (s : State) (c : Context) (queue : List FsmEvent)
    → IsTrusted c.node_id driver pkt
    → (c' : Context) × (events : List FsmEvent) × (signal_generation pkt (machine s c queue)
        ≡ machine s c' (queue ++ events))
      × Signalled driver c c' events
unfolding signal_generation fsm_dispatch IsTrusted
signals driver none s c queue trusted = (c, [], ap (machine s c) (sym (append-nil queue)), nothing)
signals driver (some pkt) s c queue trusted =
    elim (Bool-cases (pkt.command == (0x30 + c.node_id) % 256)) [
      | inl own ↦ (
        _,
        _,
        rw own refl,
        info pkt (informed driver pkt (pkt.command == (0x30 + c.node_id) % 256) own trusted),
      )
      | inr other ↦ elim (command_event_cases pkt.command) [
        | inl silent ↦
            (c, [], rw (other, silent) (ap (machine s c) (sym (append-nil queue))), nothing)
        | inr (kind, code, known) ↦ (c, _, rw (other, code) refl, coded kind known)
      ]
    ]

-- Rounds that are enough, and more.
abbrev pub six_and : ℕ → ℕ
six_and rounds = suc (suc (suc (suc (suc (suc rounds)))))

-- What the machine does with what a packet adds, in each phase.
heard :
    (node driver rounds : ℕ) (s : State) (c : Context) (kind : ℕ)
    → IsCode kind
    → Waiting node s c
    → Settles node driver (six_and rounds) (machine s c (event_of kind ∷ []))
unfolding find_transition
heard node driver rounds s c kind taken (for_info h) =
    skips node driver _ 1 (event_of 3) c refl (inr (for_info h))
heard node driver rounds s c kind confirmed (for_info h) =
    skips node driver _ 1 (event_of 5) c refl (inr (for_info h))
heard node driver rounds s c kind rejected (for_info h) =
    skips node driver _ 1 (event_of 6) c refl (inr (for_info h))
heard node driver rounds s c kind jumped (for_info h) =
    skips node driver _ 1 (event_of 8) c refl (inr (for_info h))
heard node driver rounds s c kind taken (for_ack h) = sends node driver _ 3 3 c refl h
heard node driver rounds s c kind confirmed (for_ack h) =
    skips node driver _ 3 (event_of 5) c refl (inr (for_ack h))
heard node driver rounds s c kind rejected (for_ack h) =
    skips node driver _ 3 (event_of 6) c refl (inr (for_ack h))
heard node driver rounds s c kind jumped (for_ack h) =
    skips node driver _ 3 (event_of 8) c refl (inr (for_ack h))
heard node driver rounds s c kind taken (for_crc h) =
    skips node driver _ 4 (event_of 3) c refl (inr (for_crc h))
heard node driver rounds s c kind confirmed (for_crc h) = confirms node driver _ c h
heard node driver rounds s c kind rejected (for_crc h) = rejects node driver _ c h
heard node driver rounds s c kind jumped (for_crc h) =
    skips node driver _ 4 (event_of 8) c refl (inr (for_crc h))
heard node driver rounds s c kind taken (for_jump h) =
    skips node driver _ 6 (event_of 3) c refl (inr (for_jump h))
heard node driver rounds s c kind confirmed (for_jump h) =
    skips node driver _ 6 (event_of 5) c refl (inr (for_jump h))
heard node driver rounds s c kind rejected (for_jump h) =
    skips node driver _ 6 (event_of 6) c refl (inr (for_jump h))
heard node driver rounds s c kind jumped (for_jump h) = finishes node driver _ c h

-- A copy that is not looked at changes nothing that the phases need.
told :
    (node driver rounds : ℕ) (s : State) (c : Context) (pkt : Packet)
    → IsSane driver pkt
    → Waiting node s c
    → let copied : Context = record c { copies = c.copies ++ pkt ∷ [] } in
      Settles node driver
        (six_and rounds)
        (machine s copied (record { kind = 2; payload = length c.copies + 1 } ∷ []))
unfolding find_transition Ready Written IsOk
told node driver rounds s c pkt sane (for_info h) = informs node driver _ pkt c sane h
told node driver rounds s c pkt sane (for_ack h) = skips node driver _ 3 _ _ refl (inr (for_ack h))
told node driver rounds s c pkt sane (for_crc h) = skips node driver _ 4 _ _ refl (inr (for_crc h))
told node driver rounds s c pkt sane (for_jump h) =
    skips node driver _ 6 _ _ refl (inr (for_jump h))

pub responds :
    (node driver rounds : ℕ) (s : State) (c c' : Context) (events : List FsmEvent)
    → Signalled driver c c' events
    → Waiting node s c
    → Settles node driver (six_and rounds) (machine s c' events)
responds node driver rounds s c c' events nothing w = resting node driver _ s c (inr w)
responds node driver rounds s c c' events (coded kind known) w =
    heard node driver rounds s c kind known w
responds node driver rounds s c c' events (info pkt sane) w = told node driver rounds s c pkt sane w

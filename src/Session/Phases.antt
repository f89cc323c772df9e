-- ===== src/Session/Phases.antt =====
-- The phases of a session: where the machine rests between two packets, and what each event does there.
use re_boot.Base.{
  ℕ, suc, ◌+◌, ◌≡◌, ◌⊎◌, inl, inr, refl, ◌∙◌, false, none, some, List, [], ◌∷◌, ◌++◌, length,
}
use re_boot.Transport.{Packet}
use re_boot.Fsm.{State, FsmEvent, Fsm, idle, fsm_run, find_transition}
use re_boot.Session.{Context, event_of}
use re_boot.Session.Loop.{
  fsm_table, run_action, handler, st_send_reset, st_build_pipe, st_send_window, st_verify,
  st_app_jump, st_done,
}
use re_boot.Session.Rounds.{machine, fire, ignore, rest}
use re_boot.Session.Actions.{
  Leaves, IsOk, Ready, Stopped, Loaded, Sized, Written, IsSane, act_send_window-Leaves,
  act_crc_verify-Leaves, act_crc_nack-Leaves, act_next_sector-Leaves, act_build_pipeline-Leaves,
  act_app_jump-Leaves, act_done-Leaves, act_target_info-Leaves,
}

-- Where a session that goes on rests, and what holds there.
pub data Waiting (node : ℕ) : State → Context → Type 0 where
  for_info : {c : Context} → Loaded node c → Waiting node st_send_reset c
  for_ack : {c : Context} → Ready node c → Waiting node st_send_window c
  for_crc : {c : Context} → Ready node c → Waiting node st_verify c
  for_jump : {c : Context} → Written node c → Waiting node st_app_jump c

-- The machine comes to rest within the rounds, with the session ended or waiting.
unfoldable pub Settles : ℕ → ℕ → ℕ → Fsm Context → Type 0
Settles node driver rounds fsm =
    (s : State) × (c : Context) × (fsm_run (handler driver) fsm_table rounds fsm
      ≡ idle (machine s c []))
    × (Stopped node c ⊎ Waiting node s c)

pub resting :
    (node driver rounds : ℕ) (s : State) (c : Context)
    → Stopped node c ⊎ Waiting node s c
    → Settles node driver (suc rounds) (machine s c [])
unfolding Settles
resting node driver rounds s c h = (s, c, rest driver rounds s c, h)

after :
    (node driver rounds rounds' : ℕ) (fsm fsm' : Fsm Context)
    → fsm_run (handler driver) fsm_table rounds fsm
      ≡ fsm_run (handler driver) fsm_table rounds' fsm'
    → Settles node driver rounds' fsm'
    → Settles node driver rounds fsm
unfolding Settles
after node driver rounds rounds' fsm fsm' step (s, c, ran, h) = (s, c, step ∙ ran, h)

-- One event of the table, and then the rest of the round.
pub acts :
    (node driver rounds n x y kind : ℕ) (e : FsmEvent) (c : Context) (queue : List FsmEvent)
    (P : Context → Type 0) (events : List FsmEvent)
    → c.fault ≡ false
    → find_transition fsm_table (x ∷ []) e
      ≡ some (record { from = x ∷ []; event = kind; to = y ∷ []; action = some n })
    → Leaves (run_action driver n e c) P events
    → ((c' : Context) → P c' → Settles node driver rounds (machine (y ∷ []) c' (queue ++ events)))
    → Settles node driver (suc rounds) (machine (x ∷ []) c (e ∷ queue))
unfolding Leaves
acts node driver rounds n x y kind e c queue P events ok found (c', left, holds) go =
    after node driver (suc rounds) rounds _ _
      (fire driver rounds n x y kind e c queue (c', events) found ok left) (go c' holds)

pub skips :
    (node driver rounds x : ℕ) (e : FsmEvent) (c : Context)
    → find_transition fsm_table (x ∷ []) e ≡ none
    → Stopped node c ⊎ Waiting node (x ∷ []) c
    → Settles node driver (suc (suc rounds)) (machine (x ∷ []) c (e ∷ []))
skips node driver rounds x e c found h =
    after node driver (suc (suc rounds)) (suc rounds) _ _
      (ignore driver (suc rounds) x e c [] found) (resting node driver rounds (x ∷ []) c h)

Ready-ok : (node : ℕ) (c : Context) → Ready node c → c.fault ≡ false
unfolding Ready IsOk
Ready-ok node c ready = ready.0.0

-- A sector at its end is verified.
verifies :
    (node driver rounds : ℕ) (c : Context)
    → Ready node c
    → Settles node driver (suc (suc rounds)) (machine st_send_window c (event_of 4 ∷ []))
unfolding find_transition run_action
verifies node driver rounds c ready =
    acts node driver (suc rounds) 4 3 4 4 (event_of 4) c [] (Ready node) [] (Ready-ok node c ready)
      refl (act_crc_verify-Leaves node c ready)
      (λ c' h. resting node driver rounds st_verify c' (inr (for_crc h)))

-- The next segment, out of a state `x` and for an event that sends it.
pub sends :
    (node driver rounds x kind : ℕ) (c : Context)
    → find_transition fsm_table (x ∷ []) (event_of kind)
      ≡ some (record { from = x ∷ []; event = kind; to = st_send_window; action = some 3 })
    → Ready node c
    → Settles node driver (suc (suc (suc rounds))) (machine (x ∷ []) c (event_of kind ∷ []))
unfolding run_action
sends node driver rounds x kind c found ready = elim (act_send_window-Leaves node c ready) [
  | inl sent ↦
      acts node driver (suc (suc rounds)) 3 x 3 kind (event_of kind) c [] (Ready node) []
        (Ready-ok node c ready) found sent
        (λ c' h. resting node driver (suc rounds) st_send_window c' (inr (for_ack h)))
  | inr ended ↦
      acts node driver (suc (suc rounds)) 3 x 3 kind (event_of kind) c [] (Ready node) _
        (Ready-ok node c ready) found ended (λ c' h. verifies node driver rounds c' h)
]

-- The information of the target, with its copy at the end of the list.
pub informs :
    (node driver rounds : ℕ) (pkt : Packet) (c : Context)
    → IsSane driver pkt
    → Loaded node c
    → Settles node driver (suc (suc (suc (suc (suc rounds))))) (
        machine st_send_reset
          (record c { copies = c.copies ++ pkt ∷ [] })
          (record { kind = 2; payload = length c.copies + 1 } ∷ []))
unfolding find_transition run_action Loaded Sized IsOk
informs node driver rounds pkt c sane loaded =
    let e : FsmEvent = record { kind = 2; payload = length c.copies + 1 } in
    let copied : Context = record c { copies = c.copies ++ pkt ∷ [] } in
    elim (act_target_info-Leaves node driver pkt c sane loaded) [
      | inl refused ↦
          acts node driver (suc (suc (suc (suc rounds)))) 1 1 2 2 e copied [] (Stopped node) []
            loaded.0.0 refl refused
            (λ c' h. resting node driver (suc (suc (suc rounds))) st_build_pipe c' (inl h))
      | inr taken ↦
          acts node driver (suc (suc (suc (suc rounds)))) 1 1 2 2 e copied [] (Sized node) _
            loaded.0.0 refl taken
            (λ c' h.
              acts node driver (suc (suc (suc rounds))) 2 2 3 1 (event_of 1) c' [] (Ready node) _
                h.0.0.0 refl (act_build_pipeline-Leaves node c' h)
                (λ c'' h'. sends node driver rounds 3 1 c'' refl h'))
    ]

-- A sector that is not confirmed is sent again, or the session ends.
pub rejects :
    (node driver rounds : ℕ) (c : Context)
    → Ready node c
    → Settles node driver (suc (suc (suc (suc rounds)))) (machine st_verify c (event_of 6 ∷ []))
unfolding find_transition run_action
rejects node driver rounds c ready = elim (act_crc_nack-Leaves node c ready) [
  | inl gave_up ↦
      acts node driver (suc (suc (suc rounds))) 5 4 3 6 (event_of 6) c [] (Stopped node) []
        (Ready-ok node c ready) refl gave_up
        (λ c' h. resting node driver (suc (suc rounds)) st_send_window c' (inl h))
  | inr again ↦
      acts node driver (suc (suc (suc rounds))) 5 4 3 6 (event_of 6) c [] (Ready node) _
        (Ready-ok node c ready) refl again (λ c' h. sends node driver rounds 3 1 c' refl h)
]

-- A sector that is confirmed is followed by the next, or by the jump.
pub confirms :
    (node driver rounds : ℕ) (c : Context)
    → Ready node c
    → Settles node driver (suc (suc (suc (suc rounds)))) (machine st_verify c (event_of 5 ∷ []))
unfolding find_transition run_action Written IsOk
confirms node driver rounds c ready = elim (act_next_sector-Leaves node c ready) [
  | inl last ↦
      acts node driver (suc (suc (suc rounds))) 6 4 5 5 (event_of 5) c [] (Written node) _
        (Ready-ok node c ready) refl last
        (λ c' h.
          acts node driver (suc (suc rounds)) 7 5 6 7 (event_of 7) c' [] (Written node) [] h.0.0
            refl (act_app_jump-Leaves node c' h)
            (λ c'' h'. resting node driver (suc rounds) st_app_jump c'' (inr (for_jump h'))))
  | inr more ↦
      acts node driver (suc (suc (suc rounds))) 6 4 5 5 (event_of 5) c [] (Ready node) _
        (Ready-ok node c ready) refl more (λ c' h. sends node driver rounds 5 1 c' refl h)
]

-- The acknowledged jump ends the session.
pub finishes :
    (node driver rounds : ℕ) (c : Context)
    → Written node c
    → Settles node driver (suc (suc rounds)) (machine st_app_jump c (event_of 8 ∷ []))
unfolding find_transition run_action Written IsOk
finishes node driver rounds c written =
    acts node driver (suc rounds) 8 6 7 8 (event_of 8) c [] (Stopped node) [] written.0.0 refl
      (act_done-Leaves node c written) (λ c' h. resting node driver rounds st_done c' (inl h))

-- ===== src/Session/Actions.antt =====
-- What each action of init/fsm_actions.c leaves, in the phases of a session in which it runs.
use re_boot.Base.{
  ℕ, suc, ◌+◌, ◌*◌, ◌%◌, ◌^◌, ◌≤◌, ◌<◌, ◌≡◌, ◌⊎◌, inl, inr, refl, arith, ltb, leb, ◌==◌, true,
  false, some, List, [], ◌∷◌, ◌++◌, length, get_or, get_elem?, Bool-cases, Option-cases,
}
use re_boot.Pipeline.{Segment}
use re_boot.Pipeline.Segments.{
  total, length-pipeline_build, pipeline_next_segment_below, pipeline_sector_crc_below,
}
use re_boot.Transport.{Packet, comm_max_data}
use re_boot.Fsm.{FsmEvent}
use re_boot.Session.{
  Context, Effect, event_of, word_bytes, flash_addr, stored_segment_size, act_send_reset,
  target_info, copy_at, act_target_info, has_bytes, act_build_pipeline, send_segment,
  act_send_window, act_crc_verify, act_crc_nack, act_next_sector, act_app_jump, act_done,
}

-- The effect is some context with a property, and these events.
unfoldable pub Leaves : Effect → (Context → Type 0) → List FsmEvent → Type 0
Leaves effect P events = (c : Context) × (effect ≡ (c, events)) × P c

-- Nothing undefined has happened, and the target is the node.
unfoldable pub IsOk : ℕ → Context → Type 0
IsOk node c = (c.fault ≡ false) × (c.node_id ≡ node)

-- The segments can be sent: there is a sector, and a segment has room in a packet.
unfoldable pub Ready : ℕ → Context → Type 0
Ready node c =
    IsOk node c
    × (c.current_sector < length c.pipeline.sectors)
    × (length c.pipeline.sectors < 2 ^ 32)
    × (1 ≤ c.segment_size)
    × (c.segment_size + 4 ≤ comm_max_data)

-- The loop of `main` has ended.
unfoldable pub Stopped : ℕ → Context → Type 0
Stopped node c = IsOk node c × (c.fsm_running ≡ false)

-- The file has a byte, and fewer than a counter of 32 bits holds.
unfoldable pub Loaded : ℕ → Context → Type 0
Loaded node c =
    IsOk node c × (has_bytes c.records ≡ true) × (1 ≤ total c.records) × (total c.records < 2 ^ 32)

-- And the target has said what it takes.
unfoldable pub Sized : ℕ → Context → Type 0
unfolding Loaded IsOk
Sized node c =
    Loaded node c
    × (1 ≤ c.sector_size)
    × (1 ≤ c.segment_size)
    × (c.segment_size + 4 ≤ comm_max_data)

-- All sectors are written.
unfoldable pub Written : ℕ → Context → Type 0
Written node c = IsOk node c × (1 ≤ length c.pipeline.sectors)

length-word_bytes : (w : ℕ) (bytes : List ℕ) → length (word_bytes w ++ bytes) ≡ 4 + length bytes
unfolding word_bytes
length-word_bytes w bytes = omega arith

send_segment-Leaves :
    (node : ℕ) (seg : Segment) (c : Context)
    → ((addr : ℕ) (bytes : List ℕ) → seg.sent ≡ some (addr, bytes) → length bytes ≤ c.segment_size)
    → Ready node c
    → Leaves (send_segment seg c) (Ready node) []
      ⊎ Leaves (send_segment seg c) (Ready node) (event_of 4 ∷ [])
unfolding send_segment Leaves Ready IsOk
send_segment-Leaves node seg c short ready = elim (Option-cases seg.sent) [
  | inl ended ↦ inr (rw (ended, send_segment) (record c { offset = seg.offset }, refl, ready))
  | inr ((addr, bytes), sent) ↦
      let (ok, at, few, one, room) = ready in
      let fits : ltb comm_max_data (4 + length bytes) ≡ false =
        ground (arith, short addr bytes sent) in
      inl (rw (sent, send_segment) (rw fits (_, refl, ready)))
]

pub act_send_window-Leaves :
    (node : ℕ) (c : Context)
    → Ready node c
    → Leaves (act_send_window c) (Ready node) []
      ⊎ Leaves (act_send_window c) (Ready node) (event_of 4 ∷ [])
unfolding act_send_window Ready IsOk
act_send_window-Leaves node c ready =
    let (ok, at, few, one, room) = ready in
    let (seg, made, short) =
      pipeline_next_segment_below c.pipeline c.current_sector c.offset c.segment_size at in
    rw (made, act_send_window) (send_segment-Leaves node seg c short ready)

pub act_crc_verify-Leaves :
    (node : ℕ) (c : Context) → Ready node c → Leaves (act_crc_verify c) (Ready node) []
unfolding act_crc_verify Leaves Ready IsOk
act_crc_verify-Leaves node c ready =
    let (ok, at, few, one, room) = ready in
    let (crc, made) = pipeline_sector_crc_below c.pipeline c.current_sector at in
    rw (made, act_crc_verify) (_, refl, ready)

pub act_crc_nack-Leaves :
    (node : ℕ) (c : Context)
    → Ready node c
    → Leaves (act_crc_nack c) (Stopped node) []
      ⊎ Leaves (act_crc_nack c) (Ready node) (event_of 1 ∷ [])
unfolding act_crc_nack Leaves Ready Stopped IsOk
act_crc_nack-Leaves node c ready =
    let (ok, at, few, one, room) = ready in
    elim (Bool-cases (leb c.max_retries ((c.retry_count + 1) % 2 ^ 32))) [
      | inl enough ↦ inl (rw enough (_, refl, (ok, refl)))
      | inr again ↦
          let sized : (c.segment_size == 0) ≡ false = ground arith in
          inr (rw (again, sized) (_, refl, ready))
    ]

pub act_next_sector-Leaves :
    (node : ℕ) (c : Context)
    → Ready node c
    → Leaves (act_next_sector c) (Written node) (event_of 7 ∷ [])
      ⊎ Leaves (act_next_sector c) (Ready node) (event_of 1 ∷ [])
unfolding act_next_sector Leaves Ready Written IsOk
act_next_sector-Leaves node c ready =
    let (ok, at, few, one, room) = ready in
    let inside : leb (length c.pipeline.sectors) c.current_sector ≡ false = ground arith in
    elim (Bool-cases (leb (length c.pipeline.sectors) ((c.current_sector + 1) % 2 ^ 32))) [
      | inl last ↦ inl (rw (inside, last) (_, refl, (ok, omega arith)))
      | inr more ↦ inr (rw (inside, more) (_, refl, (ok, ground arith, few, one, room)))
    ]

pub act_build_pipeline-Leaves :
    (node : ℕ) (c : Context)
    → Sized node c
    → Leaves (act_build_pipeline c) (Ready node) (event_of 1 ∷ [])
unfolding act_build_pipeline Leaves Sized Loaded Ready IsOk
act_build_pipeline-Leaves node c ((ok, bytes, some_, few), sector, one, room) =
    let (high, low) = length-pipeline_build c.records c.sector_size in
    let sectors : (c.sector_size == 0) ≡ false = ground arith in
    let segments : (c.segment_size == 0) ≡ false = ground arith in
    let first = low some_ in
    rw (sectors, segments) (_, refl, (ok, omega arith, omega arith, one, room))

pub act_app_jump-Leaves :
    (node : ℕ) (c : Context) → Written node c → Leaves (act_app_jump c) (Written node) []
unfolding act_app_jump Leaves Written IsOk
act_app_jump-Leaves node c written = (_, refl, written)

pub act_done-Leaves :
    (node : ℕ) (c : Context) → Written node c → Leaves (act_done c) (Stopped node) []
unfolding act_done Leaves Written Stopped IsOk
act_done-Leaves node c (ok, one) =
    let sectors : (length c.pipeline.sectors == 0) ≡ false = ground arith in
    rw sectors (_, refl, (ok, refl))

pub act_send_reset-Leaves :
    (node : ℕ) (c : Context) → Loaded node c → Leaves (act_send_reset c) (Loaded node) []
unfolding act_send_reset Leaves Loaded IsOk
act_send_reset-Leaves node c loaded = (_, refl, loaded)

-- What the target reports in its information packet makes sense.
unfoldable pub IsSane : ℕ → Packet → Type 0
IsSane driver pkt =
    (1 ≤ get_or pkt.bytes 4 0 * 2 ^ 8 + get_or pkt.bytes 5 0)
    × (1 ≤ stored_segment_size driver (get_or pkt.bytes 6 0 * 2 ^ 8 + get_or pkt.bytes 7 0))
    × (stored_segment_size driver (get_or pkt.bytes 6 0 * 2 ^ 8 + get_or pkt.bytes 7 0) + 4
        ≤ comm_max_data)

target_info-Leaves :
    (node : ℕ) (driver : ℕ) (pkt : Packet) (c : Context)
    → IsSane driver pkt
    → Loaded node c
    → Leaves (target_info driver pkt c) (Stopped node) []
      ⊎ Leaves (target_info driver pkt c) (Sized node) (event_of 1 ∷ [])
unfolding target_info Leaves Stopped Sized Loaded IsSane IsOk
target_info-Leaves node driver pkt c (sector, one, room) loaded =
    let (ok, bytes, some_, few) = loaded in
    elim (Bool-cases (pkt.len == 8)) [
      | inr short ↦ inl (rw short (_, refl, (ok, refl)))
      | inl long ↦ elim (Bool-cases (leb c.hex_end_address c.hex_base_address)) [
        | inl none_ ↦ inl (rw (long, none_) (_, refl, (ok, refl)))
        | inr span ↦ elim (Bool-cases (ltb c.hex_base_address (flash_addr pkt.bytes))) [
          | inl below ↦ inl (rw (long, span, below) (_, refl, (ok, refl)))
          | inr fits ↦ inr (rw (long, span, fits) (_, refl, (loaded, sector, one, room)))
        ]
      ]
    ]

get_elem?-last : {A : Type 0} (xs : List A) (x : A) → get_elem? (xs ++ x ∷ []) (length xs) ≡ some x
get_elem?-last [] x = refl
get_elem?-last (y ∷ xs) x = get_elem?-last xs x

pub copy_at-last :
    (copies : List Packet) (pkt : Packet)
    → copy_at (copies ++ pkt ∷ []) (length copies + 1) ≡ some pkt
unfolding copy_at
copy_at-last copies pkt =
    let next : length copies + 1 ≡ suc (length copies) = omega arith in
    rw next (get_elem?-last copies pkt)

-- The information packet whose copy is the last one.
pub act_target_info-Leaves :
    (node : ℕ) (driver : ℕ) (pkt : Packet) (c : Context)
    → IsSane driver pkt
    → Loaded node c
    → let copied : Context = record c { copies = c.copies ++ pkt ∷ [] } in
      let e : FsmEvent = record { kind = 2; payload = length c.copies + 1 } in
      Leaves (act_target_info driver e copied) (Stopped node) []
      ⊎ Leaves (act_target_info driver e copied) (Sized node) (event_of 1 ∷ [])
unfolding act_target_info Loaded IsOk
act_target_info-Leaves node driver pkt c sane loaded =
    rw (copy_at-last c.copies pkt, act_target_info)
      (target_info-Leaves node driver pkt (record c { copies = c.copies ++ pkt ∷ [] }) sane loaded)

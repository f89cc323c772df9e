-- ===== src/Session.antt =====
-- init/fsm_actions.c: the actions of a session with the target. A
-- packet that is sent is added to a list; whether `transport_send` succeeds changes only what is
-- printed, and so do the two counters of the progress bar, which are left out. What C leaves
-- undefined (a write past `tx_pkt.data`, a division by zero, an index past the sectors) sets `fault`.
pub mod Loop
pub mod Rounds
pub mod Actions
pub mod Phases
pub mod Signals
pub mod Safety
pub mod Target
pub mod Progress
pub mod Accepted
pub mod Sends
pub mod Liveness
pub mod Deaf
pub mod Examples
use re_boot.Base.{
  ℕ, zero, suc, ◌+◌, ◌-◌, ◌*◌, ◌/◌, ◌%◌, ◌^◌, ltb, leb, ◌==◌, if◌then◌else◌, Bool, true, false, not,
  ◌&&◌, ◌||◌, Option, none, some, List, [], ◌∷◌, ◌++◌, length, get_elem?, get_or,
}
use re_boot.Pipeline.{
  HexRecord, Sector, Builder, Segment, pipeline_build, pipeline_next_segment, pipeline_sector_crc,
}
use re_boot.Transport.{Packet, can, can_max_payload, comm_max_data}
use re_boot.Fsm.{
  State, FsmEvent, Transition, Call, exit, act, entry, Fsm, Handler, Ran, idle, overflow, running,
  fsm_dispatch, fsm_run,
}

-- A packet as it is handed to `transport_send`, with the bytes up to its length.
pub record Message : Type 0 where
  pub command : ℕ
  pub bytes : List ℕ

-- `bootloader_ctx_t` with the machine's `fsm_running`. `copies` are the packets that
-- `act_fsm_signal_generation` allocates for events; a pointer is the place in this list and one.
pub record Context : Type 0 where
  pub records : List HexRecord
  pub pipeline : Builder
  pub sector_size : ℕ
  pub segment_size : ℕ
  pub current_sector : ℕ
  pub offset : ℕ
  pub retry_count : ℕ
  pub max_retries : ℕ
  pub hex_base_address : ℕ
  pub hex_end_address : ℕ
  pub node_id : ℕ
  pub fsm_running : Bool
  pub copies : List Packet
  pub sent : List Message
  pub fault : Bool

-- `MAX_RETRY`
abbrev pub max_retry : ℕ
max_retry = 2

-- The events of `event_id_t`.
abbrev pub event_of : ℕ → FsmEvent
event_of kind = record { kind = kind; payload = 0 }

-- What an action leaves: the context, and the events that it dispatches.
abbrev pub Effect : Type 0
Effect = Context × List FsmEvent

abbrev pub send : Message → Context → Context
send m c = record c { sent = c.sent ++ m ∷ [] }

abbrev pub stop : Context → Effect
stop c = (record c { fsm_running = false }, [])

abbrev pub undefined : Context → Effect
undefined c = (record c { fault = true }, [])

-- The four bytes of a word, the highest first.
pub word_bytes : ℕ → List ℕ
word_bytes w = w / 2 ^ 24 % 256 ∷ w / 2 ^ 16 % 256 ∷ w / 2 ^ 8 % 256 ∷ w % 256 ∷ []

pub act_send_reset : Context → Effect
act_send_reset c = (send (record { command = (0x10 + c.node_id) % 256; bytes = 1 ∷ [] }) c, [])

pub flash_addr : List ℕ → ℕ
flash_addr data_ =
    get_or data_ 0 0 * 2 ^ 24
    + get_or data_ 1 0 * 2 ^ 16
    + get_or data_ 2 0 * 2 ^ 8
    + get_or data_ 3 0

-- The segment size that is stored: over CAN there is room for four bytes behind the address.
pub stored_segment_size : ℕ → ℕ → ℕ
stored_segment_size driver size =
    if driver == can && ltb (can_max_payload - 4) size then can_max_payload - 4 else size

-- `act_target_info` behind the test of the pointer.
pub target_info : ℕ → Packet → Context → Effect
unfolding flash_addr stored_segment_size
target_info driver pkt c =
    if not (pkt.len == 8)
    then stop c
    else if leb c.hex_end_address c.hex_base_address
    then stop c
    else if ltb c.hex_base_address (flash_addr pkt.bytes)
    then stop c
    else (
      record c {
        sector_size = get_or pkt.bytes 4 0 * 2 ^ 8 + get_or pkt.bytes 5 0;
        segment_size =
            stored_segment_size driver (get_or pkt.bytes 6 0 * 2 ^ 8 + get_or pkt.bytes 7 0);
        retry_count = 0;
        max_retries = max_retry;
      },
      event_of 1 ∷ [],
    )

-- The packet that a pointer points to.
pub copy_at : List Packet → ℕ → Option Packet
copy_at copies zero = none
copy_at copies (suc i) = get_elem? copies i

pub act_target_info : ℕ → FsmEvent → Context → Effect
unfolding copy_at target_info
act_target_info driver e c = elim (copy_at c.copies e.payload) [
  | none ↦ stop c
  | some pkt ↦ target_info driver pkt c
]

-- Whether `pipeline_build` divides by the sector size: for each byte of a data record.
pub has_bytes : List HexRecord → Bool
has_bytes [] = false
has_bytes (rec ∷ records) = (rec.kind == 0 && ltb 0 rec.len) || has_bytes records

-- The number of segments of a sector, which is shown, is a quotient by the segment size.
pub act_build_pipeline : Context → Effect
unfolding has_bytes
act_build_pipeline c =
    if (c.sector_size == 0 && has_bytes c.records) || c.segment_size == 0 then undefined c else (
      record c {
        pipeline = pipeline_build c.records c.sector_size;
        current_sector = 0;
        offset = 0;
      },
      event_of 1 ∷ [],
    )

-- What `act_send_window` does with the segment: a sector at its end, or a packet of the address and
-- the bytes, for which `tx_pkt.data` must have room.
pub send_segment : Segment → Context → Effect
unfolding word_bytes
send_segment seg c =
    let moved : Context = record c { offset = seg.offset } in
    elim seg.sent [
      | none ↦ (moved, event_of 4 ∷ [])
      | some (addr, bytes) ↦
          if ltb comm_max_data (4 + length bytes)
          then undefined moved
          else (send (record { command = 0x11; bytes = word_bytes addr ++ bytes }) moved, [])
    ]

pub act_send_window : Context → Effect
unfolding send_segment
act_send_window c =
    elim (pipeline_next_segment c.pipeline c.current_sector c.offset c.segment_size) [
      | none ↦ undefined c
      | some seg ↦ send_segment seg c
    ]

pub act_crc_verify : Context → Effect
unfolding word_bytes
act_crc_verify c = elim (pipeline_sector_crc c.pipeline c.current_sector) [
  | none ↦ undefined c
  | some crc ↦ (send (record { command = 0x13; bytes = word_bytes crc }) c, [])
]

-- The division is that of the progress bar.
pub act_crc_nack : Context → Effect
act_crc_nack c =
    let tried : Context = record c { retry_count = (c.retry_count + 1) % 2 ^ 32 } in
    if leb c.max_retries tried.retry_count
    then stop tried
    else if c.segment_size == 0
    then undefined tried
    else (record tried { offset = 0 }, event_of 1 ∷ [])

-- The base of the sector is read, and shown.
pub act_next_sector : Context → Effect
act_next_sector c =
    let next : Context = record c {
      retry_count = 0;
      offset = 0;
      current_sector = (c.current_sector + 1) % 2 ^ 32;
    } in
    if leb (length c.pipeline.sectors) c.current_sector
    then undefined c
    else if leb (length c.pipeline.sectors) next.current_sector
    then (next, event_of 7 ∷ [])
    else (next, event_of 1 ∷ [])

pub act_app_jump : Context → Effect
act_app_jump c = (send (record { command = 0x14; bytes = 1 ∷ [] }) c, [])

-- The base of the last sector is read, and shown.
pub act_done : Context → Effect
act_done c = if length c.pipeline.sectors == 0 then undefined c else stop c

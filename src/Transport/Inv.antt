-- ===== src/Transport/Inv.antt =====
-- The parsers never leave the packet's array, whatever bytes arrive.
use re_boot.Base.{ℕ, ◌≤◌, ◌<◌, ◌≡◌, refl}
use re_boot.Base.{none, some, List, [], ◌∷◌, length}
use re_boot.Base.{length-set, arith, inl, inr, ◌⊎◌, ◌≢◌}
use re_boot.Transport.{Packet, StreamRx, CanRx, stopped, overrun}
use re_boot.Transport.{Step, more, return, stream_byte, can_byte, parser_reset, can_parser_reset}
use re_boot.Transport.{
  receive_loop, after, receive_stream, receive_can, Received, Read, comm_max_data, can_max_payload,
}

-- What holds of the serial, TCP and UDP parser between two bytes: the array has its size, and in
-- the data phase the next write is inside both the frame's length and the array.
pub record IsStreamRx (rx : StreamRx) (pkt : Packet) : Type 0 where
  pub array : length pkt.bytes ≡ comm_max_data
  pub state_in : rx.state ≤ 6
  pub index_in : rx.state ≡ 4 → (rx.index < rx.len) × (rx.len ≤ comm_max_data)
  pub len_in : 4 ≤ rx.state → (rx.len ≡ pkt.len) × (rx.len ≤ comm_max_data)

pub reset-IsStreamRx :
    (pkt : Packet) → length pkt.bytes ≡ comm_max_data → IsStreamRx parser_reset pkt
unfolding parser_reset
reset-IsStreamRx pkt size = ground arith

abbrev pub IsStreamStep : Step StreamRx → Type 0
IsStreamStep (more rx pkt) = IsStreamRx rx pkt
IsStreamStep (return ret rx pkt) =
    (ret ≢ overrun) × (rx ≡ parser_reset) × (length pkt.bytes ≡ comm_max_data)

pub stream_byte-IsStreamStep :
    (rx : StreamRx) (pkt : Packet) (byte : ℕ)
    → IsStreamRx rx pkt
    → IsStreamStep (stream_byte rx pkt byte)
unfolding stream_byte
stream_byte-IsStreamStep rx pkt byte v = ground (arith, length-set pkt.bytes rx.index byte)

-- The same for the CAN parser.
pub record IsCanRx (rx : CanRx) (pkt : Packet) : Type 0 where
  pub array : length pkt.bytes ≡ comm_max_data
  pub state_in : rx.state ≤ 3
  pub index_in :
      rx.state ≡ 3 → (rx.index < rx.len) × (rx.len ≤ can_max_payload) × (rx.len ≡ pkt.len)

abbrev pub IsCanStep : Step CanRx → Type 0
IsCanStep (more rx pkt) = IsCanRx rx pkt
IsCanStep (return ret rx pkt) =
    (ret ≢ overrun) × (rx ≡ can_parser_reset) × (length pkt.bytes ≡ comm_max_data)

can_byte-IsCanStep :
    (rx : CanRx) (pkt : Packet) (byte : ℕ) → IsCanRx rx pkt → IsCanStep (can_byte rx pkt byte)
unfolding can_byte
can_byte-IsCanStep rx pkt byte v = ground (arith, length-set pkt.bytes rx.index byte)

-- Between calls: no access outside the array was made, the array has its size, and the parser is
-- reset, or where the flag was cleared in the middle of a frame, in a sound state.
abbrev pub IsStreamReceived : Received StreamRx → Type 0
IsStreamReceived r =
    (r.ret ≢ overrun)
    × (length r.pkt.bytes ≡ comm_max_data)
    × (((r.ret ≡ stopped) × IsStreamRx r.rx r.pkt) ⊎ (r.rx ≡ parser_reset))

abbrev pub IsCanReceived : Received CanRx → Type 0
IsCanReceived r =
    (r.ret ≢ overrun)
    × (length r.pkt.bytes ≡ comm_max_data)
    × (((r.ret ≡ stopped) × IsCanRx r.rx r.pkt) ⊎ (r.rx ≡ can_parser_reset))

stopped≢overrun : stopped ≢ overrun
stopped≢overrun = λ e. cc

after-IsStreamReceived :
    (again : StreamRx → Packet → Received StreamRx) (reads : List Read) (s : Step StreamRx)
    → IsStreamStep s
    → ((rx : StreamRx) (pkt : Packet) → IsStreamRx rx pkt → IsStreamReceived (again rx pkt))
    → IsStreamReceived (after again reads s)
after-IsStreamReceived again reads (more rx pkt) v ih = ih rx pkt v
after-IsStreamReceived again reads (return ret rx pkt) v ih = (v.0, v.2, inr v.1)

-- From a sound state of the serial, TCP and UDP parser, whatever the driver delivers,
-- `transport_receive` makes no access outside the packet's array, and it leaves the parser reset,
-- or in a sound state if the running flag was cleared.
pub receive_stream-IsStreamReceived :
    (rx : StreamRx) (pkt : Packet) (reads : List Read)
    → IsStreamRx rx pkt
    → IsStreamReceived (receive_stream rx pkt reads)
unfolding receive_loop receive_stream
receive_stream-IsStreamReceived rx pkt [] v = (stopped≢overrun, v.array, inl (refl, v))
receive_stream-IsStreamReceived rx pkt (none ∷ reads) v =
    receive_stream-IsStreamReceived rx pkt reads v
receive_stream-IsStreamReceived rx pkt (some byte ∷ reads) v =
    after-IsStreamReceived (λ rx' pkt'. receive_stream rx' pkt' reads) reads
      (stream_byte rx pkt byte) (stream_byte-IsStreamStep rx pkt byte v)
      (λ rx' pkt' v'. receive_stream-IsStreamReceived rx' pkt' reads v')

after-IsCanReceived :
    (again : CanRx → Packet → Received CanRx) (reads : List Read) (s : Step CanRx)
    → IsCanStep s
    → ((rx : CanRx) (pkt : Packet) → IsCanRx rx pkt → IsCanReceived (again rx pkt))
    → IsCanReceived (after again reads s)
after-IsCanReceived again reads (more rx pkt) v ih = ih rx pkt v
after-IsCanReceived again reads (return ret rx pkt) v ih = (v.0, v.2, inr v.1)

-- From a sound state of the CAN parser, whatever the driver delivers, `transport_receive` makes no
-- access outside the packet's array, and it leaves the parser reset, or in a sound state if the
-- running flag was cleared.
pub receive_can-IsCanReceived :
    (rx : CanRx) (pkt : Packet) (reads : List Read)
    → IsCanRx rx pkt
    → IsCanReceived (receive_can rx pkt reads)
unfolding receive_loop receive_can
receive_can-IsCanReceived rx pkt [] v = (stopped≢overrun, v.array, inl (refl, v))
receive_can-IsCanReceived rx pkt (none ∷ reads) v = receive_can-IsCanReceived rx pkt reads v
receive_can-IsCanReceived rx pkt (some byte ∷ reads) v =
    after-IsCanReceived (λ rx' pkt'. receive_can rx' pkt' reads) reads (can_byte rx pkt byte)
      (can_byte-IsCanStep rx pkt byte v)
      (λ rx' pkt' v'. receive_can-IsCanReceived rx' pkt' reads v')

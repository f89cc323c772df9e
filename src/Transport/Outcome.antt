-- ===== src/Transport/Outcome.antt =====
-- Every outcome of `transport_send`.
use re_boot.Base.{ℕ, ◌≤◌, ◌<◌, ◌≡◌, ◌≢◌}
use re_boot.Base.{◌⊎◌}
use re_boot.Base.{length, arith}
use re_boot.Transport.{Packet, can, serial, tx}
use re_boot.Transport.{comm_max_data}
use re_boot.Transport.{transport_send, Sent, refused, overread, tcp, udp}

-- The case of each outcome.
abbrev pub SendOutcome : ℕ → Packet → Sent → Type 0
SendOutcome driver pkt overread = (driver ≢ can) × (comm_max_data < pkt.len) × (pkt.len ≤ 2042)
SendOutcome driver pkt refused =
    (driver ≢ can)
    × ((2042 < pkt.len)
        ⊎ ((pkt.len ≤ comm_max_data) × (driver ≢ serial) × (driver ≢ tcp) × (driver ≢ udp)))
SendOutcome driver pkt (tx to frame) =
    ((driver ≡ can) × (to ≡ serial)) ⊎ ((driver ≢ can) × (to ≡ driver) × (pkt.len ≤ comm_max_data))

-- What `transport_send` does with a packet whose array has its 64 bytes. On CAN it hands the serial
-- driver one frame. On another type it returns -1 for a length above 2042, its copy reads past the
-- array for a length from 65 to 2042, and otherwise the initialised driver gets one frame and -1 is
-- returned where there is none.
pub transport_send-SendOutcome :
    (driver : ℕ) (pkt : Packet)
    → length pkt.bytes ≡ comm_max_data
    → SendOutcome driver pkt (transport_send driver pkt)
unfolding transport_send
transport_send-SendOutcome driver pkt size = ground arith

-- ===== src/Transport.antt =====
-- comm/transport_layer.c: the frames that `transport_send` writes and the two byte parsers of
-- `transport_receive`, with the state that the C code keeps in file-level variables. The drivers
-- below are seen through their calls: a send hands a frame to one of them, and a receive meets
-- the results of its one-byte reads in order.
pub mod Inv
pub mod Loop
pub mod CanFrame
pub mod Frame
pub mod RoundTrip
pub mod Sound
pub mod Steps
pub mod Outcome
pub mod Examples
use Prim.Native.Nat.{bit_or}
use re_boot.Base.{ℕ, zero, suc, ◌+◌, ◌-◌, ◌*◌, ◌/◌, ◌%◌, ◌^◌, ltb, leb, ◌==◌, if◌then◌else◌}
use re_boot.Base.{Bool, ◌||◌, Option, none, some, List, [], ◌∷◌, ◌++◌, length, take, set, bit_and}
use re_boot.Crc.{crc16_ccitt}

-- The driver types of config/app_config.h; 0 is `not initialised`.
abbrev pub serial : ℕ
serial = 1

abbrev pub tcp : ℕ
tcp = 2

abbrev pub can : ℕ
can = 3

abbrev pub udp : ℕ
udp = 4

abbrev pub can_max_payload : ℕ
can_max_payload = 8

abbrev pub comm_max_data : ℕ
comm_max_data = 64

-- `comm_packet_t`. The array has `comm_max_data` bytes.
pub record Packet : Type 0 where
  pub command : ℕ
  pub len : ℕ
  pub bytes : List ℕ

-- What `transport_send` does: it returns -1, it hands a frame to a driver and returns what that
-- driver's `tx` returns, or its `memcpy` reads past the packet's array.
pub data Sent : Type 0 where
  refused overread : Sent
  tx : ℕ → List ℕ → Sent

abbrev pub start_byte : ℕ
start_byte = b':'

-- The bytes that `memcpy` takes from the packet.
pub payload : Packet → ℕ → Option (List ℕ)
payload pkt n = if leb n (length pkt.bytes) then some (take n pkt.bytes) else none

-- CMD, LEN_H, LEN_L and the data: what the checksum is taken over.
pub checked_part : ℕ → ℕ → List ℕ → List ℕ
checked_part command len bytes = command ∷ bit_and (len / 2 ^ 8) 0xff ∷ bit_and len 0xff ∷ bytes

pub stream_frame : ℕ → ℕ → List ℕ → List ℕ
unfolding checked_part
stream_frame command len bytes =
    let crc = crc16_ccitt (checked_part command len bytes) in
    start_byte
    ∷ (checked_part command len bytes ++ bit_and (crc / 2 ^ 8) 0xff ∷ bit_and crc 0xff ∷ [])

pub send_can : Packet → Sent
unfolding payload
send_can pkt =
    let n = if leb pkt.len can_max_payload then pkt.len else can_max_payload in
    elim (payload pkt n) [
      | none ↦ overread
      | some bytes ↦ tx serial (start_byte ∷ pkt.command ∷ n ∷ bytes)
    ]

pub send_stream : ℕ → Packet → Sent
unfolding payload stream_frame
send_stream driver pkt = if ltb (2048 - 6) pkt.len then refused else elim (payload pkt pkt.len) [
  | none ↦ overread
  | some bytes ↦
      if driver == serial || driver == tcp || driver == udp
      then tx driver (stream_frame pkt.command pkt.len bytes)
      else refused
]

pub transport_send : ℕ → Packet → Sent
unfolding send_can send_stream
transport_send driver pkt = if driver == can then send_can pkt else send_stream driver pkt

-- `rx_state`, `rx_index`, `rx_length` and `rx_crc`.
pub record StreamRx : Type 0 where
  pub state : ℕ
  pub index : ℕ
  pub len : ℕ
  pub crc : ℕ

-- `can_rx_state`, `can_rx_len` and `can_rx_index`.
pub record CanRx : Type 0 where
  pub state : ℕ
  pub len : ℕ
  pub index : ℕ

pub parser_reset : StreamRx
parser_reset = record { state = 0; index = 0; len = 0; crc = 0 }

pub can_parser_reset : CanRx
can_parser_reset = record { state = 0; len = 0; index = 0 }

-- The return values n, -1, -3 and -5 of `transport_receive`; `overrun` is an access outside the
-- packet's array, which C leaves undefined.
pub data Ret : Type 0 where
  received : ℕ → Ret
  stopped bad_length bad_crc overrun : Ret

-- What one byte makes of a parser `S`: either it goes on, or `transport_receive` returns.
pub data Step (S : Type 0) : Type 0 where
  more : S → Packet → Step S
  return : Ret → S → Packet → Step S

-- State 6: the low byte of the checksum decides.
pub check_crc : StreamRx → Packet → ℕ → Step StreamRx
unfolding payload parser_reset
check_crc rx pkt byte =
    let received_crc = bit_or rx.crc byte in
    elim (payload pkt pkt.len) [
      | none ↦ return overrun rx pkt
      | some bytes ↦
          if crc16_ccitt (checked_part pkt.command pkt.len bytes) == received_crc
          then return (received pkt.len) parser_reset pkt
          else return bad_crc parser_reset pkt
    ]

-- State 3: the low byte of the length.
pub length_low : StreamRx → Packet → ℕ → Step StreamRx
unfolding parser_reset
length_low rx pkt byte =
    let n = bit_or rx.len byte in
    if ltb comm_max_data n
    then return bad_length parser_reset pkt
    else more (record rx { state = if n == 0 then 5 else 4; index = 0; len = n })
        (record pkt { len = n })

-- State 4: a data byte.
pub data_byte : StreamRx → Packet → ℕ → Step StreamRx
data_byte rx pkt byte =
    let i = (rx.index + 1) % 2 ^ 16 in
    if leb (length pkt.bytes) rx.index
    then return overrun rx pkt
    else more (record rx { state = if i == rx.len then 5 else 4; index = i })
        (record pkt { bytes = set pkt.bytes rx.index byte })

-- The `switch` on `rx_state`.
pub stream_byte : StreamRx → Packet → ℕ → Step StreamRx
unfolding length_low data_byte check_crc parser_reset
stream_byte rx pkt byte =
    if rx.state == 0
    then more (record rx { state = if byte == start_byte then 1 else 0 }) pkt
    else if rx.state == 1
    then more (record rx { state = 2 }) (record pkt { command = byte })
    else if rx.state == 2
    then more (record rx { state = 3; len = byte * 2 ^ 8 % 2 ^ 16 }) pkt
    else if rx.state == 3
    then length_low rx pkt byte
    else if rx.state == 4
    then data_byte rx pkt byte
    else if rx.state == 5
    then more (record rx { state = 6; crc = byte * 2 ^ 8 % 2 ^ 16 }) pkt
    else if rx.state == 6
    then check_crc rx pkt byte
    else more parser_reset pkt

-- CAN state 2: the length byte. A frame without data ends here.
pub can_length : Packet → ℕ → Step CanRx
unfolding can_parser_reset
can_length pkt byte =
    if ltb can_max_payload byte
    then return bad_length can_parser_reset pkt
    else if byte == 0
    then return (received 0) can_parser_reset (record pkt { len = byte })
    else more (record { state = 3; len = byte; index = 0 }) (record pkt { len = byte })

-- CAN state 3: a data byte, the last one ends the frame.
pub can_data : CanRx → Packet → ℕ → Step CanRx
unfolding can_parser_reset
can_data rx pkt byte =
    let i = (rx.index + 1) % 2 ^ 8 in
    if leb (length pkt.bytes) rx.index
    then return overrun rx pkt
    else if i == rx.len
    then return (received rx.len) can_parser_reset
        (record pkt { bytes = set pkt.bytes rx.index byte })
    else more (record rx { index = i }) (record pkt { bytes = set pkt.bytes rx.index byte })

-- The `switch` on `can_rx_state`.
pub can_byte : CanRx → Packet → ℕ → Step CanRx
unfolding can_length can_data can_parser_reset
can_byte rx pkt byte =
    if rx.state == 0
    then more (record rx { state = if byte == start_byte then 1 else 0 }) pkt
    else if rx.state == 1
    then more (record rx { state = 2 }) (record pkt { command = byte })
    else if rx.state == 2
    then can_length pkt byte
    else if rx.state == 3
    then can_data rx pkt byte
    else more can_parser_reset pkt

-- One read of a driver: `none` where it returned 0 or less.
abbrev pub Read : Type 0
Read = Option ℕ

-- What a call of `transport_receive` leaves: its value, the parser, the packet, and the reads that
-- it did not make.
pub record Received (S : Type 0) : Type 0 where
  pub ret : Ret
  pub rx : S
  pub pkt : Packet
  pub rest : List Read

-- What follows a byte: the next round of the loop, or the return.
abbrev pub after : {S : Type 0} → (S → Packet → Received S) → List Read → Step S → Received S
after again reads (more rx pkt) = again rx pkt
after again reads (return ret rx pkt) = record { ret = ret; rx = rx; pkt = pkt; rest = reads }

-- The loop over one parser. The running flag is cleared when the list of reads ends.
pub receive_loop : {S : Type 0} → (S → Packet → ℕ → Step S) → S → Packet → List Read → Received S
receive_loop step rx pkt [] = record { ret = stopped; rx = rx; pkt = pkt; rest = [] }
receive_loop step rx pkt (none ∷ reads) = receive_loop step rx pkt reads
receive_loop step rx pkt (some byte ∷ reads) =
    after (λ rx' pkt'. receive_loop step rx' pkt' reads) reads (step rx pkt byte)

-- `transport_receive` on the serial, TCP and UDP drivers, and on CAN.
pub receive_stream : StreamRx → Packet → List Read → Received StreamRx
unfolding stream_byte
receive_stream = receive_loop stream_byte

pub receive_can : CanRx → Packet → List Read → Received CanRx
unfolding can_byte
receive_can = receive_loop can_byte

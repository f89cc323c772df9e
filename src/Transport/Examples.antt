-- ===== src/Transport/Examples.antt =====
-- One packet on the wire, on a stream driver and on CAN.
use re_boot.Base.{
  ℕ, ◌≡◌, refl, List, [], ◌∷◌, ◌++◌, inl, arith, none, some, replicate, length, take,
}
use re_boot.Transport.{Packet, Read, received, comm_max_data, serial, can, tx}
use re_boot.Transport.{
  checked_part, parser_reset, can_parser_reset, transport_send, receive_stream, receive_can,
  receive_loop,
}
use re_boot.Crc.{iterate, crc16_bit, crc16_byte, crc16_loop, crc16_ccitt}
use re_boot.Transport.Frame.{delivered}
use re_boot.Transport.Inv.{
  IsStreamReceived, IsCanReceived, receive_stream-IsStreamReceived, receive_can-IsCanReceived,
}
use re_boot.Transport.RoundTrip.{receive_stream-transport_send}
use re_boot.Transport.CanFrame.{receive_can-transport_send}
use re_boot.Transport.Outcome.{SendOutcome, transport_send-SendOutcome}
use re_boot.Transport.Sound.{IsFramed, receive_stream-IsFramed}

-- CMD_TARGET_INFO_REQ with two bytes of data, and an empty packet to receive into.
abbrev request : Packet
request = record { command = 0x20; len = 2; bytes = 7 ∷ b':' ∷ replicate 62 0 }

abbrev blank : Packet
blank = record { command = 0; len = 0; bytes = replicate 64 0 }

-- The frame of `request`, behind a stray byte and a read that delivers nothing.
abbrev wire : List Read
wire = some 0 ∷ none ∷ delivered (b':' ∷ 0x20 ∷ 0 ∷ 2 ∷ 7 ∷ b':' ∷ 0x79 ∷ 0x56 ∷ []) ++ some 9 ∷ []

blank_size : length blank.bytes ≡ comm_max_data
blank_size = refl

request_size : length request.bytes ≡ comm_max_data
request_size = refl

receive_stream-transport_send_example :
    (frame : List ℕ) × (transport_send serial request ≡ tx serial frame)
    × ((out : List ℕ) × (take 2 out ≡ 7 ∷ b':' ∷ [])
        × (length out ≡ comm_max_data)
        × (receive_stream parser_reset blank (delivered ((9 ∷ []) ++ frame) ++ none ∷ []) ≡ record {
          ret = received 2;
          rx = parser_reset;
          pkt = record { command = 0x20; len = 2; bytes = out };
          rest = none ∷ [];
        }))
receive_stream-transport_send_example =
    receive_stream-transport_send serial request blank (9 ∷ []) (none ∷ []) (inl refl) (omega arith)
      request_size blank_size ((λ e. omega arith), tt)

receive_can-transport_send_example :
    (frame : List ℕ) × (transport_send can request ≡ tx serial frame)
    × ((out : List ℕ) × (take 2 out ≡ 7 ∷ b':' ∷ [])
        × (length out ≡ comm_max_data)
        × (receive_can can_parser_reset blank (delivered ((9 ∷ []) ++ frame) ++ none ∷ [])
            ≡ record {
              ret = received 2;
              rx = can_parser_reset;
              pkt = record { command = 0x20; len = 2; bytes = out };
              rest = none ∷ [];
            }))
receive_can-transport_send_example =
    receive_can-transport_send request blank (9 ∷ []) (none ∷ []) request_size blank_size
      ((λ e. omega arith), tt)

wire_is_received : (receive_stream parser_reset blank wire).ret ≡ received 2
unfolding receive_stream receive_loop checked_part crc16_ccitt crc16_loop crc16_byte iterate
    crc16_bit
wire_is_received = refl

receive_stream-IsFramed_example : IsFramed [] wire 2 (receive_stream parser_reset blank wire)
receive_stream-IsFramed_example =
    receive_stream-IsFramed blank wire 2 blank_size (ground arith) wire_is_received

receive_stream-IsStreamReceived_example : IsStreamReceived (
    receive_stream
      (record { state = 4; index = 1; len = 3; crc = 0 })
      (record blank { len = 3 })
      wire)
receive_stream-IsStreamReceived_example =
    receive_stream-IsStreamReceived (record { state = 4; index = 1; len = 3; crc = 0 })
      (record blank { len = 3 }) wire (ground arith)

receive_can-IsCanReceived_example :
    IsCanReceived
      (receive_can (record { state = 3; len = 8; index = 7 }) (record blank { len = 8 }) wire)
receive_can-IsCanReceived_example =
    receive_can-IsCanReceived (record { state = 3; len = 8; index = 7 }) (record blank { len = 8 })
      wire (ground arith)

-- The array is shorter than the guard of `transport_send` lets through.
transport_send-SendOutcome_example :
    SendOutcome serial
      (record request { len = 65 })
      (transport_send serial (record request { len = 65 }))
transport_send-SendOutcome_example =
    transport_send-SendOutcome serial (record request { len = 65 }) request_size

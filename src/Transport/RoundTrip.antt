-- ===== src/Transport/RoundTrip.antt =====
-- A packet that is sent on a stream driver is the packet that is received.
use Prim.Native.Nat.{bit_or}
use re_boot.Base.{ℕ, ◌*◌, ◌/◌, ◌%◌, ◌^◌, ◌≤◌, ◌<◌, ◌≡◌, ◌≢◌, refl, sym, ap, ◌∙◌}
use re_boot.Base.{◌==◌, if◌then◌else◌, some}
use re_boot.Base.{List, [], ◌∷◌, ◌++◌, length, take, arith, All, bit_and}
use re_boot.Base.{length-take, ◌⊎◌, append_assoc}
use re_boot.Base.Bits.{bit_or_fields, bit_and_mask}
use mathlib.Core.List.{map-append}
use re_boot.Crc.{crc16_ccitt}
use re_boot.Crc.Word16.{crc16_ccitt-lt}
use re_boot.Transport.{Packet, StreamRx, received, more, return, Read}
use re_boot.Transport.{stream_byte, parser_reset}
use re_boot.Transport.{checked_part, stream_frame, receive_stream, comm_max_data}
use re_boot.Transport.{start_byte, transport_send, serial, tcp, udp, tx}
use re_boot.Transport.Frame.{delivered, receive-more, receive-return, receive_skips, receive_data}

abbrev pub high_byte : ℕ → ℕ
high_byte n = bit_and (n / 2 ^ 8) 0xff

abbrev pub low_byte : ℕ → ℕ
low_byte n = bit_and n 0xff

abbrev sums_then : ℕ → List Read → List Read
sums_then crc reads = some (high_byte crc) ∷ some (low_byte crc) ∷ reads

-- The two bytes of a word, put together as the parser does.
bytes_of_word : (n : ℕ) → n < 2 ^ 16 → bit_or (high_byte n * 2 ^ 8 % 2 ^ 16) (low_byte n) ≡ n
bytes_of_word n h =
    let hi : high_byte n * 2 ^ 8 % 2 ^ 16 ≡ n / 2 ^ 8 * 2 ^ 8 =
      omega (arith, bit_and_mask 8 (n / 2 ^ 8)) in
    rw (hi, bit_and_mask 8 n) (omega (arith, bit_or_fields 8 (n / 2 ^ 8) (n % 2 ^ 8)))

abbrev pub header : ℕ → ℕ → List ℕ
header command len = start_byte ∷ command ∷ high_byte len ∷ low_byte len ∷ []

-- The parser and the packet at a point of a frame.
abbrev rx_at : ℕ → ℕ → StreamRx
rx_at state len = record { state = state; index = 0; len = len; crc = 0 }

cons≢nil : (b : ℕ) (bytes : List ℕ) → b ∷ bytes ≢ []
cons≢nil b bytes e = cc

module _ (command len : ℕ) (small : len ≤ comm_max_data) where
  abbrev headed : List ℕ → Packet
  headed bytes = record { command = command; len = len; bytes = bytes }

  length_byte_lem :
      (pkt : Packet)
      → stream_byte
          (rx_at 3 (high_byte len * 2 ^ 8 % 2 ^ 16))
          (record pkt { command = command })
          (low_byte len)
        ≡ more (rx_at (if len == 0 then 5 else 4) len) (headed pkt.bytes)
  unfolding stream_byte
  length_byte_lem pkt = ground (arith, bytes_of_word len)

  -- After the header the parser waits for the data, or for the checksum.
  receive_header :
      (pkt : Packet) (reads : List Read)
      → receive_stream parser_reset pkt (delivered (header command len) ++ reads)
        ≡ receive_stream (rx_at (if len == 0 then 5 else 4) len) (headed pkt.bytes) reads
  receive_header pkt reads =
      receive-more parser_reset (rx_at 1 0) pkt pkt start_byte _ (unfold stream_byte in refl)
      ∙ receive-more (rx_at 1 0) (rx_at 2 0) pkt (record pkt { command = command }) command _
          (unfold stream_byte in refl)
      ∙ receive-more (rx_at 2 0) (rx_at 3 (high_byte len * 2 ^ 8 % 2 ^ 16))
          (record pkt { command = command }) (record pkt { command = command }) (high_byte len) _
          (unfold stream_byte in refl)
      ∙ receive-more (rx_at 3 (high_byte len * 2 ^ 8 % 2 ^ 16))
          (rx_at (if len == 0 then 5 else 4) len) (record pkt { command = command })
          (headed pkt.bytes) (low_byte len) reads (length_byte_lem pkt)

  crc_byte_lem :
      (out : List ℕ) (index : ℕ)
      → length out ≡ comm_max_data
      → let crc = crc16_ccitt (checked_part command len (take len out)) in
        stream_byte
          (record { state = 6; index = index; len = len; crc = high_byte crc * 2 ^ 8 % 2 ^ 16 })
          (headed out)
          (low_byte crc)
        ≡ return (received len) parser_reset (headed out)
  unfolding stream_byte
  crc_byte_lem out index size =
      let crc = crc16_ccitt (checked_part command len (take len out)) in
      ground (arith, bytes_of_word crc (crc16_ccitt-lt (checked_part command len (take len out))))

  -- The checksum of what was received lets the frame pass.
  receive_trailer :
      (out : List ℕ) (index : ℕ) (reads : List Read)
      → length out ≡ comm_max_data
      → let crc = crc16_ccitt (checked_part command len (take len out)) in
        receive_stream
          (record { state = 5; index = index; len = len; crc = 0 })
          (headed out)
          (sums_then crc reads)
        ≡ record { ret = received len; rx = parser_reset; pkt = headed out; rest = reads }
  receive_trailer out index reads size =
      let crc = crc16_ccitt (checked_part command len (take len out)) in
      receive-more (record { state = 5; index = index; len = len; crc = 0 })
        (record { state = 6; index = index; len = len; crc = high_byte crc * 2 ^ 8 % 2 ^ 16 })
        (headed out) (headed out) (high_byte crc) (some (low_byte crc) ∷ reads)
        (unfold stream_byte in refl)
      ∙ receive-return
          (record { state = 6; index = index; len = len; crc = high_byte crc * 2 ^ 8 % 2 ^ 16 })
          parser_reset (headed out) (headed out) (received len) (low_byte crc) reads
          (crc_byte_lem out index size)

  trailer_of :
      (out bytes : List ℕ) (index : ℕ) (reads : List Read)
      → take len out ≡ bytes
      → length out ≡ comm_max_data
      → let crc = crc16_ccitt (checked_part command len bytes) in
        receive_stream
          (record { state = 5; index = index; len = len; crc = 0 })
          (headed out)
          (sums_then crc reads)
        ≡ record { ret = received len; rx = parser_reset; pkt = headed out; rest = reads }
  trailer_of out bytes index reads taken size = rw (← taken) (receive_trailer out index reads size)

  -- The data and the checksum, from the state that the header leaves.
  receive_body :
      (bytes : List ℕ) (pkt : Packet) (reads : List Read)
      → length bytes ≡ len
      → length pkt.bytes ≡ comm_max_data
      → let crc = crc16_ccitt (checked_part command len bytes) in
        (out : List ℕ) × (take len out ≡ bytes)
        × (length out ≡ comm_max_data)
        × (receive_stream
              (rx_at (if len == 0 then 5 else 4) len)
              (headed pkt.bytes)
              (delivered bytes ++ sums_then crc reads)
            ≡ record { ret = received len; rx = parser_reset; pkt = headed out; rest = reads })
  receive_body [] pkt reads e size =
      let crc = crc16_ccitt (checked_part command len []) in
      let empty : take len pkt.bytes ≡ [] = ap (λ n. take n pkt.bytes) (sym e) in
      let state : ◌≡◌ {A = ℕ} (if len == 0 then 5 else 4) 5 = ground arith in
      let sums = delivered (high_byte crc ∷ low_byte crc ∷ []) ++ reads in
      (
        pkt.bytes,
        empty,
        size,
        ap (λ s. receive_stream (rx_at s len) (headed pkt.bytes) sums) state
            ∙ trailer_of pkt.bytes [] 0 reads empty size,
      )
  receive_body (b ∷ bytes) pkt reads e size =
      let crc = crc16_ccitt (checked_part command len (b ∷ bytes)) in
      let sums = sums_then crc reads in
      let state : ◌≡◌ {A = ℕ} (if len == 0 then 5 else 4) 4 = ground arith in
      let (out, taken, out_size, run) =
        receive_data (b ∷ bytes) (rx_at 4 len) (headed pkt.bytes) sums refl (cons≢nil b bytes)
          (omega arith) small size in
      (
        out,
        taken,
        out_size,
        ap (λ s. receive_stream (rx_at s len) (headed pkt.bytes) (delivered (b ∷ bytes) ++ sums))
              state
            ∙ run
            ∙ trailer_of out (b ∷ bytes) len reads taken out_size,
      )

frame_reads :
    (junk : List ℕ) (command len : ℕ) (bytes : List ℕ) (reads : List Read)
    → delivered (junk ++ stream_frame command len bytes) ++ reads
      ≡ delivered junk
        ++ (delivered (header command len)
            ++ (delivered bytes ++ sums_then (crc16_ccitt (checked_part command len bytes)) reads))
unfolding stream_frame
frame_reads junk command len bytes reads = simp (map-append, append_assoc)

-- A frame that arrives whole, behind any bytes that are no start byte, is received: the call
-- returns its length, the packet has its command, length and data, the parser is reset, and no
-- read behind the frame is made.
pub receive_stream-stream_frame :
    (junk : List ℕ) (command len : ℕ) (bytes : List ℕ) (pkt : Packet) (reads : List Read)
    → All (λ b. b ≢ start_byte) junk
    → len ≤ comm_max_data
    → length bytes ≡ len
    → length pkt.bytes ≡ comm_max_data
    → (out : List ℕ) × (take len out ≡ bytes)
      × (length out ≡ comm_max_data)
      × (receive_stream parser_reset pkt
            (delivered (junk ++ stream_frame command len bytes) ++ reads)
          ≡ record {
            ret = received len;
            rx = parser_reset;
            pkt = record { command = command; len = len; bytes = out };
            rest = reads;
          })
receive_stream-stream_frame junk command len bytes pkt reads h small e size =
    let crc = crc16_ccitt (checked_part command len bytes) in
    let sums = sums_then crc reads in
    let (out, taken, out_size, run) = receive_body command len small bytes pkt reads e size in
    (
      out,
      taken,
      out_size,
      ap (receive_stream parser_reset pkt) (frame_reads junk command len bytes reads)
          ∙ receive_skips junk pkt (delivered (header command len) ++ (delivered bytes ++ sums)) h
          ∙ receive_header command len small pkt (delivered bytes ++ sums)
          ∙ run,
    )

abbrev pub IsStreamDriver : ℕ → Type 0
IsStreamDriver driver = (driver ≡ serial) ⊎ ((driver ≡ tcp) ⊎ (driver ≡ udp))

sends_frame :
    (driver : ℕ) (pkt : Packet)
    → IsStreamDriver driver
    → pkt.len ≤ comm_max_data
    → length pkt.bytes ≡ comm_max_data
    → transport_send driver pkt
      ≡ tx driver (stream_frame pkt.command pkt.len (take pkt.len pkt.bytes))
unfolding transport_send
sends_frame driver pkt s small size = ground arith

-- A packet whose length fits its array is put into one frame by `transport_send` on the serial, TCP
-- and UDP drivers, and `transport_receive`, when that frame arrives behind any bytes that are no
-- start byte, returns the packet's length, command and data with the parser reset, and makes no
-- read behind the frame.
pub receive_stream-transport_send :
    (driver : ℕ) (sent pkt : Packet) (junk : List ℕ) (reads : List Read)
    → IsStreamDriver driver
    → sent.len ≤ comm_max_data
    → length sent.bytes ≡ comm_max_data
    → length pkt.bytes ≡ comm_max_data
    → All (λ b. b ≢ start_byte) junk
    → (frame : List ℕ) × (transport_send driver sent ≡ tx driver frame)
      × ((out : List ℕ) × (take sent.len out ≡ take sent.len sent.bytes)
          × (length out ≡ comm_max_data)
          × (receive_stream parser_reset pkt (delivered (junk ++ frame) ++ reads) ≡ record {
            ret = received sent.len;
            rx = parser_reset;
            pkt = record { command = sent.command; len = sent.len; bytes = out };
            rest = reads;
          }))
receive_stream-transport_send driver sent pkt junk reads s small sent_size size h = (
  stream_frame sent.command sent.len (take sent.len sent.bytes),
  sends_frame driver sent s small sent_size,
  receive_stream-stream_frame junk sent.command sent.len (take sent.len sent.bytes) pkt reads h
      small (omega (arith, length-take {0} sent.len sent.bytes)) size,
)

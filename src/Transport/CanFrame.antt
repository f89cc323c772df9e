-- ===== src/Transport/CanFrame.antt =====
-- The frame of CAN over the serial adapter: at most eight bytes of the packet go through.
use re_boot.Base.{ℕ, suc, ◌+◌, ◌≤◌, ◌<◌, ◌≡◌, ◌≢◌, refl, sym, ap, ◌∙◌, min}
use re_boot.Base.{some, length-take}
use re_boot.Base.{
  List, [], ◌∷◌, ◌++◌, length, set, take, arith, All, length-set, take-set, append_assoc,
}
use mathlib.Core.List.{map-append}
use re_boot.Transport.{Packet, CanRx, received, more, return, Read, Received, can, serial, tx}
use re_boot.Transport.{
  can_byte, can_parser_reset, receive_can, receive_loop, comm_max_data, can_max_payload,
}
use re_boot.Transport.{start_byte, transport_send}
use re_boot.Transport.Loop.{loop-more, loop-return}
use re_boot.Transport.Frame.{delivered, with_bytes}

skip_can_byte :
    (byte : ℕ) (pkt : Packet)
    → byte ≢ start_byte
    → can_byte can_parser_reset pkt byte ≡ more can_parser_reset pkt
unfolding can_byte
skip_can_byte byte pkt h = ground arith

can_skips :
    (junk : List ℕ) (pkt : Packet) (reads : List Read)
    → All (λ b. b ≢ start_byte) junk
    → receive_loop can_byte can_parser_reset pkt (delivered junk ++ reads)
      ≡ receive_loop can_byte can_parser_reset pkt reads
can_skips [] pkt reads h = refl
can_skips (byte ∷ junk) pkt reads h =
    loop-more can_byte can_parser_reset can_parser_reset pkt pkt byte (delivered junk ++ reads)
      (skip_can_byte byte pkt h.0)
    ∙ can_skips junk pkt reads h.1

abbrev can_at : ℕ → ℕ → ℕ → CanRx
can_at state len index = record { state = state; len = len; index = index }

-- A data byte that is not the last, and the last one.
can_data_more :
    (len index : ℕ) (pkt : Packet) (byte : ℕ)
    → index + 1 < len
    → len ≤ can_max_payload
    → length pkt.bytes ≡ comm_max_data
    → can_byte (can_at 3 len index) pkt byte
      ≡ more (can_at 3 len (suc index)) (with_bytes pkt (set pkt.bytes index byte))
unfolding can_byte
can_data_more len index pkt byte lt fits size = ground arith

can_data_last :
    (len index : ℕ) (pkt : Packet) (byte : ℕ)
    → suc index ≡ len
    → len ≤ can_max_payload
    → length pkt.bytes ≡ comm_max_data
    → can_byte (can_at 3 len index) pkt byte
      ≡ return (received len) can_parser_reset (with_bytes pkt (set pkt.bytes index byte))
unfolding can_byte
can_data_last len index pkt byte lt fits size = ground arith

-- What a call leaves that received `len` bytes into the array `out`.
abbrev got : ℕ → Packet → List ℕ → List Read → Received CanRx
got len pkt out reads = record {
  ret = received len;
  rx = can_parser_reset;
  pkt = with_bytes pkt out;
  rest = reads;
}

can_receive_data :
    (bytes : List ℕ) (len index : ℕ) (pkt : Packet) (reads : List Read)
    → bytes ≢ []
    → index + length bytes ≡ len
    → len ≤ can_max_payload
    → length pkt.bytes ≡ comm_max_data
    → (out : List ℕ) × (take len out ≡ take index pkt.bytes ++ bytes)
      × (length out ≡ comm_max_data)
      × (receive_loop can_byte (can_at 3 len index) pkt (delivered bytes ++ reads)
          ≡ got len pkt out reads)
can_receive_data [] len index pkt reads ne e fits size = absurd (ne refl)
can_receive_data (byte ∷ []) len index pkt reads ne e fits size =
    let out = set pkt.bytes index byte in
    let last : suc index ≡ len = omega arith in
    (
      out,
      ap (λ n. take n out) (sym last) ∙ take-set pkt.bytes index byte (omega arith),
      length-set pkt.bytes index byte ∙ size,
      loop-return can_byte (can_at 3 len index) can_parser_reset pkt (with_bytes pkt out)
          (received len) byte reads (can_data_last len index pkt byte last fits size),
    )
can_receive_data (byte ∷ b ∷ bytes) len index pkt reads ne e fits size =
    let mid = set pkt.bytes index byte in
    let (out, taken, out_size, rest) =
      can_receive_data (b ∷ bytes) len (suc index) (with_bytes pkt mid) reads (λ eq. cc)
        (omega arith) fits (length-set pkt.bytes index byte ∙ size) in
    (
      out,
      taken
          ∙ ap (λ (t : List ℕ). t ++ b ∷ bytes) (take-set pkt.bytes index byte (omega arith))
          ∙ append_assoc (take index pkt.bytes) (byte ∷ []) (b ∷ bytes),
      out_size,
      loop-more can_byte (can_at 3 len index) (can_at 3 len (suc index)) pkt (with_bytes pkt mid)
            byte (delivered (b ∷ bytes) ++ reads)
            (can_data_more len index pkt byte (omega arith) fits size)
          ∙ rest,
    )

abbrev can_header : ℕ → ℕ → List ℕ
can_header command n = start_byte ∷ command ∷ n ∷ []

abbrev headed : ℕ → ℕ → Packet → Packet
headed command n pkt = record { command = command; len = n; bytes = pkt.bytes }

-- The length byte of a frame without data, and of one with data.
length_zero :
    (command : ℕ) (pkt : Packet)
    → can_byte (can_at 2 0 0) (record pkt { command = command }) 0
      ≡ return (received 0) can_parser_reset (headed command 0 pkt)
unfolding can_byte
length_zero command pkt = refl

length_some :
    (command n : ℕ) (pkt : Packet)
    → n ≢ 0
    → n ≤ can_max_payload
    → can_byte (can_at 2 0 0) (record pkt { command = command }) n
      ≡ more (can_at 3 n 0) (headed command n pkt)
unfolding can_byte
length_some command n pkt ne fits = ground arith

-- The start byte and the command.
can_opens :
    (command : ℕ) (pkt : Packet) (reads : List Read)
    → receive_loop can_byte can_parser_reset pkt (some start_byte ∷ some command ∷ reads)
      ≡ receive_loop can_byte (can_at 2 0 0) (record pkt { command = command }) reads
can_opens command pkt reads =
    loop-more can_byte can_parser_reset (can_at 1 0 0) pkt pkt start_byte (some command ∷ reads)
      (unfold can_byte in refl)
    ∙ loop-more can_byte (can_at 1 0 0) (can_at 2 0 0) pkt (record pkt { command = command })
        command reads (unfold can_byte in refl)

can_receive :
    (command : ℕ) (bytes : List ℕ) (pkt : Packet) (reads : List Read)
    → length bytes ≤ can_max_payload
    → length pkt.bytes ≡ comm_max_data
    → (out : List ℕ) × (take (length bytes) out ≡ bytes)
      × (length out ≡ comm_max_data)
      × (receive_loop can_byte can_parser_reset pkt
            (delivered (can_header command (length bytes)) ++ (delivered bytes ++ reads))
          ≡ got (length bytes) (headed command (length bytes) pkt) out reads)
can_receive command [] pkt reads fits size = (
  pkt.bytes,
  refl,
  size,
  can_opens command pkt (some 0 ∷ reads)
      ∙ loop-return can_byte (can_at 2 0 0) can_parser_reset (record pkt { command = command })
          (headed command 0 pkt) (received 0) 0 reads (length_zero command pkt),
)
can_receive command (b ∷ bytes) pkt reads fits size =
    let n = length (b ∷ bytes) in
    let (out, taken, out_size, run) =
      can_receive_data (b ∷ bytes) n 0 (headed command n pkt) reads (λ eq. cc) (omega arith) fits
        size in
    (
      out,
      taken,
      out_size,
      can_opens command pkt (some n ∷ (delivered (b ∷ bytes) ++ reads))
          ∙ loop-more can_byte (can_at 2 0 0) (can_at 3 n 0) (record pkt { command = command })
              (headed command n pkt) n (delivered (b ∷ bytes) ++ reads)
              (length_some command n pkt (omega arith) fits)
          ∙ run,
    )

sends_can_frame :
    (sent : Packet) (n : ℕ)
    → n ≡ min sent.len can_max_payload
    → length sent.bytes ≡ comm_max_data
    → transport_send can sent ≡ tx serial (can_header sent.command n ++ take n sent.bytes)
unfolding transport_send
sends_can_frame sent n e size = rw e (ground arith)

can_frame_reads :
    (junk header bytes : List ℕ) (reads : List Read)
    → delivered (junk ++ (header ++ bytes)) ++ reads
      ≡ delivered junk ++ (delivered header ++ (delivered bytes ++ reads))
can_frame_reads junk header bytes reads = simp (map-append, append_assoc)

-- On CAN a packet is cut down to its first 8 data bytes, if it has more, and put into one frame;
-- `transport_receive`, when that frame arrives behind any bytes that are no start byte, returns the
-- number of those bytes, with the command and those bytes in the packet and the parser reset, and
-- makes no read behind the frame.
pub receive_can-transport_send :
    (sent pkt : Packet) (junk : List ℕ) (reads : List Read)
    → length sent.bytes ≡ comm_max_data
    → length pkt.bytes ≡ comm_max_data
    → All (λ b. b ≢ start_byte) junk
    → let n = min sent.len can_max_payload in
      (frame : List ℕ) × (transport_send can sent ≡ tx serial frame)
      × ((out : List ℕ) × (take n out ≡ take n sent.bytes)
          × (length out ≡ comm_max_data)
          × (receive_can can_parser_reset pkt (delivered (junk ++ frame) ++ reads) ≡ record {
            ret = received n;
            rx = can_parser_reset;
            pkt = record { command = sent.command; len = n; bytes = out };
            rest = reads;
          }))
unfolding receive_can
receive_can-transport_send sent pkt junk reads sent_size size h =
    let n = min sent.len can_max_payload in
    let bytes = take n sent.bytes in
    let counted : length bytes ≡ n = omega (arith, length-take {0} n sent.bytes) in
    let (out, taken, out_size, run) = can_receive sent.command bytes pkt reads (omega arith) size in
    let result : ℕ → Received CanRx = λ k. got k (headed sent.command k pkt) out reads in
    (
      can_header sent.command n ++ bytes,
      sends_can_frame sent n refl sent_size,
      (
        out,
        ap (λ k. take k out) (sym counted) ∙ taken,
        out_size,
        ap (receive_loop can_byte can_parser_reset pkt)
              (can_frame_reads junk (can_header sent.command n) bytes reads)
            ∙ can_skips junk pkt
                (delivered (can_header sent.command n) ++ (delivered bytes ++ reads)) h
            ∙ ap
                (λ k.
                  receive_loop can_byte can_parser_reset pkt
                    (delivered (can_header sent.command k) ++ (delivered bytes ++ reads)))
                (sym counted)
            ∙ run
            ∙ ap result counted,
      ),
    )

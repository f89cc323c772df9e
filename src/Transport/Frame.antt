-- ===== src/Transport/Frame.antt =====
-- What `transport_send` writes is what `transport_receive` reads: the stream frame.
use re_boot.Base.{ℕ, suc, ◌+◌, ◌≤◌, ◌<◌, ◌≡◌, ◌≢◌, refl, ap, ◌∙◌}
use re_boot.Base.{◌==◌, if◌then◌else◌, some}
use re_boot.Base.{List, [], ◌∷◌, ◌++◌, length, set, take, map, arith, All}
use re_boot.Base.{length-set, take-set, append_assoc}
use re_boot.Transport.{Ret, Packet, StreamRx, more, return, Read}
use re_boot.Transport.{stream_byte, parser_reset}
use re_boot.Transport.{receive_stream, comm_max_data}
use re_boot.Transport.{start_byte}
use re_boot.Transport.Loop.{loop-more, loop-return}

abbrev pub delivered : List ℕ → List Read
delivered = map some

-- A byte after which the parser goes on.
pub receive-more :
    (rx rx' : StreamRx) (pkt pkt' : Packet) (byte : ℕ) (reads : List Read)
    → stream_byte rx pkt byte ≡ more rx' pkt'
    → receive_stream rx pkt (some byte ∷ reads) ≡ receive_stream rx' pkt' reads
unfolding receive_stream
receive-more = loop-more stream_byte

-- A byte at which the call returns.
pub receive-return :
    (rx rx' : StreamRx) (pkt pkt' : Packet) (ret : Ret) (byte : ℕ) (reads : List Read)
    → stream_byte rx pkt byte ≡ return ret rx' pkt'
    → receive_stream rx pkt (some byte ∷ reads)
      ≡ record { ret = ret; rx = rx'; pkt = pkt'; rest = reads }
unfolding receive_stream
receive-return = loop-return stream_byte

-- Bytes before the start byte are passed over.
skip_byte :
    (byte : ℕ) (pkt : Packet)
    → byte ≢ start_byte
    → stream_byte parser_reset pkt byte ≡ more parser_reset pkt
unfolding stream_byte
skip_byte byte pkt h = ground arith

pub receive_skips :
    (junk : List ℕ) (pkt : Packet) (reads : List Read)
    → All (λ b. b ≢ start_byte) junk
    → receive_stream parser_reset pkt (delivered junk ++ reads)
      ≡ receive_stream parser_reset pkt reads
receive_skips [] pkt reads h = refl
receive_skips (byte ∷ junk) pkt reads h =
    receive-more parser_reset parser_reset pkt pkt byte (delivered junk ++ reads)
      (skip_byte byte pkt h.0)
    ∙ receive_skips junk pkt reads h.1

-- One data byte, the last or another.
pub data_byte_lem :
    (rx : StreamRx) (pkt : Packet) (byte : ℕ)
    → rx.state ≡ 4
    → rx.index < rx.len
    → rx.len ≤ comm_max_data
    → length pkt.bytes ≡ comm_max_data
    → stream_byte rx pkt byte
      ≡ more
          (record rx { state = if rx.index + 1 == rx.len then 5 else 4; index = rx.index + 1 })
          (record pkt { bytes = set pkt.bytes rx.index byte })
unfolding stream_byte
data_byte_lem rx pkt byte s lt fits size = ground arith

-- What the parser and the packet are when the data phase ends with the array `out`.
abbrev pub filled : StreamRx → StreamRx
filled rx = record rx { state = 5; index = rx.len }

abbrev pub with_bytes : Packet → List ℕ → Packet
with_bytes pkt out = record pkt { bytes = out }

-- The data phase: the bytes go into the array one after the other.
pub receive_data :
    (bytes : List ℕ) (rx : StreamRx) (pkt : Packet) (reads : List Read)
    → rx.state ≡ 4
    → bytes ≢ []
    → rx.index + length bytes ≡ rx.len
    → rx.len ≤ comm_max_data
    → length pkt.bytes ≡ comm_max_data
    → (out : List ℕ) × (take rx.len out ≡ take rx.index pkt.bytes ++ bytes)
      × (length out ≡ comm_max_data)
      × (receive_stream rx pkt (delivered bytes ++ reads)
          ≡ receive_stream (filled rx) (with_bytes pkt out) reads)
receive_data [] rx pkt reads s ne e fits size = absurd (ne refl)
receive_data (byte ∷ []) rx pkt reads s ne e fits size =
    let out = set pkt.bytes rx.index byte in
    let last : rx.len ≡ suc rx.index = omega arith in
    (
      out,
      ap (λ n. take n out) last ∙ take-set pkt.bytes rx.index byte (omega arith),
      length-set pkt.bytes rx.index byte ∙ size,
      receive-more rx (filled rx) pkt (with_bytes pkt out) byte reads
          (ground (arith, data_byte_lem rx pkt byte)),
    )
receive_data (byte ∷ b ∷ bytes) rx pkt reads s ne e fits size =
    let mid = set pkt.bytes rx.index byte in
    let rx' : StreamRx = record rx { index = suc rx.index } in
    let (out, taken, out_size, rest) =
      receive_data (b ∷ bytes) rx' (with_bytes pkt mid) reads s (λ eq. cc) (omega arith) fits
        (length-set pkt.bytes rx.index byte ∙ size) in
    (
      out,
      taken
          ∙ ap (λ (t : List ℕ). t ++ b ∷ bytes) (take-set pkt.bytes rx.index byte (omega arith))
          ∙ append_assoc (take rx.index pkt.bytes) (byte ∷ []) (b ∷ bytes),
      out_size,
      receive-more rx rx' pkt (with_bytes pkt mid) byte (delivered (b ∷ bytes) ++ reads)
            (ground (arith, data_byte_lem rx pkt byte))
          ∙ rest,
    )

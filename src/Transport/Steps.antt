-- ===== src/Transport/Steps.antt =====
-- What each byte adds to the frame that the serial, TCP and UDP parser has seen.
use Prim.Native.Nat.{bit_or}
use re_boot.Base.{ℕ, zero, suc, ◌+◌, ◌*◌, ◌/◌, ◌%◌, ◌^◌, ◌≤◌, ◌<◌, ◌≡◌, ◌≢◌, refl, sym, ap, ◌∙◌}
use re_boot.Base.{ap₂, ne→==, ℕ_discrete, dec_lt, Bool-cases, ◌==◌, if◌then◌else◌}
use re_boot.Base.{List, [], ◌∷◌, ◌++◌, length, set, take, arith, inl, inr, ◌⊎◌}
use re_boot.Base.{take-set, append_assoc}
use re_boot.Base.Bits.{bit_or_fields, bit_and_mask}
use re_boot.Crc.{crc16_ccitt}
use re_boot.Crc.Word16.{IsByte}
use re_boot.Transport.{Packet, StreamRx, received, bad_crc, Step, more, return}
use re_boot.Transport.{stream_byte, parser_reset}
use re_boot.Transport.{checked_part, stream_frame, comm_max_data}
use re_boot.Transport.{start_byte, bad_length}
use re_boot.Transport.Inv.{IsStreamRx}
use re_boot.Transport.Frame.{data_byte_lem}
use re_boot.Transport.RoundTrip.{header, high_byte, low_byte}

-- The bytes since the start byte, as far as the parser remembers them.
abbrev pub seen : ℕ → StreamRx → Packet → List ℕ
seen zero rx pkt = []
seen (suc zero) rx pkt = start_byte ∷ []
seen (suc (suc zero)) rx pkt = start_byte ∷ pkt.command ∷ []
seen (suc (suc (suc zero))) rx pkt = start_byte ∷ pkt.command ∷ rx.len / 2 ^ 8 ∷ []
seen (suc (suc (suc (suc zero)))) rx pkt = header pkt.command pkt.len ++ take rx.index pkt.bytes
seen (suc (suc (suc (suc (suc zero))))) rx pkt =
    header pkt.command pkt.len ++ take pkt.len pkt.bytes
seen (suc (suc (suc (suc (suc (suc s)))))) rx pkt =
    header pkt.command pkt.len ++ (take pkt.len pkt.bytes ++ rx.crc / 2 ^ 8 ∷ [])

-- What is known besides of the words that the parser is putting together.
pub record IsHalf (rx : StreamRx) (pkt : Packet) : Type 0 where
  pub half_len : rx.state ≡ 3 → rx.len % 2 ^ 8 ≡ 0
  pub len_lt : rx.state ≡ 3 → rx.len < 2 ^ 16
  pub half_crc : rx.state ≡ 6 → rx.crc % 2 ^ 8 ≡ 0
  pub crc_lt : rx.state ≡ 6 → rx.crc < 2 ^ 16

-- A byte extends what was seen, or it is passed over in state 0, or it ends a frame.
abbrev pub Extends : StreamRx → Packet → ℕ → Step StreamRx → Type 0
Extends rx pkt byte (more rx' pkt') =
    IsHalf rx' pkt'
    × ((seen rx'.state rx' pkt' ≡ seen rx.state rx pkt ++ byte ∷ [])
        ⊎ ((rx.state ≡ 0) × (rx'.state ≡ 0) × (byte ≢ start_byte)))
Extends rx pkt byte (return (received n) rx' pkt') =
    (n ≡ pkt'.len)
    × (seen rx.state rx pkt ++ byte ∷ []
        ≡ stream_frame pkt'.command pkt'.len (take pkt'.len pkt'.bytes))
Extends rx pkt byte (return ret rx' pkt') = Unit {0}

abbrev rx_of : ℕ → ℕ → ℕ → ℕ → StreamRx
rx_of state index len crc = record { state = state; index = index; len = len; crc = crc }

-- A low byte joins the high byte that stands above it.
join_low :
    (w byte : ℕ)
    → w % 2 ^ 8 ≡ 0
    → w < 2 ^ 16
    → IsByte byte
    → (bit_or w byte ≡ w + byte) × (high_byte (w + byte) ≡ w / 2 ^ 8) × (low_byte (w + byte) ≡ byte)
join_low w byte h lt hb = (
  (let parts : w ≡ w / 2 ^ 8 * 2 ^ 8 = omega arith in
      ap (λ (t : ℕ). bit_or t byte) parts ∙ bit_or_fields 8 (w / 2 ^ 8) byte hb ∙ omega arith),
  omega (arith, bit_and_mask 8 ((w + byte) / 2 ^ 8)),
  omega (arith, bit_and_mask 8 (w + byte)),
)

before_length-Extends :
    (state index len crc : ℕ) (pkt : Packet) (byte : ℕ)
    → state < 3
    → IsByte byte
    → Extends
        (rx_of state index len crc)
        pkt
        byte
        (stream_byte (rx_of state index len crc) pkt byte)
unfolding stream_byte
before_length-Extends zero index len crc pkt byte lt hb = ground arith
before_length-Extends (suc zero) index len crc pkt byte lt hb = ground arith
before_length-Extends (suc (suc zero)) index len crc pkt byte lt hb = ground arith
before_length-Extends (suc (suc (suc s))) index len crc pkt byte lt hb = absurd (omega arith)

-- The two outcomes of state 3.
length_long :
    (index len crc : ℕ) (pkt : Packet) (byte : ℕ)
    → comm_max_data < bit_or len byte
    → stream_byte (rx_of 3 index len crc) pkt byte ≡ return bad_length parser_reset pkt
unfolding stream_byte
length_long index len crc pkt byte lt = ground arith

length_fits :
    (index len crc : ℕ) (pkt : Packet) (byte n : ℕ)
    → bit_or len byte ≡ n
    → n ≤ comm_max_data
    → stream_byte (rx_of 3 index len crc) pkt byte
      ≡ more (rx_of (if n == 0 then 5 else 4) 0 n crc) (record pkt { len = n })
unfolding stream_byte
length_fits index len crc pkt byte n e le = ground arith

length_seen :
    (index len crc : ℕ) (pkt : Packet) (byte n : ℕ)
    → high_byte n ≡ len / 2 ^ 8
    → low_byte n ≡ byte
    → Extends
        (rx_of 3 index len crc)
        pkt
        byte
        (more (rx_of (if n == 0 then 5 else 4) 0 n crc) (record pkt { len = n }))
length_seen index len crc pkt byte zero hi lo =
    (ground arith, inl (ap₂ (λ a b. start_byte ∷ pkt.command ∷ a ∷ b ∷ []) hi lo))
length_seen index len crc pkt byte (suc n) hi lo =
    rw (ne→== (suc n) 0 (omega arith))
      (ground arith, inl (ap₂ (λ a b. start_byte ∷ pkt.command ∷ a ∷ b ∷ []) hi lo))

length-Extends :
    (index len crc : ℕ) (pkt : Packet) (byte : ℕ)
    → len % 2 ^ 8 ≡ 0
    → len < 2 ^ 16
    → IsByte byte
    → Extends (rx_of 3 index len crc) pkt byte (stream_byte (rx_of 3 index len crc) pkt byte)
length-Extends index len crc pkt byte h lt hb =
    let (joined, hi, lo) = join_low len byte h lt hb in
    elim (dec_lt comm_max_data (bit_or len byte)) [
      | yes long ↦ rw (length_long index len crc pkt byte long) tt
      | no fits ↦
          rw (length_fits index len crc pkt byte (len + byte) joined (omega arith))
            (length_seen index len crc pkt byte (len + byte) hi lo)
    ]

-- State 4.
data-Extends :
    (index len crc : ℕ) (pkt : Packet) (byte : ℕ)
    → IsStreamRx (rx_of 4 index len crc) pkt
    → Extends (rx_of 4 index len crc) pkt byte (stream_byte (rx_of 4 index len crc) pkt byte)
data-Extends index len crc pkt byte v =
    let lt : index < len = (v.index_in refl).0 in
    let fits : len ≤ comm_max_data = (v.index_in refl).1 in
    let same : len ≡ pkt.len = (v.len_in (omega arith)).0 in
    let written = take-set pkt.bytes index byte (omega (arith, v.array)) in
    let grown : (n : ℕ)
        → n ≡ suc index
        → header pkt.command pkt.len ++ take n (set pkt.bytes index byte)
          ≡ (header pkt.command pkt.len ++ take index pkt.bytes) ++ byte ∷ [] =
      λ n e.
        ap (λ (t : List ℕ). header pkt.command pkt.len ++ t)
          (ap (λ n. take n (set pkt.bytes index byte)) e ∙ written) in
    rw (data_byte_lem (rx_of 4 index len crc) pkt byte refl lt fits v.array)
      (elim (Bool-cases (index + 1 == len)) [
        | inl last ↦ rw last (ground arith, inl (grown pkt.len (ground arith)))
        | inr other ↦ rw other (ground arith, inl (grown (index + 1) (omega arith)))
      ])

-- States 5 and 6.
high_crc-Extends :
    (index len crc : ℕ) (pkt : Packet) (byte : ℕ)
    → IsByte byte
    → Extends (rx_of 5 index len crc) pkt byte (stream_byte (rx_of 5 index len crc) pkt byte)
unfolding stream_byte
high_crc-Extends index len crc pkt byte hb = (
  ground arith,
  inl (
      ap (λ (t : ℕ). header pkt.command pkt.len ++ (take pkt.len pkt.bytes ++ t ∷ []))
        (omega arith)),
)

crc_differs :
    (index len crc : ℕ) (pkt : Packet) (byte : ℕ)
    → pkt.len ≤ length pkt.bytes
    → crc16_ccitt (checked_part pkt.command pkt.len (take pkt.len pkt.bytes)) ≢ bit_or crc byte
    → stream_byte (rx_of 6 index len crc) pkt byte ≡ return bad_crc parser_reset pkt
unfolding stream_byte
crc_differs index len crc pkt byte fits ne = ground arith

crc_agrees :
    (index len crc : ℕ) (pkt : Packet) (byte : ℕ)
    → pkt.len ≤ length pkt.bytes
    → crc16_ccitt (checked_part pkt.command pkt.len (take pkt.len pkt.bytes)) ≡ bit_or crc byte
    → stream_byte (rx_of 6 index len crc) pkt byte ≡ return (received pkt.len) parser_reset pkt
unfolding stream_byte
crc_agrees index len crc pkt byte fits e = ground arith

-- The frame of which all but the low byte of the checksum was seen.
frame_seen :
    (crc : ℕ) (pkt : Packet) (byte : ℕ)
    → let sum = crc16_ccitt (checked_part pkt.command pkt.len (take pkt.len pkt.bytes)) in
      high_byte sum ≡ crc / 2 ^ 8
      → low_byte sum ≡ byte
      → (header pkt.command pkt.len ++ (take pkt.len pkt.bytes ++ crc / 2 ^ 8 ∷ [])) ++ byte ∷ []
        ≡ stream_frame pkt.command pkt.len (take pkt.len pkt.bytes)
unfolding stream_frame
frame_seen crc pkt byte hi lo =
    ap (λ (t : List ℕ). header pkt.command pkt.len ++ t)
      (append_assoc (take pkt.len pkt.bytes) (crc / 2 ^ 8 ∷ []) (byte ∷ [])
        ∙ ap₂ (λ a b. take pkt.len pkt.bytes ++ a ∷ b ∷ []) (sym hi) (sym lo))

low_crc-Extends :
    (index len crc : ℕ) (pkt : Packet) (byte : ℕ)
    → pkt.len ≤ length pkt.bytes
    → crc % 2 ^ 8 ≡ 0
    → crc < 2 ^ 16
    → IsByte byte
    → Extends (rx_of 6 index len crc) pkt byte (stream_byte (rx_of 6 index len crc) pkt byte)
low_crc-Extends index len crc pkt byte fits h lt hb =
    let (joined, hi, lo) = join_low crc byte h lt hb in
    let sum = crc16_ccitt (checked_part pkt.command pkt.len (take pkt.len pkt.bytes)) in
    elim (ℕ_discrete sum (bit_or crc byte)) [
      | yes e ↦ rw (crc_agrees index len crc pkt byte fits e) (
        refl,
        frame_seen crc pkt byte (ap high_byte (e ∙ joined) ∙ hi) (ap low_byte (e ∙ joined) ∙ lo),
      )
      | no ne ↦ rw (crc_differs index len crc pkt byte fits ne) tt
    ]

pub stream_byte-Extends :
    (state index len crc : ℕ) (pkt : Packet) (byte : ℕ)
    → IsStreamRx (rx_of state index len crc) pkt
    → IsHalf (rx_of state index len crc) pkt
    → IsByte byte
    → Extends
        (rx_of state index len crc)
        pkt
        byte
        (stream_byte (rx_of state index len crc) pkt byte)
stream_byte-Extends zero i n c pkt b v half hb =
    before_length-Extends 0 i n c pkt b (omega arith) hb
stream_byte-Extends (suc zero) i n c pkt b v half hb =
    before_length-Extends 1 i n c pkt b (omega arith) hb
stream_byte-Extends (suc (suc zero)) i n c pkt b v half hb =
    before_length-Extends 2 i n c pkt b (omega arith) hb
stream_byte-Extends (suc (suc (suc zero))) i n c pkt b v half hb =
    length-Extends i n c pkt b (half.half_len refl) (half.len_lt refl) hb
stream_byte-Extends (suc (suc (suc (suc zero)))) i n c pkt b v half hb = data-Extends i n c pkt b v
stream_byte-Extends (suc (suc (suc (suc (suc zero))))) i n c pkt b v half hb =
    high_crc-Extends i n c pkt b hb
stream_byte-Extends (suc (suc (suc (suc (suc (suc zero)))))) i n c pkt b v half hb =
    low_crc-Extends i n c pkt b (omega (arith, v.array, v.len_in (omega arith)))
      (half.half_crc refl) (half.crc_lt refl) hb
stream_byte-Extends (suc (suc (suc (suc (suc (suc (suc s))))))) i n c pkt b v half hb =
    absurd (omega (arith, v.state_in))

-- ===== src/Crc/Examples.antt =====
-- Checksums of short messages.
use re_boot.Base.{◌<◌, ◌/◌, ◌%◌, ◌^◌, ◌≡◌, ◌≢◌, refl, [], ◌∷◌, ◌++◌, arith}
use re_boot.Crc.{
  iterate, crc16_bit, crc16_byte, crc16_loop, crc16_ccitt, crc32_bit, crc32_loop, crc32, sector_crc,
}
use re_boot.Crc.Word16.{crc16_ccitt_detects_byte, crc16_ccitt_residue}
use re_boot.Crc.Word32.{crc32-eq-sector_crc}

-- The check value of CRC-16/CCITT-FALSE, on the text 123456789.
check_message :
    crc16_ccitt (0x31 ∷ 0x32 ∷ 0x33 ∷ 0x34 ∷ 0x35 ∷ 0x36 ∷ 0x37 ∷ 0x38 ∷ 0x39 ∷ []) ≡ 0x29b1
unfolding crc16_ccitt crc16_loop crc16_byte iterate crc16_bit
check_message = refl

-- The check value of CRC-32 on the same text.
check_message32 :
    crc32 (0x31 ∷ 0x32 ∷ 0x33 ∷ 0x34 ∷ 0x35 ∷ 0x36 ∷ 0x37 ∷ 0x38 ∷ 0x39 ∷ []) ≡ 0xcbf43926
unfolding crc32 crc32_loop iterate crc32_bit
check_message32 = refl

crc16_ccitt_detects_byte_example :
    crc16_ccitt ((0x20 ∷ []) ++ 0 ∷ 4 ∷ []) ≢ crc16_ccitt ((0x20 ∷ []) ++ 1 ∷ 4 ∷ [])
crc16_ccitt_detects_byte_example =
    crc16_ccitt_detects_byte (0x20 ∷ []) 0 1 (4 ∷ []) (omega arith) (omega arith) (omega arith, tt)
      (λ e. omega arith)

crc16_ccitt_residue_example :
    let crc = crc16_ccitt (0x20 ∷ 0 ∷ 0 ∷ []) in
    crc16_ccitt ((0x20 ∷ 0 ∷ 0 ∷ []) ++ crc / 2 ^ 8 ∷ crc % 2 ^ 8 ∷ []) ≡ 0
crc16_ccitt_residue_example = crc16_ccitt_residue (0x20 ∷ 0 ∷ 0 ∷ [])

crc32-eq-sector_crc_example :
    (crc32 (0xff ∷ 0 ∷ []) ≡ sector_crc (0xff ∷ 0 ∷ [])) × (sector_crc (0xff ∷ 0 ∷ []) < 2 ^ 32)
crc32-eq-sector_crc_example = crc32-eq-sector_crc (0xff ∷ 0 ∷ []) (omega arith, (omega arith, tt))

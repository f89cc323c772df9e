-- ===== src/Crc.antt =====
-- The three checksums of the program, bit by bit as the C loops go: `crc16_ccitt` of
-- comm/transport_layer.c, `crc32` of utility/data_conversion.c and the loop of
-- `pipeline_sector_crc` of utility/pipeline.c. A list holds the `len` bytes that a loop reads.
pub mod Word16
pub mod Word32
pub mod Examples
use Prim.Native.Nat.{bit_xor, bit_and}
use re_boot.Base.{ℕ, zero, suc, ◌+◌, ◌-◌, ◌*◌, ◌/◌, ◌%◌, ◌^◌, ◌==◌, if◌then◌else◌, List, [], ◌∷◌}

-- A loop body done `n` times.
unfoldable pub iterate : ℕ → (ℕ → ℕ) → ℕ → ℕ
iterate zero f x = x
iterate (suc n) f x = iterate n f (f x)

-- One round of the inner loop, in a `uint16_t`.
unfoldable pub crc16_bit : ℕ → ℕ
crc16_bit crc =
    if bit_and crc 0x8000 == 0 then crc * 2 % 2 ^ 16 else bit_xor (crc * 2) 0x1021 % 2 ^ 16

-- One round of the outer loop.
unfoldable pub crc16_byte : ℕ → ℕ → ℕ
crc16_byte crc byte = iterate 8 crc16_bit (bit_xor crc (byte * 2 ^ 8) % 2 ^ 16)

unfoldable pub crc16_loop : ℕ → List ℕ → ℕ
crc16_loop crc [] = crc
crc16_loop crc (byte ∷ bytes) = crc16_loop (crc16_byte crc byte) bytes

unfoldable pub crc16_ccitt : List ℕ → ℕ
crc16_ccitt bytes = crc16_loop 0xffff bytes

-- `(crc>>1) ^ (0xEDB88320 & -(crc&1))`: the mask is all ones or nothing.
pub crc32_bit : ℕ → ℕ
crc32_bit crc = bit_xor (crc / 2) (bit_and 0xedb88320 ((2 ^ 32 - bit_and crc 1) % 2 ^ 32))

pub crc32_loop : ℕ → List ℕ → ℕ
crc32_loop crc [] = crc
crc32_loop crc (byte ∷ bytes) = crc32_loop (iterate 8 crc32_bit (bit_xor crc byte)) bytes

-- The complement of a `uint32_t`.
pub crc32 : List ℕ → ℕ
crc32 bytes = 2 ^ 32 - 1 - crc32_loop 0xffffffff bytes

-- The same polynomial with a branch in place of the mask.
pub sector_crc_bit : ℕ → ℕ
sector_crc_bit crc = if bit_and crc 1 == 0 then crc / 2 else bit_xor (crc / 2) 0xedb88320

pub sector_crc_loop : ℕ → List ℕ → ℕ
sector_crc_loop crc [] = crc
sector_crc_loop crc (byte ∷ bytes) =
    sector_crc_loop (iterate 8 sector_crc_bit (bit_xor crc byte)) bytes

pub sector_crc : List ℕ → ℕ
sector_crc bytes = bit_xor (sector_crc_loop 0xffffffff bytes) 0xffffffff

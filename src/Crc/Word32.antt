-- ===== src/Crc/Word32.antt =====
-- The two CRC-32 routines compute one function.
use re_boot.Base.{ℕ, zero, suc, ◌/◌, ◌%◌, ◌^◌, ◌<◌, ◌≡◌, refl, ap, ◌∙◌, bit_xor, ◌⊎◌}
use re_boot.Base.{bit_and, List, [], ◌∷◌, All, arith, inl, inr}
use re_boot.Base.Bits.{bit_and_bit, bit_xor-lt, bit_xor_ones, bit_xor-zero}
use mathlib.Core.Path.{fun_ext}
use re_boot.Crc.{iterate, crc32_bit, crc32_loop, crc32, sector_crc_bit, sector_crc_loop, sector_crc}

low-cases : (crc : ℕ) → (bit_and crc 1 ≡ 0) ⊎ (bit_and crc 1 ≡ 1)
low-cases crc = go (bit_and crc 1) (ground (arith, bit_and_bit 0 crc))
  where
    go : (b : ℕ) → b ≡ crc % 2 → (b ≡ 0) ⊎ (b ≡ 1)
    go zero e = inl refl
    go (suc zero) e = inr refl
    go (suc (suc b)) e = absurd (omega arith)

-- One round, with the mask and with the branch.
pub crc32_bit-eq-sector_crc_bit : (crc : ℕ) → crc32_bit crc ≡ sector_crc_bit crc
unfolding crc32_bit sector_crc_bit
crc32_bit-eq-sector_crc_bit crc = elim (low-cases crc) [
  | inl even ↦ rw even (bit_xor-zero (crc / 2))
  | inr odd ↦ rw odd
]

loops-eq : (crc : ℕ) (bytes : List ℕ) → crc32_loop crc bytes ≡ sector_crc_loop crc bytes
unfolding crc32_loop sector_crc_loop
loops-eq crc [] = refl
loops-eq crc (byte ∷ bytes) =
    loops-eq (iterate 8 crc32_bit (bit_xor crc byte)) bytes
    ∙ ap (λ f. sector_crc_loop (iterate 8 f (bit_xor crc byte)) bytes)
        (fun_ext crc32_bit-eq-sector_crc_bit)

-- Every round keeps the checksum in 32 bits.
sector_crc_bit-lt : (crc : ℕ) → crc < 2 ^ 32 → sector_crc_bit crc < 2 ^ 32
unfolding sector_crc_bit
sector_crc_bit-lt crc h = ground (arith, bit_xor-lt 32 (crc / 2) 0xedb88320)

rounds-lt : (n crc : ℕ) → crc < 2 ^ 32 → iterate n sector_crc_bit crc < 2 ^ 32
unfolding iterate
rounds-lt zero crc h = h
rounds-lt (suc n) crc h = rounds-lt n (sector_crc_bit crc) (sector_crc_bit-lt crc h)

sector_crc_loop-lt :
    (crc : ℕ) (bytes : List ℕ)
    → crc < 2 ^ 32
    → All (λ b. b < 2 ^ 8) bytes
    → sector_crc_loop crc bytes < 2 ^ 32
unfolding sector_crc_loop
sector_crc_loop-lt crc [] h hb = h
sector_crc_loop-lt crc (byte ∷ bytes) h hb =
    sector_crc_loop-lt (iterate 8 sector_crc_bit (bit_xor crc byte)) bytes
      (rounds-lt 8 (bit_xor crc byte) (bit_xor-lt 32 crc byte h (omega arith))) hb.1

-- For bytes, `crc32` of the file reader's helpers and the checksum that `pipeline_sector_crc` sends
-- are the same number, and it fits a `uint32_t`.
pub crc32-eq-sector_crc :
    (bytes : List ℕ)
    → All (λ b. b < 2 ^ 8) bytes
    → (crc32 bytes ≡ sector_crc bytes) × (sector_crc bytes < 2 ^ 32)
unfolding crc32 sector_crc
crc32-eq-sector_crc bytes h = ground (
  arith,
  loops-eq 0xffffffff bytes,
  sector_crc_loop-lt 0xffffffff bytes,
  bit_xor_ones 32 (sector_crc_loop 0xffffffff bytes),
)

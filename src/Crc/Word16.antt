-- ===== src/Crc/Word16.antt =====
-- What the receiver's check of `crc16_ccitt` can rely on.
use re_boot.Base.{ℕ, zero, suc, ◌+◌, ◌-◌, ◌*◌, ◌/◌, ◌%◌, ◌^◌, ◌<◌, ◌≡◌, refl, sym, ap, ◌∙◌}
use re_boot.Base.{◌≢◌, bit_xor, List, [], ◌∷◌, ◌++◌, All, arith, inl, inr}
use re_boot.Base.{dec_lt, ◌⊎◌}
use re_boot.Base.Digits.{bit_xor_step}
use re_boot.Base.Bits.{
  mul-two-pow-suc, le-mul_pow, bit_xor_high, bit_xor_comm, bit_and_bit, bit_xor-lt,
  bit_xor-injective, bit_xor_fields,
}
use re_boot.Crc.{iterate, crc16_bit, crc16_byte, crc16_loop, crc16_ccitt}

abbrev pub IsByte : ℕ → Type 0
IsByte b = b < 2 ^ 8

crc16_bit-lt : (crc : ℕ) → crc16_bit crc < 2 ^ 16
unfolding crc16_bit
crc16_bit-lt crc = ground arith

rounds-lt : (n crc : ℕ) → crc < 2 ^ 16 → iterate n crc16_bit crc < 2 ^ 16
unfolding iterate
rounds-lt zero crc h = h
rounds-lt (suc n) crc h = rounds-lt n (crc16_bit crc) (crc16_bit-lt crc)

crc16_byte-lt : (crc byte : ℕ) → crc16_byte crc byte < 2 ^ 16
unfolding crc16_byte
crc16_byte-lt crc byte = rounds-lt 8 (bit_xor crc (byte * 2 ^ 8) % 2 ^ 16) (omega arith)

crc16_loop-lt : (crc : ℕ) (bytes : List ℕ) → crc < 2 ^ 16 → crc16_loop crc bytes < 2 ^ 16
unfolding crc16_loop
crc16_loop-lt crc [] h = h
crc16_loop-lt crc (byte ∷ bytes) h =
    crc16_loop-lt (crc16_byte crc byte) bytes (crc16_byte-lt crc byte)

pub crc16_ccitt-lt : (bytes : List ℕ) → crc16_ccitt bytes < 2 ^ 16
unfolding crc16_ccitt
crc16_ccitt-lt bytes = crc16_loop-lt 0xffff bytes (omega arith)

-- A round on a word with the top bit clear, and on one with it set.
crc16_bit_low : (a : ℕ) → a < 2 ^ 15 → crc16_bit a ≡ 2 * a
unfolding crc16_bit
crc16_bit_low a h = ground (arith, bit_and_bit 15 a)

crc16_bit_high : (r : ℕ) → r < 2 ^ 15 → crc16_bit (2 ^ 15 + r) ≡ bit_xor (2 * r) 0x1021
unfolding crc16_bit
crc16_bit_high r h =
    let split : (2 ^ 15 + r) * 2 ≡ 1 * 2 ^ 16 + 2 * r = omega arith in
    ground (
      arith,
      bit_and_bit 15 (2 ^ 15 + r),
      ap (λ (t : ℕ). bit_xor t 0x1021) split,
      bit_xor_high 16 1 (2 * r) 0x1021,
      bit_xor-lt 16 (2 * r) 0x1021,
    )

top-cases : (a : ℕ) → a < 2 ^ 16 → (a < 2 ^ 15) ⊎ ((r : ℕ) × (r < 2 ^ 15) × (a ≡ 2 ^ 15 + r))
top-cases a h = elim (dec_lt a (2 ^ 15)) [
  | yes low ↦ inl low
  | no high ↦ inr (a - 2 ^ 15, omega arith, omega arith)
]

-- The polynomial is odd, so the lowest bit of the result tells which way a round went.
low-ne-high : (a r : ℕ) → 2 * a ≢ bit_xor (2 * r) 0x1021
low-ne-high a r e = omega (arith, bit_xor_step (2 * r) 0x1021)

high-injective : (r s : ℕ) → bit_xor (2 * r) 0x1021 ≡ bit_xor (2 * s) 0x1021 → r ≡ s
high-injective r s e = omega (arith, bit_xor-injective (2 * r) (2 * s) 0x1021 e)

crc16_bit-injective : (a b : ℕ) → a < 2 ^ 16 → b < 2 ^ 16 → crc16_bit a ≡ crc16_bit b → a ≡ b
crc16_bit-injective a b ha hb e = elim (top-cases a ha) [
  | inl low ↦ elim (top-cases b hb) [
    | inl low' ↦ omega (arith, crc16_bit_low a low, crc16_bit_low b low')
    | inr (s, hs, eb) ↦
        absurd
          (low-ne-high a s (sym (crc16_bit_low a low) ∙ e ∙ ap crc16_bit eb ∙ crc16_bit_high s hs))
  ]
  | inr (r, hr, ea) ↦ elim (top-cases b hb) [
    | inl low' ↦ absurd (
        low-ne-high b r
          (sym (crc16_bit_low b low') ∙ sym e ∙ ap crc16_bit ea ∙ crc16_bit_high r hr))
    | inr (s, hs, eb) ↦ omega (
      arith,
      high-injective r s (
          sym (crc16_bit_high r hr)
          ∙ sym (ap crc16_bit ea)
          ∙ e
          ∙ ap crc16_bit eb
          ∙ crc16_bit_high s hs),
    )
  ]
]

rounds-injective :
    (n a b : ℕ) → a < 2 ^ 16 → b < 2 ^ 16 → iterate n crc16_bit a ≡ iterate n crc16_bit b → a ≡ b
unfolding iterate
rounds-injective zero a b ha hb e = e
rounds-injective (suc n) a b ha hb e =
    crc16_bit-injective a b ha hb
      (rounds-injective n (crc16_bit a) (crc16_bit b) (crc16_bit-lt a) (crc16_bit-lt b) e)

-- For words, mixing a byte in loses nothing: neither of the word nor of the byte.
mixed :
    (crc byte : ℕ)
    → crc < 2 ^ 16
    → IsByte byte
    → bit_xor crc (byte * 2 ^ 8) % 2 ^ 16 ≡ bit_xor crc (byte * 2 ^ 8)
mixed crc byte h hb = omega (arith, bit_xor-lt 16 crc (byte * 2 ^ 8) h (omega arith))

crc16_byte-injective_crc :
    (a b byte : ℕ)
    → a < 2 ^ 16
    → b < 2 ^ 16
    → IsByte byte
    → crc16_byte a byte ≡ crc16_byte b byte
    → a ≡ b
unfolding crc16_byte
crc16_byte-injective_crc a b byte ha hb h e = bit_xor-injective a b (byte * 2 ^ 8) (
    sym (mixed a byte ha h)
    ∙ rounds-injective 8 _ _ (omega arith) (omega arith) e
    ∙ mixed b byte hb h)

crc16_byte-injective_byte :
    (crc x y : ℕ) → crc < 2 ^ 16 → IsByte x → IsByte y → crc16_byte crc x ≡ crc16_byte crc y → x ≡ y
unfolding crc16_byte
crc16_byte-injective_byte crc x y h hx hy e = omega (
  arith,
  bit_xor-injective (x * 2 ^ 8) (y * 2 ^ 8) crc (
      bit_xor_comm (x * 2 ^ 8) crc
      ∙ sym (mixed crc x h hx)
      ∙ rounds-injective 8 _ _ (omega arith) (omega arith) e
      ∙ mixed crc y h hy
      ∙ bit_xor_comm crc (y * 2 ^ 8)),
)

crc16_loop-injective :
    (a b : ℕ) (bytes : List ℕ)
    → a < 2 ^ 16
    → b < 2 ^ 16
    → All IsByte bytes
    → crc16_loop a bytes ≡ crc16_loop b bytes
    → a ≡ b
unfolding crc16_loop
crc16_loop-injective a b [] ha hb h e = e
crc16_loop-injective a b (byte ∷ bytes) ha hb h e = crc16_byte-injective_crc a b byte ha hb h.0 (
    crc16_loop-injective (crc16_byte a byte) (crc16_byte b byte) bytes (crc16_byte-lt a byte)
      (crc16_byte-lt b byte) h.1 e)

pub crc16_loop-append :
    (crc : ℕ) (xs ys : List ℕ) → crc16_loop crc (xs ++ ys) ≡ crc16_loop (crc16_loop crc xs) ys
unfolding crc16_loop
crc16_loop-append crc [] ys = refl
crc16_loop-append crc (x ∷ xs) ys = crc16_loop-append (crc16_byte crc x) xs ys

-- A message and the same message with one byte changed, whatever stands before and behind it,
-- have different checksums.
pub crc16_ccitt_detects_byte :
    (before : List ℕ) (x y : ℕ) (behind : List ℕ)
    → IsByte x
    → IsByte y
    → All IsByte behind
    → x ≢ y
    → crc16_ccitt (before ++ x ∷ behind) ≢ crc16_ccitt (before ++ y ∷ behind)
unfolding crc16_ccitt crc16_loop
crc16_ccitt_detects_byte before x y behind hx hy h ne e =
    let crc = crc16_loop 0xffff before in
    let crc-lt : crc < 2 ^ 16 = crc16_loop-lt 0xffff before (omega arith) in
    ne (
      crc16_byte-injective_byte crc x y crc-lt hx hy (
        crc16_loop-injective (crc16_byte crc x) (crc16_byte crc y) behind (crc16_byte-lt crc x)
          (crc16_byte-lt crc y) h
          (sym (crc16_loop-append 0xffff before (x ∷ behind))
            ∙ e
            ∙ crc16_loop-append 0xffff before (y ∷ behind))))

-- Rounds that move no bit out of the word only shift.
rounds_shift : (n a : ℕ) → a * 2 ^ n < 2 ^ 16 → iterate n crc16_bit a ≡ a * 2 ^ n
unfolding iterate
rounds_shift zero a h = omega arith
rounds_shift (suc n) a h =
    let twice : 2 * a * 2 ^ n ≡ a * 2 ^ suc n = omega (arith, mul-two-pow-suc a n) in
    let small : a < 2 ^ 15 = omega (arith, le-mul_pow (2 * a) n) in
    ap (iterate n crc16_bit) (crc16_bit_low a small) ∙ rounds_shift n (2 * a) (rw twice h) ∙ twice

crc16_byte_high : (hi lo : ℕ) → IsByte hi → IsByte lo → crc16_byte (hi * 2 ^ 8 + lo) hi ≡ lo * 2 ^ 8
unfolding crc16_byte
crc16_byte_high hi lo hh hl =
    ap (iterate 8 crc16_bit)
      (mixed (hi * 2 ^ 8 + lo) hi (omega arith) hh ∙ bit_xor_fields 8 hi lo hl)
    ∙ rounds_shift 8 lo (omega arith)

-- The checksum of a message that carries its own checksum, high byte first, is 0.
pub crc16_ccitt_residue :
    (bytes : List ℕ)
    → let crc = crc16_ccitt bytes in crc16_ccitt (bytes ++ crc / 2 ^ 8 ∷ crc % 2 ^ 8 ∷ []) ≡ 0
unfolding crc16_loop crc16_ccitt
crc16_ccitt_residue bytes =
    let crc = crc16_loop 0xffff bytes in
    let crc-lt : crc < 2 ^ 16 = crc16_loop-lt 0xffff bytes (omega arith) in
    let hi = crc / 2 ^ 8 in
    let lo = crc % 2 ^ 8 in
    let parts : crc ≡ hi * 2 ^ 8 + lo = omega arith in
    let first : crc16_byte crc hi ≡ lo * 2 ^ 8 =
      ap (λ (t : ℕ). crc16_byte t hi) parts ∙ crc16_byte_high hi lo (omega arith) (omega arith) in
    crc16_loop-append 0xffff bytes (hi ∷ lo ∷ [])
    ∙ ap (λ (t : ℕ). crc16_byte t lo) (first ∙ omega arith)
    ∙ crc16_byte_high lo 0 (omega arith) (omega arith)

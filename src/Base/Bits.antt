-- ===== src/Base/Bits.antt =====
-- Exclusive or, or, and and on the fields of a word.
use Prim.Native.Nat.{ℕ, zero, suc, ◌+◌, ◌-◌, ◌*◌, ◌/◌, ◌%◌, ◌^◌, ◌≤◌, ◌<◌, bit_and}
use Prim.Native.Nat.{bit_or, bit_xor}
use mathlib.Core.Path.{◌≡◌, refl, sym, ap, ◌∙◌}
use native.Mathlib.Nat.{pow-suc, one-le-pow, div-div-eq-div-mul}
use native.Mathlib.Omega.{arith}
use re_boot.Base.Digits.{
  zero-bit_xor, bit_xor_step, bit_or_step, bit_and_step, bit_or-zero, bit_and-zero,
}

pub mul-two-pow-suc : (hi k : ℕ) → hi * 2 ^ suc k ≡ 2 * (hi * 2 ^ k)
mul-two-pow-suc hi k = omega (arith, ap (λ (t : ℕ). hi * t) (pow-suc 2 k))

pub le-mul_pow : (a n : ℕ) → a ≤ a * 2 ^ n
le-mul_pow a zero = omega arith
le-mul_pow a (suc n) = omega (arith, le-mul_pow a n, mul-two-pow-suc a n)

-- A word's high field or its low field is their sum.
pub bit_or_fields : (w hi lo : ℕ) → lo < 2 ^ w → bit_or (hi * 2 ^ w) lo ≡ hi * 2 ^ w + lo
bit_or_fields zero hi lo h = ground (arith, bit_or-zero hi hi)
bit_or_fields (suc w) hi lo h = ground (
  arith,
  bit_or_step (hi * 2 ^ suc w) lo,
  mul-two-pow-suc hi w,
  pow-suc 2 w,
  bit_or_fields w hi (lo / 2),
)

-- Exclusive or with a word's own high field clears that field.
pub bit_xor_fields : (k hi lo : ℕ) → lo < 2 ^ k → bit_xor (hi * 2 ^ k + lo) (hi * 2 ^ k) ≡ lo
bit_xor_fields zero hi lo h = ground (arith, bit_xor-self hi hi)
  where
    bit_xor-self : (n a : ℕ) → a ≤ n → bit_xor a a ≡ 0
    bit_xor-self n zero h = refl
    bit_xor-self zero (suc a) h = absurd (omega arith)
    bit_xor-self (suc n) (suc a) h =
        omega (arith, bit_xor_step (suc a) (suc a), bit_xor-self n (suc a / 2) (omega arith))
bit_xor_fields (suc k) hi lo h = ground (
  arith,
  bit_xor_step (hi * 2 ^ suc k + lo) (hi * 2 ^ suc k),
  mul-two-pow-suc hi k,
  pow-suc 2 k,
  bit_xor_fields k hi (lo / 2),
)

-- Exclusive or stays within the width of its operands.
pub bit_xor-lt : (k a b : ℕ) → a < 2 ^ k → b < 2 ^ k → bit_xor a b < 2 ^ k
bit_xor-lt zero zero zero ha hb = omega (arith, zero-bit_xor 0)
bit_xor-lt zero zero (suc b) ha hb = absurd (omega arith)
bit_xor-lt zero (suc a) b ha hb = absurd (omega arith)
bit_xor-lt (suc k) a b ha hb =
    ground (arith, bit_xor_step a b, pow-suc 2 k, bit_xor-lt k (a / 2) (b / 2))

-- A second exclusive or undoes the first.
bit_xor_undo_fuel : (n a c : ℕ) → a ≤ n → c ≤ n → bit_xor (bit_xor a c) c ≡ a
bit_xor_undo_fuel zero zero zero ha hc = refl
bit_xor_undo_fuel zero zero (suc c) ha hc = absurd (omega arith)
bit_xor_undo_fuel zero (suc a) c ha hc = absurd (omega arith)
bit_xor_undo_fuel (suc n) a c ha hc =
    ground
      (arith, bit_xor_step a c, bit_xor_step (bit_xor a c) c, bit_xor_undo_fuel n (a / 2) (c / 2))

pub bit_xor_undo : (a c : ℕ) → bit_xor (bit_xor a c) c ≡ a
bit_xor_undo a c = bit_xor_undo_fuel (a + c) a c (omega arith) (omega arith)

pub bit_xor-injective : (a b c : ℕ) → bit_xor a c ≡ bit_xor b c → a ≡ b
bit_xor-injective a b c h =
    sym (bit_xor_undo a c) ∙ ap (λ (t : ℕ). bit_xor t c) h ∙ bit_xor_undo b c

bit_xor_comm_fuel : (n a b : ℕ) → a ≤ n → b ≤ n → bit_xor a b ≡ bit_xor b a
bit_xor_comm_fuel zero zero zero ha hb = refl
bit_xor_comm_fuel zero zero (suc b) ha hb = absurd (omega arith)
bit_xor_comm_fuel zero (suc a) b ha hb = absurd (omega arith)
bit_xor_comm_fuel (suc n) a b ha hb =
    ground (arith, bit_xor_step a b, bit_xor_step b a, bit_xor_comm_fuel n (a / 2) (b / 2))

pub bit_xor_comm : (a b : ℕ) → bit_xor a b ≡ bit_xor b a
bit_xor_comm a b = bit_xor_comm_fuel (a + b) a b (omega arith) (omega arith)

-- Exclusive or with all ones is the complement.
pub bit_xor_ones : (k a : ℕ) → a < 2 ^ k → bit_xor a (2 ^ k - 1) ≡ 2 ^ k - 1 - a
bit_xor_ones zero zero h = refl
bit_xor_ones zero (suc a) h = absurd (omega arith)
bit_xor_ones (suc k) a h =
    ground
      (arith, bit_xor_step a (2 ^ suc k - 1), pow-suc 2 k, one-le-pow k 2, bit_xor_ones k (a / 2))

bit_and-one : (a : ℕ) → bit_and a 1 ≡ a % 2
bit_and-one a = omega (arith, bit_and_step a 1, bit_and-zero (a / 2) (a / 2))

-- The test of one bit.
pub bit_and_bit : (k a : ℕ) → bit_and a (2 ^ k) ≡ (a / 2 ^ k % 2) * 2 ^ k
bit_and_bit zero a = ground (arith, bit_and-one a)
bit_and_bit (suc k) a = ground (
  arith,
  bit_and_step a (2 ^ suc k),
  pow-suc 2 k,
  one-le-pow k 2,
  bit_and_bit k (a / 2),
  div-div-eq-div-mul a 2 (2 ^ k),
  ap (λ (t : ℕ). (a / 2 / 2 ^ k) % 2 * t) (pow-suc 2 k),
)

-- A mask of low ones is the remainder.
bit_and_fields : (w hi lo : ℕ) → lo < 2 ^ w → bit_and (hi * 2 ^ w + lo) (2 ^ w - 1) ≡ lo
bit_and_fields zero hi lo h = ground (arith, bit_and-zero (hi * 1 + lo) (hi * 1 + lo))
bit_and_fields (suc w) hi lo h = ground (
  arith,
  bit_and_step (hi * 2 ^ suc w + lo) (2 ^ suc w - 1),
  mul-two-pow-suc hi w,
  pow-suc 2 w,
  one-le-pow w 2,
  bit_and_fields w hi (lo / 2),
)

pub bit_and_mask : (k a : ℕ) → bit_and a (2 ^ k - 1) ≡ a % 2 ^ k
bit_and_mask k a = ground (arith, one-le-pow k 2, bit_and_fields k (a / 2 ^ k) (a % 2 ^ k))

pub bit_xor-zero : (a : ℕ) → bit_xor a 0 ≡ a
bit_xor-zero a = bit_xor_comm a 0 ∙ zero-bit_xor a

-- Exclusive or with a number that fits the low field leaves the high field alone.
pub bit_xor_high :
    (k hi lo c : ℕ)
    → lo < 2 ^ k
    → c < 2 ^ k
    → bit_xor (hi * 2 ^ k + lo) c ≡ hi * 2 ^ k + bit_xor lo c
bit_xor_high zero hi zero zero hr hc = ground (arith, bit_xor-zero (hi * 1), zero-bit_xor 0)
bit_xor_high zero hi (suc lo) c hr hc = absurd (omega arith)
bit_xor_high zero hi zero (suc c) hr hc = absurd (omega arith)
bit_xor_high (suc k) hi lo c hr hc = ground (
  arith,
  bit_xor_step (hi * 2 ^ suc k + lo) c,
  bit_xor_step lo c,
  mul-two-pow-suc hi k,
  pow-suc 2 k,
  bit_xor_high k hi (lo / 2) (c / 2),
)

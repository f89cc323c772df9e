-- ===== src/Base/Digits.antt =====
-- The bit operations by their lowest digit: the recursion on digits without its fuel.
use Prim.Native.Nat.{ℕ, zero, suc, ◌+◌, ◌*◌, ◌/◌, ◌%◌, ◌≤◌, ◌<◌, min, max}
use Prim.Native.Nat.{bit_and, bit_or, bit_xor, digits, differ}
use Prim.Native.Nat.{bit_and-bitwise, bit_or-bitwise, bit_xor-bitwise}
use mathlib.Core.Path.{◌≡◌, refl, sym, ap, ◌∙◌}
use native.Mathlib.Omega.{arith}

module _ (rest : ℕ → ℕ) (digit : ℕ → ℕ → ℕ) where
  abbrev run : ℕ → ℕ → ℕ → ℕ
  run fuel x y = digits rest digit fuel x y

  run_zero : (fuel y : ℕ) → run fuel 0 y ≡ rest y
  run_zero zero y = refl
  run_zero (suc fuel) y = refl

  -- Two fuels, both at least the first number.
  fuel_irrelevant : (x y f g : ℕ) → x ≤ f → x ≤ g → run f x y ≡ run g x y
  fuel_irrelevant zero y f g hf hg = run_zero f y ∙ sym (run_zero g y)
  fuel_irrelevant (suc x) y zero g hf hg = absurd (omega arith)
  fuel_irrelevant (suc x) y (suc f) zero hf hg = absurd (omega arith)
  fuel_irrelevant (suc x) y (suc f) (suc g) hf hg =
      ap (λ (t : ℕ). t * 2 + digit (suc x % 2) (y % 2))
        (fuel_irrelevant (suc x / 2) (y / 2) f g (omega arith) (omega arith))

  -- An operation that runs on its first argument as fuel.
  module _ (op : ℕ → ℕ → ℕ) (op_lem : (x y : ℕ) → op x y ≡ run x x y) where
    step_suc : (x y : ℕ) → op (suc x) y ≡ op (suc x / 2) (y / 2) * 2 + digit (suc x % 2) (y % 2)
    step_suc x y =
        let half = suc x / 2 in
        op_lem (suc x) y
        ∙ ap (λ (t : ℕ). t * 2 + digit (suc x % 2) (y % 2))
            (fuel_irrelevant half (y / 2) x half (omega arith) (omega arith)
              ∙ sym (op_lem half (y / 2)))

-- The digit of an exclusive or, for digits below 2.
differ_lem : (x y : ℕ) → x < 2 → y < 2 → differ x y ≡ (x + y) % 2
differ_lem zero y hx hy = omega arith
differ_lem (suc zero) zero hx hy = refl
differ_lem (suc zero) (suc zero) hx hy = refl
differ_lem (suc zero) (suc (suc y)) hx hy = absurd (omega arith)
differ_lem (suc (suc x)) y hx hy = absurd (omega arith)

pub zero-bit_xor : (y : ℕ) → bit_xor 0 y ≡ y
zero-bit_xor y = bit_xor-bitwise 0 y

pub bit_xor_step : (x y : ℕ) → bit_xor x y ≡ bit_xor (x / 2) (y / 2) * 2 + (x + y) % 2
bit_xor_step zero y = omega (arith, zero-bit_xor y, zero-bit_xor (y / 2))
bit_xor_step (suc x) y = omega (
  arith,
  step_suc (λ y. y) differ bit_xor bit_xor-bitwise x y,
  differ_lem (suc x % 2) (y % 2) (omega arith) (omega arith),
)

zero-bit_or : (y : ℕ) → bit_or 0 y ≡ y
zero-bit_or y = bit_or-bitwise 0 y

pub bit_or_step : (x y : ℕ) → bit_or x y ≡ bit_or (x / 2) (y / 2) * 2 + max (x % 2) (y % 2)
bit_or_step zero y = omega (arith, zero-bit_or y, zero-bit_or (y / 2))
bit_or_step (suc x) y = step_suc (λ y. y) max bit_or bit_or-bitwise x y

-- The lowest digit of an and is the smaller of the two.
pub bit_and_step : (x y : ℕ) → bit_and x y ≡ min (x % 2) (y % 2) + 2 * bit_and (x / 2) (y / 2)
bit_and_step zero y = omega (arith, bit_and-bitwise 0 y, bit_and-bitwise 0 (y / 2))
bit_and_step (suc x) y = omega (arith, step_suc (λ z. zero) min bit_and bit_and-bitwise x y)

-- With nothing in the second number, by recursion on a bound of the first.
pub bit_or-zero : (bound x : ℕ) → x ≤ bound → bit_or x 0 ≡ x
bit_or-zero zero zero h = refl
bit_or-zero zero (suc x) h = absurd (omega arith)
bit_or-zero (suc bound) x h = ground (arith, bit_or_step x 0, bit_or-zero bound (x / 2))

pub bit_and-zero : (bound x : ℕ) → x ≤ bound → bit_and x 0 ≡ 0
bit_and-zero zero zero h = refl
bit_and-zero zero (suc x) h = absurd (omega arith)
bit_and-zero (suc bound) x h = ground (arith, bit_and_step x 0, bit_and-zero bound (x / 2))

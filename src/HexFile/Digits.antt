-- ===== src/HexFile/Digits.antt =====
-- Numbers in hexadecimal digits, and what `hex_to_int` reads of them.
use re_boot.Base.{
  ℕ, suc, ◌+◌, ◌-◌, ◌*◌, ◌/◌, ◌%◌, ◌^◌, ◌<◌, ◌≡◌, refl, ap, ◌∙◌, arith, ltb, ◌==◌, if◌then◌else◌,
  Bool, false, some, List, [], ◌∷◌,
}
use re_boot.HexFile.{ok, is_space, digit_value, hex_digits, strtoul, copy, hex_to_int}

-- A digit below 16, in either case.
unfoldable pub digit : Bool → ℕ → ℕ
digit upper d = if ltb d 10 then b'0' + d else if upper then b'A' + (d - 10) else b'a' + (d - 10)

digit_value-digit : (upper : Bool) (d : ℕ) → d < 16 → digit_value (digit upper d) ≡ some d
unfolding digit_value digit
digit_value-digit upper d h = ground arith

-- A digit is no space, sign, 'x' or NUL.
record IsPlain (c : ℕ) : Type 0 where
  spaced : is_space c ≡ false
  minus : (c == b'-') ≡ false
  plus : (c == b'+') ≡ false
  x_lower : (c == b'x') ≡ false
  x_upper : (c == b'X') ≡ false
  filled : (c == 0) ≡ false
  unbroken : (c == b'\n') ≡ false

digit-IsPlain : (upper : Bool) (d : ℕ) → d < 16 → IsPlain (digit upper d)
unfolding is_space digit
digit-IsPlain upper d h = record {
  spaced = ground arith;
  minus = ground arith;
  plus = ground arith;
  x_lower = ground arith;
  x_upper = ground arith;
  filled = ground arith;
  unbroken = ground arith;
}

abbrev pub hex2 : Bool → ℕ → List ℕ → List ℕ
hex2 upper v rest = digit upper (v / 16) ∷ digit upper (v % 16) ∷ rest

abbrev pub hex4 : Bool → ℕ → List ℕ → List ℕ
hex4 upper v rest = hex2 upper (v / 256) (hex2 upper (v % 256) rest)

-- A text that begins with two plain characters is read digit by digit.
strtoul_plain :
    (a b : ℕ) (text : List ℕ)
    → IsPlain a
    → IsPlain b
    → strtoul (a ∷ b ∷ text) ≡ hex_digits 0 (a ∷ b ∷ text) % 2 ^ 32
unfolding strtoul
strtoul_plain a b text pa pb = ground (arith, pa, pb)

digits_end : (acc : ℕ) → hex_digits acc [] ≡ acc
unfolding hex_digits
digits_end acc = refl

step_digit :
    (upper : Bool) (d acc : ℕ) (text : List ℕ)
    → d < 16
    → hex_digits acc (digit upper d ∷ text) ≡ hex_digits (acc * 16 + d) text
unfolding hex_digits
step_digit upper d acc text h = ground (arith, digit_value-digit upper d)

copy-digit :
    (n : ℕ) (upper : Bool) (d : ℕ) (memory text : List ℕ)
    → d < 16
    → copy n memory ≡ some text
    → copy (suc n) (digit upper d ∷ memory) ≡ some (digit upper d ∷ text)
unfolding copy
copy-digit n upper d memory text h e = let p = (digit-IsPlain upper d h).filled in ground arith

copy_none : (memory : List ℕ) → copy 0 memory ≡ some []
unfolding copy
copy_none memory = refl

hex_to_int_of :
    (memory text : List ℕ) (len : ℕ)
    → copy len memory ≡ some text
    → hex_to_int memory len ≡ ok (strtoul text)
unfolding hex_to_int
hex_to_int_of memory text len e = rw (e, hex_to_int) refl

pub hex_to_int-hex2 :
    (upper : Bool) (v : ℕ) (rest : List ℕ) → v < 256 → hex_to_int (hex2 upper v rest) 2 ≡ ok v
hex_to_int-hex2 upper v rest h =
    hex_to_int_of (hex2 upper v rest) (hex2 upper v []) 2 copied
    ∙ ap (λ (n : ℕ). ok n)
        (strtoul_plain _ _ [] (digit-IsPlain upper (v / 16) (omega arith))
            (digit-IsPlain upper (v % 16) (omega arith))
          ∙ value)
  where
    copied : copy 2 (hex2 upper v rest) ≡ some (hex2 upper v [])
    copied =
        copy-digit 1 upper (v / 16) _ _ (omega arith)
          (copy-digit 0 upper (v % 16) _ _ (omega arith) (copy_none rest))

    value : hex_digits 0 (hex2 upper v []) % 2 ^ 32 ≡ v
    value =
        ap (λ (n : ℕ). n % 2 ^ 32)
          (step_digit upper (v / 16) 0 _ (omega arith)
            ∙ step_digit upper (v % 16) _ [] (omega arith)
            ∙ digits_end _)
        ∙ omega arith

pub hex_to_int-hex4 :
    (upper : Bool) (v : ℕ) (rest : List ℕ) → v < 2 ^ 16 → hex_to_int (hex4 upper v rest) 4 ≡ ok v
hex_to_int-hex4 upper v rest h =
    hex_to_int_of (hex4 upper v rest) (hex4 upper v []) 4 copied
    ∙ ap (λ (n : ℕ). ok n)
        (strtoul_plain _ _ _ (digit-IsPlain upper (v / 256 / 16) (omega arith))
            (digit-IsPlain upper (v / 256 % 16) (omega arith))
          ∙ value)
  where
    copied : copy 4 (hex4 upper v rest) ≡ some (hex4 upper v [])
    copied = copy-digit 3 upper (v / 256 / 16) _ _ (omega arith) (
        copy-digit 2 upper (v / 256 % 16) _ _ (omega arith) (
          copy-digit 1 upper (v % 256 / 16) _ _ (omega arith)
            (copy-digit 0 upper (v % 256 % 16) _ _ (omega arith) (copy_none rest))))

    value : hex_digits 0 (hex4 upper v []) % 2 ^ 32 ≡ v
    value =
        ap (λ (n : ℕ). n % 2 ^ 32)
          (step_digit upper (v / 256 / 16) 0 _ (omega arith)
            ∙ step_digit upper (v / 256 % 16) _ _ (omega arith)
            ∙ step_digit upper (v % 256 / 16) _ _ (omega arith)
            ∙ step_digit upper (v % 256 % 16) _ [] (omega arith)
            ∙ digits_end _)
        ∙ omega arith

-- No digit ends a line.
pub digit_unbroken : (upper : Bool) (d : ℕ) → d < 16 → (digit upper d == b'\n') ≡ false
digit_unbroken upper d h = (digit-IsPlain upper d h).unbroken

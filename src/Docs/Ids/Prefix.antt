-- ===== src/Docs/Ids/Prefix.antt =====
-- One id begins with another exactly where the texts do.
use re_boot.Base.{ℕ, suc, ◌/◌, ◌%◌, ◌^◌, ◌≤◌, ◌<◌, ◌≡◌, ◌≢◌, refl, sym, ap, ◌∙◌, inl, inr}
use re_boot.Base.{
  ltb, ◌==◌, if◌then◌else◌, Bool, true, false, arith, All, eq→==, ne→==, lt→ltb, le→ltb, ap₂,
}
use re_boot.Base.{List, [], ◌∷◌, ◌++◌, Bool-cases, dec_lt, ℕ_discrete}
use re_boot.Docs.Ids.{hex_digit, hex_string, is_kept, convert_char, convert_to_id}

-- Whether the second text begins with the first.
unfoldable pub starts_with : List ℕ → List ℕ → Bool
starts_with [] ys = true
starts_with (x ∷ xs) [] = false
starts_with (x ∷ xs) (y ∷ ys) = if x == y then starts_with xs ys else false

-- What a character becomes: itself, or an escape of two hexadecimal digits.
data IsCode (c : ℕ) : List ℕ → Type 0 where
  kept : c ≢ b'_' → is_kept c ≡ true → IsCode c (c ∷ [])
  escaped :
      is_kept c ≡ false → c < 0x80 → IsCode c (b'_' ∷ hex_digit (c / 16) ∷ hex_digit (c % 16) ∷ [])

one_digit : (digits n : ℕ) → n < 16 → hex_string (suc digits) n ≡ hex_digit n ∷ []
unfolding hex_string
one_digit digits n h = rw (lt→ltb n 16 h) refl

longer :
    (digits n : ℕ)
    → 16 ≤ n
    → hex_string (suc digits) n ≡ hex_string digits (n / 16) ++ hex_digit (n % 16) ∷ []
unfolding hex_string
longer digits n h = rw (le→ltb n 16 h) refl

two_digits :
    (n : ℕ) → 16 ≤ n → n < 0x100 → hex_string 4 n ≡ hex_digit (n / 16) ∷ hex_digit (n % 16) ∷ []
two_digits n lo hi =
    longer 3 n lo
    ∙ ap (λ (t : List ℕ). t ++ hex_digit (n % 16) ∷ []) (one_digit 2 (n / 16) (omega arith))

kept_range : (c : ℕ) → is_kept c ≡ false → c < 2 ^ 16 → c < 0x80
unfolding is_kept
kept_range c e h = ground arith

kept_apart : (c : ℕ) → is_kept c ≡ true → c ≢ b'_'
unfolding is_kept
kept_apart c e same = ground arith

convert_kept : (c : ℕ) → is_kept c ≡ true → convert_char c ≡ c ∷ []
unfolding convert_char
convert_kept c e = rw e refl

zero_digit : (c : ℕ) → c < 16 → b'0' ≡ hex_digit (c / 16)
unfolding hex_digit
zero_digit c h = ground arith

same_digit : (c : ℕ) → c < 16 → hex_digit c ≡ hex_digit (c % 16)
same_digit c h = ap hex_digit (omega arith)

convert_other :
    (c : ℕ)
    → is_kept c ≡ false
    → convert_char c ≡ (if ltb c 16 then b'_' ∷ b'0' ∷ hex_string 4 c else b'_' ∷ hex_string 4 c)
unfolding convert_char
convert_other c e = rw e refl

convert_escaped :
    (c : ℕ)
    → is_kept c ≡ false
    → c < 0x80
    → convert_char c ≡ b'_' ∷ hex_digit (c / 16) ∷ hex_digit (c % 16) ∷ []
convert_escaped c e h = convert_other c e ∙ elim (dec_lt c 16) [
  | yes low ↦
      rw (lt→ltb c 16 low, one_digit 3 c low)
        (ap₂ (λ x y. b'_' ∷ x ∷ y ∷ []) (zero_digit c low) (same_digit c low))
  | no high ↦ rw (le→ltb c 16 (omega arith), two_digits c (omega arith) (omega arith)) refl
]

convert_char-IsCode : (c : ℕ) → c < 2 ^ 16 → IsCode c (convert_char c)
convert_char-IsCode c h = elim (Bool-cases (is_kept c)) [
  | inl e ↦ rw (convert_kept c e) (kept (kept_apart c e) e)
  | inr e ↦ rw (convert_escaped c e (kept_range c e h)) (escaped e (kept_range c e h))
]

hex_digit-injective : (m n : ℕ) → m < 16 → n < 16 → hex_digit m ≡ hex_digit n → m ≡ n
unfolding hex_digit
hex_digit-injective m n hm hn e = ground arith

-- Two escapes agree in both digits exactly where the characters agree.
same_codes :
    (c d : ℕ) (rest : Bool)
    → c < 0x80
    → d < 0x80
    → (if hex_digit (c / 16) == hex_digit (d / 16)
        then if hex_digit (c % 16) == hex_digit (d % 16) then rest else false
        else false)
      ≡ (if c == d then rest else false)
same_codes c d rest hc hd = elim (ℕ_discrete c d) [
  | yes e ↦
      rw
        (
          eq→== (hex_digit (c / 16)) (hex_digit (d / 16)) (ap (λ n. hex_digit (n / 16)) e),
          eq→== (hex_digit (c % 16)) (hex_digit (d % 16)) (ap (λ n. hex_digit (n % 16)) e),
          eq→== c d e,
        )
        refl
  | no ne ↦ rw (ne→== c d ne) (elim (ℕ_discrete (c / 16) (d / 16)) [
    | yes high ↦
        rw
          (
            eq→== (hex_digit (c / 16)) (hex_digit (d / 16)) (ap hex_digit high),
            ne→== (hex_digit (c % 16)) (hex_digit (d % 16)) (λ e.
                ne (low_digits c d high (hex_digit-injective _ _ (omega arith) (omega arith) e))),
          )
          refl
    | no high ↦
        rw
          (ne→== (hex_digit (c / 16)) (hex_digit (d / 16))
            (λ e. high (hex_digit-injective _ _ (omega arith) (omega arith) e)))
          refl
  ])
]
  where
    low_digits : (c d : ℕ) → c / 16 ≡ d / 16 → c % 16 ≡ d % 16 → c ≡ d
    low_digits c d high low = omega arith

-- The codes of two characters, with what follows them.
codes :
    (c d : ℕ) (cs ds xs ys : List ℕ)
    → IsCode c cs
    → IsCode d ds
    → starts_with (cs ++ xs) (ds ++ ys) ≡ (if c == d then starts_with xs ys else false)
unfolding starts_with
codes c d cs ds xs ys (kept ne k) (kept ne' k') = refl
codes c d cs ds xs ys (kept ne k) (escaped k' h) = rw (ne→== c b'_' ne, ne→== c d (λ e. cc)) refl
codes c d cs ds xs ys (escaped k h) (kept ne k') =
    rw (ne→== b'_' d (λ e. ne (sym e)), ne→== c d (λ e. cc)) refl
codes c d cs ds xs ys (escaped k h) (escaped k' h') = same_codes c d (starts_with xs ys) h h'

code_starts_nothing : (c : ℕ) (cs xs : List ℕ) → IsCode c cs → starts_with (cs ++ xs) [] ≡ false
unfolding starts_with
code_starts_nothing c cs xs (kept ne k) = refl
code_starts_nothing c cs xs (escaped k h) = refl

-- An id begins with another exactly where the text does: matching rows by the ids that
-- `convertToId` makes is matching them by their names.
pub starts_with-convert_to_id :
    (search name : List ℕ)
    → All (λ c. c < 2 ^ 16) search
    → All (λ c. c < 2 ^ 16) name
    → starts_with (convert_to_id search) (convert_to_id name) ≡ starts_with search name
unfolding starts_with convert_to_id
starts_with-convert_to_id [] name h h' = refl
starts_with-convert_to_id (c ∷ search) [] h h' =
    code_starts_nothing c (convert_char c) (convert_to_id search) (convert_char-IsCode c h.0)
starts_with-convert_to_id (c ∷ search) (d ∷ name) h h' =
    codes c d (convert_char c) (convert_char d) (convert_to_id search) (convert_to_id name)
      (convert_char-IsCode c h.0) (convert_char-IsCode d h'.0)
    ∙ ap (λ (t : Bool). if c == d then t else false)
        (starts_with-convert_to_id search name h.1 h'.1)

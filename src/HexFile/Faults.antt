-- ===== src/HexFile/Faults.antt =====
-- What the body of the loop takes, whatever the line is: the array has 260 characters.
use mathlib.Core.Path.{subst}
use re_boot.Base.{
  ℕ, zero, suc, ◌+◌, ◌-◌, ◌*◌, ◌%◌, ◌^◌, ◌≤◌, ◌<◌, ◌≡◌, ◌≢◌, ◌⊎◌, inl, inr, refl, sym, ap, ◌∙◌,
  arith, ltb, ◌==◌, true, false, ◌&&◌, ◌||◌, some, List, [], ◌∷◌, length, drop, Bool-cases,
  Option-cases,
}
use re_boot.HexFile.{
  Result, ok, overread, overrun, unopened, ◌>>=◌, digit_value, hex_digits, skip_space, skip_prefix,
  signed_number, strtoul, copy, hex_to_int, Reader, note, writable, new_base, new_bytes,
  read_record,
}

digit_value_bound : (c d : ℕ) → digit_value c ≡ some d → d < 16
unfolding digit_value
digit_value_bound c d h = ground arith

one_digit : (acc c : ℕ) → hex_digits acc (c ∷ []) < acc * 16 + 16
unfolding hex_digits
one_digit acc c = elim (Option-cases (digit_value c)) [
  | inl e ↦ rw (e, hex_digits) (omega arith)
  | inr (d, e) ↦ rw (e, hex_digits) (omega (arith, digit_value_bound c d e))
]

two_digits : (a b : ℕ) → hex_digits 0 (a ∷ b ∷ []) < 256
unfolding hex_digits
two_digits a b = elim (Option-cases (digit_value a)) [
  | inl e ↦ rw (e, hex_digits) (omega arith)
  | inr (d, e) ↦
      rw (e, hex_digits) (omega (arith, digit_value_bound a d e, one_digit (0 * 16 + d) b))
]

no_digits : (acc : ℕ) → hex_digits acc [] ≡ acc
unfolding hex_digits
no_digits acc = refl

-- What two characters can stand for.
abbrev IsSmall : ℕ → Type 0
IsSmall v = (v < 256) ⊎ ((2 ^ 32 - 16 < v) × (v < 2 ^ 32))

minus-IsSmall : (v : ℕ) → v < 16 → IsSmall ((2 ^ 32 - v % 2 ^ 32) % 2 ^ 32)
minus-IsSmall zero h = inl (omega arith)
minus-IsSmall (suc v) h = inr (omega arith)

plain-IsSmall : (v : ℕ) → v < 256 → IsSmall (v % 2 ^ 32)
plain-IsSmall v h = inl (omega arith)

-- A prefix leaves nothing of two characters.
prefixed : (a b : ℕ) → hex_digits 0 (skip_prefix (a ∷ b ∷ [])) < 256
unfolding skip_prefix
prefixed a b = elim (Bool-cases (a == b'0' && (b == b'x' || b == b'X'))) [
  | inl e ↦ rw (e, no_digits 0) (omega arith)
  | inr e ↦ rw e (two_digits a b)
]

signed_cases :
    (c : ℕ) (text : List ℕ)
    → hex_digits 0 (skip_prefix text) < 16
    → hex_digits 0 (skip_prefix (c ∷ text)) < 256
    → IsSmall (signed_number (c ∷ text))
unfolding signed_number
signed_cases c text h k = elim (Bool-cases (c == b'-')) [
  | inl e ↦ rw e (minus-IsSmall (hex_digits 0 (skip_prefix text)) h)
  | inr e ↦ elim (Bool-cases (c == b'+')) [
    | inl f ↦ rw (e, f) (plain-IsSmall (hex_digits 0 (skip_prefix text)) (omega arith))
    | inr f ↦ rw (e, f) (plain-IsSmall (hex_digits 0 (skip_prefix (c ∷ text))) k)
  ]
]

signed-IsSmall : (text : List ℕ) → length text ≤ 2 → IsSmall (signed_number text)
signed-IsSmall [] h = unfold signed_number in inl (omega arith)
signed-IsSmall (a ∷ []) h =
    signed_cases a [] nothing (unfold skip_prefix in omega (arith, one_digit 0 a))
  where
    nothing : hex_digits 0 (skip_prefix []) < 16
    nothing = unfold skip_prefix in unfold hex_digits in omega arith
signed-IsSmall (a ∷ b ∷ []) h =
    signed_cases a (b ∷ []) (unfold skip_prefix in omega (arith, one_digit 0 b)) (prefixed a b)
signed-IsSmall (a ∷ b ∷ c ∷ text) h = absurd (omega arith)

length-skip_space : (text : List ℕ) → length (skip_space text) ≤ length text
unfolding skip_space
length-skip_space [] = omega arith
length-skip_space (c ∷ text) = ground (arith, length-skip_space text)

length-copy : (n : ℕ) (memory text : List ℕ) → copy n memory ≡ some text → length text ≤ n
unfolding copy
length-copy zero memory text e = ground arith
length-copy (suc n) [] text e = cc
length-copy (suc n) (c ∷ memory) text e = elim (Bool-cases (c == 0)) [
  | inl z ↦ ground arith
  | inr z ↦ elim (Option-cases (copy n memory)) [
    | inl f ↦ ground arith
    | inr (rest, f) ↦ ground (arith, length-copy n memory rest f)
  ]
]

two-IsSmall : (memory : List ℕ) (v : ℕ) → hex_to_int memory 2 ≡ ok v → IsSmall v
unfolding hex_to_int strtoul
two-IsSmall memory v e = elim (Option-cases (copy 2 memory)) [
  | inl f ↦ ground arith
  | inr (text, f) ↦
      let short : length (skip_space text) ≤ 2 =
        omega (arith, length-skip_space text, length-copy 2 memory text f) in
      subst IsSmall (value text f) (signed-IsSmall (skip_space text) short)
]
  where
    value : (text : List ℕ) → copy 2 memory ≡ some text → signed_number (skip_space text) ≡ v
    value text f = ground arith

-- A step that is bound and gives a value in the end has given one itself.
bound_ok :
    {A B : Type 0} (next : A → Result B) {end_ : B} (step : Result A)
    → (step >>= next) ≡ ok end_
    → (value : A) × (step ≡ ok value) × (next value ≡ ok end_)
bound_ok next (ok value) e = (value, refl, e)
bound_ok next overread e = cc
bound_ok next overrun e = cc
bound_ok next unopened e = cc

pub ok_injective : {A : Type 0} (a b : A) → ok a ≡ ok b → a ≡ b
ok_injective a b e = ap (λ m. elim m [ ok c ↦ c | _ ↦ a ]) e

drop_all : (n : ℕ) (xs : List ℕ) → length xs ≤ n → drop n xs ≡ []
drop_all zero [] h = refl
drop_all zero (x ∷ xs) h = absurd (omega arith)
drop_all (suc n) [] h = refl
drop_all (suc n) (x ∷ xs) h = drop_all n xs (omega arith)

past_the_end : hex_to_int [] 2 ≡ overread
unfolding hex_to_int copy
past_the_end = refl

-- The checksum of a record with more than 125 bytes is outside the array.
far_checksum :
    (line : List ℕ) (len : ℕ)
    → length line ≡ 260
    → IsSmall len
    → 126 ≤ len
    → hex_to_int (drop (9 + len * 2 % 2 ^ 32) line) 2 ≡ overread
far_checksum line len h small far =
    ap (λ (t : List ℕ). hex_to_int t 2) (drop_all (9 + len * 2 % 2 ^ 32) line (beyond small))
    ∙ past_the_end
  where
    beyond : IsSmall len → length line ≤ 9 + len * 2 % 2 ^ 32
    beyond (inl s) = omega arith
    beyond (inr s) = omega arith

-- A line with a length field above 125 gives no record: its checksum is read outside the array of 260
-- characters, if not its other fields are or there is no room for it.
pub read_record_long :
    (max_records : ℕ) (line : List ℕ) (r r' : Reader) (len : ℕ)
    → length line ≡ 260
    → hex_to_int (drop 1 line) 2 ≡ ok len
    → 126 ≤ len
    → read_record max_records line r ≢ ok r'
unfolding read_record
read_record_long max_records line r r' len h e far taken =
    let (len', el, t1) = bound_ok _ (hex_to_int (drop 1 line) 2) taken in
    let same : len' ≡ len = cc (el, e) in
    let (address, ea, t2) = bound_ok _ (hex_to_int (drop 3 line) 4) t1 in
    let (kind, ek, t3) = bound_ok _ (hex_to_int (drop 7 line) 2) t2 in
    let (done, er, t4) = bound_ok _ (writable max_records r) t3 in
    let (checksum, ec, t5) = bound_ok _ (hex_to_int (drop (9 + len' * 2 % 2 ^ 32) line) 2) t4 in
    absurd (cc (ec, far_checksum line len' h (two-IsSmall (drop 1 line) len' el) (rw same far)))

-- What a record that is taken is made of.
pub record IsTaken (r r' : Reader) : Type 0 where
  pub len : ℕ
  pub address : ℕ
  pub kind : ℕ
  pub checksum : ℕ
  pub base : ℕ
  pub bytes : List ℕ
  pub short : len ≤ 125
  pub kinds : (kind ≡ 0) ⊎ ((kind ≢ 0) × (kind % 256 ≢ 0))
  pub noted :
      r'
      ≡ note kind len
          (record {
            address = (base + address) % 2 ^ 32;
            len = len % 256;
            bytes = bytes;
            kind = kind % 256;
            checksum = checksum % 256;
          })
          (record r { base_address = base })

small_kind : (kind : ℕ) → IsSmall kind → (kind ≡ 0) ⊎ ((kind ≢ 0) × (kind % 256 ≢ 0))
small_kind zero s = inl refl
small_kind (suc k) (inl s) = inr (omega arith, omega arith)
small_kind (suc k) (inr s) = inr (omega arith, omega arith)

pub read_record-IsTaken :
    (max_records : ℕ) (line : List ℕ) (r r' : Reader)
    → length line ≡ 260
    → read_record max_records line r ≡ ok r'
    → IsTaken r r'
unfolding read_record
read_record-IsTaken max_records line r r' h taken =
    let (len, el, t1) = bound_ok _ (hex_to_int (drop 1 line) 2) taken in
    let (address, ea, t2) = bound_ok _ (hex_to_int (drop 3 line) 4) t1 in
    let (kind, ek, t3) = bound_ok _ (hex_to_int (drop 7 line) 2) t2 in
    let (done, er, t4) = bound_ok _ (writable max_records r) t3 in
    let (checksum, ec, t5) = bound_ok _ (hex_to_int (drop (9 + len * 2 % 2 ^ 32) line) 2) t4 in
    let (base, eb, t6) = bound_ok _ (new_base line kind r) t5 in
    let (bytes, ed, t7) = bound_ok _ (new_bytes line kind len) t6 in
    record {
      len = len;
      address = address;
      kind = kind;
      checksum = checksum;
      base = base;
      bytes = bytes;
      short = within len el (Bool-cases (ltb 125 len));
      kinds = small_kind kind (two-IsSmall (drop 7 line) kind ek);
      noted = sym (ok_injective _ _ t7);
    }
  where
    within :
        (len : ℕ)
        → hex_to_int (drop 1 line) 2 ≡ ok len
        → (ltb 125 len ≡ true) ⊎ (ltb 125 len ≡ false)
        → len ≤ 125
    within len el (inl b) =
        absurd (read_record_long max_records line r r' len h el (ground arith) taken)
    within len el (inr b) = ground arith

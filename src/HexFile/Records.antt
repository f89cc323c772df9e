-- ===== src/HexFile/Records.antt =====
-- What the body of the loop makes of a printed record, whatever the array holds behind it.
use re_boot.Base.{
  ℕ, zero, suc, ◌+◌, ◌*◌, ◌/◌, ◌%◌, ◌^◌, ◌≤◌, ◌<◌, ◌≡◌, refl, ap, ◌∙◌, arith, Bool, List, [], ◌∷◌,
  ◌++◌, length, drop, All, lt→ltb, le→ltb,
}
use re_boot.HexFile.{
  ok, overrun, hex_to_int, read_bytes, Reader, note, writable, new_base, new_bytes, read_record,
}
use re_boot.HexFile.Digits.{hex2, hex4, hex_to_int-hex2, hex_to_int-hex4}
use re_boot.HexFile.Print.{hex_bytes, print_record, IsByte}

drop_nil : (n : ℕ) → drop {A = ℕ} n [] ≡ []
drop_nil zero = refl
drop_nil (suc n) = refl

drop-drop : (n : ℕ) (xs : List ℕ) → drop (n + 2) xs ≡ drop 2 (drop n xs)
drop-drop zero xs = ap (λ (k : ℕ). drop k xs) two
  where
    two : 0 + 2 ≡ 2
    two = refl
drop-drop (suc n) [] = drop_nil (suc n + 2)
drop-drop (suc n) (x ∷ xs) = ap (λ (k : ℕ). drop k (x ∷ xs)) (shift n) ∙ drop-drop n xs
  where
    shift : (n : ℕ) → suc n + 2 ≡ suc (n + 2)
    shift n = omega arith

-- The array behind the bytes of a record.
drop-hex_bytes :
    (upper : Bool) (bytes line rest : List ℕ) (i : ℕ)
    → drop (9 + i * 2) line ≡ hex_bytes upper bytes rest
    → drop (9 + (i + length bytes) * 2) line ≡ rest
unfolding hex_bytes
drop-hex_bytes upper [] line rest i e = ap (λ (k : ℕ). drop k line) (omega arith) ∙ e
drop-hex_bytes upper (b ∷ bytes) line rest i e =
    ap (λ (k : ℕ). drop k line) (omega arith)
    ∙ drop-hex_bytes upper bytes line rest (i + 1) (
        ap (λ (k : ℕ). drop k line) (next i)
        ∙ drop-drop (9 + i * 2) line
        ∙ ap (λ (t : List ℕ). drop 2 t) e)
  where
    next : (i : ℕ) → 9 + (i + 1) * 2 ≡ 9 + i * 2 + 2
    next i = omega arith

step_bytes :
    (line : List ℕ) (left i v : ℕ) (bytes : List ℕ)
    → hex_to_int (drop (9 + i * 2) line) 2 ≡ ok v
    → v < 256
    → read_bytes line left (i + 1) ≡ ok bytes
    → read_bytes line (suc left) i ≡ ok (v ∷ bytes)
unfolding read_bytes
step_bytes line left i v bytes e h r = ground arith

read_bytes-hex_bytes :
    (upper : Bool) (bytes line rest : List ℕ) (i : ℕ)
    → All IsByte bytes
    → drop (9 + i * 2) line ≡ hex_bytes upper bytes rest
    → read_bytes line (length bytes) i ≡ ok bytes
unfolding hex_bytes
read_bytes-hex_bytes upper [] line rest i h e = unfold read_bytes in refl
read_bytes-hex_bytes upper (b ∷ bytes) line rest i h e =
    step_bytes line (length bytes) i b bytes
      (ap (λ (t : List ℕ). hex_to_int t 2) e ∙ hex_to_int-hex2 upper b _ h.0) h.0
      (read_bytes-hex_bytes upper bytes line rest (i + 1) h.1 (
        ap (λ (k : ℕ). drop k line) (next i)
        ∙ drop-drop (9 + i * 2) line
        ∙ ap (λ (t : List ℕ). drop 2 t) e))
  where
    next : (i : ℕ) → 9 + (i + 1) * 2 ≡ 9 + i * 2 + 2
    next i = omega arith

append-hex_bytes :
    (upper : Bool) (bytes rest more : List ℕ)
    → hex_bytes upper bytes rest ++ more ≡ hex_bytes upper bytes (rest ++ more)
unfolding hex_bytes
append-hex_bytes upper [] rest more = refl
append-hex_bytes upper (b ∷ bytes) rest more =
    ap (λ (t : List ℕ). hex2 upper b t) (append-hex_bytes upper bytes rest more)

there_is_room :
    (max_records : ℕ) (r : Reader) → length r.records < max_records → writable max_records r ≡ ok tt
unfolding writable
there_is_room max_records r h = rw (lt→ltb (length r.records) max_records h) refl

-- The record that the body makes of the numbers that it reads.
from_numbers :
    (max_records : ℕ) (line : List ℕ) (r : Reader) (len address kind checksum base : ℕ)
    (bytes : List ℕ)
    → hex_to_int (drop 1 line) 2 ≡ ok len
    → hex_to_int (drop 3 line) 4 ≡ ok address
    → hex_to_int (drop 7 line) 2 ≡ ok kind
    → length r.records < max_records
    → hex_to_int (drop (9 + len * 2 % 2 ^ 32) line) 2 ≡ ok checksum
    → new_base line kind r ≡ ok base
    → new_bytes line kind len ≡ ok bytes
    → len < 256
    → kind < 256
    → checksum < 256
    → read_record max_records line r
      ≡ ok (
          note kind len
            (record {
              address = (base + address) % 2 ^ 32;
              len = len;
              bytes = bytes;
              kind = kind;
              checksum = checksum;
            })
            (record r { base_address = base }))
unfolding read_record
from_numbers max_records line r len address kind checksum base bytes el ea ek room ec eb ed hl hk
      hc =
    let free : writable max_records r ≡ ok tt = there_is_room max_records r room in
    let same : (len % 256 ≡ len) × (kind % 256 ≡ kind) × (checksum % 256 ≡ checksum) =
      omega arith in
    rw (el, ea, ek, free, ec, eb, ed, same.0, same.1, same.2) refl

abbrev header : Bool → ℕ → ℕ → ℕ → List ℕ → List ℕ
header upper len address kind body =
    b':' ∷ hex2 upper len (hex4 upper address (hex2 upper kind body))

append-print_record :
    (upper : Bool) (address kind : ℕ) (bytes : List ℕ) (checksum : ℕ) (tail : List ℕ)
    → print_record upper address kind bytes checksum ++ tail
      ≡ header upper (length bytes) address kind (hex_bytes upper bytes (hex2 upper checksum tail))
unfolding print_record
append-print_record upper address kind bytes checksum tail =
    ap (header upper (length bytes) address kind)
      (append-hex_bytes upper bytes (hex2 upper checksum []) tail)

module _ (upper : Bool) (max_records : ℕ) (r : Reader) (room : length r.records < max_records)
    (address kind : ℕ) (bytes : List ℕ) (checksum : ℕ) (tail : List ℕ)
    (fits : (address < 2 ^ 16) × (kind < 256) × (length bytes < 256) × (checksum < 256)) where
  abbrev body : List ℕ
  body = hex_bytes upper bytes (hex2 upper checksum tail)

  abbrev line : List ℕ
  line = header upper (length bytes) address kind body

  -- Where the base and the bytes are known that the body takes.
  read_record-header :
      (base : ℕ) (stored : List ℕ)
      → new_base line kind r ≡ ok base
      → new_bytes line kind (length bytes) ≡ ok stored
      → read_record max_records line r
        ≡ ok (
            note kind
              (length bytes)
              (record {
                address = (base + address) % 2 ^ 32;
                len = length bytes;
                bytes = stored;
                kind = kind;
                checksum = checksum;
              })
              (record r { base_address = base }))
  read_record-header base stored eb ed =
      from_numbers max_records line r (length bytes) address kind checksum base stored
        (hex_to_int-hex2 upper (length bytes) (hex4 upper address (hex2 upper kind body)) fits.2)
        (hex_to_int-hex4 upper address (hex2 upper kind body) fits.0)
        (hex_to_int-hex2 upper kind body fits.1) room
        (ap (λ (t : List ℕ). hex_to_int t 2) at_checksum
          ∙ hex_to_int-hex2 upper checksum tail fits.3)
        eb ed fits.2 fits.1 fits.3
    where
      at_checksum : drop (9 + length bytes * 2 % 2 ^ 32) line ≡ hex2 upper checksum tail
      at_checksum =
          ap (λ (k : ℕ). drop k line) (omega (arith, fits.2))
          ∙ drop-hex_bytes upper bytes line (hex2 upper checksum tail) 0 refl

-- The bodies of the three kinds of records.
pub read_data :
    (upper : Bool) (max_records : ℕ) (r : Reader) (address : ℕ) (bytes : List ℕ) (checksum : ℕ)
    (tail : List ℕ)
    → length r.records < max_records
    → address < 2 ^ 16
    → All IsByte bytes
    → length bytes < 256
    → checksum < 256
    → read_record max_records (print_record upper address 0 bytes checksum ++ tail) r
      ≡ ok (
          note 0
            (length bytes)
            (record {
              address = (r.base_address + address) % 2 ^ 32;
              len = length bytes;
              bytes = bytes;
              kind = 0;
              checksum = checksum;
            })
            r)
read_data upper max_records r address bytes checksum tail room ha hb hn hc =
    ap (λ (l : List ℕ). read_record max_records l r)
      (append-print_record upper address 0 bytes checksum tail)
    ∙ read_record-header upper max_records r room address 0 bytes checksum tail
        (ha, omega arith, hn, hc) r.base_address bytes (unfold new_base in refl)
        (unfold new_bytes in stored)
  where
    stored :
        read_bytes
          (header upper (length bytes) address 0 (hex_bytes upper bytes (hex2 upper checksum tail)))
          (length bytes)
          0
        ≡ ok bytes
    stored =
        read_bytes-hex_bytes upper bytes
          (header upper (length bytes) address 0 (hex_bytes upper bytes (hex2 upper checksum tail)))
          (hex2 upper checksum tail) 0 hb refl

pub read_base :
    (upper : Bool) (max_records : ℕ) (r : Reader) (hi checksum : ℕ) (tail : List ℕ)
    → length r.records < max_records
    → hi < 2 ^ 16
    → checksum < 256
    → read_record max_records (print_record upper 0 4 (hi / 256 ∷ hi % 256 ∷ []) checksum ++ tail) r
      ≡ ok (
          note 4 2
            (record { address = hi * 2 ^ 16; len = 2; bytes = []; kind = 4; checksum = checksum })
            (record r { base_address = hi * 2 ^ 16 }))
unfolding hex_bytes
read_base upper max_records r hi checksum tail room hh hc =
    ap (λ (l : List ℕ). read_record max_records l r)
      (append-print_record upper 0 4 (hi / 256 ∷ hi % 256 ∷ []) checksum tail)
    ∙ read_record-header upper max_records r room 0 4 (hi / 256 ∷ hi % 256 ∷ []) checksum tail
        (omega arith, omega arith, omega arith, hc) (hi * 2 ^ 16) [] based
        (unfold new_bytes in refl)
    ∙ ap
        (λ (a : ℕ). ok (
          note 4 2 (record { address = a; len = 2; bytes = []; kind = 4; checksum = checksum })
            (record r { base_address = hi * 2 ^ 16 })))
        (omega arith)
  where
    based :
        new_base (header upper 2 0 4 (hex4 upper hi (hex2 upper checksum tail))) 4 r
        ≡ ok (hi * 2 ^ 16)
    based =
        unfold new_base in
        rw (hex_to_int-hex4 upper hi (hex2 upper checksum tail) hh)
          (ap (λ (n : ℕ). ok n) (omega arith))

pub read_end :
    (upper : Bool) (max_records : ℕ) (r : Reader) (address checksum : ℕ) (tail : List ℕ)
    → length r.records < max_records
    → address < 2 ^ 16
    → checksum < 256
    → read_record max_records (print_record upper address 1 [] checksum ++ tail) r
      ≡ ok (
          note 1 0
            (record {
              address = (r.base_address + address) % 2 ^ 32;
              len = 0;
              bytes = [];
              kind = 1;
              checksum = checksum;
            })
            r)
read_end upper max_records r address checksum tail room ha hc =
    ap (λ (l : List ℕ). read_record max_records l r)
      (append-print_record upper address 1 [] checksum tail)
    ∙ read_record-header upper max_records r room address 1 [] checksum tail
        (ha, omega arith, omega arith, hc) r.base_address [] (unfold new_base in refl)
        (unfold new_bytes in refl)

no_room :
    (max_records : ℕ) (r : Reader)
    → max_records ≤ length r.records
    → writable max_records r ≡ overrun
unfolding writable
no_room max_records r h = rw (le→ltb (length r.records) max_records h) refl

overruns :
    (max_records : ℕ) (line : List ℕ) (r : Reader) (len address kind : ℕ)
    → hex_to_int (drop 1 line) 2 ≡ ok len
    → hex_to_int (drop 3 line) 4 ≡ ok address
    → hex_to_int (drop 7 line) 2 ≡ ok kind
    → writable max_records r ≡ overrun
    → read_record max_records line r ≡ overrun
unfolding read_record
overruns max_records line r len address kind el ea ek er = rw (el, ea, ek, er) refl

-- A record for which the pool has no room.
pub read_overrun :
    (upper : Bool) (max_records : ℕ) (r : Reader) (address kind : ℕ) (bytes : List ℕ) (checksum : ℕ)
    (tail : List ℕ)
    → max_records ≤ length r.records
    → address < 2 ^ 16
    → kind < 256
    → length bytes < 256
    → read_record max_records (print_record upper address kind bytes checksum ++ tail) r ≡ overrun
read_overrun upper max_records r address kind bytes checksum tail full ha hk hn =
    let body = hex_bytes upper bytes (hex2 upper checksum tail) in
    ap (λ (l : List ℕ). read_record max_records l r)
      (append-print_record upper address kind bytes checksum tail)
    ∙ overruns max_records (header upper (length bytes) address kind body) r (length bytes) address
        kind (hex_to_int-hex2 upper (length bytes) (hex4 upper address (hex2 upper kind body)) hn)
        (hex_to_int-hex4 upper address (hex2 upper kind body) ha)
        (hex_to_int-hex2 upper kind body hk) (no_room max_records r full)

-- ===== src/HexFile.antt =====
-- utility/file_mgmt.c: `get_file_size` and `read_hex_file`, with `hex_to_int` of
-- utility/data_conversion.c, and how init/main.c puts them together. A file is the list of its
-- characters; `fgets` of the language's library cuts it into pieces. The array `line` keeps what
-- earlier lines left in it, and a read outside of it is an outcome of its own, as is a write past the
-- pool of records.
pub mod Digits
pub mod Print
pub mod Pieces
pub mod Records
pub mod RoundTrip
pub mod Extent
pub mod Faults
pub mod Image
pub mod Unterminated
pub mod Examples
use re_boot.Base.{
  ℕ, zero, suc, ◌+◌, ◌-◌, ◌*◌, ◌%◌, ◌^◌, ltb, leb, ◌==◌, if◌then◌else◌, Bool, true, false, ◌&&◌,
  ◌||◌, Option, none, some, List, [], ◌∷◌, ◌++◌, length, drop,
}
use re_boot.Pipeline.{HexRecord}

-- What a step of the reader gives: a value, or one of the three ways in which it ends.
pub data Result (A : Type 0) : Type 0 where
  overread overrun unopened : Result A
  ok : A → Result A

infixl 5 ◌>>=◌
abbrev pub ◌>>=◌ : {A B : Type 0} → Result A → (A → Result B) → Result B
ok value >>= next = next value
overread >>= next = overread
overrun >>= next = overrun
unopened >>= next = unopened

-- `strtoul` with base 16, from the language's library.
pub is_space : ℕ → Bool
is_space c = c == b' ' || leb 9 c && leb c 13

pub digit_value : ℕ → Option ℕ
digit_value c =
    if leb b'0' c && leb c b'9'
    then some (c - b'0')
    else if leb b'A' c && leb c b'F'
    then some (c - b'A' + 10)
    else if leb b'a' c && leb c b'f'
    then some (c - b'a' + 10)
    else none

pub hex_digits : ℕ → List ℕ → ℕ
unfolding digit_value
hex_digits acc [] = acc
hex_digits acc (c ∷ text) = elim (digit_value c) [
  | none ↦ acc
  | some d ↦ hex_digits (acc * 16 + d) text
]

pub skip_space : List ℕ → List ℕ
unfolding is_space
skip_space [] = []
skip_space (c ∷ text) = elim (is_space c) [ true ↦ skip_space text | false ↦ c ∷ text ]

pub skip_prefix : List ℕ → List ℕ
skip_prefix [] = []
skip_prefix (a ∷ []) = a ∷ []
skip_prefix (a ∷ b ∷ text) = if a == b'0' && (b == b'x' || b == b'X') then text else a ∷ b ∷ text

pub signed_number : List ℕ → ℕ
unfolding hex_digits skip_prefix
signed_number [] = 0
signed_number (c ∷ text) =
    if c == b'-'
    then (2 ^ 32 - hex_digits 0 (skip_prefix text) % 2 ^ 32) % 2 ^ 32
    else if c == b'+'
    then hex_digits 0 (skip_prefix text) % 2 ^ 32
    else hex_digits 0 (skip_prefix (c ∷ text)) % 2 ^ 32

-- The result of `strtoul` as the `uint32_t` that `hex_to_int` returns.
pub strtoul : List ℕ → ℕ
unfolding signed_number skip_space
strtoul text = signed_number (skip_space text)

-- `strncpy`: the characters before a NUL, of the given number at most; `none` is a read past the end.
pub copy : ℕ → List ℕ → Option (List ℕ)
copy zero memory = some []
copy (suc n) [] = none
copy (suc n) (c ∷ memory) = elim (c == 0) [
  | true ↦ some []
  | false ↦ elim (copy n memory) [ none ↦ none | some text ↦ some (c ∷ text) ]
]

-- The memory is what the array has from the pointer on.
pub hex_to_int : List ℕ → ℕ → Result ℕ
unfolding copy strtoul
hex_to_int memory len = elim (copy len memory) [ none ↦ overread | some text ↦ ok (strtoul text) ]

-- The loop that copies the bytes of a record, from byte `i` on.
pub read_bytes : List ℕ → ℕ → ℕ → Result (List ℕ)
unfolding hex_to_int
read_bytes line zero i = ok []
read_bytes line (suc left) i = elim (hex_to_int (drop (9 + i * 2) line) 2) [
  | ok v ↦ elim (read_bytes line left (i + 1)) [
    | ok bytes ↦ ok (v % 256 ∷ bytes)
    | overread ↦ overread
    | overrun ↦ overrun
    | unopened ↦ unopened
  ]
  | overread ↦ overread
  | overrun ↦ overrun
  | unopened ↦ unopened
]

-- What the function keeps: the records that it wrote, the base of the 04 records, whether no data
-- record came yet, and the two addresses that it returns.
pub record Reader : Type 0 where
  pub records : List HexRecord
  pub base_address : ℕ
  pub first : Bool
  pub hex_base_address : ℕ
  pub hex_end_address : ℕ

-- A record that is written, with the two addresses; its type and its length are those that were read.
pub note : ℕ → ℕ → HexRecord → Reader → Reader
note kind len rec r =
    let low =
      if r.first || ltb rec.address r.hex_base_address then rec.address else r.hex_base_address in
    let end_addr = (rec.address + len) % 2 ^ 32 in
    if kind == 0
    then record r {
      records = r.records ++ rec ∷ [];
      first = false;
      hex_base_address = low;
      hex_end_address = if ltb r.hex_end_address end_addr then end_addr else r.hex_end_address;
    }
    else record r { records = r.records ++ rec ∷ [] }

-- The array has this many records.
pub writable : ℕ → Reader → Result (Unit {0})
writable max_records r = if ltb (length r.records) max_records then ok tt else overrun

pub new_base : List ℕ → ℕ → Reader → Result ℕ
unfolding hex_to_int
new_base line kind r =
    if kind == 4
    then hex_to_int (drop 9 line) 4 >>= (λ hi. ok (hi * 2 ^ 16 % 2 ^ 32))
    else ok r.base_address

-- The bytes of the array `data` that are written: none for other records than data.
pub new_bytes : List ℕ → ℕ → ℕ → Result (List ℕ)
unfolding read_bytes
new_bytes line kind len = if kind == 0 then read_bytes line len 0 else ok []

-- The body of the loop, behind the test of the first character. The length of the record is used as
-- the `uint32_t` that was read, and stored in a byte.
pub read_record : ℕ → List ℕ → Reader → Result Reader
read_record max_records line r = do
  len ← hex_to_int (drop 1 line) 2
  address ← hex_to_int (drop 3 line) 4
  kind ← hex_to_int (drop 7 line) 2
  done ← writable max_records r
  checksum ← hex_to_int (drop (9 + len * 2 % 2 ^ 32) line) 2
  base ← new_base line kind r
  bytes ← new_bytes line kind len
  ok (
      note kind len
        (record {
          address = (base + address) % 2 ^ 32;
          len = len % 256;
          bytes = bytes;
          kind = kind % 256;
          checksum = checksum % 256;
        })
        (record r { base_address = base }))

-- `sizeof(line)`
abbrev pub max_char_per_line : ℕ
max_char_per_line = 260

-- The pieces that `fgets` returns: up to a newline, or as many characters as there is room for.
pub pieces : ℕ → List ℕ → List (List ℕ)
pieces room [] = []
pieces room (c ∷ file) = elim (c == b'\n' || leb room 1) [
  | true ↦ (c ∷ []) ∷ pieces (max_char_per_line - 1) file
  | false ↦ elim (pieces (room - 1) file) [ [] ↦ (c ∷ []) ∷ [] | piece ∷ more ↦ (c ∷ piece) ∷ more ]
]

-- The array after `fgets`.
pub fill : List ℕ → List ℕ → List ℕ
fill piece line = piece ++ 0 ∷ drop (length piece + 1) line

pub is_record : List ℕ → Bool
is_record [] = false
is_record (c ∷ line) = c == b':'

-- The `while` loop over the pieces.
pub read_lines : ℕ → List ℕ → List (List ℕ) → Reader → Result Reader
read_lines max_records line [] r = ok r
read_lines max_records line (piece ∷ more) r =
    let line' = fill piece line in
    elim (is_record line') [
      | true ↦ elim (read_record max_records line' r) [
        | ok r' ↦ read_lines max_records line' more r'
        | overread ↦ overread
        | overrun ↦ overrun
        | unopened ↦ unopened
      ]
      | false ↦ read_lines max_records line' more r
    ]

-- `max_records` is the size of the pool, in records; `line` is what the array holds at first, and the
-- two addresses are the caller's.
pub read_hex_file : ℕ → List ℕ → ℕ → ℕ → Option (List ℕ) → Result Reader
unfolding read_lines pieces
read_hex_file max_records line low high none = unopened
read_hex_file max_records line low high (some file) =
    read_lines max_records line (pieces (max_char_per_line - 1) file) (record {
      records = [];
      base_address = 0;
      first = true;
      hex_base_address = low;
      hex_end_address = high;
    })

-- The count of `get_file_size`, for a regular file that can be read.
pub count_lines : List ℕ → ℕ
count_lines [] = 0
count_lines (c ∷ file) = if c == b'\n' then count_lines file + 1 else count_lines file

-- What `main` makes of the file: a pool with a record for each line; without lines it ends before.
pub load : List ℕ → List ℕ → Result Reader
unfolding count_lines read_hex_file
load line file =
    if count_lines file == 0
    then unopened
    else read_hex_file (count_lines file) line 0 0 (some file)

-- The records that `main` hands on, as many as the file has lines: those that were written, and behind
-- them what the pool holds from `malloc`.
pub pool_records : List HexRecord → Reader → List HexRecord
pool_records pool r = r.records ++ drop (length r.records) pool

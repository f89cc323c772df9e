-- ===== src/HexFile/Print.antt =====
-- The text of a file in Intel HEX, as a program writes it, and the records that it stands for.
use re_boot.Base.{
  ℕ, ◌+◌, ◌*◌, ◌/◌, ◌%◌, ◌^◌, ◌≤◌, ◌<◌, ◌≡◌, ◌==◌, if◌then◌else◌, Bool, true, false, List, [], ◌∷◌,
  ◌++◌, length, All,
}
use re_boot.Pipeline.{HexRecord}
use re_boot.HexFile.Digits.{hex2, hex4}

-- A line: a data record at an address below its base, a base, the end of the file, or a comment. The
-- first three have a checksum.
pub data Line : Type 0 where
  data_line : ℕ → List ℕ → ℕ → Line
  base_line end_line : ℕ → ℕ → Line
  comment : List ℕ → Line

unfoldable pub hex_bytes : Bool → List ℕ → List ℕ → List ℕ
hex_bytes upper [] rest = rest
hex_bytes upper (b ∷ bytes) rest = hex2 upper b (hex_bytes upper bytes rest)

-- A record: its length, address, type, bytes and checksum.
unfoldable pub print_record : Bool → ℕ → ℕ → List ℕ → ℕ → List ℕ
unfolding hex_bytes
print_record upper address kind bytes checksum =
    b':'
    ∷ hex2 upper (length bytes)
        (hex4 upper address (hex2 upper kind (hex_bytes upper bytes (hex2 upper checksum []))))

-- A line without its newline. The base is the two bytes of its record.
unfoldable pub print_line : Bool → Line → List ℕ
unfolding print_record
print_line upper (data_line address bytes checksum) = print_record upper address 0 bytes checksum
print_line upper (base_line hi checksum) =
    print_record upper 0 4 (hi / 256 ∷ hi % 256 ∷ []) checksum
print_line upper (end_line address checksum) = print_record upper address 1 [] checksum
print_line upper (comment text) = text

unfoldable pub print_file : Bool → List Line → List ℕ
unfolding print_line
print_file upper [] = []
print_file upper (l ∷ lines) = print_line upper l ++ b'\n' ∷ print_file upper lines

-- A byte, and what fits a line of the reader.
abbrev pub IsByte : ℕ → Type 0
IsByte b = b < 256

abbrev pub not_record : List ℕ → Bool
not_record [] = true
not_record (c ∷ text) = if c == b':' then false else true

abbrev pub IsLine : Line → Type 0
IsLine (data_line address bytes checksum) =
    (address < 2 ^ 16) × All IsByte bytes × (length bytes ≤ 123) × IsByte checksum
IsLine (base_line hi checksum) = (hi < 2 ^ 16) × IsByte checksum
IsLine (end_line address checksum) = (address < 2 ^ 16) × IsByte checksum
IsLine (comment text) =
    All (λ (c : ℕ). (c == b'\n') ≡ false) text × (length text ≤ 258) × (not_record text ≡ true)

-- The records of the lines behind a base.
unfoldable pub records_of : ℕ → List Line → List HexRecord
records_of base [] = []
records_of base (data_line address bytes checksum ∷ lines) =
    record {
      address = (base + address) % 2 ^ 32;
      len = length bytes;
      bytes = bytes;
      kind = 0;
      checksum = checksum;
    }
    ∷ records_of base lines
records_of base (base_line hi checksum ∷ lines) =
    record { address = hi * 2 ^ 16; len = 2; bytes = []; kind = 4; checksum = checksum }
    ∷ records_of (hi * 2 ^ 16) lines
records_of base (end_line address checksum ∷ lines) =
    record {
      address = (base + address) % 2 ^ 32;
      len = 0;
      bytes = [];
      kind = 1;
      checksum = checksum;
    }
    ∷ records_of base lines
records_of base (comment text ∷ lines) = records_of base lines

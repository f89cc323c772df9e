-- ===== src/HexFile/Pieces.antt =====
-- `fgets` on a printed file returns its lines.
use re_boot.Base.{
  ℕ, ◌+◌, ◌-◌, ◌*◌, ◌/◌, ◌%◌, ◌^◌, ◌≤◌, ◌<◌, ◌≡◌, refl, ◌∙◌, arith, ◌==◌, Bool, false, List, [],
  ◌∷◌, ◌++◌, length, All,
}
use re_boot.HexFile.{pieces, count_lines}
use re_boot.HexFile.Digits.{hex2, digit_unbroken}
use re_boot.HexFile.Print.{
  Line, data_line, base_line, end_line, comment, hex_bytes, print_record, print_line, print_file,
  IsLine, IsByte,
}

abbrev pub IsUnbroken : List ℕ → Type 0
IsUnbroken text = All (λ (c : ℕ). (c == b'\n') ≡ false) text

hex2-IsUnbroken :
    (upper : Bool) (v : ℕ) (rest : List ℕ)
    → v < 256
    → IsUnbroken rest
    → IsUnbroken (hex2 upper v rest)
hex2-IsUnbroken upper v rest h u =
    (digit_unbroken upper (v / 16) (omega arith), (digit_unbroken upper (v % 16) (omega arith), u))

hex_bytes-IsUnbroken :
    (upper : Bool) (bytes rest : List ℕ)
    → All IsByte bytes
    → IsUnbroken rest
    → IsUnbroken (hex_bytes upper bytes rest)
unfolding hex_bytes
hex_bytes-IsUnbroken upper [] rest h u = u
hex_bytes-IsUnbroken upper (b ∷ bytes) rest h u =
    hex2-IsUnbroken upper b (hex_bytes upper bytes rest) h.0
      (hex_bytes-IsUnbroken upper bytes rest h.1 u)

length-hex_bytes :
    (upper : Bool) (bytes rest : List ℕ)
    → length (hex_bytes upper bytes rest) ≡ 2 * length bytes + length rest
unfolding hex_bytes
length-hex_bytes upper [] rest = omega arith
length-hex_bytes upper (b ∷ bytes) rest = omega (arith, length-hex_bytes upper bytes rest)

record_fits :
    (upper : Bool) (address kind : ℕ) (bytes : List ℕ) (checksum : ℕ)
    → address < 2 ^ 16
    → kind < 256
    → All IsByte bytes
    → length bytes ≤ 123
    → checksum < 256
    → IsUnbroken (print_record upper address kind bytes checksum)
      × (length (print_record upper address kind bytes checksum) ≤ 257)
unfolding print_record
record_fits upper address kind bytes checksum ha hk hb hn hc =
    let end_ = hex2 upper checksum [] in
    let body = hex_bytes upper bytes end_ in
    let body-IsUnbroken : IsUnbroken body =
      hex_bytes-IsUnbroken upper bytes end_ hb (hex2-IsUnbroken upper checksum [] hc tt) in
    let low = hex2 upper (address % 256) (hex2 upper kind body) in
    let low-IsUnbroken : IsUnbroken low =
      hex2-IsUnbroken upper (address % 256) (hex2 upper kind body) (omega arith)
        (hex2-IsUnbroken upper kind body hk body-IsUnbroken) in
    let high = hex2 upper (address / 256) low in
    (
      (
        refl,
        hex2-IsUnbroken upper (length bytes) high (omega arith)
            (hex2-IsUnbroken upper (address / 256) low (omega arith) low-IsUnbroken),
      ),
      omega (arith, length-hex_bytes upper bytes end_),
    )

pub line_fits :
    (upper : Bool) (l : Line)
    → IsLine l
    → IsUnbroken (print_line upper l) × (length (print_line upper l) ≤ 258)
unfolding print_line
line_fits upper (data_line address bytes checksum) h =
    let (u, n) = record_fits upper address 0 bytes checksum h.0 (omega arith) h.1 h.2 h.3 in
    (u, omega arith)
line_fits upper (base_line hi checksum) h =
    let (u, n) =
      record_fits upper 0 4 (hi / 256 ∷ hi % 256 ∷ []) checksum (omega arith) (omega arith)
        (omega arith) (omega arith) h.1 in
    (u, omega arith)
line_fits upper (end_line address checksum) h =
    let (u, n) = record_fits upper address 1 [] checksum h.0 (omega arith) tt (omega arith) h.1 in
    (u, omega arith)
line_fits upper (comment text) h = (h.0, h.1)

pub pieces-line :
    (room : ℕ) (text file : List ℕ)
    → IsUnbroken text
    → length text + 1 ≤ room
    → pieces room (text ++ b'\n' ∷ file) ≡ (text ++ b'\n' ∷ []) ∷ pieces 259 file
unfolding pieces
pieces-line room [] file u h = refl
pieces-line room (c ∷ text) file u h = ground (arith, pieces-line (room - 1) text file)

count_line :
    (text file : List ℕ)
    → IsUnbroken text
    → count_lines (text ++ b'\n' ∷ file) ≡ count_lines file + 1
unfolding count_lines
count_line [] file u = refl
count_line (c ∷ text) file u = ground (arith, count_line text file)

-- A printed file has as many newlines as it has lines.
pub count_lines-print_file :
    (upper : Bool) (lines : List Line)
    → All IsLine lines
    → count_lines (print_file upper lines) ≡ length lines
unfolding print_file count_lines
count_lines-print_file upper [] h = refl
count_lines-print_file upper (l ∷ lines) h =
    count_line (print_line upper l) (print_file upper lines) (line_fits upper l h.0).0
    ∙ omega (arith, count_lines-print_file upper lines h.1)

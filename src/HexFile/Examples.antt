-- ===== src/HexFile/Examples.antt =====
-- A file of four lines.
use re_boot.Base.{
  ℕ, ◌≡◌, ◌≢◌, refl, sym, arith, true, false, some, List, [], ◌∷◌, ◌++◌, length, codes, replicate,
  All, drop,
}
use re_boot.Pipeline.{HexRecord, pipeline_build}
use re_boot.Pipeline.Image.{byte_at, over, image}
use re_boot.Pipeline.Build.{IsHexRecord}
use re_boot.HexFile.{
  ok, overrun, Reader, load, pool_records, count_lines, read_hex_file, read_record, hex_to_int,
  fill, is_record, writable, new_base, new_bytes, note,
}
use re_boot.HexFile.Digits.{digit}
use re_boot.HexFile.Print.{
  Line, data_line, base_line, end_line, comment, print_file, print_line, IsLine, records_of,
}
use re_boot.HexFile.Pieces.{count_lines-print_file}
use re_boot.HexFile.RoundTrip.{load-print_file}
use re_boot.HexFile.Extent.{IsExtent, read_hex_file-IsExtent}
use re_boot.HexFile.Faults.{read_record_long}
use re_boot.HexFile.Image.{lines_image, comments, load-pipeline_build}
use re_boot.HexFile.Unterminated.{load-overrun}

abbrev line : List ℕ
line = replicate 260 0

abbrev lines : List Line
lines =
    base_line 0x0800 0xf2
    ∷ data_line 0x0010 (1 ∷ 2 ∷ 3 ∷ []) 0xe7
    ∷ comment (codes "; end")
    ∷ end_line 0 0xff
    ∷ []

lines-IsLine : All IsLine lines
lines-IsLine = ground arith

file_text :
    print_file true (data_line 0x0010 (1 ∷ 0xab ∷ []) 0x42 ∷ [])
    ≡ codes ":0200100001AB42" ++ 10 ∷ []
unfolding print_file digit
file_text = refl

load-print_file_example :
    (r : Reader) × (load line (print_file true lines) ≡ ok r) × (r.records ≡ records_of 0 lines)
load-print_file_example = load-print_file true lines line lines-IsLine (omega arith)

-- What a pool of four records holds at first.
abbrev pool : List HexRecord
pool =
    replicate 4
      (record { address = 0x20000000; len = 1; bytes = 0x55 ∷ []; kind = 0; checksum = 0 })

pool-IsHexRecord : All IsHexRecord pool
pool-IsHexRecord =
    let rec : IsHexRecord
        (record { address = 0x20000000; len = 1; bytes = 0x55 ∷ []; kind = 0; checksum = 0 }) =
      record { address_lt = omega arith; len_lt = omega arith } in
    (rec, (rec, (rec, (rec, tt))))

four_lines : length pool ≡ count_lines (print_file true lines)
four_lines = sym (count_lines-print_file true lines lines-IsLine)

load-pipeline_build_example :
    (r : Reader) × (load line (print_file true lines) ≡ ok r)
    × (length (pool_records pool r) ≡ count_lines (print_file true lines))
    × (length (drop (length r.records) pool) ≡ comments lines)
    × (byte_at (pipeline_build (pool_records pool r) 0x400) 0x08000011
        ≡ over (image (drop (length r.records) pool) 0x08000011) (lines_image 0 lines 0x08000011))
load-pipeline_build_example =
    load-pipeline_build true lines line pool 0x400 0x08000011 lines-IsLine (omega arith) four_lines
      pool-IsHexRecord (omega arith) (omega arith)

abbrev start : Reader
start = record {
  records = [];
  base_address = 0;
  first = true;
  hex_base_address = 0;
  hex_end_address = 0;
}

abbrev one_line : List ℕ
one_line = codes ":0200100001AB42" ++ 10 ∷ []

abbrev one_record : Reader
one_record = record {
  records =
      record { address = 0x10; len = 2; bytes = 1 ∷ 0xab ∷ []; kind = 0; checksum = 0x42 } ∷ [];
  base_address = 0;
  first = false;
  hex_base_address = 0x10;
  hex_end_address = 0x12;
}

one_line_read : read_hex_file 1 line 0 0 (some one_line) ≡ ok one_record
unfolding read_hex_file fill is_record read_record hex_to_int writable new_base new_bytes note
one_line_read = refl

read_hex_file-IsExtent_example : IsExtent one_record
read_hex_file-IsExtent_example =
    read_hex_file-IsExtent 1 line 0 0 one_line one_record refl one_line_read

abbrev long_line : List ℕ
long_line = codes ":FF001000" ++ replicate 251 b'0'

long_length : hex_to_int (drop 1 long_line) 2 ≡ ok 255
unfolding hex_to_int
long_length = refl

read_record_long_example : read_record 1 long_line start ≢ ok one_record
read_record_long_example =
    read_record_long 1 long_line start one_record 255 refl long_length (omega arith)

abbrev first_line : List Line
first_line = data_line 0 (7 ∷ []) 0xf8 ∷ []

load-overrun_example :
    load line (print_file true first_line ++ print_line true (data_line 0x10 (8 ∷ []) 0xe7))
    ≡ overrun
unfolding comments
load-overrun_example =
    load-overrun true first_line line 0x10 (8 ∷ []) 0xe7 (omega arith) (omega arith) refl
      (omega arith)

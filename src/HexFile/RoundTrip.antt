-- ===== src/HexFile/RoundTrip.antt =====
-- A printed file is read back.
use re_boot.Base.{
  ℕ, ◌+◌, ◌*◌, ◌/◌, ◌%◌, ◌^◌, ◌≤◌, ◌<◌, ◌≡◌, refl, sym, ap, ◌∙◌, arith, Bool, true, false, List, [],
  ◌∷◌, ◌++◌, length, drop, All, append_assoc, append-nil, length-append, ne→==,
}
use re_boot.HexFile.{
  ok, Reader, note, read_record, pieces, fill, is_record, read_lines, load, count_lines,
}
use re_boot.HexFile.Print.{
  Line, data_line, base_line, end_line, comment, print_record, print_line, print_file, IsLine,
  records_of, not_record,
}
use re_boot.HexFile.Pieces.{line_fits, pieces-line, count_lines-print_file}
use re_boot.HexFile.Records.{read_data, read_base, read_end}

-- What the lines leave, record by record.
unfoldable pub after_line : Line → Reader → Reader
after_line (data_line address bytes checksum) r =
    note 0 (length bytes)
      (record {
        address = (r.base_address + address) % 2 ^ 32;
        len = length bytes;
        bytes = bytes;
        kind = 0;
        checksum = checksum;
      })
      r
after_line (base_line hi checksum) r =
    note 4 2 (record { address = hi * 2 ^ 16; len = 2; bytes = []; kind = 4; checksum = checksum })
      (record r { base_address = hi * 2 ^ 16 })
after_line (end_line address checksum) r =
    note 1 0
      (record {
        address = (r.base_address + address) % 2 ^ 32;
        len = 0;
        bytes = [];
        kind = 1;
        checksum = checksum;
      })
      r
after_line (comment text) r = r

pub after_lines : List Line → Reader → Reader
after_lines [] r = r
after_lines (l ∷ lines) r = after_lines lines (after_line l r)

-- One round of the loop.
round_record :
    (max_records : ℕ) (line piece : List ℕ) (more : List (List ℕ)) (r r' : Reader)
    → is_record (fill piece line) ≡ true
    → read_record max_records (fill piece line) r ≡ ok r'
    → read_lines max_records line (piece ∷ more) r
      ≡ read_lines max_records (fill piece line) more r'
unfolding read_lines
round_record max_records line piece more r r' t e = rw (t, read_lines) (rw (e, read_lines) refl)

round_comment :
    (max_records : ℕ) (line piece : List ℕ) (more : List (List ℕ)) (r : Reader)
    → is_record (fill piece line) ≡ false
    → read_lines max_records line (piece ∷ more) r ≡ read_lines max_records (fill piece line) more r
unfolding read_lines
round_comment max_records line piece more r t = rw (t, read_lines) refl

-- What a line is after `fgets`.
pub fill_line :
    (text line : List ℕ)
    → fill (text ++ b'\n' ∷ []) line
      ≡ text ++ b'\n' ∷ 0 ∷ drop (length (text ++ b'\n' ∷ []) + 1) line
unfolding fill
fill_line text line =
    append_assoc text (b'\n' ∷ []) (0 ∷ drop (length (text ++ b'\n' ∷ []) + 1) line)

pub printed_record :
    (upper : Bool) (address kind : ℕ) (bytes : List ℕ) (checksum : ℕ) (tail : List ℕ)
    → is_record (print_record upper address kind bytes checksum ++ tail) ≡ true
unfolding is_record print_record
printed_record upper address kind bytes checksum tail = refl

printed_comment :
    (text tail : List ℕ) → not_record text ≡ true → is_record (text ++ b'\n' ∷ tail) ≡ false
unfolding is_record
printed_comment [] tail h = refl
printed_comment (c ∷ text) tail h = ground arith

module _ (upper : Bool) (max_records : ℕ) (line : List ℕ) (more : List (List ℕ)) (r : Reader) where
  -- A line that is a record, ...
  record_round :
      (text : List ℕ) (r' : Reader)
      → ((tail : List ℕ) → is_record (text ++ tail) ≡ true)
      → ((tail : List ℕ) → read_record max_records (text ++ tail) r ≡ ok r')
      → read_lines max_records line ((text ++ b'\n' ∷ []) ∷ more) r
        ≡ read_lines max_records (fill (text ++ b'\n' ∷ []) line) more r'
  record_round text r' t e =
      round_record max_records line (text ++ b'\n' ∷ []) more r r'
        (ap is_record (fill_line text line) ∙ t _)
        (ap (λ (m : List ℕ). read_record max_records m r) (fill_line text line) ∙ e _)

  -- ... and each line.
  line_round :
      (l : Line)
      → IsLine l
      → length r.records < max_records
      → read_lines max_records line ((print_line upper l ++ b'\n' ∷ []) ∷ more) r
        ≡ read_lines max_records
            (fill (print_line upper l ++ b'\n' ∷ []) line)
            more
            (after_line l r)
  unfolding print_line after_line
  line_round (data_line address bytes checksum) h room =
      record_round (print_record upper address 0 bytes checksum) _
        (printed_record upper address 0 bytes checksum)
        (λ tail.
          read_data upper max_records r address bytes checksum tail room h.0 h.1
            (omega (arith, h.2)) h.3)
  line_round (base_line hi checksum) h room =
      record_round (print_record upper 0 4 (hi / 256 ∷ hi % 256 ∷ []) checksum) _
        (printed_record upper 0 4 (hi / 256 ∷ hi % 256 ∷ []) checksum)
        (λ tail. read_base upper max_records r hi checksum tail room h.0 h.1)
  line_round (end_line address checksum) h room =
      record_round (print_record upper address 1 [] checksum) _
        (printed_record upper address 1 [] checksum)
        (λ tail. read_end upper max_records r address checksum tail room h.0 h.1)
  line_round (comment text) h room =
      round_comment max_records line (text ++ b'\n' ∷ []) more r
        (ap is_record (fill_line text line) ∙ printed_comment text _ h.2)

-- A line writes one record at most.
line_grows : (l : Line) (r : Reader) → length (after_line l r).records ≤ length r.records + 1
unfolding after_line note
line_grows (data_line address bytes checksum) r = omega (arith, length-append {0})
line_grows (base_line hi checksum) r = omega (arith, length-append {0})
line_grows (end_line address checksum) r = omega (arith, length-append {0})
line_grows (comment text) r = omega arith

-- The loop over the lines of a printed file goes on with what is behind them.
pub file_round :
    (upper : Bool) (max_records : ℕ) (lines : List Line) (line rest : List ℕ) (r : Reader)
    → All IsLine lines
    → length r.records + length lines ≤ max_records
    → (line' : List ℕ) × (read_lines max_records line
          (pieces 259 (print_file upper lines ++ rest))
          r
        ≡ read_lines max_records line' (pieces 259 rest) (after_lines lines r))
unfolding print_file after_lines
file_round upper max_records [] line rest r h room = (line, refl)
file_round upper max_records (l ∷ lines) line rest r h room =
    let (u, n) = line_fits upper l h.0 in
    let file = print_file upper lines ++ rest in
    let (line', e) =
      file_round upper max_records lines (fill (print_line upper l ++ b'\n' ∷ []) line) rest
        (after_line l r) h.1 (omega (arith, line_grows l r)) in
    (
      line',
      ap (λ (f : List ℕ). read_lines max_records line (pieces 259 f) r)
            (append_assoc (print_line upper l) (b'\n' ∷ print_file upper lines) rest)
          ∙ ap (λ (ps : List (List ℕ)). read_lines max_records line ps r)
              (pieces-line 259 (print_line upper l) file u (omega arith))
          ∙ line_round upper max_records line (pieces 259 file) r l h.0 (omega arith)
          ∙ e,
    )

nothing_read :
    (max_records : ℕ) (line : List ℕ) (r : Reader)
    → read_lines max_records line (pieces 259 []) r ≡ ok r
unfolding pieces read_lines
nothing_read max_records line r = refl

-- The records are those of the lines.
pub after_lines-records :
    (lines : List Line) (r : Reader)
    → All IsLine lines
    → (after_lines lines r).records ≡ r.records ++ records_of r.base_address lines
unfolding after_lines after_line note records_of
after_lines-records [] r h = sym (append-nil r.records)
after_lines-records (data_line address bytes checksum ∷ lines) r h =
    after_lines-records lines _ h.1 ∙ append_assoc r.records _ _
after_lines-records (base_line hi checksum ∷ lines) r h =
    after_lines-records lines _ h.1 ∙ append_assoc r.records _ _
after_lines-records (end_line address checksum ∷ lines) r h =
    after_lines-records lines _ h.1 ∙ append_assoc r.records _ _
after_lines-records (comment text ∷ lines) r h = after_lines-records lines r h.1

-- A file with a line is read with a record for each line.
pub load-read_lines :
    (line file : List ℕ)
    → 0 < count_lines file
    → load line file
      ≡ read_lines (count_lines file) line (pieces 259 file) (record {
        records = [];
        base_address = 0;
        first = true;
        hex_base_address = 0;
        hex_end_address = 0;
      })
unfolding load
load-read_lines line file h = rw (ne→== (count_lines file) 0 (omega arith)) refl

-- A printed file of one line at least, of records of data with at most 123 bytes, extended linear
-- addresses and ends, in either case of digits, and of comments of at most 258 characters, is
-- loaded, and gives the records of its lines; the first of the lines stands at base 0, and what
-- the array held before does not matter.
pub load-print_file :
    (upper : Bool) (lines : List Line) (line : List ℕ)
    → All IsLine lines
    → 0 < length lines
    → (r : Reader) × (load line (print_file upper lines) ≡ ok r) × (r.records ≡ records_of 0 lines)
load-print_file upper lines line h some_line =
    let start : Reader = record {
      records = [];
      base_address = 0;
      first = true;
      hex_base_address = 0;
      hex_end_address = 0;
    } in
    let counted = count_lines-print_file upper lines h in
    let (line', read) =
      file_round upper (count_lines (print_file upper lines)) lines line [] start h
        (omega (arith, counted)) in
    (
      after_lines lines start,
      load-read_lines line (print_file upper lines) (omega (arith, counted))
          ∙ ap
              (λ (f : List ℕ).
                read_lines (count_lines (print_file upper lines)) line (pieces 259 f) start)
              (sym (append-nil (print_file upper lines)))
          ∙ read
          ∙ nothing_read (count_lines (print_file upper lines)) line' (after_lines lines start),
      after_lines-records lines start h,
    )

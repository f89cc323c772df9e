-- ===== src/HexFile/Unterminated.antt =====
-- A file whose last record has no newline behind it.
use re_boot.Base.{
  ℕ, ◌+◌, ◌-◌, ◌≤◌, ◌<◌, ◌≡◌, refl, ap, ◌∙◌, arith, Bool, true, List, [], ◌∷◌, ◌++◌, length, All,
}
use re_boot.Pipeline.{HexRecord}
use re_boot.HexFile.{
  overrun, Reader, load, count_lines, pieces, read_lines, fill, is_record, read_record,
}
use re_boot.HexFile.Print.{Line, data_line, print_record, print_line, print_file, IsLine}
use re_boot.HexFile.Pieces.{IsUnbroken, line_fits, count_lines-print_file}
use re_boot.HexFile.Records.{read_overrun}
use re_boot.HexFile.RoundTrip.{
  load-read_lines, file_round, after_lines, after_lines-records, printed_record,
}
use re_boot.HexFile.Image.{comments, length-records_of}

-- One piece is left, ...
last_piece :
    (room c : ℕ) (text : List ℕ)
    → IsUnbroken (c ∷ text)
    → length text + 2 ≤ room
    → pieces room (c ∷ text) ≡ (c ∷ text) ∷ []
unfolding pieces
last_piece room c [] u h = ground arith
last_piece room c (d ∷ text) u h = ground (arith, last_piece (room - 1) d text)

-- ... and counts as no line.
count_rest : (text : List ℕ) → IsUnbroken text → count_lines text ≡ 0
unfolding count_lines
count_rest [] u = refl
count_rest (c ∷ text) u = ground (arith, count_rest text u.1)

count-append :
    (file text : List ℕ) → count_lines (file ++ text) ≡ count_lines file + count_lines text
unfolding count_lines
count-append [] text = omega arith
count-append (c ∷ file) text = ground (arith, count-append file text)

fails :
    (max_records : ℕ) (line piece : List ℕ) (r : Reader)
    → is_record (fill piece line) ≡ true
    → read_record max_records (fill piece line) r ≡ overrun
    → read_lines max_records line (piece ∷ []) r ≡ overrun
unfolding read_lines
fails max_records line piece r t e = rw (t, read_lines) (rw (e, read_lines) refl)

-- Where the lines of a file, one at least, are records, with at most 123 bytes in a data line,
-- each with its newline, and such a data line without one is behind them, the reader writes this
-- record past the end of the pool.
pub load-overrun :
    (upper : Bool) (lines : List Line) (line : List ℕ) (address : ℕ) (bytes : List ℕ) (checksum : ℕ)
    → All IsLine lines
    → 0 < length lines
    → comments lines ≡ 0
    → IsLine (data_line address bytes checksum)
    → load line (print_file upper lines ++ print_line upper (data_line address bytes checksum))
      ≡ overrun
load-overrun upper lines line address bytes checksum h some_line none_ d =
    let text = print_line upper (data_line address bytes checksum) in
    let file = print_file upper lines ++ text in
    let start : Reader = record {
      records = [];
      base_address = 0;
      first = true;
      hex_base_address = 0;
      hex_end_address = 0;
    } in
    let (u, n) = line_fits upper (data_line address bytes checksum) d in
    let counted : count_lines file ≡ length lines = omega (
      arith,
      count-append (print_file upper lines) text,
      count_rest text u,
      count_lines-print_file upper lines h,
    ) in
    let (line', read) = file_round upper (count_lines file) lines line text start h (omega arith) in
    let full : count_lines file ≤ length (after_lines lines start).records = omega (
      arith,
      ap (λ (rs : List HexRecord). length rs) (after_lines-records lines start h),
      length-records_of 0 lines,
    ) in
    load-read_lines line file (omega (arith, counted))
    ∙ read
    ∙ ap (λ (ps : List (List ℕ)). read_lines (count_lines file) line' ps (after_lines lines start))
        (one_piece u n)
    ∙ fails (count_lines file) line' text (after_lines lines start)
        (unfold fill in unfold print_line in printed_record upper address 0 bytes checksum _)
        (unfold fill in
          unfold print_line in
          read_overrun upper (count_lines file) (after_lines lines start) address 0 bytes checksum _
            full d.0 (omega arith) (omega (arith, d.2)))
  where
    one_piece :
        IsUnbroken (print_line upper (data_line address bytes checksum))
        → length (print_line upper (data_line address bytes checksum)) ≤ 258
        → pieces 259 (print_line upper (data_line address bytes checksum))
          ≡ print_line upper (data_line address bytes checksum) ∷ []
    one_piece u n =
        unfold print_line in unfold print_record in last_piece 259 b':' _ u (omega (arith, n))

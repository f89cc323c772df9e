-- ===== src/HexFile/Image.antt =====
-- From the text of a file to the sectors of the pipeline.
use re_boot.Base.{
  ℕ, zero, suc, ◌+◌, ◌-◌, ◌*◌, ◌%◌, ◌^◌, ◌<◌, ◌≡◌, refl, sym, ap, ap₂, ◌∙◌, arith, ltb,
  if◌then◌else◌, Bool, Option, none, some, List, [], ◌∷◌, length, get_elem?, get_or, All,
  All-append, length-append, drop, ◌++◌,
}
use mathlib.Core.Path.{subst}
use re_boot.Pipeline.{HexRecord, pipeline_build}
use re_boot.Pipeline.Image.{byte_at, over, image, record_byte}
use re_boot.Pipeline.Build.{over_assoc, over-none, IsHexRecord, pipeline_build-image}
use re_boot.HexFile.{ok, Reader, load, count_lines, pool_records}
use re_boot.HexFile.Print.{
  Line, data_line, base_line, end_line, comment, print_file, IsLine, records_of,
}
use re_boot.HexFile.Pieces.{count_lines-print_file}
use re_boot.HexFile.RoundTrip.{load-print_file}

-- The byte that the lines behind a base give to an address: that of the last data line with a byte for
-- it, counted from the line's address with 32 bits.
unfoldable pub lines_image : ℕ → List Line → ℕ → Option ℕ
lines_image base [] a = none
lines_image base (data_line address bytes checksum ∷ lines) a =
    over (lines_image base lines a)
      (get_elem? bytes ((a + 2 ^ 32 - (base + address) % 2 ^ 32) % 2 ^ 32))
lines_image base (base_line hi checksum ∷ lines) a = lines_image (hi * 2 ^ 16) lines a
lines_image base (end_line address checksum ∷ lines) a = lines_image base lines a
lines_image base (comment text ∷ lines) a = lines_image base lines a

in_bytes :
    (bytes : List ℕ) (i : ℕ)
    → (if ltb i (length bytes) then some (get_or bytes i 0) else none) ≡ get_elem? bytes i
in_bytes [] i = ground arith
in_bytes (b ∷ bytes) zero = ground arith
in_bytes (b ∷ bytes) (suc i) = ground (arith, in_bytes bytes i)

image-records_of :
    (base : ℕ) (lines : List Line) (a : ℕ)
    → image (records_of base lines) a ≡ lines_image base lines a
unfolding image records_of lines_image
image-records_of base [] a = refl
image-records_of base (data_line address bytes checksum ∷ lines) a =
    ap₂ over (image-records_of base lines a)
      (in_bytes bytes ((a + 2 ^ 32 - (base + address) % 2 ^ 32) % 2 ^ 32))
image-records_of base (base_line hi checksum ∷ lines) a =
    over-none (image (records_of (hi * 2 ^ 16) lines) a) ∙ image-records_of (hi * 2 ^ 16) lines a
image-records_of base (end_line address checksum ∷ lines) a =
    over-none (image (records_of base lines) a) ∙ image-records_of base lines a
image-records_of base (comment text ∷ lines) a = image-records_of base lines a

records_of-IsHexRecord :
    (base : ℕ) (lines : List Line) → All IsLine lines → All IsHexRecord (records_of base lines)
unfolding records_of
records_of-IsHexRecord base [] h = tt
records_of-IsHexRecord base (data_line address bytes checksum ∷ lines) h =
    (omega (arith, h.0), records_of-IsHexRecord base lines h.1)
records_of-IsHexRecord base (base_line hi checksum ∷ lines) h =
    (omega (arith, h.0), records_of-IsHexRecord (hi * 2 ^ 16) lines h.1)
records_of-IsHexRecord base (end_line address checksum ∷ lines) h =
    (omega arith, records_of-IsHexRecord base lines h.1)
records_of-IsHexRecord base (comment text ∷ lines) h = records_of-IsHexRecord base lines h.1

-- The comments among the lines.
unfoldable pub comments : List Line → ℕ
comments [] = 0
comments (data_line address bytes checksum ∷ lines) = comments lines
comments (base_line hi checksum ∷ lines) = comments lines
comments (end_line address checksum ∷ lines) = comments lines
comments (comment text ∷ lines) = comments lines + 1

pub length-records_of :
    (base : ℕ) (lines : List Line) → length (records_of base lines) + comments lines ≡ length lines
unfolding records_of comments
length-records_of base [] = refl
length-records_of base (data_line address bytes checksum ∷ lines) =
    omega (arith, length-records_of base lines)
length-records_of base (base_line hi checksum ∷ lines) =
    omega (arith, length-records_of (hi * 2 ^ 16) lines)
length-records_of base (end_line address checksum ∷ lines) =
    omega (arith, length-records_of base lines)
length-records_of base (comment text ∷ lines) = omega (arith, length-records_of base lines)

image-append :
    (xs ys : List HexRecord) (a : ℕ) → image (xs ++ ys) a ≡ over (image ys a) (image xs a)
unfolding image
image-append [] ys a = sym (over-none (image ys a))
image-append (x ∷ xs) ys a =
    ap (λ (o : Option ℕ). over o (record_byte x a)) (image-append xs ys a)
    ∙ over_assoc (image ys a) (image xs a) (record_byte x a)

All-drop : {A : Type 0} (P : A → Type 0) (n : ℕ) (xs : List A) → All P xs → All P (drop n xs)
All-drop P zero xs h = h
All-drop P (suc n) [] h = tt
All-drop P (suc n) (x ∷ xs) h = All-drop P n xs h.1

length-drop : {A : Type 0} (n : ℕ) (xs : List A) → length (drop n xs) ≡ length xs - n
length-drop zero xs = omega arith
length-drop (suc n) [] = omega arith
length-drop (suc n) (x ∷ xs) = omega (arith, length-drop n xs)

-- A printed file of one line at least, with at most 123 bytes in a data line and 258 characters in
-- a comment, and a pool with a record for each line, of which only the widths of the fields are
-- known: the file is loaded, and main hands on as many records as there are lines. Those at the
-- end of the pool, one for each comment, were never written; the sectors that are built of all of
-- them hold for an address the byte of the last of these that is a data record and covers it, or
-- else the byte that the lines give to it, and nothing where neither does.
pub load-pipeline_build :
    (upper : Bool) (lines : List Line) (line : List ℕ) (pool : List HexRecord) (sector_size a : ℕ)
    → All IsLine lines
    → 0 < length lines
    → length pool ≡ count_lines (print_file upper lines)
    → All IsHexRecord pool
    → 0 < sector_size
    → a < 2 ^ 32
    → (r : Reader) × (load line (print_file upper lines) ≡ ok r)
      × (length (pool_records pool r) ≡ count_lines (print_file upper lines))
      × (length (drop (length r.records) pool) ≡ comments lines)
      × (byte_at (pipeline_build (pool_records pool r) sector_size) a
          ≡ over (image (drop (length r.records) pool) a) (lines_image 0 lines a))
unfolding pool_records
load-pipeline_build upper lines line pool sector_size a h some_line sized fields hs ha =
    let (r, loaded, same) = load-print_file upper lines line h some_line in
    let unwritten = drop (length r.records) pool in
    let counted : length r.records + comments lines ≡ length pool =
      ap (λ (rs : List HexRecord). length rs + comments lines) same
      ∙ length-records_of 0 lines
      ∙ sym (count_lines-print_file upper lines h)
      ∙ sym sized in
    let written : image r.records a ≡ lines_image 0 lines a =
      ap (λ (rs : List HexRecord). image rs a) same ∙ image-records_of 0 lines a in
    let good : All IsHexRecord r.records =
      subst (All IsHexRecord) (sym same) (records_of-IsHexRecord 0 lines h) in
    (
      r,
      loaded,
      omega (arith, length-append r.records unwritten, length-drop (length r.records) pool),
      omega (arith, length-drop (length r.records) pool),
      (pipeline_build-image (r.records ++ unwritten) sector_size a hs
            (All-append IsHexRecord r.records unwritten good
              (All-drop IsHexRecord (length r.records) pool fields))
            ha).0
          ∙ image-append r.records unwritten a
          ∙ ap (over (image unwritten a)) written,
    )

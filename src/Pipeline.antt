-- ===== src/Pipeline.antt =====
-- utility/pipeline.c: the firmware image, cut into flash sectors. `hex_record_t` is from
-- include/app_types.h, the other records from include/pipeline.h. The array of sectors is a list,
-- which has `sector_count` entries; a pointer to a sector is its index.
pub mod Sectors
pub mod Segments
pub mod Pace
pub mod Image
pub mod Build
pub mod Layout
pub mod Flash
pub mod Program
pub mod Examples
use re_boot.Base.{ℕ, zero, suc, ◌+◌, ◌-◌, ◌*◌, ◌%◌, ◌^◌, ltb, leb, ◌==◌, if◌then◌else◌}
use re_boot.Base.{Bool, true, false, Option, none, some, List, [], ◌∷◌, ◌++◌}
use re_boot.Base.{length, get_elem?, get_or, set, take, drop, replicate}
use re_boot.Crc.{sector_crc}

-- `hex_record_t`.
pub record HexRecord : Type 0 where
  pub address : ℕ
  pub len : ℕ
  pub bytes : List ℕ
  pub kind : ℕ
  pub checksum : ℕ

-- `sector_pipeline_t`; `valid` holds truth values.
pub record Sector : Type 0 where
  pub base : ℕ
  pub bytes : List ℕ
  pub valid : List Bool
  pub size : ℕ

-- `pipeline_builder_t`.
pub record Builder : Type 0 where
  pub sectors : List Sector
  pub sector_size : ℕ

pub sector_base : ℕ → ℕ → ℕ
sector_base addr size = addr - addr % size

-- A sector as `find_sector` makes it: erased, with no valid byte.
pub fresh : ℕ → ℕ → Sector
fresh base size = record {
  base = base;
  bytes = replicate size 0xff;
  valid = replicate size false;
  size = size;
}

-- The search loop of `find_sector`.
pub find_index : ℕ → List Sector → Option ℕ
find_index base [] = none
find_index base (s ∷ ss) =
    if s.base == base
    then some 0
    else elim (find_index base ss) [ none ↦ none | some i ↦ some (suc i) ]

-- The builder, with a new sector at its end if none has the address, and the sector's index.
pub find_sector : Builder → ℕ → Builder × ℕ
unfolding sector_base fresh find_index
find_sector pb addr =
    let base = sector_base addr pb.sector_size in
    elim (find_index base pb.sectors) [
      | some i ↦ (pb, i)
      | none ↦
          (record pb { sectors = pb.sectors ++ fresh base pb.sector_size ∷ [] }, length pb.sectors)
    ]

-- A write through a pointer to a sector.
pub modify : ℕ → (Sector → Sector) → List Sector → List Sector
modify i f [] = []
modify zero f (s ∷ ss) = f s ∷ ss
modify (suc i) f (s ∷ ss) = s ∷ modify i f ss

pub write_byte : ℕ → ℕ → Sector → Sector
write_byte addr byte s =
    let off = addr - s.base in
    record s { bytes = set s.bytes off byte; valid = set s.valid off true }

-- One round of the loop of `insert_record`.
pub insert_byte : ℕ → ℕ → Builder → Builder
unfolding find_sector modify write_byte
insert_byte addr byte pb =
    let (pb', i) = find_sector pb addr in
    record pb' { sectors = modify i (write_byte addr byte) pb'.sectors }

-- The loop from the record's byte `i` on, with `left` rounds to go.
pub insert_bytes : HexRecord → ℕ → ℕ → Builder → Builder
unfolding insert_byte
insert_bytes rec zero i pb = pb
insert_bytes rec (suc left) i pb =
    insert_bytes rec left (i + 1)
      (insert_byte ((rec.address + i) % 2 ^ 32) (get_or rec.bytes i 0) pb)

pub insert_record : HexRecord → Builder → Builder
unfolding insert_bytes
insert_record rec pb = if rec.kind == 0 then insert_bytes rec rec.len 0 pb else pb

pub insert_records : List HexRecord → Builder → Builder
unfolding insert_record
insert_records [] pb = pb
insert_records (rec ∷ recs) pb = insert_records recs (insert_record rec pb)

pub pipeline_build : List HexRecord → ℕ → Builder
unfolding insert_records
pipeline_build records sector_size =
    insert_records records (record { sectors = []; sector_size = sector_size })

-- The `while` loop of `pipeline_next_segment` at offset `off`, with `left` bytes up to the size.
pub skip_invalid : List Bool → ℕ → ℕ → ℕ
skip_invalid valid zero off = off
skip_invalid valid (suc left) off =
    if get_or valid off false then off else skip_invalid valid left (off + 1)

-- What `pipeline_next_segment` leaves: the address and the bytes of the segment (`none` for -1),
-- and the advanced offset.
pub record Segment : Type 0 where
  pub sent : Option (ℕ × List ℕ)
  pub offset : ℕ

pub next_segment : Sector → ℕ → ℕ → Segment
unfolding skip_invalid
next_segment sec offset seg =
    let off = skip_invalid sec.valid (sec.size - offset) offset in
    if leb sec.size off
    then record { sent = none; offset = off }
    else let n = if ltb sec.size ((off + seg) % 2 ^ 32) then sec.size - off else seg in
      record {
        sent = some ((sec.base + off) % 2 ^ 32, take n (drop off sec.bytes));
        offset = (off + n) % 2 ^ 32;
      }

-- `none` is an index past the array.
pub pipeline_next_segment : Builder → ℕ → ℕ → ℕ → Option Segment
unfolding next_segment
pipeline_next_segment pb index offset seg = elim (get_elem? pb.sectors index) [
  | none ↦ none
  | some sec ↦ some (next_segment sec offset seg)
]

pub pipeline_sector_crc : Builder → ℕ → Option ℕ
pipeline_sector_crc pb index = elim (get_elem? pb.sectors index) [
  | none ↦ none
  | some sec ↦ some (sector_crc (take sec.size sec.bytes))
]

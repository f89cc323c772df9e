-- ===== src/Pipeline/Segments.antt =====
-- What the calls of the pipeline give a client: how many sectors there are, and how long a segment is.
use re_boot.Base.{
  ℕ, zero, suc, ◌+◌, ◌-◌, ◌%◌, ◌^◌, ◌≤◌, ◌<◌, ◌≡◌, inl, inr, refl, arith, ltb, leb, ◌==◌,
  if◌then◌else◌, Option, none, some, List, [], ◌∷◌, length, take, drop, get_elem?, get_or,
  length-take, Bool-cases,
}
use mathlib.Core.Path.{subst}
use re_boot.Pipeline.{
  HexRecord, Sector, Builder, sector_base, write_byte, insert_byte, insert_bytes, insert_record,
  insert_records, pipeline_build, Segment, next_segment, skip_invalid, pipeline_next_segment,
  pipeline_sector_crc,
}
use re_boot.Pipeline.Sectors.{place, modify-find_sector}

place_grows :
    (base size : ℕ) (f : Sector → Sector) (ss : List Sector)
    → (length ss ≤ length (place base size f ss))
      × (length (place base size f ss) ≤ length ss + 1)
      × (1 ≤ length (place base size f ss))
unfolding place
place_grows base size f [] = (omega arith, omega arith, omega arith)
place_grows base size f (s ∷ ss) = ground (arith, place_grows base size f ss)

insert_byte-place :
    (addr byte : ℕ) (pb : Builder)
    → (insert_byte addr byte pb).sectors
      ≡ place (sector_base addr pb.sector_size) pb.sector_size (write_byte addr byte) pb.sectors
unfolding insert_byte
insert_byte-place addr byte pb = (modify-find_sector pb addr (write_byte addr byte)).1

-- From `m` sectors to `n` of them, with `k` bytes on the way.
Grows : ℕ → ℕ → ℕ → Type 0
Grows m k n = (m ≤ n) × (n ≤ m + k) × ((1 ≤ k) → 1 ≤ n)

Grows-trans : (l m n j k : ℕ) → Grows l j m → Grows m k n → Grows l (j + k) n
unfolding Grows
Grows-trans l m n j k (low, high, some_) (low', high', some') =
    (omega arith, omega arith, λ one. grind (arith, some_, some'))

Grows-none : (n : ℕ) → Grows n 0 n
unfolding Grows
Grows-none n = (omega arith, omega arith, λ one. absurd (omega arith))

insert_byte-Grows :
    (addr byte : ℕ) (pb : Builder)
    → Grows (length pb.sectors) 1 (length (insert_byte addr byte pb).sectors)
unfolding Grows
insert_byte-Grows addr byte pb =
    let (low, high, some_) =
      place_grows (sector_base addr pb.sector_size) pb.sector_size (write_byte addr byte)
        pb.sectors in
    rw (insert_byte-place addr byte pb) (low, high, λ one. some_)

insert_bytes-Grows :
    (rec : HexRecord) (left i : ℕ) (pb : Builder)
    → Grows (length pb.sectors) left (length (insert_bytes rec left i pb).sectors)
unfolding Grows insert_bytes
insert_bytes-Grows rec zero i pb = (omega arith, omega arith, λ one. omega arith)
insert_bytes-Grows rec (suc left) i pb =
    let pb' = insert_byte ((rec.address + i) % 2 ^ 32) (get_or rec.bytes i 0) pb in
    let (low, high, some_) =
      insert_byte-Grows ((rec.address + i) % 2 ^ 32) (get_or rec.bytes i 0) pb in
    let (low', high', some') = insert_bytes-Grows rec left (i + 1) pb' in
    let one_ = some_ (omega arith) in (omega arith, omega arith, λ one. omega arith)

-- The bytes of the data records.
unfoldable pub total : List HexRecord → ℕ
total [] = 0
total (rec ∷ records) = (if rec.kind == 0 then rec.len else 0) + total records

insert_record-Grows :
    (rec : HexRecord) (pb : Builder)
    → Grows
        (length pb.sectors)
        (if rec.kind == 0 then rec.len else 0)
        (length (insert_record rec pb).sectors)
unfolding Grows insert_record
insert_record-Grows rec pb = elim (Bool-cases (rec.kind == 0)) [
  | inl data_ ↦ rw data_ (insert_bytes-Grows rec rec.len 0 pb)
  | inr other ↦ rw other (omega arith, omega arith, λ one. absurd (omega arith))
]

insert_records-Grows :
    (records : List HexRecord) (pb : Builder)
    → Grows (length pb.sectors) (total records) (length (insert_records records pb).sectors)
unfolding insert_records total
insert_records-Grows [] pb = Grows-none (length pb.sectors)
insert_records-Grows (rec ∷ records) pb =
    Grows-trans _ _ _ (if rec.kind == 0 then rec.len else 0) (total records)
      (insert_record-Grows rec pb) (insert_records-Grows records (insert_record rec pb))

-- There is a sector where there is a byte, and there are no more sectors than bytes.
pub length-pipeline_build :
    (records : List HexRecord) (size : ℕ)
    → (length (pipeline_build records size).sectors ≤ total records)
      × ((1 ≤ total records) → 1 ≤ length (pipeline_build records size).sectors)
unfolding pipeline_build Grows
length-pipeline_build records size =
    let (low, high, some_) =
      insert_records-Grows records (record { sectors = []; sector_size = size }) in
    (omega arith, λ one. some_ one)

-- A segment is no longer than the size that it is asked for.
sent_length : Option (ℕ × List ℕ) → ℕ
sent_length none = 0
sent_length (some (addr, bytes)) = length bytes

take_short : (n seg : ℕ) (bytes : List ℕ) → n ≤ seg → length (take n bytes) ≤ seg
take_short n seg bytes h = omega (arith, length-take n bytes)

sent_short : (sec : Sector) (offset seg : ℕ) → sent_length (next_segment sec offset seg).sent ≤ seg
unfolding next_segment sent_length
sent_short sec offset seg =
    let off = skip_invalid sec.valid (sec.size - offset) offset in
    elim (Bool-cases (leb sec.size off)) [
      | inl over ↦ rw over (omega arith)
      | inr inside ↦ elim (Bool-cases (ltb sec.size ((off + seg) % 2 ^ 32))) [
        | inl cut ↦
            rw (inside, cut) (take_short (sec.size - off) seg (drop off sec.bytes) (ground arith))
        | inr whole ↦ rw (inside, whole) (take_short seg seg (drop off sec.bytes) (omega arith))
      ]
    ]

pub next_segment_short :
    (sec : Sector) (offset seg addr : ℕ) (bytes : List ℕ)
    → (next_segment sec offset seg).sent ≡ some (addr, bytes)
    → length bytes ≤ seg
unfolding sent_length
next_segment_short sec offset seg addr bytes h =
    subst (λ (sent : Option (ℕ × List ℕ)). sent_length sent ≤ seg) h (sent_short sec offset seg)

-- An index below the number of sectors has a sector.
get_elem?_below :
    {A : Type 0} (xs : List A) (i : ℕ) → i < length xs → (x : A) × (get_elem? xs i ≡ some x)
get_elem?_below [] i h = absurd (omega arith)
get_elem?_below (x ∷ xs) zero h = (x, refl)
get_elem?_below (x ∷ xs) (suc i) h = get_elem?_below xs i (omega arith)

pub pipeline_next_segment_below :
    (pb : Builder) (index offset seg : ℕ)
    → index < length pb.sectors
    → (s : Segment) × (pipeline_next_segment pb index offset seg ≡ some s)
      × ((addr : ℕ) (bytes : List ℕ) → s.sent ≡ some (addr, bytes) → length bytes ≤ seg)
unfolding pipeline_next_segment
pipeline_next_segment_below pb index offset seg h =
    let (sec, at) = get_elem?_below pb.sectors index h in
    rw (at, pipeline_next_segment)
      (next_segment sec offset seg, refl, next_segment_short sec offset seg)

pub pipeline_sector_crc_below :
    (pb : Builder) (index : ℕ)
    → index < length pb.sectors
    → (crc : ℕ) × (pipeline_sector_crc pb index ≡ some crc)
unfolding pipeline_sector_crc
pipeline_sector_crc_below pb index h =
    let (sec, at) = get_elem?_below pb.sectors index h in rw (at, pipeline_sector_crc) (_, refl)

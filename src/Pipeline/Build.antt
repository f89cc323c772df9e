-- ===== src/Pipeline/Build.antt =====
-- `pipeline_build` stores the image that its records describe.
use re_boot.Base.{ℕ, zero, suc, ◌+◌, ◌-◌, ◌%◌, ◌^◌, ◌≤◌, ◌<◌, ◌≡◌, ◌≢◌, refl, sym, ap, ◌∙◌}
use re_boot.Base.{leb, ltb, ◌==◌, if◌then◌else◌, ◌&&◌, Option, none, some, List, [], ◌∷◌}
use re_boot.Base.{get_or, arith, inl, inr, All, Bool-cases}
use re_boot.Base.{eq→==, ne→==, ℕ_discrete}
use re_boot.Pipeline.{HexRecord, Sector, Builder, sector_base, fresh, write_byte}
use re_boot.Pipeline.{insert_byte, insert_bytes, insert_record, insert_records, pipeline_build}
use re_boot.Pipeline.Sectors.{sector_at, place, modify-find_sector, sector_at-place}
use re_boot.Pipeline.Image.{IsSector, IsBuilder, byte_at, record_byte, image, read, over}
use re_boot.Pipeline.Image.{sector_base_bounds, owner_byte, owner-Found, sector_byte-write_byte}
use re_boot.Pipeline.Image.{sector_at-Found, place-IsSector}
use mathlib.Core.Option

-- `insert_byte` on the list of sectors.
pub insert_byte-eq-place :
    (addr byte : ℕ) (pb : Builder)
    → insert_byte addr byte pb ≡ record pb {
      sectors =
          place (sector_base addr pb.sector_size) pb.sector_size (write_byte addr byte) pb.sectors;
    }
unfolding insert_byte
insert_byte-eq-place addr byte pb =
    let e = modify-find_sector pb addr (write_byte addr byte) in
    λ i. record { sectors = e.1 i; sector_size = e.0 i }

insert_byte-IsBuilder :
    (addr byte : ℕ) (pb : Builder) → IsBuilder pb → IsBuilder (insert_byte addr byte pb)
insert_byte-IsBuilder addr byte pb v =
    rw (insert_byte-eq-place addr byte pb)
      (place-IsSector (sector_base addr pb.sector_size) pb.sector_size addr byte pb.sectors v)

insert_byte-size :
    (addr byte : ℕ) (pb : Builder) → (insert_byte addr byte pb).sector_size ≡ pb.sector_size
insert_byte-size addr byte pb =
    ap (λ (b : Builder). b.sector_size) (insert_byte-eq-place addr byte pb)

-- A stored byte is what is read at its address, and nothing else changes.
read-place :
    (size addr byte a : ℕ) (ss : List Sector)
    → 0 < size
    → All (IsSector size) ss
    → read
        (sector_at
          (sector_base a size)
          (place (sector_base addr size) size (write_byte addr byte) ss))
        a
      ≡ (if a == addr then some byte else read (sector_at (sector_base a size) ss) a)
read-place size addr byte a ss h v =
    let base = sector_base addr size in
    let base' = sector_base a size in
    let old = sector_at base ss in
    let owner = Option.get_or old (fresh base size) in
    let sound = owner-Found size base old (sector_at-Found size base ss v) in
    let near = sector_base_bounds addr size h in
    let near' = sector_base_bounds a size h in
    rw (sector_at-place base size base' (write_byte addr byte) ss (λ s. unfold write_byte in refl))
      (elim (ℕ_discrete base' base) [
        | yes same ↦ rw (eq→== base' base same) (
            sector_byte-write_byte size addr byte a owner sound.0 (omega (arith, sound.1, near))
              (omega (arith, sound.1, near)) (omega (arith, sound.1, near', same))
            ∙ ap (λ o. if a == addr then some byte else o)
                (owner_byte size base a old ∙ ap (λ b. read (sector_at b ss) a) (sym same)))
        | no other ↦
            rw (ne→== base' base other)
              (rw (ne→== a addr (λ e. other (ap (λ t. sector_base t size) e))))
      ])

byte_at-insert_byte :
    (addr byte a : ℕ) (pb : Builder)
    → 0 < pb.sector_size
    → IsBuilder pb
    → byte_at (insert_byte addr byte pb) a ≡ (if a == addr then some byte else byte_at pb a)
unfolding byte_at
byte_at-insert_byte addr byte a pb h v =
    rw (insert_byte-eq-place addr byte pb) (read-place pb.sector_size addr byte a pb.sectors h v)

-- The loop over a record's bytes, from the byte `i` on.
pub bytes_from : HexRecord → ℕ → ℕ → ℕ → Option ℕ → Option ℕ
bytes_from rec left i a old =
    let j = (a + 2 ^ 32 - rec.address) % 2 ^ 32 in
    if leb i j && ltb j (i + left) then some (get_or rec.bytes j 0) else old

record IsRun (pb pb' : Builder) : Type 0 where
  size : pb'.sector_size ≡ pb.sector_size
  built : IsBuilder pb'

insert_bytes-IsRun :
    (rec : HexRecord) (left i : ℕ) (pb : Builder)
    → IsBuilder pb
    → IsRun pb (insert_bytes rec left i pb)
unfolding insert_bytes
insert_bytes-IsRun rec zero i pb v = record { size = refl; built = v }
insert_bytes-IsRun rec (suc left) i pb v =
    let addr = (rec.address + i) % 2 ^ 32 in
    let byte = get_or rec.bytes i 0 in
    let rest =
      insert_bytes-IsRun rec left (i + 1) (insert_byte addr byte pb)
        (insert_byte-IsBuilder addr byte pb v) in
    record { size = rest.size ∙ insert_byte-size addr byte pb; built = rest.built }

one_more :
    (rec : HexRecord) (left i a : ℕ) (old : Option ℕ)
    → rec.address < 2 ^ 32
    → a < 2 ^ 32
    → i + suc left ≤ 2 ^ 8
    → bytes_from rec left
        (i + 1)
        a
        (if a == (rec.address + i) % 2 ^ 32 then some (get_or rec.bytes i 0) else old)
      ≡ bytes_from rec (suc left) i a old
unfolding bytes_from
one_more rec left i a old ha hr hi =
    let j = (a + 2 ^ 32 - rec.address) % 2 ^ 32 in
    elim (ℕ_discrete j i) [
      | yes e ↦
          let hit : a ≡ (rec.address + i) % 2 ^ 32 = omega arith in
          ground (arith, ap (λ (t : ℕ). get_or rec.bytes t 0) e)
      | no ne ↦ let miss : a ≢ (rec.address + i) % 2 ^ 32 = omega arith in ground arith
    ]

byte_at-insert_bytes :
    (rec : HexRecord) (left i a : ℕ) (pb : Builder)
    → 0 < pb.sector_size
    → IsBuilder pb
    → rec.address < 2 ^ 32
    → a < 2 ^ 32
    → i + left ≤ 2 ^ 8
    → byte_at (insert_bytes rec left i pb) a ≡ bytes_from rec left i a (byte_at pb a)
unfolding insert_bytes bytes_from
byte_at-insert_bytes rec zero i a pb h v ha hr hi = ground arith
byte_at-insert_bytes rec (suc left) i a pb h v ha hr hi =
    let addr = (rec.address + i) % 2 ^ 32 in
    let byte = get_or rec.bytes i 0 in
    let j = (a + 2 ^ 32 - rec.address) % 2 ^ 32 in
    byte_at-insert_bytes rec left (i + 1) a (insert_byte addr byte pb)
      (rw (insert_byte-size addr byte pb) h) (insert_byte-IsBuilder addr byte pb v) ha hr
      (omega arith)
    ∙ ap (λ old. if leb (i + 1) j && ltb j (i + 1 + left) then some (get_or rec.bytes j 0) else old)
        (byte_at-insert_byte addr byte a pb h v)
    ∙ one_more rec left i a (byte_at pb a) ha hr hi

-- The records that the reader makes: an address in 32 bits, and at most 255 bytes.
pub record IsHexRecord (rec : HexRecord) : Type 0 where
  pub address_lt : rec.address < 2 ^ 32
  pub len_lt : rec.len < 2 ^ 8

byte_at-insert_record :
    (rec : HexRecord) (a : ℕ) (pb : Builder)
    → 0 < pb.sector_size
    → IsBuilder pb
    → IsHexRecord rec
    → a < 2 ^ 32
    → byte_at (insert_record rec pb) a ≡ over (record_byte rec a) (byte_at pb a)
unfolding insert_record record_byte bytes_from
byte_at-insert_record rec a pb h v r ha =
    ground (arith, byte_at-insert_bytes rec rec.len 0 a pb h v r.address_lt ha)

insert_record-IsRun :
    (rec : HexRecord) (pb : Builder) → IsBuilder pb → IsRun pb (insert_record rec pb)
unfolding insert_record
insert_record-IsRun rec pb v = elim (Bool-cases (rec.kind == 0)) [
  | inl e ↦ rw e (insert_bytes-IsRun rec rec.len 0 pb v)
  | inr e ↦ rw e (record { size = refl; built = v })
]

pub over_assoc : (x y z : Option ℕ) → over (over x y) z ≡ over x (over y z)
over_assoc none y z = refl
over_assoc (some b) y z = refl

pub over-none : (x : Option ℕ) → over x none ≡ x
over-none none = refl
over-none (some b) = refl

byte_at-insert_records :
    (recs : List HexRecord) (a : ℕ) (pb : Builder)
    → 0 < pb.sector_size
    → IsBuilder pb
    → All IsHexRecord recs
    → a < 2 ^ 32
    → (byte_at (insert_records recs pb) a ≡ over (image recs a) (byte_at pb a))
      × IsBuilder (insert_records recs pb)
unfolding insert_records image
byte_at-insert_records [] a pb h v hr ha = (refl, v)
byte_at-insert_records (rec ∷ recs) a pb h v hr ha =
    let run = insert_record-IsRun rec pb v in
    let (rest, built) =
      byte_at-insert_records recs a (insert_record rec pb) (rw run.size h) run.built hr.1 ha in
    (
      rest
          ∙ ap (over (image recs a)) (byte_at-insert_record rec a pb h v hr.0 ha)
          ∙ sym (over_assoc (image recs a) (record_byte rec a) (byte_at pb a)),
      built,
    )

-- For records of 32-bit addresses and a sector size above 0, what `pipeline_build` holds for an
-- address, in the sector that owns it, is the byte of the last data record that covers the address,
-- and it holds nothing for an address that no data record covers. Its buffers have the sector size.
pub pipeline_build-image :
    (records : List HexRecord) (sector_size a : ℕ)
    → 0 < sector_size
    → All IsHexRecord records
    → a < 2 ^ 32
    → (byte_at (pipeline_build records sector_size) a ≡ image records a)
      × IsBuilder (pipeline_build records sector_size)
unfolding pipeline_build byte_at sector_at
pipeline_build-image records sector_size a h hr ha =
    let empty : Builder = record { sectors = []; sector_size = sector_size } in
    let (filled, built) = byte_at-insert_records records a empty h tt hr ha in
    (filled ∙ over-none (image records a), built)

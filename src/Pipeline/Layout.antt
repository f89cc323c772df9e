-- ===== src/Pipeline/Layout.antt =====
-- The sectors that `pipeline_build` makes: aligned, of one size, at distinct bases, and erased
-- wherever no record wrote.
use native.Mathlib.Nat.{div-add-mod, mul-mod_right}
use re_boot.Base.{◌/◌, ℕ, zero, suc, ◌+◌, ◌-◌, ◌*◌, ◌%◌, ◌≡◌, ◌≢◌, refl, sym, ap, ◌∙◌}
use re_boot.Base.{◌==◌, Bool, true, false, List, [], ◌∷◌}
use re_boot.Base.{length, get_or, set, arith, inl, inr, All, Bool-cases, ==→ne, ℕ_discrete}
use re_boot.Base.{get_or-set_self, get_or-set_ne, get_or-replicate, dec_lt, set_beyond}
use re_boot.Pipeline.{HexRecord, Sector, Builder, sector_base, fresh, write_byte}
use re_boot.Pipeline.{insert_byte, insert_bytes, insert_record, insert_records, pipeline_build}
use re_boot.Pipeline.Sectors.{place}
use re_boot.Pipeline.Image.{IsSector, fresh-IsSector, write_byte-IsSector}
use re_boot.Pipeline.Build.{insert_byte-eq-place}

-- What every stored byte keeps, the whole build keeps.
module _ (P : Builder → Type 0)
    (keeps : (addr byte : ℕ) (pb : Builder) → P pb → P (insert_byte addr byte pb)) where
  insert_bytes_inv :
      (rec : HexRecord) (left i : ℕ) (pb : Builder) → P pb → P (insert_bytes rec left i pb)
  unfolding insert_bytes
  insert_bytes_inv rec zero i pb v = v
  insert_bytes_inv rec (suc left) i pb v = insert_bytes_inv rec left (i + 1) _ (keeps _ _ pb v)

  insert_records_inv : (recs : List HexRecord) (pb : Builder) → P pb → P (insert_records recs pb)
  unfolding insert_records insert_record
  insert_records_inv [] pb v = v
  insert_records_inv (rec ∷ recs) pb v = elim (Bool-cases (rec.kind == 0)) [
    | inl e ↦ rw e (insert_records_inv recs _ (insert_bytes_inv rec rec.len 0 pb v))
    | inr e ↦ rw e (insert_records_inv recs pb v)
  ]

  build_inv :
      (recs : List HexRecord) (size : ℕ)
      → P (record { sectors = []; sector_size = size })
      → P (pipeline_build recs size)
  unfolding pipeline_build
  build_inv recs size v = insert_records_inv recs (record { sectors = []; sector_size = size }) v

-- One sector: its buffers' size, its alignment, and erased bytes where nothing is valid.
pub record IsLaidOut (size : ℕ) (s : Sector) : Type 0 where
  pub sector : IsSector size s
  pub aligned : s.base % size ≡ 0
  pub erased : (j : ℕ) → get_or s.valid j false ≡ false → get_or s.bytes j 0xff ≡ 0xff

-- No two sectors have one base.
abbrev pub Distinct : List Sector → Type 0
Distinct [] = Unit
Distinct (s ∷ ss) = All (λ t. t.base ≢ s.base) ss × Distinct ss

pub record IsLayout (size : ℕ) (pb : Builder) : Type 0 where
  pub size_is : pb.sector_size ≡ size
  pub each : All (IsLaidOut size) pb.sectors
  pub distinct : Distinct pb.sectors

-- Where a byte is still not valid after a write, the write went elsewhere.
write_erased :
    (valid : List Bool) (bytes : List ℕ) (i byte j : ℕ)
    → length valid ≡ length bytes
    → ((k : ℕ) → get_or valid k false ≡ false → get_or bytes k 0xff ≡ 0xff)
    → get_or (set valid i true) j false ≡ false
    → get_or (set bytes i byte) j 0xff ≡ 0xff
write_erased valid bytes i byte j same erased e = elim (dec_lt i (length bytes)) [
  | yes inside ↦ elim (ℕ_discrete i j) [
    | yes hit ↦ absurd (
        true≢false (
          sym (get_or-set_self valid i true false (omega arith))
          ∙ ap (λ k. get_or (set valid i true) k false) hit
          ∙ e))
    | no ne ↦
        get_or-set_ne bytes i j byte 0xff ne
        ∙ erased j (sym (get_or-set_ne valid i j true false ne) ∙ e)
  ]
  | no outside ↦
      ap (λ (t : List ℕ). get_or t j 0xff) (set_beyond bytes i byte (omega arith))
      ∙ erased j (
          ap (λ (t : List Bool). get_or t j false) (sym (set_beyond valid i true (omega arith)))
          ∙ e)
]
  where
    true≢false : ◌≢◌ {A = Bool} true false
    true≢false h = cc

write_byte-IsLaidOut :
    (size addr byte : ℕ) (s : Sector) → IsLaidOut size s → IsLaidOut size (write_byte addr byte s)
unfolding write_byte
write_byte-IsLaidOut size addr byte s v = record {
  sector = write_byte-IsSector size addr byte s v.sector;
  aligned = v.aligned;
  erased = λ j e.
      write_erased s.valid s.bytes (addr - s.base) byte j (omega (arith, v.sector)) v.erased e;
}

sector_base_aligned : (addr size : ℕ) → sector_base addr size % size ≡ 0
unfolding sector_base
sector_base_aligned addr size =
    let whole : addr - addr % size ≡ size * (addr / size) = omega (arith, div-add-mod addr size) in
    ap (λ (t : ℕ). t % size) whole ∙ mul-mod_right size (addr / size)

fresh-IsLaidOut : (addr size : ℕ) → IsLaidOut size (fresh (sector_base addr size) size)
unfolding fresh
fresh-IsLaidOut addr size = record {
  sector = fresh-IsSector (sector_base addr size) size;
  aligned = sector_base_aligned addr size;
  erased = λ j e. get_or-replicate size j 0xff;
}

module _ (size addr byte : ℕ) where
  place-IsLaidOut :
      (ss : List Sector)
      → All (IsLaidOut size) ss
      → All (IsLaidOut size) (place (sector_base addr size) size (write_byte addr byte) ss)
  unfolding place
  place-IsLaidOut [] v = (write_byte-IsLaidOut size addr byte _ (fresh-IsLaidOut addr size), tt)
  place-IsLaidOut (s ∷ ss) v = elim (Bool-cases (s.base == sector_base addr size)) [
    | inl e ↦ rw e (write_byte-IsLaidOut size addr byte s v.0, v.1)
    | inr e ↦ rw e (v.0, place-IsLaidOut ss v.1)
  ]

  -- A write adds at most the base that it is about.
  place-ne :
      (b : ℕ) (ss : List Sector)
      → sector_base addr size ≢ b
      → All (λ t. t.base ≢ b) ss
      → All (λ t. t.base ≢ b) (place (sector_base addr size) size (write_byte addr byte) ss)
  unfolding place write_byte fresh
  place-ne b [] ne v = (ne, tt)
  place-ne b (s ∷ ss) ne v = elim (Bool-cases (s.base == sector_base addr size)) [
    | inl e ↦ rw e v
    | inr e ↦ rw e (v.0, place-ne b ss ne v.1)
  ]

  place-Distinct :
      (ss : List Sector)
      → Distinct ss
      → Distinct (place (sector_base addr size) size (write_byte addr byte) ss)
  unfolding place write_byte
  place-Distinct [] v = (tt, tt)
  place-Distinct (s ∷ ss) v = elim (Bool-cases (s.base == sector_base addr size)) [
    | inl e ↦ rw e v
    | inr e ↦ rw e (
      place-ne s.base ss (λ h. ==→ne s.base (sector_base addr size) e (sym h)) v.0,
      place-Distinct ss v.1,
    )
  ]

insert_byte-IsLayout :
    (size addr byte : ℕ) (pb : Builder)
    → IsLayout size pb
    → IsLayout size (insert_byte addr byte pb)
insert_byte-IsLayout size addr byte pb v =
    rw (insert_byte-eq-place addr byte pb, v.size_is)
      (record {
        size_is = refl;
        each = place-IsLaidOut size addr byte pb.sectors v.each;
        distinct = place-Distinct size addr byte pb.sectors v.distinct;
      })

-- Whatever the records hold, the sectors have distinct bases, multiples of the sector size; their
-- buffers have that size; and a byte that is not marked valid has the erased value 0xFF.
pub pipeline_build-IsLayout :
    (records : List HexRecord) (sector_size : ℕ)
    → IsLayout sector_size (pipeline_build records sector_size)
pipeline_build-IsLayout records size =
    build_inv (IsLayout size) (insert_byte-IsLayout size) records size
      (record { size_is = refl; each = tt; distinct = tt })

-- ===== src/Pipeline/Image.antt =====
-- The pipeline against the flat image that the records describe.
use re_boot.Base.{ℕ, ◌+◌, ◌-◌, ◌%◌, ◌^◌, ◌≤◌, ◌<◌, ◌≡◌, refl, ap}
use re_boot.Base.{ltb, ◌==◌, if◌then◌else◌, true, false, ◌&&◌, Option, none, some, List, [], ◌∷◌}
use re_boot.Base.{==→eq, length, get_or, arith, inl, inr, All, Bool-cases}
use re_boot.Base.{
  length-set, length-replicate, get_or-set_self, get_or-set_ne, get_or-replicate, ℕ_discrete,
}
use re_boot.Pipeline.{HexRecord, Sector, Builder, sector_base, fresh, write_byte}
use re_boot.Pipeline.Sectors.{sector_at, place}
use mathlib.Core.Option

-- A sector's buffers have the builder's sector size.
pub record IsSector (size : ℕ) (s : Sector) : Type 0 where
  pub sized : s.size ≡ size
  pub bytes_len : length s.bytes ≡ size
  pub valid_len : length s.valid ≡ size

abbrev pub IsBuilder : Builder → Type 0
IsBuilder pb = All (IsSector pb.sector_size) pb.sectors

-- The byte that a sector holds for an address, if it is marked valid.
pub sector_byte : Sector → ℕ → Option ℕ
sector_byte s a =
    if get_or s.valid (a - s.base) false then some (get_or s.bytes (a - s.base) 0) else none

abbrev pub read : Option Sector → ℕ → Option ℕ
read none a = none
read (some s) a = sector_byte s a

unfoldable pub byte_at : Builder → ℕ → Option ℕ
byte_at pb a = read (sector_at (sector_base a pb.sector_size) pb.sectors) a

-- A later byte stands over an earlier one.
abbrev pub over : Option ℕ → Option ℕ → Option ℕ
over none old = old
over (some b) old = some b

-- What one record says of an address, and what a file says: the last record that covers it.
unfoldable pub record_byte : HexRecord → ℕ → Option ℕ
record_byte rec a =
    let i = (a + 2 ^ 32 - rec.address) % 2 ^ 32 in
    if rec.kind == 0 && ltb i rec.len then some (get_or rec.bytes i 0) else none

unfoldable pub image : List HexRecord → ℕ → Option ℕ
unfolding record_byte
image [] a = none
image (rec ∷ recs) a = over (image recs a) (record_byte rec a)

pub fresh-IsSector : (base size : ℕ) → IsSector size (fresh base size)
unfolding fresh
fresh-IsSector base size =
    ground (arith, length-replicate {A = ℕ} size 0xff, length-replicate size false)

pub write_byte-IsSector :
    (size addr byte : ℕ) (s : Sector) → IsSector size s → IsSector size (write_byte addr byte s)
unfolding write_byte
write_byte-IsSector size addr byte s v =
    ground (arith, length-set s.bytes (addr - s.base) byte, length-set s.valid (addr - s.base) true)

pub place-IsSector :
    (base size addr byte : ℕ) (ss : List Sector)
    → All (IsSector size) ss
    → All (IsSector size) (place base size (write_byte addr byte) ss)
unfolding place
place-IsSector base size addr byte [] v =
    (write_byte-IsSector size addr byte (fresh base size) (fresh-IsSector base size), tt)
place-IsSector base size addr byte (s ∷ ss) v = elim (Bool-cases (s.base == base)) [
  | inl e ↦ rw e (write_byte-IsSector size addr byte s v.0, v.1)
  | inr e ↦ rw e (v.0, place-IsSector base size addr byte ss v.1)
]

abbrev pub Found : ℕ → ℕ → Option Sector → Type 0
Found size base none = Unit
Found size base (some s) = IsSector size s × (s.base ≡ base)

pub sector_at-Found :
    (size base : ℕ) (ss : List Sector)
    → All (IsSector size) ss
    → Found size base (sector_at base ss)
unfolding sector_at
sector_at-Found size base [] v = tt
sector_at-Found size base (t ∷ ss) v = elim (Bool-cases (t.base == base)) [
  | inl here ↦ rw here (v.0, ==→eq t.base base here)
  | inr there ↦ rw there (sector_at-Found size base ss v.1)
]

-- One byte written into the sector that owns it.
pub sector_byte-write_byte :
    (size addr byte a : ℕ) (s : Sector)
    → IsSector size s
    → s.base ≤ addr
    → addr < s.base + size
    → s.base ≤ a
    → sector_byte (write_byte addr byte s) a ≡ (if a == addr then some byte else sector_byte s a)
unfolding sector_byte write_byte
sector_byte-write_byte size addr byte a s v above below above' = elim (ℕ_discrete a addr) [
  | yes e ↦ ground (
    arith,
    get_or-set_self s.valid (addr - s.base) true false,
    get_or-set_self s.bytes (addr - s.base) byte 0,
    ap (λ (t : ℕ). t - s.base) e,
  )
  | no ne ↦ ground (
    arith,
    get_or-set_ne s.valid (addr - s.base) (a - s.base) true false,
    get_or-set_ne s.bytes (addr - s.base) (a - s.base) byte 0,
  )
]

sector_byte-fresh : (base size a : ℕ) → sector_byte (fresh base size) a ≡ none
unfolding sector_byte fresh
sector_byte-fresh base size a = rw (get_or-replicate size (a - base) false)

pub sector_base_bounds :
    (a size : ℕ) → 0 < size → (sector_base a size ≤ a) × (a < sector_base a size + size)
unfolding sector_base
sector_base_bounds a size h = ground arith

-- The owner of an address, new or old, and what is read from it after a write.
pub owner-Found :
    (size base : ℕ) (o : Option Sector)
    → Found size base o
    → let s = Option.get_or o (fresh base size) in IsSector size s × (s.base ≡ base)
owner-Found size base none v = (fresh-IsSector base size, unfold fresh in refl)
owner-Found size base (some s) v = v

pub owner_byte :
    (size base a : ℕ) (o : Option Sector)
    → sector_byte (Option.get_or o (fresh base size)) a ≡ read o a
owner_byte size base a none = sector_byte-fresh base size a
owner_byte size base a (some s) = refl

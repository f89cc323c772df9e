-- ===== src/Pipeline/Sectors.antt =====
-- The list of sectors as a map from base addresses.
use re_boot.Base.{ℕ, zero, suc, ◌≡◌, refl, sym, ◌==◌, if◌then◌else◌}
use re_boot.Base.{Option, none, some, List, [], ◌∷◌, ◌++◌, length, arith, inl, inr}
use re_boot.Base.{Option-cases}
use mathlib.Core.Option
use re_boot.Pipeline.{Sector, Builder, fresh, find_index, modify, find_sector, sector_base}

unfoldable pub sector_at : ℕ → List Sector → Option Sector
sector_at base [] = none
sector_at base (s ∷ ss) = if s.base == base then some s else sector_at base ss

-- What `find_sector` and a write through its result do together, on the list.
unfoldable pub place : ℕ → ℕ → (Sector → Sector) → List Sector → List Sector
place base size f [] = f (fresh base size) ∷ []
place base size f (s ∷ ss) = if s.base == base then f s ∷ ss else s ∷ place base size f ss

place_found :
    (base size : ℕ) (f : Sector → Sector) (ss : List Sector) (i : ℕ)
    → find_index base ss ≡ some i
    → place base size f ss ≡ modify i f ss
unfolding find_index place modify
place_found base size f [] i e = cc
place_found base size f (s ∷ ss) zero e = ground (arith, Option-cases (find_index base ss))
place_found base size f (s ∷ ss) (suc i) e = ground (arith, place_found base size f ss i)

place_new :
    (base size : ℕ) (f : Sector → Sector) (ss : List Sector)
    → find_index base ss ≡ none
    → place base size f ss ≡ modify (length ss) f (ss ++ fresh base size ∷ [])
unfolding find_index place modify
place_new base size f [] e = refl
place_new base size f (s ∷ ss) e = ground (arith, place_new base size f ss)

find_sector_new :
    (pb : Builder) (addr : ℕ)
    → let base = sector_base addr pb.sector_size in
      find_index base pb.sectors ≡ none
      → find_sector pb addr
        ≡ (record pb { sectors = pb.sectors ++ fresh base pb.sector_size ∷ [] }, length pb.sectors)
unfolding find_sector
find_sector_new pb addr e = rw (e, find_sector)

find_sector_found :
    (pb : Builder) (addr i : ℕ)
    → find_index (sector_base addr pb.sector_size) pb.sectors ≡ some i
    → find_sector pb addr ≡ (pb, i)
unfolding find_sector
find_sector_found pb addr i e = rw (e, find_sector)

pub modify-find_sector :
    (pb : Builder) (addr : ℕ) (f : Sector → Sector)
    → let (pb', i) = find_sector pb addr in
      (pb'.sector_size ≡ pb.sector_size)
      × (modify i f pb'.sectors
          ≡ place (sector_base addr pb.sector_size) pb.sector_size f pb.sectors)
modify-find_sector pb addr f =
    let base = sector_base addr pb.sector_size in
    elim (Option-cases (find_index base pb.sectors)) [
      | inl new ↦
          rw (find_sector_new pb addr new)
            (refl, sym (place_new base pb.sector_size f pb.sectors new))
      | inr (i, found) ↦
          rw (find_sector_found pb addr i found)
            (refl, sym (place_found base pb.sector_size f pb.sectors i found))
    ]

-- A write into the sector of one base is seen there, and nowhere else.
pub sector_at-place :
    (base size b : ℕ) (f : Sector → Sector) (ss : List Sector)
    → ((s : Sector) → (f s).base ≡ s.base)
    → sector_at b (place base size f ss) ≡ (
        if b == base
        then some (f (Option.get_or (sector_at base ss) (fresh base size)))
        else sector_at b ss)
unfolding sector_at place fresh
sector_at-place base size b f [] keeps = ground (arith, keeps (fresh base size))
sector_at-place base size b f (s ∷ ss) keeps =
    ground (arith, keeps s, sector_at-place base size b f ss keeps)

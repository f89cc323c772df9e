-- ===== src/Pipeline/Examples.antt =====
-- A file of two records, and one sector of it.
use re_boot.Base.{
  ℕ, zero, suc, ◌≡◌, refl, List, [], ◌∷◌, All, arith, true, false, some, replicate, get_or,
}
use re_boot.Pipeline.{HexRecord, Sector, pipeline_build}
use re_boot.Pipeline.Image.{IsBuilder, byte_at, image}
use re_boot.Pipeline.Build.{pipeline_build-image}
use re_boot.Pipeline.Layout.{IsLaidOut, IsLayout, pipeline_build-IsLayout}
use re_boot.Pipeline.Flash.{transmit, program}
use re_boot.Pipeline.Program.{IsInside, transmit-program}

abbrev records : List HexRecord
records =
    record { address = 6; len = 3; bytes = 1 ∷ 2 ∷ 3 ∷ []; kind = 0; checksum = 0 }
    ∷ record { address = 7; len = 1; bytes = 9 ∷ []; kind = 0; checksum = 0 }
    ∷ []

pipeline_build-image_example :
    (byte_at (pipeline_build records 8) 7 ≡ image records 7) × IsBuilder (pipeline_build records 8)
pipeline_build-image_example =
    pipeline_build-image records 8 7 (omega arith) (ground arith) (omega arith)

pipeline_build-IsLayout_example : IsLayout 8 (pipeline_build records 8)
pipeline_build-IsLayout_example = pipeline_build-IsLayout records 8

-- The later record wins, across the sectors at 0 and 8.
built_byte : image records 7 ≡ some 9
unfolding image
built_byte = refl

abbrev sector : Sector
sector = record {
  base = 8;
  bytes = 0xff ∷ 5 ∷ 6 ∷ 0xff ∷ [];
  valid = false ∷ true ∷ true ∷ false ∷ [];
  size = 4;
}

sector_erased : (j : ℕ) → get_or sector.valid j false ≡ false → get_or sector.bytes j 0xff ≡ 0xff
sector_erased zero h = refl
sector_erased (suc zero) h = cc
sector_erased (suc (suc zero)) h = cc
sector_erased (suc (suc (suc zero))) h = refl
sector_erased (suc (suc (suc (suc j)))) h = refl

sector-IsLaidOut : IsLaidOut 4 sector
sector-IsLaidOut = record {
  sector = record { sized = refl; bytes_len = refl; valid_len = refl };
  aligned = omega arith;
  erased = sector_erased;
}

transmit-program_example :
    (segs : List (ℕ × List ℕ)) × (transmit 5 sector 2 0 ≡ some segs)
    × All (IsInside 4 2 sector) segs
    × (program 8 segs (replicate 4 0xff) ≡ 0xff ∷ 5 ∷ 6 ∷ 0xff ∷ [])
transmit-program_example =
    transmit-program 4 2 sector sector-IsLaidOut (omega arith) (omega arith) (omega arith)
      (omega arith)

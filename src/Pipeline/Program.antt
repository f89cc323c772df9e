-- ===== src/Pipeline/Program.antt =====
-- Sending a sector segment by segment programs its bytes.
use mathlib.Core.Option
use re_boot.Base.{ℕ, zero, suc, ◌+◌, ◌-◌, ◌^◌, ◌≤◌, ◌<◌, ◌≡◌, refl, sym, ap, ◌∙◌}
use re_boot.Base.{get_or_beyond, lt→ltb, le→ltb, ltb, if◌then◌else◌, false, Option, none, some}
use re_boot.Base.{List, [], ◌∷◌}
use re_boot.Base.{length, get_or, take, drop, replicate, arith, inl, inr, All}
use re_boot.Base.{get_or-replicate, length-replicate}
use re_boot.Base.{get_or-drop, get_or-take, length-take, length-drop, get_or_ext, dec_lt}
use re_boot.Pipeline.{Sector, next_segment}
use re_boot.Pipeline.Layout.{IsLaidOut}
use re_boot.Pipeline.Flash.{
  transmit, flash_write, program, IsNext, ended, taken, next_segment-IsNext,
}
use re_boot.Pipeline.Flash.{flash_write_inside, flash_write_outside, length-flash_write}

-- A segment lies in the sector and has a byte, and at most `seg`.
abbrev pub IsInside : ℕ → ℕ → Sector → ℕ × List ℕ → Type 0
IsInside size seg sec (addr, bytes) =
    (sec.base ≤ addr)
    × (addr + length bytes ≤ sec.base + size)
    × (0 < length bytes)
    × (length bytes ≤ seg)

-- The segments sent from an offset on, and the flash that they leave: below the offset what was
-- there, from the offset on the sector's bytes.
record IsSent (size seg offset : ℕ) (sec : Sector) (flash : List ℕ)
    (sent : Option (List (ℕ × List ℕ))) : Type 0 where
  segs : List (ℕ × List ℕ)
  returns : sent ≡ some segs
  inside : All (IsInside size seg sec) segs
  len : length (program sec.base segs flash) ≡ size
  at :
      (j : ℕ)
      → get_or (program sec.base segs flash) j 0xff
        ≡ (if ltb j offset then get_or flash j 0xff else get_or sec.bytes j 0xff)

back : (j stop : ℕ) → stop ≤ j → stop + (j - stop) ≡ j
back j stop h = omega arith

-- The bytes up to `stop + n` are settled by the first segment, the others by the later ones.
joined :
    (j offset stop n x y : ℕ)
    → offset ≤ stop
    → (if ltb j (stop + n)
        then (if ltb j offset then x else if ltb j (stop + n) then y else 0xff)
        else y)
      ≡ (if ltb j offset then x else y)
joined j offset stop n x y le = ground arith

module _ (size seg : ℕ) (sec : Sector) (v : IsLaidOut size sec) where
  beyond : (j : ℕ) → size ≤ j → get_or sec.bytes j 0xff ≡ 0xff
  beyond j h = get_or_beyond sec.bytes j 0xff (omega (arith, v.sector.bytes_len))

  -- No valid byte is left: the flash is as the sector already.
  ended-IsSent :
      (offset : ℕ) (flash : List ℕ) (sent : Option (List (ℕ × List ℕ)))
      → length flash ≡ size
      → ((j : ℕ) → offset ≤ j → get_or flash j 0xff ≡ 0xff)
      → ((j : ℕ) → offset ≤ j → j < size → get_or sec.valid j false ≡ false)
      → sent ≡ some []
      → IsSent size seg offset sec flash sent
  unfolding program
  ended-IsSent offset flash sent size_is erased invalid e = record {
    segs = [];
    returns = e;
    inside = tt;
    len = size_is;
    at = λ j. elim (dec_lt j offset) [
      | yes low ↦ rw (lt→ltb j offset low)
      | no high ↦
          rw (le→ltb j offset (omega arith))
            (erased j (omega arith) ∙ sym (unwritten j (omega arith)))
    ];
  }
    where
      unwritten : (j : ℕ) → offset ≤ j → get_or sec.bytes j 0xff ≡ 0xff
      unwritten j h = elim (dec_lt j size) [
        | yes low ↦ v.erased j (invalid j h low)
        | no high ↦ beyond j (omega arith)
      ]

  -- What the flash holds after one segment.
  segment_at :
      (offset stop n : ℕ) (flash : List ℕ) (j : ℕ)
      → length flash ≡ size
      → ((j : ℕ) → offset ≤ j → get_or flash j 0xff ≡ 0xff)
      → ((j : ℕ) → offset ≤ j → j < stop → get_or sec.valid j false ≡ false)
      → offset ≤ stop
      → stop + n ≤ size
      → get_or (flash_write stop (take n (drop stop sec.bytes)) flash) j 0xff ≡ (
          if ltb j offset
          then get_or flash j 0xff
          else if ltb j (stop + n)
          then get_or sec.bytes j 0xff
          else 0xff)
  segment_at offset stop n flash j size_is erased invalid le inside =
      let bytes = take n (drop stop sec.bytes) in
      let counted : length bytes ≡ n = omega (
        arith,
        length-take {A = ℕ} n (drop stop sec.bytes),
        length-drop {A = ℕ} stop sec.bytes,
        v.sector.bytes_len,
      ) in
      elim (dec_lt j stop) [
        | yes before ↦
            flash_write_outside stop bytes flash j (inl before) ∙ elim (dec_lt j offset) [
              | yes low ↦ rw (lt→ltb j offset low)
              | no high ↦
                  rw (le→ltb j offset (omega arith), lt→ltb j (stop + n) (omega arith))
                    (erased j (omega arith) ∙ sym (v.erased j (invalid j (omega arith) before)))
            ]
        | no from ↦ rw (le→ltb j offset (omega arith)) (elim (dec_lt j (stop + n)) [
          | yes within ↦ rw (lt→ltb j (stop + n) within) (
              flash_write_inside stop bytes flash j (omega arith) (omega arith) (omega arith)
              ∙ get_or-take n (drop stop sec.bytes) (j - stop) 0xff (omega arith)
              ∙ get_or-drop stop sec.bytes (j - stop) 0xff
              ∙ ap (λ k. get_or sec.bytes k 0xff) (back j stop (omega arith)))
          | no behind ↦
              rw (le→ltb j (stop + n) (omega arith)) (
                flash_write_outside stop bytes flash j (inr (omega arith)) ∙ erased j (omega arith))
        ])
      ]

  -- A segment, and behind it what the later calls send.
  taken-IsSent :
      (offset stop n : ℕ) (flash : List ℕ) (rest sent : Option (List (ℕ × List ℕ)))
      → length flash ≡ size
      → ((j : ℕ) → offset ≤ j → get_or flash j 0xff ≡ 0xff)
      → ((j : ℕ) → offset ≤ j → j < stop → get_or sec.valid j false ≡ false)
      → offset ≤ stop
      → 0 < n
      → n ≤ seg
      → stop + n ≤ size
      → IsSent size seg (stop + n) sec (flash_write stop (take n (drop stop sec.bytes)) flash) rest
      → sent ≡ Option.map (λ ss. (sec.base + stop, take n (drop stop sec.bytes)) ∷ ss) rest
      → IsSent size seg offset sec flash sent
  unfolding program
  taken-IsSent offset stop n flash rest sent size_is erased invalid le n_pos n_le inside r e =
      let bytes = take n (drop stop sec.bytes) in
      let counted : length bytes ≡ n = omega (
        arith,
        length-take {A = ℕ} n (drop stop sec.bytes),
        length-drop {A = ℕ} stop sec.bytes,
        v.sector.bytes_len,
      ) in
      let place : sec.base + stop - sec.base ≡ stop = omega arith in
      record {
        segs = (sec.base + stop, bytes) ∷ r.segs;
        returns = e ∙ ap (Option.map (λ ss. (sec.base + stop, bytes) ∷ ss)) r.returns;
        inside = ((omega arith, omega arith, omega arith, omega arith), r.inside);
        len = ap (λ k. length (program sec.base r.segs (flash_write k bytes flash))) place ∙ r.len;
        at = λ j.
            ap (λ k. get_or (program sec.base r.segs (flash_write k bytes flash)) j 0xff) place
            ∙ r.at j
            ∙ ap (λ (x : ℕ). if ltb j (stop + n) then x else get_or sec.bytes j 0xff)
                (segment_at offset stop n flash j size_is erased invalid le inside)
            ∙ joined j offset stop n (get_or flash j 0xff) (get_or sec.bytes j 0xff) le;
      }

module _ (size seg : ℕ) (sec : Sector) where
  -- One call that sends a segment, and the calls behind it.
  transmit-ended :
      (fuel offset : ℕ)
      → (next_segment sec offset seg).sent ≡ none
      → transmit (suc fuel) sec seg offset ≡ some []
  unfolding transmit
  transmit-ended fuel offset e = rw (e, transmit) refl

  transmit-taken :
      (fuel offset offset' : ℕ) (s : ℕ × List ℕ)
      → (next_segment sec offset seg).sent ≡ some s
      → (next_segment sec offset seg).offset ≡ offset'
      → transmit (suc fuel) sec seg offset
        ≡ Option.map (λ ss. s ∷ ss) (transmit fuel sec seg offset')
  unfolding transmit
  transmit-taken fuel offset offset' s e e' = rw (e, e', transmit) refl

module _ (size seg : ℕ) (sec : Sector) (v : IsLaidOut size sec) (pos : 0 < seg)
    (seg_lt : seg < 2 ^ 16) where
  transmit-IsSent :
      (fuel offset : ℕ) (flash : List ℕ)
      → size < 2 ^ 16
      → sec.base + size ≤ 2 ^ 32
      → offset ≤ size
      → size < offset + fuel
      → length flash ≡ size
      → ((j : ℕ) → offset ≤ j → get_or flash j 0xff ≡ 0xff)
      → IsSent size seg offset sec flash (transmit fuel sec seg offset)
  transmit-IsSent zero offset flash small fits le enough size_is erased = absurd (omega arith)
  transmit-IsSent (suc fuel) offset flash small fits le enough size_is erased =
      go (next_segment-IsNext size seg offset sec v.sector pos seg_lt small fits le)
        (λ stop n low inside n_pos e.
          transmit-IsSent fuel (stop + n) (flash_write stop (take n (drop stop sec.bytes)) flash)
            small fits inside (omega arith)
            (length-flash_write stop (take n (drop stop sec.bytes)) flash ∙ size_is) e)
    where
      go :
          IsNext size seg offset sec (next_segment sec offset seg)
          → ((stop n : ℕ)
              → offset ≤ stop
              → stop + n ≤ size
              → 0 < n
              → ((j : ℕ)
                  → stop + n ≤ j
                  → get_or (flash_write stop (take n (drop stop sec.bytes)) flash) j 0xff ≡ 0xff)
              → IsSent size seg
                  (stop + n)
                  sec
                  (flash_write stop (take n (drop stop sec.bytes)) flash)
                  (transmit fuel sec seg (stop + n)))
          → IsSent size seg offset sec flash (transmit (suc fuel) sec seg offset)
      go (ended invalid e) later =
          ended-IsSent size seg sec v offset flash (transmit (suc fuel) sec seg offset) size_is
            erased invalid (transmit-ended size seg sec fuel offset e)
      go (taken stop n low invalid n_pos n_le inside e e') later =
          taken-IsSent size seg sec v offset stop n flash (transmit fuel sec seg (stop + n))
            (transmit (suc fuel) sec seg offset) size_is erased invalid low n_pos n_le inside
            (later stop n low inside n_pos (λ j h.
              segment_at size seg sec v offset stop n flash j size_is erased invalid low inside
              ∙ rw (le→ltb j offset (omega arith), le→ltb j (stop + n) h) refl))
            (transmit-taken size seg sec fuel offset (stop + n)
              (sec.base + stop, take n (drop stop sec.bytes)) e e')

  -- A sector of the pipeline, sent by repeated calls of `pipeline_next_segment` from offset 0 with a
  -- segment size above 0, is sent in at most `size` segments before the call that returns -1; every
  -- segment lies in the sector, has a byte and at most `seg`; and writing the segments at their
  -- addresses into an erased sector of flash leaves exactly the bytes over which
  -- `pipeline_sector_crc` takes the checksum. Sizes are 16-bit, addresses 32-bit.
  pub transmit-program :
      size < 2 ^ 16
      → sec.base + size ≤ 2 ^ 32
      → (segs : List (ℕ × List ℕ)) × (transmit (suc size) sec seg 0 ≡ some segs)
        × All (IsInside size seg sec) segs
        × (program sec.base segs (replicate size 0xff) ≡ sec.bytes)
  transmit-program small fits =
      let erased : List ℕ = replicate size 0xff in
      let r =
        transmit-IsSent (suc size) 0 erased small fits (omega arith) (omega arith)
          (length-replicate {A = ℕ} size 0xff) (λ j h. get_or-replicate size j 0xff) in
      (
        r.segs,
        r.returns,
        r.inside,
        get_or_ext 0xff (program sec.base r.segs erased) sec.bytes (r.len ∙ sym v.sector.bytes_len)
            (λ j. r.at j ∙ rw (le→ltb j 0 (omega arith)) refl),
      )

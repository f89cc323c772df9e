-- ===== src/Pipeline/Flash.antt =====
-- The segments that a sector is sent in, and the flash that they program.
use mathlib.Core.Option
use re_boot.Base.{ℕ, zero, suc, ◌+◌, ◌-◌, ◌%◌, ◌^◌, ◌≤◌, ◌<◌, ◌≡◌, ◌≢◌, refl, sym, ap, ◌∙◌}
use re_boot.Base.{le→leb, ltb, if◌then◌else◌, Bool, true, false, Option, none, some, List, [], ◌∷◌}
use re_boot.Base.{length, get_or, set, take, drop, arith, inl, inr, Bool-cases, ◌⊎◌}
use re_boot.Base.{get_or-set_self, get_or-set_ne, length-set, ℕ_discrete}
use re_boot.Base.{dec_lt}
use re_boot.Pipeline.{Sector, Segment, skip_invalid, next_segment}
use re_boot.Pipeline.Image.{IsSector}

-- The calls of `pipeline_next_segment` that send a sector: one after the other until it returns -1.
-- `none` means that the fuel ran out.
unfoldable pub transmit : ℕ → Sector → ℕ → ℕ → Option (List (ℕ × List ℕ))
transmit zero sec seg offset = none
transmit (suc fuel) sec seg offset =
    let r = next_segment sec offset seg in
    let rest = transmit fuel sec seg r.offset in
    elim r.sent [ none ↦ some [] | some s ↦ Option.map (λ ss. s ∷ ss) rest ]

-- Flash that takes a segment's bytes at their offsets, and all segments in order.
unfoldable pub flash_write : ℕ → List ℕ → List ℕ → List ℕ
flash_write off [] flash = flash
flash_write off (b ∷ bytes) flash = flash_write (off + 1) bytes (set flash off b)

unfoldable pub program : ℕ → List (ℕ × List ℕ) → List ℕ → List ℕ
unfolding flash_write
program base [] flash = flash
program base ((addr, bytes) ∷ segs) flash =
    program base segs (flash_write (addr - base) bytes flash)

pub length-flash_write :
    (off : ℕ) (bytes flash : List ℕ) → length (flash_write off bytes flash) ≡ length flash
unfolding flash_write
length-flash_write off [] flash = refl
length-flash_write off (b ∷ bytes) flash =
    length-flash_write (off + 1) bytes (set flash off b) ∙ length-set flash off b

pub flash_write_outside :
    (off : ℕ) (bytes flash : List ℕ) (j : ℕ)
    → (j < off) ⊎ (off + length bytes ≤ j)
    → get_or (flash_write off bytes flash) j 0xff ≡ get_or flash j 0xff
unfolding flash_write
flash_write_outside off [] flash j out = refl
flash_write_outside off (b ∷ bytes) flash j out =
    flash_write_outside (off + 1) bytes (set flash off b) j (ground arith)
    ∙ get_or-set_ne flash off j b 0xff (ground arith)

pub flash_write_inside :
    (off : ℕ) (bytes flash : List ℕ) (j : ℕ)
    → off + length bytes ≤ length flash
    → off ≤ j
    → j < off + length bytes
    → get_or (flash_write off bytes flash) j 0xff ≡ get_or bytes (j - off) 0xff
unfolding flash_write
flash_write_inside off [] flash j fits lo hi = absurd (omega arith)
flash_write_inside off (b ∷ bytes) flash j fits lo hi = elim (ℕ_discrete off j) [
  | yes here ↦
      flash_write_outside (off + 1) bytes (set flash off b) j (inl (omega arith))
      ∙ ap (λ k. get_or (set flash off b) k 0xff) (sym here)
      ∙ get_or-set_self flash off b 0xff (omega arith)
      ∙ ap (λ k. get_or (b ∷ bytes) k 0xff) (at_start here)
  | no later ↦
      flash_write_inside (off + 1) bytes (set flash off b) j (omega (arith, length-set flash off b))
        (omega arith) (omega arith)
      ∙ ap (λ k. get_or (b ∷ bytes) k 0xff) (after_start later)
]
  where
    at_start : off ≡ j → 0 ≡ j - off
    at_start e = omega arith

    after_start : off ≢ j → suc (j - (off + 1)) ≡ j - off
    after_start ne = omega arith

-- Where the `while` loop stops.
record IsSkipped (valid : List Bool) (left off stop : ℕ) : Type 0 where
  above : off ≤ stop
  below : stop ≤ off + left
  skipped : (j : ℕ) → off ≤ j → j < stop → get_or valid j false ≡ false
  found : stop < off + left → get_or valid stop false ≡ true

skip_invalid-IsSkipped :
    (valid : List Bool) (left off : ℕ) → IsSkipped valid left off (skip_invalid valid left off)
unfolding skip_invalid
skip_invalid-IsSkipped valid zero off = record {
  above = omega arith;
  below = omega arith;
  skipped = λ j a b. absurd (omega arith);
  found = λ h. absurd (omega arith);
}
skip_invalid-IsSkipped valid (suc left) off = elim (Bool-cases (get_or valid off false)) [
  | inl e ↦ rw e (record {
    above = omega arith;
    below = omega arith;
    skipped = λ j a b. absurd (omega arith);
    found = λ h. e;
  })
  | inr e ↦
      let rest = skip_invalid-IsSkipped valid left (off + 1) in
      rw e (record {
        above = omega (arith, rest.above);
        below = omega (arith, rest.below);
        skipped = λ j a b. elim (ℕ_discrete off j) [
          | yes here ↦ ap (λ k. get_or valid k false) (sym here) ∙ e
          | no later ↦ rest.skipped j (omega arith) b
        ];
        found = λ h. rest.found (omega arith);
      })
]

-- What one call does at an offset up to the size: it ends the sector, of which no valid byte is
-- left, or it takes the bytes from the next valid one on, at most `seg` and none past the sector.
pub data IsNext (size seg offset : ℕ) (sec : Sector) (r : Segment) : Type 0 where
  ended :
      ((j : ℕ) → offset ≤ j → j < size → get_or sec.valid j false ≡ false)
      → r.sent ≡ none
      → IsNext size seg offset sec r
  taken :
      (stop n : ℕ)
      → offset ≤ stop
      → ((j : ℕ) → offset ≤ j → j < stop → get_or sec.valid j false ≡ false)
      → 0 < n
      → n ≤ seg
      → stop + n ≤ size
      → r.sent ≡ some (sec.base + stop, take n (drop stop sec.bytes))
      → r.offset ≡ stop + n
      → IsNext size seg offset sec r

module _ (sec : Sector) (offset seg stop : ℕ)
    (e : skip_invalid sec.valid (sec.size - offset) offset ≡ stop) where
  next_ended : sec.size ≤ stop → (next_segment sec offset seg).sent ≡ none
  unfolding next_segment
  next_ended h = ground arith

  -- The length `n` of a segment that is not the last is `seg`, and of the last what is left.
  next_taken :
      (n : ℕ)
      → stop < sec.size
      → stop + seg < 2 ^ 32
      → sec.base + sec.size ≤ 2 ^ 32
      → n ≡ (if ltb sec.size (stop + seg) then sec.size - stop else seg)
      → let r = next_segment sec offset seg in
        (r.sent ≡ some (sec.base + stop, take n (drop stop sec.bytes))) × (r.offset ≡ stop + n)
  unfolding next_segment
  next_taken n inside small fits en =
      let whole : (stop + seg) % 2 ^ 32 ≡ stop + seg = omega arith in
      let addr : (sec.base + stop) % 2 ^ 32 ≡ sec.base + stop = omega arith in
      rw (e, whole, addr, ← en, le→leb sec.size stop inside, next_segment) (refl, ground arith)

pub next_segment-IsNext :
    (size seg offset : ℕ) (sec : Sector)
    → IsSector size sec
    → 0 < seg
    → seg < 2 ^ 16
    → size < 2 ^ 16
    → sec.base + size ≤ 2 ^ 32
    → offset ≤ size
    → IsNext size seg offset sec (next_segment sec offset seg)
next_segment-IsNext size seg offset sec v pos seg_lt size_lt fits le =
    let stop = skip_invalid sec.valid (sec.size - offset) offset in
    let k = skip_invalid-IsSkipped sec.valid (sec.size - offset) offset in
    let sized = v.sized in
    elim (dec_lt stop sec.size) [
      | no over ↦
          ended (λ j a b. k.skipped j a (omega (arith, sized, k.below)))
            (next_ended sec offset seg stop refl (omega arith))
      | yes inside ↦
          let n = if ltb sec.size (stop + seg) then sec.size - stop else seg in
          let run =
            next_taken sec offset seg stop refl n inside (omega arith) (omega (arith, sized))
              refl in
          taken stop n k.above k.skipped (ground arith) (ground arith) (ground (arith, sized)) run.0
            run.1
    ]

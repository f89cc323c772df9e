-- ===== src/Pipeline/Pace.antt =====
-- What the sectors of a built pipeline let a sender count on: their size, and that the offset moves.
use re_boot.Base.{
  ℕ, zero, suc, ◌+◌, ◌-◌, ◌%◌, ◌^◌, ◌≤◌, ◌<◌, ◌≡◌, ◌⊎◌, inl, inr, refl, arith, ltb, leb, Bool, none,
  some, List, [], ◌∷◌, length, get_elem?, Bool-cases, All,
}
use re_boot.Pipeline.{Sector, Builder, Segment, next_segment, skip_invalid, pipeline_next_segment}
use re_boot.Pipeline.Segments.{next_segment_short}
use re_boot.Pipeline.Layout.{IsLayout, IsLaidOut}

get_elem?-All :
    {A : Type 0} (P : A → Type 0) (xs : List A) (i : ℕ)
    → All P xs
    → i < length xs
    → (x : A) × (get_elem? xs i ≡ some x) × P x
get_elem?-All P [] i all h = absurd (omega arith)
get_elem?-All P (x ∷ xs) zero all h = (x, refl, all.0)
get_elem?-All P (x ∷ xs) (suc i) all h = get_elem?-All P xs i all.1 (omega arith)

skip_invalid_mono : (valid : List Bool) (left off : ℕ) → off ≤ skip_invalid valid left off
unfolding skip_invalid
skip_invalid_mono valid zero off = omega arith
skip_invalid_mono valid (suc left) off = ground (arith, skip_invalid_mono valid left (off + 1))

-- A segment that is sent moves the offset on, inside the sector.
next_segment-moves :
    (sec : Sector) (offset seg : ℕ)
    → sec.size < 2 ^ 31
    → 1 ≤ seg
    → seg < 2 ^ 31
    → ((next_segment sec offset seg).sent ≡ none)
      ⊎ ((offset < (next_segment sec offset seg).offset)
          × ((next_segment sec offset seg).offset ≤ sec.size))
unfolding next_segment
next_segment-moves sec offset seg small one short =
    let off = skip_invalid sec.valid (sec.size - offset) offset in
    let moved = skip_invalid_mono sec.valid (sec.size - offset) offset in
    elim (Bool-cases (leb sec.size off)) [
      | inl over ↦ inl (rw over refl)
      | inr inside ↦ elim (Bool-cases (ltb sec.size ((off + seg) % 2 ^ 32))) [
        | inl cut ↦ inr (rw (inside, cut) (ground arith, ground arith))
        | inr whole ↦ inr (rw (inside, whole) (ground arith, ground arith))
      ]
    ]

sized_moves :
    (size : ℕ) (sec : Sector) (offset seg : ℕ)
    → sec.size ≡ size
    → size < 2 ^ 31
    → 1 ≤ seg
    → seg < 2 ^ 31
    → ((next_segment sec offset seg).sent ≡ none)
      ⊎ ((offset < (next_segment sec offset seg).offset)
          × ((next_segment sec offset seg).offset ≤ size))
sized_moves size sec offset seg same small one short =
    elim (next_segment-moves sec offset seg (omega arith) one short) [
      | inl ended ↦ inl ended
      | inr (on, inside) ↦ inr (on, omega arith)
    ]

-- Likewise for a sector of a pipeline that was built.
pub pipeline_next_segment-moves :
    (size : ℕ) (pb : Builder) (index offset seg : ℕ)
    → IsLayout size pb
    → size < 2 ^ 31
    → 1 ≤ seg
    → seg < 2 ^ 31
    → index < length pb.sectors
    → (s : Segment) × (pipeline_next_segment pb index offset seg ≡ some s)
      × ((addr : ℕ) (bytes : List ℕ) → s.sent ≡ some (addr, bytes) → length bytes ≤ seg)
      × ((s.sent ≡ none) ⊎ ((offset < s.offset) × (s.offset ≤ size)))
unfolding pipeline_next_segment
pipeline_next_segment-moves size pb index offset seg layout small one short inside =
    let (sec, at, laid) = get_elem?-All (IsLaidOut size) pb.sectors index layout.each inside in
    rw (at, pipeline_next_segment)
      (
        next_segment sec offset seg,
        refl,
        next_segment_short sec offset seg,
        sized_moves size sec offset seg laid.sector.sized small one short,
      )

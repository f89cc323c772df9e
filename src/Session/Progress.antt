-- ===== src/Session/Progress.antt =====
-- How the actions of init/fsm_actions.c bring a session on: the offset and the sector that follow.
use re_boot.Base.{
  ℕ, ◌+◌, ◌%◌, ◌^◌, ◌≤◌, ◌<◌, ◌≡◌, ◌⊎◌, inl, inr, refl, arith, ltb, leb, ◌==◌, true, false, Option,
  none, some, List, [], ◌∷◌, length, Bool-cases, Option-cases,
}
use re_boot.Pipeline.{Segment}
use re_boot.Pipeline.Layout.{IsLayout, pipeline_build-IsLayout}
use re_boot.Pipeline.Segments.{pipeline_sector_crc_below, length-pipeline_build}
use re_boot.Pipeline.Pace.{pipeline_next_segment-moves}
use re_boot.Transport.{comm_max_data}
use re_boot.Session.{
  Context, event_of, send_segment, act_send_window, act_crc_verify, act_next_sector,
  act_build_pipeline,
}
use re_boot.Session.Actions.{IsOk, Ready, Loaded, Sized, Written}

-- A session that sends, on a pipeline that was built, with sectors that a 32-bit offset passes.
pub record IsPaced (node : ℕ) (c : Context) : Type 0 where
  pub ready : Ready node c
  pub layout : IsLayout c.sector_size c.pipeline
  pub small : c.sector_size < 2 ^ 31
  pub on : c.fsm_running ≡ true

-- The same sector of the same pipeline.
unfoldable pub Same : Context → Context → Type 0
Same c c' =
    (c'.current_sector ≡ c.current_sector)
    × (length c'.pipeline.sectors ≡ length c.pipeline.sectors)
    × (c'.sector_size ≡ c.sector_size)

-- A segment more is sent.
unfoldable pub Moved : ℕ → Context → Context → Type 0
Moved node c c' = IsPaced node c' × Same c c' × (c.offset < c'.offset) × (c'.offset ≤ c.sector_size)

-- The sector has no segment left.
unfoldable pub Ended : ℕ → Context → Context → Type 0
Ended node c c' = IsPaced node c' × Same c c'

no_bytes : {A : Type 0} (s : Option A) (x : A) → s ≡ some x → s ≡ none → ⊥
no_bytes s x is is_not = cc

send_segment-Moved :
    (node : ℕ) (seg : Segment) (c : Context)
    → ((addr : ℕ) (bytes : List ℕ) → seg.sent ≡ some (addr, bytes) → length bytes ≤ c.segment_size)
    → (seg.sent ≡ none) ⊎ ((c.offset < seg.offset) × (seg.offset ≤ c.sector_size))
    → IsPaced node c
    → ((c' : Context) × (send_segment seg c ≡ (c', [])) × Moved node c c')
      ⊎ ((c' : Context) × (send_segment seg c ≡ (c', event_of 4 ∷ [])) × Ended node c c')
unfolding send_segment Moved Ended Same Ready IsOk
send_segment-Moved node seg c short moves paced = elim (Option-cases seg.sent) [
  | inl ended ↦ inr (
      rw (ended, send_segment)
        (
          record c { offset = seg.offset },
          refl,
          (
            record {
              ready = paced.ready;
              layout = paced.layout;
              small = paced.small;
              on = paced.on;
            },
            (refl, refl, refl),
          ),
        ))
  | inr ((addr, bytes), sent) ↦
      let (ok, at, few, one, room) = paced.ready in
      let fits : ltb comm_max_data (4 + length bytes) ≡ false =
        ground (arith, short addr bytes sent) in
      elim moves [
        | inl none_ ↦ absurd (no_bytes seg.sent (addr, bytes) sent none_)
        | inr (on, inside) ↦ inl (
            rw (sent, send_segment)
              (rw fits (
                _,
                refl,
                (
                  record {
                    ready = paced.ready;
                    layout = paced.layout;
                    small = paced.small;
                    on = paced.on;
                  },
                  (refl, refl, refl),
                  on,
                  inside,
                ),
              )))
      ]
]

pub act_send_window-Moved :
    (node : ℕ) (c : Context)
    → IsPaced node c
    → ((c' : Context) × (act_send_window c ≡ (c', [])) × Moved node c c')
      ⊎ ((c' : Context) × (act_send_window c ≡ (c', event_of 4 ∷ [])) × Ended node c c')
unfolding act_send_window Ready
act_send_window-Moved node c paced =
    let (ok, at, few, one, room) = paced.ready in
    let (seg, made, short, moves) =
      pipeline_next_segment-moves c.sector_size c.pipeline c.current_sector c.offset c.segment_size
        paced.layout paced.small one (omega arith) at in
    rw (made, act_send_window) (send_segment-Moved node seg c short moves paced)

pub act_crc_verify-Ended :
    (node : ℕ) (c : Context)
    → IsPaced node c
    → (c' : Context) × (act_crc_verify c ≡ (c', [])) × Ended node c c'
unfolding act_crc_verify Ended Same Ready IsOk
act_crc_verify-Ended node c paced =
    let (ok, at, few, one, room) = paced.ready in
    let (crc, made) = pipeline_sector_crc_below c.pipeline c.current_sector at in
    rw (made, act_crc_verify)
      (
        _,
        refl,
        (
          record { ready = paced.ready; layout = paced.layout; small = paced.small; on = paced.on },
          (refl, refl, refl),
        ),
      )

-- The next sector, from its start.
unfoldable pub Next : ℕ → Context → Context → Type 0
Next node c c' =
    IsPaced node c'
    × (c'.current_sector ≡ c.current_sector + 1)
    × (length c'.pipeline.sectors ≡ length c.pipeline.sectors)
    × (c'.sector_size ≡ c.sector_size)

-- All sectors are written, and the session runs.
unfoldable pub Complete : ℕ → Context → Type 0
Complete node c = Written node c × (c.fsm_running ≡ true)

pub act_next_sector-Next :
    (node : ℕ) (c : Context)
    → IsPaced node c
    → ((c' : Context) × (act_next_sector c ≡ (c', event_of 7 ∷ [])) × Complete node c')
      ⊎ ((c' : Context) × (act_next_sector c ≡ (c', event_of 1 ∷ [])) × Next node c c')
unfolding act_next_sector Complete Next Ready Written IsOk
act_next_sector-Next node c paced =
    let (ok, at, few, one, room) = paced.ready in
    let inside : leb (length c.pipeline.sectors) c.current_sector ≡ false = ground arith in
    elim (Bool-cases (leb (length c.pipeline.sectors) ((c.current_sector + 1) % 2 ^ 32))) [
      | inl last ↦ inl (rw (inside, last) (_, refl, ((ok, omega arith), paced.on)))
      | inr more ↦ inr (
          rw (inside, more)
            (
              _,
              refl,
              (
                record {
                  ready = (ok, ground arith, few, one, room);
                  layout = paced.layout;
                  small = paced.small;
                  on = paced.on;
                },
                omega arith,
                refl,
                refl,
              ),
            ))
    ]

-- The pipeline is built, with a sector of a size that an offset passes.
pub act_build_pipeline-IsPaced :
    (node : ℕ) (c : Context)
    → Sized node c
    → c.sector_size < 2 ^ 31
    → c.fsm_running ≡ true
    → (c' : Context) × (act_build_pipeline c ≡ (c', event_of 1 ∷ [])) × IsPaced node c'
unfolding act_build_pipeline Sized Loaded Ready IsOk
act_build_pipeline-IsPaced node c ((ok, bytes, some_, few), sector, one, room) small on =
    let (high, low) = length-pipeline_build c.records c.sector_size in
    let sectors : (c.sector_size == 0) ≡ false = ground arith in
    let segments : (c.segment_size == 0) ≡ false = ground arith in
    let first = low some_ in
    rw (sectors, segments)
      (
        _,
        refl,
        record {
          ready = (ok, omega arith, omega arith, one, room);
          layout = pipeline_build-IsLayout c.records c.sector_size;
          small = small;
          on = on;
        },
      )

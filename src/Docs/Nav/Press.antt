-- ===== src/Docs/Nav/Press.antt =====
-- Whole key events: what an arrow does to the panel, and what a key does that is held.
use re_boot.Base.{ℕ, zero, suc, ◌≡◌, ◌≢◌, refl, ap, ◌∙◌, ◌⊎◌, inl, inr, ne→==}
use re_boot.Base.{Bool, true, false, List, [], ◌∷◌, replicate}
use re_boot.Docs.Nav.{Focus, item, child, search_field, Keys, keydown, keypress, Event, Panel}
use re_boot.Docs.Nav.{process_keys, dispatch}
use re_boot.Docs.Nav.Order.{IsPlace, up, down, down-Returns}

-- The event of a key that goes down.
abbrev pub press : ℕ → Panel → Panel
press key p = dispatch (record { kind = keydown; key_code = key }) p

press-down : (p : Panel) → (press 40 p).focus ≡ down p.rows p.focus
unfolding dispatch down
press-down p = go p.focus
  where
    go : (f : Focus) → (press 40 (record p { focus = f })).focus ≡ down p.rows f
    go (item i) = refl
    go (child i n) = refl
    go search_field = refl

press-rows : (p : Panel) → (press 40 p).rows ≡ p.rows
unfolding dispatch
press-rows p = go p.focus
  where
    go : (f : Focus) → (press 40 (record p { focus = f })).rows ≡ p.rows
    go (item i) = refl
    go (child i n) = refl
    go search_field = refl

press-up : (p : Panel) → (press 38 p).focus ≡ up p.rows p.focus
unfolding dispatch up
press-up p = go p.focus
  where
    go : (f : Focus) → (press 38 (record p { focus = f })).focus ≡ up p.rows f
    go (item i) = refl
    go (child i n) = refl
    go search_field = refl

-- From a visible result, or a displayed place of one, the arrow down changes no row and moves the
-- focus to such a place; and unless it stays where it was, the arrow up brings it back.
pub press_up-press_down :
    (p : Panel)
    → IsPlace p.rows p.focus
    → let q = press 40 p in
      (q.rows ≡ p.rows)
      × IsPlace p.rows q.focus
      × ((q.focus ≡ p.focus) ⊎ ((press 38 q).focus ≡ p.focus))
press_up-press_down p v =
    let (place, back) = down-Returns p.rows p.focus v in
    let q = press 40 p in
    (
      press-rows p,
      rw (press-down p) place,
      elim back [
        | inl e ↦ inl (press-down p ∙ e)
        | inr e ↦ inr (
            press-up q
            ∙ ap (λ rows. up rows q.focus) (press-rows p)
            ∙ ap (up p.rows) (press-down p)
            ∙ e)
      ],
    )

-- The answers of `ProcessKeys` to a list of events.
unfoldable pub answers : List Event → Keys → List Bool
unfolding process_keys
answers [] keys = []
answers (e ∷ events) keys = let (keys', go) = process_keys e keys in go ∷ answers events keys'

abbrev pub held : ℕ → Event
held key = record { kind = keypress; key_code = key }

repeated :
    (key n last : ℕ)
    → last ≢ 0
    → answers (replicate n (held key)) (record { last_key = last; repeat_on = true })
      ≡ replicate n true
unfolding answers process_keys
repeated key zero last ne = refl
repeated key (suc n) last ne =
    rw (ne→== last 0 ne) (ap (λ (t : List Bool). true ∷ t) (repeated key n last ne))

-- Of a key that is held, the `keydown` is handled, the first `keypress` after it is not, and every
-- further one is.
pub answers-held :
    (key n : ℕ) (keys : Keys)
    → key ≢ 0
    → answers (record { kind = keydown; key_code = key } ∷ replicate (suc n) (held key)) keys
      ≡ true ∷ false ∷ replicate n true
unfolding answers process_keys
answers-held key n keys ne =
    rw (ne→== key 0 ne) (ap (λ (t : List Bool). true ∷ false ∷ t) (repeated key n key ne))

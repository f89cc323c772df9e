-- ===== src/Docs/Directory/Folder/Pairs.antt =====
-- The rows of a folder that closes or opens, and what follows for the table.
use re_boot.Base.{
  ℕ, ◌≡◌, ◌⊎◌, inl, inr, refl, sym, ap, ◌∙◌, Bool, true, false, ◌&&◌, List, same_text,
  same_text_self, same_text→eq, Bool-cases,
}
use re_boot.Docs.Ids.Prefix.{starts_with}
use re_boot.Docs.Directory.{Row, is_child, turn, hide_row, show_row}
use re_boot.Docs.Directory.Keys.{
  closed, child_starts, child_not_start, starts_trans, starts_self, starts_or_same, one_parent,
}
use re_boot.Docs.Directory.Shape.{Folds}
use re_boot.Docs.Directory.Folder.{closing, opening, not_own_child}

-- What shows of a row after the change, from what its key is to the id.
closing_at : (id : List ℕ) (r : Row) → same_text r.key id ≡ true → closing id r ≡ turn false r
unfolding closing
closing_at id r h = rw h refl

closing_in :
    (id : List ℕ) (r : Row)
    → same_text r.key id ≡ false
    → starts_with id r.key ≡ true
    → closing id r ≡ record r { shown = false }
unfolding closing hide_row
closing_in id r h k = rw (h, k) refl

closing_out :
    (id : List ℕ) (r : Row)
    → starts_with id r.key ≡ false
    → same_text r.key id ≡ false
    → closing id r ≡ r
unfolding closing hide_row
closing_out id r k h = rw (h, k) refl

opening_at : (id : List ℕ) (r : Row) → same_text r.key id ≡ true → opening id r ≡ turn true r
unfolding opening
opening_at id r h = rw h refl

opening_child :
    (id : List ℕ) (r : Row)
    → same_text r.key id ≡ false
    → is_child id r.key ≡ true
    → opening id r ≡ record (turn false r) { shown = true }
unfolding opening show_row
opening_child id r h k = rw (h, k) refl

opening_out :
    (id : List ℕ) (r : Row)
    → same_text r.key id ≡ false
    → is_child id r.key ≡ false
    → opening id r ≡ r
unfolding opening show_row
opening_out id r h k = rw (h, k) refl

-- A row whose key is the id, or does not start with it, is shown as before.
keeps_shown :
    (id : List ℕ) (r : Row)
    → (id ≡ r.key) ⊎ (starts_with id r.key ≡ false)
    → (closing id r).shown ≡ r.shown
unfolding closing hide_row
keeps_shown id r h = elim (Bool-cases (same_text r.key id)) [
  | inl s ↦ rw s refl
  | inr s ↦ rw (s, other h s) refl
]
  where
    other :
        (id ≡ r.key) ⊎ (starts_with id r.key ≡ false)
        → same_text r.key id ≡ false
        → starts_with id r.key ≡ false
    other (inl e) s = absurd (cc (s, same_text_self id, e))
    other (inr k) s = k

-- A key that starts with the id has children that start with it and are not the id.
child_hidden :
    (id : List ℕ) (p c : Row)
    → is_child p.key c.key ≡ true
    → starts_with id p.key ≡ true
    → (closing id c).shown ≡ false
child_hidden id p c h k = elim (Bool-cases (same_text c.key id)) [
  | inl s ↦ absurd (contra (same_text→eq c.key id s))
  | inr s ↦
      ap (λ (t : Row). t.shown)
        (closing_in id c s (starts_trans id p.key c.key k (child_starts p.key c.key h)))
]
  where
    contra : c.key ≡ id → ⊥
    contra e = cc (child_not_start p.key c.key h, e, k)

pub closing-Folds :
    (id : List ℕ) (p c : Row)
    → closed id ≡ true
    → is_child p.key c.key ≡ true
    → Folds p c
    → Folds (closing id p) (closing id c)
closing-Folds id p c w h (down, a, v) = elim (Bool-cases (same_text p.key id)) [
  | inl s ↦
      let e : p.key ≡ id = same_text→eq p.key id s in
      let hidden : (closing id c).shown ≡ false = child_hidden id p c h (rw e (starts_self id)) in
      rw (closing_at id p s) (false, rw a refl, hidden ∙ nothing p.shown)
  | inr s ↦ elim (Bool-cases (starts_with id p.key)) [
    | inl k ↦ rw (closing_in id p s k) (down, a, child_hidden id p c h k)
    | inr k ↦ rw (closing_out id p k s) (down, a, keeps_shown id c (outside k) ∙ v)
  ]
]
  where
    nothing : (b : Bool) → false ≡ (b && false)
    nothing true = refl
    nothing false = refl

    outside : starts_with id p.key ≡ false → (id ≡ c.key) ⊎ (starts_with id c.key ≡ false)
    outside k = elim (Bool-cases (starts_with id c.key)) [
      | inl in_it ↦ elim (starts_or_same id p.key c.key w h in_it) [
        | inl same ↦ inl same
        | inr more ↦ absurd (cc (k, more))
      ]
      | inr out ↦ inr out
    ]

-- The children of a closed row are hidden, and the row itself is shown.
pub opening-Folds :
    (id : List ℕ) (p c : Row)
    → closed id ≡ true
    → closed p.key ≡ true
    → is_child p.key c.key ≡ true
    → (p.key ≡ id → p.shown ≡ true)
    → (is_child id p.key ≡ true → p.shown ≡ false)
    → Folds p c
    → Folds (opening id p) (opening id c)
opening-Folds id p c w wp h at_id below (down, a, v) = elim (Bool-cases (same_text p.key id)) [
  | inl s ↦
      let e : p.key ≡ id = same_text→eq p.key id s in
      rw (opening_at id p s, opening_child id c (other_child e) (rw (sym e) h))
        (true, rw a refl, rw (at_id e) refl)
  | inr s ↦ elim (Bool-cases (is_child id p.key)) [
    | inl k ↦
        rw (opening_child id p s k, opening_out id c (not_id k) (not_child s))
          (false, rw a refl, v ∙ ap (λ (b : Bool). b && down) (below k))
    | inr k ↦ rw (opening_out id p s k) (down, a, same_shown s ∙ v)
  ]
]
  where
    other_child : p.key ≡ id → same_text c.key id ≡ false
    other_child e = elim (Bool-cases (same_text c.key id)) [
      | inl t ↦ absurd (cc (not_own_child id, h, e, same_text→eq c.key id t))
      | inr t ↦ t
    ]

    not_child : same_text p.key id ≡ false → is_child id c.key ≡ false
    not_child s = elim (Bool-cases (is_child id c.key)) [
      | inl k ↦ absurd (cc (one_parent p.key id c.key wp w h k, s, same_text_self id))
      | inr k ↦ k
    ]

    not_id : is_child id p.key ≡ true → same_text c.key id ≡ false
    not_id k = elim (Bool-cases (same_text c.key id)) [
      | inl t ↦
          absurd
            (cc (same_text→eq c.key id t, child_not_start p.key c.key h, child_starts id p.key k))
      | inr t ↦ t
    ]

    same_shown : same_text p.key id ≡ false → (opening id c).shown ≡ c.shown
    same_shown s = elim (Bool-cases (same_text c.key id)) [
      | inl t ↦ rw (opening_at id c t) refl
      | inr t ↦ rw (opening_out id c t (not_child s)) refl
    ]

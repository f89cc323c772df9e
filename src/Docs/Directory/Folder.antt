-- ===== src/Docs/Directory/Folder.antt =====
-- `toggleFolder` on a row that is shown.
pub mod Pairs
use re_boot.Base.{
  ℕ, suc, ◌+◌, ◌<◌, ◌≤◌, ◌≡◌, ◌⊎◌, inl, inr, refl, sym, ap, ap₂, ◌∙◌, arith, ltb, ◌==◌,
  if◌then◌else◌, Bool, true, false, not, ◌&&◌, Option, none, some, List, [], ◌∷◌, map, All,
  same_text, same_text_self, same_text→eq, Bool-cases,
}
use mathlib.Core.Path.{subst}
use re_boot.Docs.Ids.Prefix.{starts_with}
use re_boot.Docs.Directory.{
  Row, is_child, turned, turn, underscores, first_child_shown, hide_row, show_row, toggle_rows,
  toggle_folder,
}
use re_boot.Docs.Directory.Keys.{
  closed, underscores_of_child, child_starts, child_not_start, starts_trans, starts_self,
  starts_or_same, one_parent,
}
use re_boot.Docs.Directory.Shape.{
  In, In-map, keys, keys-map, In-keys, IsOrdered, IsOrdered-closed, IsFolded, Folds, IsDirectory,
}
use re_boot.Docs.Directory.Stripes.{update_stripes-IsDirectory}

-- What becomes of a row, by its key: of the row with the id, and of the others.
pub closing : List ℕ → Row → Row
closing id r = if same_text r.key id then turn false r else hide_row id r

pub opening : List ℕ → Row → Row
opening id r = if same_text r.key id then turn true r else show_row id r

closing_before : (id : List ℕ) (r : Row) → starts_with id r.key ≡ false → closing id r ≡ r
unfolding closing hide_row
closing_before id r h = elim (Bool-cases (same_text r.key id)) [
  | inl e ↦ absurd (contra (same_text→eq r.key id e))
  | inr e ↦ rw (e, h) refl
]
  where
    contra : r.key ≡ id → ⊥
    contra e = cc (h, starts_self id, e)

opening_before : (id : List ℕ) (r : Row) → starts_with id r.key ≡ false → opening id r ≡ r
unfolding opening show_row
opening_before id r h = elim (Bool-cases (same_text r.key id)) [
  | inl e ↦ absurd (contra (same_text→eq r.key id e))
  | inr e ↦ elim (Bool-cases (is_child id r.key)) [
    | inl k ↦ absurd (child k)
    | inr k ↦ rw (e, k) refl
  ]
]
  where
    contra : r.key ≡ id → ⊥
    contra e = cc (h, starts_self id, e)

    child : is_child id r.key ≡ true → ⊥
    child k = cc (h, child_starts id r.key k)

-- Behind the row with the id, no key is the id.
later_other : (id : List ℕ) (r : Row) → starts_with r.key id ≡ false → same_text r.key id ≡ false
later_other id r h = elim (Bool-cases (same_text r.key id)) [
  | inl e ↦ absurd (contra (same_text→eq r.key id e))
  | inr e ↦ e
]
  where
    contra : r.key ≡ id → ⊥
    contra e = cc (h, starts_self id, e)

closing_after :
    (id : List ℕ) (rows : List Row)
    → All (λ (l : List ℕ). starts_with l id ≡ false) (keys rows)
    → map (hide_row id) rows ≡ map (closing id) rows
unfolding closing
closing_after id [] h = refl
closing_after id (r ∷ rows) h = ap₂ ◌∷◌ (rw (later_other id r h.0) refl) (closing_after id rows h.1)

opening_after :
    (id : List ℕ) (rows : List Row)
    → All (λ (l : List ℕ). starts_with l id ≡ false) (keys rows)
    → map (show_row id) rows ≡ map (opening id) rows
unfolding opening
opening_after id [] h = refl
opening_after id (r ∷ rows) h = ap₂ ◌∷◌ (rw (later_other id r h.0) refl) (opening_after id rows h.1)

pub not_own_child : (id : List ℕ) → is_child id id ≡ false
not_own_child id = elim (Bool-cases (is_child id id)) [ inl e ↦ absurd (contra e) | inr e ↦ e ]
  where
    contra : is_child id id ≡ true → ⊥
    contra e = cc (child_not_start id id e, starts_self id)

not_start_not_child : (id key : List ℕ) → starts_with id key ≡ false → is_child id key ≡ false
not_start_not_child id key h = elim (Bool-cases (is_child id key)) [
  | inl e ↦ absurd (contra e)
  | inr e ↦ e
]
  where
    contra : is_child id key ≡ true → ⊥
    contra e = cc (h, child_starts id key e)

abbrev pub change : Bool → List ℕ → Row → Row
change true id r = closing id r
change false id r = opening id r

change_before :
    (b : Bool) (id : List ℕ) (r : Row) → starts_with id r.key ≡ false → change b id r ≡ r
change_before true id r h = closing_before id r h
change_before false id r h = opening_before id r h

head_row :
    (b : Bool) (id : List ℕ) (r : Row) → same_text r.key id ≡ true → change b id r ≡ turn (not b) r
unfolding closing opening
head_row true id r h = rw h refl
head_row false id r h = rw h refl

first_skip :
    (id : List ℕ) (r : Row) (rows : List Row)
    → is_child id r.key ≡ false
    → first_child_shown id (r ∷ rows) ≡ first_child_shown id rows
unfolding first_child_shown
first_skip id r rows h = rw h refl

at_head :
    (b : Bool) (id : List ℕ) (r : Row) (rows : List Row)
    → All (λ (l : List ℕ). starts_with l id ≡ false) (keys rows)
    → same_text r.key id ≡ true
    → first_child_shown id rows ≡ b
    → toggle_rows id (r ∷ rows) ≡ change b id r ∷ map (change b id) rows
unfolding toggle_rows
at_head true id r rows after same e =
    rw (same, e) (ap₂ ◌∷◌ (sym (head_row true id r same)) (closing_after id rows after))
at_head false id r rows after same e =
    rw (same, e) (ap₂ ◌∷◌ (sym (head_row false id r same)) (opening_after id rows after))

behind_head :
    (id : List ℕ) (r : Row) (rows : List Row)
    → same_text r.key id ≡ false
    → toggle_rows id (r ∷ rows) ≡ r ∷ toggle_rows id rows
unfolding toggle_rows
behind_head id r rows h = rw h refl

-- By its key alone it is decided what becomes of a row.
pub toggle_rows-map :
    (b : Bool) (id : List ℕ) (rows : List Row) (cur : Row)
    → IsOrdered (keys rows)
    → In cur rows
    → cur.key ≡ id
    → first_child_shown id rows ≡ b
    → toggle_rows id rows ≡ map (change b id) rows
toggle_rows-map b id [] cur o i e f = absurd i
toggle_rows-map b id (r ∷ rows) cur o i e f = elim (Bool-cases (same_text r.key id)) [
  | inl same ↦
      let at_id : r.key ≡ id = same_text→eq r.key id same in
      let after : All (λ (l : List ℕ). starts_with l id ≡ false) (keys rows) =
        subst (λ (k : List ℕ). All (λ (l : List ℕ). starts_with l k ≡ false) (keys rows)) at_id
          o.1 in
      at_head b id r rows after same (sym (first_skip id r rows (rw at_id (not_own_child id))) ∙ f)
  | inr other ↦
      let here : In cur rows = later i other in
      let before : starts_with id r.key ≡ false =
        rw (sym e) (In-keys (λ (l : List ℕ). starts_with l r.key ≡ false) rows cur o.1 here) in
      behind_head id r rows other
      ∙ ap₂ ◌∷◌ (sym (change_before b id r before)) (
          toggle_rows-map b id rows cur o.2 here e
            (sym (first_skip id r rows (not_start_not_child id r.key before)) ∙ f))
]
  where
    later : In cur (r ∷ rows) → same_text r.key id ≡ false → In cur rows
    later (inl same) other = absurd (cc (other, same_text_self id, ap (λ (t : Row). t.key) same, e))
    later (inr i) other = i

-- Where all children are shown or none is, the first shows which.
pub first_child_shown_all :
    (b : Bool) (id : List ℕ) (rows : List Row)
    → ((c : Row) → In c rows → is_child id c.key ≡ true → c.shown ≡ b)
    → (c : Row) → In c rows
    → is_child id c.key ≡ true
    → first_child_shown id rows ≡ b
unfolding first_child_shown
first_child_shown_all b id [] all c i h = absurd i
first_child_shown_all b id (r ∷ rows) all c i h = elim (Bool-cases (is_child id r.key)) [
  | inl k ↦ rw k (all r (inl refl) k)
  | inr k ↦ rw k (first_child_shown_all b id rows (λ d j. all d (inr j)) c (later i k) h)
]
  where
    later : In c (r ∷ rows) → is_child id r.key ≡ false → In c rows
    later (inl same) k = absurd (cc (k, h, same))
    later (inr j) k = j

pub change-key : (b : Bool) (id : List ℕ) (r : Row) → (change b id r).key ≡ r.key
unfolding closing opening hide_row show_row
change-key true id r = ground arith
change-key false id r = ground arith

-- ===== src/Docs/Nav/Order.antt =====
-- The arrow keys go through the visible results in order, and back.
use re_boot.Base.{ℕ, zero, suc, ◌+◌, ◌-◌, ◌≤◌, ◌<◌, ◌≡◌, refl, sym, ap, ◌∙◌, ◌⊎◌, inl, inr, arith}
use re_boot.Base.{Bool, true, false, Option, none, some, List, [], ◌∷◌, drop, get_elem?}
use re_boot.Base.{Bool-cases, ℕ_discrete, ne→==, lt→ltb, le→ltb}
use re_boot.Docs.Results.{is_block, Div}
use re_boot.Docs.Nav.{
  Focus, item, child, search_field, next_from, nav_next, nav_prev, open_children, child_count,
}
use re_boot.Docs.Nav.{last_child, item_up, item_down, child_up, child_down}

-- Whether a row is there and displayed.
unfoldable pub visible : List Div → ℕ → Bool
visible rows index = elim (get_elem? rows index) [ none ↦ false | some row ↦ is_block row.display ]

-- What `NavNext` finds: no row from `index` on is visible, or the first that is.
data IsNextRow (rows : List Div) (index : ℕ) : Option ℕ → Type 0 where
  nothing : ((j : ℕ) → index ≤ j → visible rows j ≡ false) → IsNextRow rows index none
  first :
      (next : ℕ)
      → index ≤ next
      → visible rows next ≡ true
      → ((j : ℕ) → index ≤ j → j < next → visible rows j ≡ false)
      → IsNextRow rows index (some next)

-- The rows that are left stand from `index` on.
next_from-IsNextRow :
    (all rows : List Div) (index : ℕ)
    → ((j : ℕ) → visible rows j ≡ visible all (index + j))
    → IsNextRow all index (next_from rows index)
unfolding next_from visible
next_from-IsNextRow all [] index same =
    nothing (λ j h. sym (ap (visible all) (back j h)) ∙ sym (same (j - index)))
  where
    back : (j : ℕ) → index ≤ j → index + (j - index) ≡ j
    back j h = omega arith
next_from-IsNextRow all (row ∷ rows) index same =
    let here : is_block row.display ≡ visible all index = same 0 ∙ ap (visible all) (omega arith) in
    elim (Bool-cases (is_block row.display)) [
      | inl e ↦ rw e (first index (omega arith) (sym here ∙ e) (λ j a b. absurd (omega arith)))
      | inr e ↦ rw e (
          further index (next_from rows (index + 1)) (sym here ∙ e) (
            next_from-IsNextRow all rows (index + 1)
              (λ j. same (suc j) ∙ ap (visible all) (omega arith))))
    ]
  where
    further :
        (index : ℕ) (found : Option ℕ)
        → visible all index ≡ false
        → IsNextRow all (index + 1) found
        → IsNextRow all index found
    further index none e (nothing h) = nothing (λ j a. elim (ℕ_discrete index j) [
      | yes here ↦ ap (visible all) (sym here) ∙ e
      | no ne ↦ h j (omega arith)
    ])
    further index (some found) e (first next le v h) = first next (omega arith) v (λ j a b.
        elim (ℕ_discrete index j) [
          | yes here ↦ ap (visible all) (sym here) ∙ e
          | no ne ↦ h j (omega arith) b
        ])

visible-drop :
    (rows : List Div) (index j : ℕ) → visible (drop index rows) j ≡ visible rows (index + j)
unfolding visible
visible-drop rows zero j = ap (visible rows) (omega arith)
visible-drop [] (suc index) j = refl
visible-drop (row ∷ rows) (suc index) j =
    visible-drop rows index j ∙ ap (visible (row ∷ rows)) (shift index j)
  where
    shift : (a b : ℕ) → suc (a + b) ≡ suc a + b
    shift a b = omega arith

nav_next-IsNextRow : (rows : List Div) (index : ℕ) → IsNextRow rows index (nav_next rows index)
unfolding nav_next
nav_next-IsNextRow rows index =
    next_from-IsNextRow rows (drop index rows) index (visible-drop rows index)

-- Rows below a visible one are there.
present :
    (rows : List Div) (j k : ℕ)
    → visible rows j ≡ true
    → k ≤ j
    → (row : Div) × (get_elem? rows k ≡ some row)
unfolding visible
present [] j k v le = absurd cc
present (row ∷ rows) j zero v le = (row, refl)
present (row ∷ rows) zero (suc k) v le = absurd (omega arith)
present (row ∷ rows) (suc j) (suc k) v le = present rows j k v (omega arith)

prev_here : (rows : List Div) (j : ℕ) → visible rows j ≡ true → nav_prev rows (suc j) ≡ some j
unfolding visible nav_prev
prev_here rows j v = ground arith

prev_below :
    (rows : List Div) (j : ℕ) (row : Div)
    → visible rows j ≡ false
    → get_elem? rows j ≡ some row
    → nav_prev rows (suc j) ≡ nav_prev rows j
unfolding visible nav_prev
prev_below rows j row v e = ground arith

-- The row before a visible one is the nearest visible row below it.
nav_prev_lem :
    (rows : List Div) (i j : ℕ)
    → i < j
    → visible rows i ≡ true
    → visible rows j ≡ true
    → ((k : ℕ) → i < k → k < j → visible rows k ≡ false)
    → nav_prev rows j ≡ some i
nav_prev_lem rows i j lt vi vj between = go j (omega arith) lt
  where
    go : (m : ℕ) → m ≤ j → i < m → nav_prev rows m ≡ some i
    go zero le low = absurd (omega arith)
    go (suc m) le low = elim (ℕ_discrete i m) [
      | yes e ↦ ap (λ k. nav_prev rows (suc k)) (sym e) ∙ prev_here rows i vi
      | no ne ↦
          let (row, e) = present rows j m vj (omega arith) in
          prev_below rows m row (between m (omega arith) (omega arith)) e
          ∙ go m (omega arith) (omega arith)
    ]

open-eq-count :
    (rows : List Div) (i n : ℕ)
    → n < open_children rows i
    → child_count rows i ≡ open_children rows i
unfolding open_children child_count
open-eq-count rows i n h = ground arith

-- The last of the children, or the row where there are none.
last_child_lem : (i k n : ℕ) (f : Focus) → last_child i (suc k) n f ≡ child i (n + k)
unfolding last_child
last_child_lem i zero n f = ap (child i) (omega arith)
last_child_lem i (suc k) n f = last_child_lem i k (n + 1) (child i n) ∙ ap (child i) (omega arith)

-- The arrow handlers of the element that has the focus.
unfoldable pub up : List Div → Focus → Focus
up rows (item i) = item_up rows i
up rows (child i n) = child_up i n
up rows search_field = search_field

unfoldable pub down : List Div → Focus → Focus
down rows (item i) = item_down rows i
down rows (child i n) = child_down rows i n
down rows search_field = search_field

-- A place that can have the focus: a visible row, or a child of one, displayed.
abbrev pub IsPlace : List Div → Focus → Type 0
IsPlace rows (item i) = visible rows i ≡ true
IsPlace rows (child i n) = (visible rows i ≡ true) × (n < open_children rows i)
IsPlace rows search_field = true ≡ false

-- From the row behind, up.
up_behind :
    (rows : List Div) (i j : ℕ)
    → visible rows i ≡ true
    → IsNextRow rows (i + 1) (some j)
    → (visible rows j ≡ true) × (item_up rows j ≡ last_child i (open_children rows i) 0 (item i))
unfolding item_up last_child
up_behind rows i j vi (first next le vj between) = (
  vj,
  rw (nav_prev_lem rows i j (omega arith) vi vj (λ k a b. between k (omega arith) b), item_up) refl,
)

-- What `NavNext` found, or the old place.
abbrev behind : Option ℕ → Focus → Focus
behind none p = p
behind (some j) p = item j

behind_lem :
    (found : Option ℕ) (p : Focus) → (elim found [ none ↦ p | some j ↦ item j ]) ≡ behind found p
behind_lem none p = refl
behind_lem (some j) p = refl

-- From `p` the focus came to `q`, from which the arrow up leads back, unless nothing moved.
abbrev pub Returns : List Div → Focus → Focus → Type 0
Returns rows p q = IsPlace rows q × ((q ≡ p) ⊎ (up rows q ≡ p))

module _ (rows : List Div) (i : ℕ) (vi : visible rows i ≡ true) where
  up_item : (j : ℕ) → up rows (item j) ≡ item_up rows j
  unfolding up
  up_item j = refl

  next_row :
      (found : Option ℕ) (p : Focus)
      → IsNextRow rows (i + 1) found
      → IsPlace rows p
      → last_child i (open_children rows i) 0 (item i) ≡ p
      → Returns rows p (behind found p)
  next_row none p next place e = (place, inl refl)
  next_row (some j) p next place e =
      let (vj, back) = up_behind rows i j vi next in (vj, inr (up_item j ∙ back ∙ e))

  item_down_closed :
      open_children rows i ≡ 0 → item_down rows i ≡ behind (nav_next rows (i + 1)) (item i)
  unfolding item_down
  item_down_closed e = rw e (behind_lem (nav_next rows (i + 1)) (item i))

  item_down_open : 0 < open_children rows i → item_down rows i ≡ child i 0
  unfolding item_down
  item_down_open h = rw (ne→== (open_children rows i) 0 (omega arith)) refl

  item_Returns : Returns rows (item i) (down rows (item i))
  unfolding down
  item_Returns = elim (ℕ_discrete (open_children rows i) 0) [
    | yes e ↦ rw (item_down_closed e) (
        next_row (nav_next rows (i + 1)) (item i) (nav_next-IsNextRow rows (i + 1)) vi
          (ap (λ k. last_child i k 0 (item i)) e ∙ (unfold last_child in refl)))
    | no ne ↦
        rw (item_down_open (omega arith)) ((vi, omega arith), inr (unfold up child_up in refl))
  ]

  child_down_inside : (n : ℕ) → n + 1 < child_count rows i → child_down rows i n ≡ child i (suc n)
  unfolding child_down
  child_down_inside n h = rw (lt→ltb (n + 1) (child_count rows i) h) (ap (child i) (omega arith))

  child_down_last :
      (n : ℕ)
      → child_count rows i ≤ n + 1
      → child_down rows i n ≡ behind (nav_next rows (i + 1)) (child i n)
  unfolding child_down
  child_down_last n h =
      rw (le→ltb (n + 1) (child_count rows i) h) (behind_lem (nav_next rows (i + 1)) (child i n))

  child_Returns :
      (n : ℕ) → n < open_children rows i → Returns rows (child i n) (down rows (child i n))
  unfolding down
  child_Returns n h =
      let count = open-eq-count rows i n h in
      elim (ℕ_discrete (open_children rows i) (suc n)) [
        | yes e ↦ rw (child_down_last n (omega arith)) (
            next_row (nav_next rows (i + 1)) (child i n) (nav_next-IsNextRow rows (i + 1)) (vi, h)
              (ap (λ k. last_child i k 0 (item i)) e
                ∙ last_child_lem i n 0 (item i)
                ∙ ap (child i) (omega arith)))
        | no ne ↦
            rw (child_down_inside n (omega arith))
              ((vi, omega arith), inr (unfold up child_up in refl))
      ]

pub down-Returns : (rows : List Div) (p : Focus) → IsPlace rows p → Returns rows p (down rows p)
down-Returns rows (item i) v = item_Returns rows i v
down-Returns rows (child i n) v = child_Returns rows i v.0 n v.1
down-Returns rows search_field v = absurd cc

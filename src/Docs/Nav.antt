-- ===== src/Docs/Nav.antt =====
-- docs/search/search.js: moving through the results with the keys, the methods `NavNext`, `NavPrev`,
-- `ProcessKeys`, `Nav` and `NavChild` of `SearchResults`. The element `Item<i>` stands in row i of
-- the results, `Item<i>_c<n>` in that row's children. The index that `NavPrev` takes may be -1, so it
-- is passed as its successor.
pub mod Order
pub mod Press
pub mod Examples
use re_boot.Base.{
  ℕ, zero, suc, ◌+◌, ◌-◌, ltb, ◌==◌, if◌then◌else◌, Bool, true, false, not, Option, none, some,
}
use re_boot.Base.{List, [], ◌∷◌, drop, get_elem?}
use re_boot.Docs.Results.{Display, block, hidden, is_block, Div}

-- What has the focus.
pub data Focus : Type 0 where
  item : ℕ → Focus
  child : ℕ → ℕ → Focus
  search_field : Focus

-- The loop of `NavNext` over the rows from `index` on.
pub next_from : List Div → ℕ → Option ℕ
next_from [] index = none
next_from (row ∷ rows) index =
    let rest = next_from rows (index + 1) in if is_block row.display then some index else rest

pub nav_next : List Div → ℕ → Option ℕ
unfolding next_from
nav_next rows index = next_from (drop index rows) index

pub nav_prev : List Div → ℕ → Option ℕ
nav_prev rows zero = none
nav_prev rows (suc index) =
    let rest = nav_prev rows index in
    elim (get_elem? rows index) [
      | none ↦ none
      | some row ↦ if is_block row.display then some index else rest
    ]

-- The number of children of a row, where they are displayed.
pub open_children : List Div → ℕ → ℕ
open_children rows index = elim (get_elem? rows index) [
  | none ↦ 0
  | some row ↦ elim row.children [
    | none ↦ 0
    | some (display, n) ↦ if is_block display then n else 0
  ]
]

-- The loop that searches for the last child.
pub last_child : ℕ → ℕ → ℕ → Focus → Focus
last_child index zero n focus = focus
last_child index (suc left) n focus = last_child index left (n + 1) (child index n)

-- The number of children of a row, displayed or not.
pub child_count : List Div → ℕ → ℕ
child_count rows index = elim (get_elem? rows index) [
  | none ↦ 0
  | some row ↦ elim row.children [ none ↦ 0 | some (display, n) ↦ n ]
]

-- The arrows in `Nav`, up and down.
pub item_up : List Div → ℕ → Focus
unfolding nav_prev open_children last_child
item_up rows index = elim (nav_prev rows index) [
  | none ↦ search_field
  | some prev ↦ last_child prev (open_children rows prev) 0 (item prev)
]

pub item_down : List Div → ℕ → Focus
unfolding nav_next open_children
item_down rows index =
    if open_children rows index == 0
    then elim (nav_next rows (index + 1)) [ none ↦ item index | some next ↦ item next ]
    else child index 0

-- The arrows in `NavChild`, up and down.
pub child_up : ℕ → ℕ → Focus
child_up index zero = item index
child_up index (suc n) = child index n

pub child_down : List Div → ℕ → ℕ → Focus
unfolding nav_next child_count
child_down rows index n =
    if ltb (n + 1) (child_count rows index)
    then child index (n + 1)
    else elim (nav_next rows (index + 1)) [ none ↦ child index n | some next ↦ item next ]

-- `lastKey` and `repeatOn`, and the events of a key.
pub record Keys : Type 0 where
  pub last_key : ℕ
  pub repeat_on : Bool

pub data Kind : Type 0 where
  keydown keypress keyup : Kind

pub record Event : Type 0 where
  pub kind : Kind
  pub key_code : ℕ

-- `ProcessKeys`: the state, and whether the event is to be handled.
pub process_keys : Event → Keys → Keys × Bool
process_keys e keys = elim e.kind [
  | keydown ↦ (record { last_key = e.key_code; repeat_on = false }, not (e.key_code == 0))
  | keypress ↦
      if keys.repeat_on
      then (keys, not (keys.last_key == 0))
      else (record keys { repeat_on = not (keys.last_key == 0) }, false)
  | keyup ↦ (record { last_key = 0; repeat_on = false }, false)
]

-- The panel: the keys, the rows, the focus, and whether `CloseResultsWindow` was called.
pub record Panel : Type 0 where
  pub keys : Keys
  pub rows : List Div
  pub focus : Focus
  pub closed : Bool

-- The assignment to the display of a row's children, where it has them.
pub set_children : Display → Div → Div
set_children display row = elim row.children [
  | none ↦ row
  | some (old, n) ↦ record row { children = some (display, n) }
]

pub set_row : ℕ → Display → List Div → List Div
unfolding set_children
set_row index display [] = []
set_row zero display (row ∷ rows) = set_children display row ∷ rows
set_row (suc index) display (row ∷ rows) = row ∷ set_row index display rows

pub escape : Panel → Panel
escape p = record p { focus = search_field; closed = true }

pub nav_key : ℕ → Panel → Panel
unfolding item_up item_down set_row escape
nav_key index p =
    if p.keys.last_key == 38
    then record p { focus = item_up p.rows index }
    else if p.keys.last_key == 40
    then record p { focus = item_down p.rows index }
    else if p.keys.last_key == 39
    then record p { rows = set_row index block p.rows }
    else if p.keys.last_key == 37
    then record p { rows = set_row index hidden p.rows }
    else if p.keys.last_key == 27
    then escape p
    else p

pub nav_child_key : ℕ → ℕ → Panel → Panel
unfolding child_up child_down escape
nav_child_key index n p =
    if p.keys.last_key == 38
    then record p { focus = child_up index n }
    else if p.keys.last_key == 40
    then record p { focus = child_down p.rows index n }
    else if p.keys.last_key == 27
    then escape p
    else p

-- `Nav` and `NavChild`: the panel, and the value returned.
pub handle : (Panel → Panel) → Event → Panel → Panel × Bool
unfolding process_keys
handle on_key e p =
    if e.key_code == 13
    then (p, true)
    else let (keys, go) = process_keys e p.keys in
      if go
      then (on_key (record p { keys = keys }), keys.last_key == 13)
      else (record p { keys = keys }, false)

pub nav : Event → ℕ → Panel → Panel × Bool
unfolding handle nav_key
nav e index p = handle (nav_key index) e p

pub nav_child : Event → ℕ → ℕ → Panel → Panel × Bool
unfolding handle nav_child_key
nav_child e index n p = handle (nav_child_key index n) e p

-- The handler of the element that has the focus.
pub dispatch : Event → Panel → Panel
unfolding nav nav_child
dispatch e p = elim p.focus [
  | item index ↦ (nav e index p).0
  | child index n ↦ (nav_child e index n p).0
  | search_field ↦ p
]

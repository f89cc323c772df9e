-- ===== src/Docs/Directory.antt =====
-- docs/dynsections.js: the rows of a directory table, with `toggleLevel`, `toggleFolder` and
-- `updateStripes`. The id of a row is 'row_' and its key; the ids of its arrow and its icon end with
-- the key too. A key has digits and underscores only, which in the pattern of `toggleFolder` stand
-- for themselves, in either case.
pub mod Keys
pub mod Shape
pub mod Stripes
pub mod Level
pub mod Folder
pub mod Clicks
pub mod Examples
use re_boot.Base.{
  ℕ, zero, suc, ◌+◌, ltb, ◌==◌, if◌then◌else◌, Bool, true, false, not, ◌&&◌, Option, none, some,
  List, [], ◌∷◌, map, is_digit, same_text,
}
use re_boot.Docs.Ids.Prefix.{starts_with}

-- A row: whether its arrow points down and its icon is an open folder, where it has them; whether
-- it is shown; and the classes 'even' and 'odd'.
pub record Row : Type 0 where
  pub key : List ℕ
  pub arrow : Option Bool
  pub icon : Option Bool
  pub shown : Bool
  pub even : Bool
  pub odd : Bool

-- Both statements of `updateStripes`, over the rows from one on that has an even number of shown
-- rows before it, or not.
pub stripes : Bool → List Row → List Row
stripes is_even [] = []
stripes is_even (r ∷ rows) =
    record r { even = r.shown && is_even; odd = r.shown && not is_even }
    ∷ stripes (if r.shown then not is_even else is_even) rows

pub update_stripes : List Row → List Row
unfolding stripes
update_stripes rows = stripes true rows

-- What `addClass` and `html` set, where there is an element.
abbrev pub turned : Bool → Option Bool → Option Bool
turned b none = none
turned b (some a) = some b

abbrev pub turn : Bool → Row → Row
turn b r = record r { arrow = turned b r.arrow; icon = turned b r.icon }

-- `split('_').length - 1`
pub underscores : List ℕ → ℕ
underscores [] = 0
underscores (c ∷ key) = if c == b'_' then underscores key + 1 else underscores key

pub level_row : ℕ → Row → Row
unfolding underscores
level_row level r =
    let l = underscores r.key + 1 in
    if ltb l (level + 1)
    then record (turn true r) { shown = true }
    else if l == level + 1
    then record (turn false r) { shown = true }
    else record r { shown = false }

pub toggle_level : ℕ → List Row → List Row
unfolding level_row update_stripes
toggle_level level rows = update_stripes (map (level_row level) rows)

-- `\d*_$`
pub digits_then_end : List ℕ → Bool
digits_then_end [] = false
digits_then_end (c ∷ []) = c == b'_'
digits_then_end (c ∷ d ∷ key) = is_digit c && digits_then_end (d ∷ key)

-- `\d+_$`
pub one_name : List ℕ → Bool
unfolding digits_then_end
one_name [] = false
one_name (c ∷ key) = is_digit c && digits_then_end key

-- The pattern `re`, of a key.
pub is_child : List ℕ → List ℕ → Bool
unfolding one_name
is_child [] key = one_name key
is_child (c ∷ id) [] = false
is_child (c ∷ id) (d ∷ key) = if c == d then is_child id key else false

-- `childRows.filter(':first').is(':visible')`
pub first_child_shown : List ℕ → List Row → Bool
unfolding is_child
first_child_shown id [] = false
first_child_shown id (r ∷ rows) = if is_child id r.key then r.shown else first_child_shown id rows

pub hide_row : List ℕ → Row → Row
hide_row id r = if starts_with id r.key then record r { shown = false } else r

pub show_row : List ℕ → Row → Row
unfolding is_child
show_row id r = if is_child id r.key then record (turn false r) { shown = true } else r

-- `toggleFolder` but for the stripes.
pub toggle_rows : List ℕ → List Row → List Row
unfolding first_child_shown hide_row show_row
toggle_rows id [] = []
toggle_rows id (r ∷ rows) =
    if same_text r.key id
    then if first_child_shown id rows
      then turn false r ∷ map (hide_row id) rows
      else turn true r ∷ map (show_row id) rows
    else r ∷ toggle_rows id rows

pub toggle_folder : List ℕ → List Row → List Row
unfolding toggle_rows update_stripes
toggle_folder id rows = update_stripes (toggle_rows id rows)

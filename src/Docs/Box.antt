-- ===== src/Docs/Box.antt =====
-- docs/search/search.js: `SearchBox`, the search field with its timers and windows. Positions on the
-- page are left out. `toLowerCase` of the first unit is an argument, and the arrival of a script of
-- results, which `Search` asks for, is an event of its own.
pub mod State
pub mod Ends
pub mod Select
pub mod Examples
use re_boot.Base.{
  ℕ, zero, suc, ◌+◌, ◌-◌, ltb, ◌==◌, if◌then◌else◌, Bool, true, false, not, ◌&&◌, ◌||◌, same_text,
}
use re_boot.Base.{Option, none, some, List, [], ◌∷◌, get_elem?, length}
use re_boot.Docs.Results.{Display, block, hidden, inline_block, is_block, strip_leading}

-- The fields that change and what the elements show. A timer is running if its flag is set;
-- `loading` counts the scripts that were asked for and have not arrived.
pub record Box : Type 0 where
  pub key_timeout : Bool
  pub hide_timeout : Bool
  pub last_search_value : List ℕ
  pub search_index : ℕ
  pub search_active : Bool
  pub field : List ℕ
  pub results : Display
  pub close_button : Display
  pub select_window : Display
  pub active_class : Bool
  pub loading : ℕ

-- `replace(/ +/g, "")`
pub remove_spaces : List ℕ → List ℕ
remove_spaces [] = []
remove_spaces (c ∷ text) = let rest = remove_spaces text in if c == b' ' then rest else c ∷ rest

pub activate : Bool → Box → Box
activate is_active b =
    if is_active || is_block b.results
    then record b { active_class = true; search_active = true }
    else record b {
      active_class = false;
      search_active = false;
      last_search_value = [];
      field = [];
    }

pub close_results_window : Box → Box
unfolding activate
close_results_window b = activate false (record b { results = hidden; close_button = hidden })

pub close_selection_window : Box → Box
close_selection_window b = record b { select_window = hidden }

pub on_search_select_show : Box → Box
on_search_select_show b = record b { select_window = block; hide_timeout = false }

pub on_search_select_hide : Box → Box
on_search_select_hide b = record b { hide_timeout = true }

-- Whether a text starts with another.
pub begins : List ℕ → List ℕ → Bool
begins [] text = true
begins (x ∷ start) [] = false
begins (x ∷ start) (c ∷ text) = x == c && begins start text

-- `indexOf` in a section's units, whose result is the number of the script.
pub index_of : List ℕ → List ℕ → Option ℕ
unfolding begins
index_of [] char = if begins char [] then some 0 else none
index_of (x ∷ units) char =
    if begins char (x ∷ units)
    then some 0
    else elim (index_of units char) [ none ↦ none | some i ↦ some (suc i) ]

-- `handleResults`, as far as the box is concerned.
pub handle_results : Box → Box
handle_results b =
    if is_block b.results then b else record b { results = block; close_button = inline_block }

-- The first unit of the search value in lower case, which may be more than one; an empty value is found
-- at index 0. The code compares the value itself with 1, which holds of no value that starts with a
-- surrogate, so two units are never taken.
pub find_script : (ℕ → List ℕ) → List ℕ → List ℕ → Option ℕ
unfolding index_of
find_script lower units [] = index_of units []
find_script lower units (c ∷ value) = index_of units (lower c)

-- `Search`; `none` is the exception for a section that there is not.
pub box_search : (ℕ → List ℕ) → List (List ℕ) → Box → Option Box
unfolding find_script handle_results
box_search lower sections b =
    let value = strip_leading b.field in
    let armed : Box = record b { key_timeout = false } in
    elim (get_elem? sections b.search_index) [
      | none ↦ none
      | some units ↦ elim (find_script lower units value) [
        | none ↦ some (record (handle_results armed) { last_search_value = value })
        | some script ↦ some (record armed { loading = b.loading + 1; last_search_value = value })
      ]
    ]

pub on_search_field_change : ℕ → Bool → Box → Box
unfolding remove_spaces on_search_select_show activate
on_search_field_change key shift old =
    let b : Box = record old { key_timeout = false } in
    let value = remove_spaces b.field in
    if (key == 40 || key == 13) && shift
    then on_search_select_show b
    else if key == 27
    then activate false
        (record b { results = hidden; close_button = hidden; last_search_value = [] })
    else if same_text value b.last_search_value
    then b
    else elim value [
      | [] ↦ record b { results = hidden; close_button = hidden; last_search_value = [] }
      | c ∷ rest ↦ record b { key_timeout = true }
    ]

pub on_select_item : (ℕ → List ℕ) → List (List ℕ) → ℕ → Box → Option Box
unfolding box_search remove_spaces
on_select_item lower sections id old =
    let b : Box = record old { search_index = id } in
    if not (same_text (remove_spaces b.field) []) && b.search_active
    then box_search lower sections b
    else some b

-- `OnSearchSelectKey`; `count` is `SelectItemCount`.
pub on_search_select_key : (ℕ → List ℕ) → List (List ℕ) → ℕ → ℕ → Box → Option Box
unfolding on_select_item close_selection_window
on_search_select_key lower sections count key b =
    if key == 40 && ltb b.search_index count
    then on_select_item lower sections (b.search_index + 1) b
    else if key == 38 && ltb 0 b.search_index
    then on_select_item lower sections (b.search_index - 1) b
    else if key == 13 || key == 27
    then elim (on_select_item lower sections b.search_index b) [
      | none ↦ none
      | some b' ↦ some (close_selection_window b')
    ]
    else some b

-- What can happen to the box: the handlers, typing, the two timers, and a script that arrives.
pub data BoxEvent : Type 0 where
  focus : Bool → BoxEvent
  typed : List ℕ → BoxEvent
  field_key : ℕ → Bool → BoxEvent
  select_shown select_hidden closed : BoxEvent
  select_key select_item : ℕ → BoxEvent
  key_timer hide_timer script_loaded : BoxEvent

pub step : (ℕ → List ℕ) → List (List ℕ) → ℕ → BoxEvent → Box → Option Box
unfolding activate on_search_field_change on_search_select_show on_search_select_hide
    close_results_window on_search_select_key on_select_item box_search close_selection_window
    handle_results
step lower sections count (focus is_active) b = some (activate is_active b)
step lower sections count (typed text) b = some (record b { field = text })
step lower sections count (field_key key shift) b = some (on_search_field_change key shift b)
step lower sections count select_shown b = some (on_search_select_show b)
step lower sections count select_hidden b = some (on_search_select_hide b)
step lower sections count closed b = some (close_results_window b)
step lower sections count (select_key key) b = on_search_select_key lower sections count key b
step lower sections count (select_item id) b = on_select_item lower sections id b
step lower sections count key_timer b =
    if b.key_timeout then box_search lower sections b else some b
step lower sections count hide_timer b =
    if b.hide_timeout then some (close_selection_window b) else some b
step lower sections count script_loaded b =
    if ltb 0 b.loading then some (handle_results (record b { loading = b.loading - 1 })) else some b

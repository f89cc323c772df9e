-- ===== src/Docs/Box/Ends.antt =====
-- How a search is given up, and a key that throws.
use re_boot.Base.{ℕ, zero, suc, ◌+◌, ◌≡◌, refl, arith, lt→ltb, true, false}
use re_boot.Base.{none, List, [], ◌∷◌, get_elem?, length, same_text}
use re_boot.Docs.Results.{hidden}
use re_boot.Docs.Box.{Box, step, select_key}
use re_boot.Docs.Box.{on_search_select_key, on_select_item, box_search, remove_spaces}

-- A box without a search, out of one before: no results, no button that closes them, and nothing typed;
-- the selection window and its section are as they were.
pub record IsGivenUp (before b : Box) : Type 0 where
  pub inactive : (b.search_active ≡ false) × (b.active_class ≡ false)
  pub windows : (b.results ≡ hidden) × (b.close_button ≡ hidden)
  pub texts : (b.field ≡ []) × (b.last_search_value ≡ [])
  pub selection : (b.select_window ≡ before.select_window) × (b.search_index ≡ before.search_index)

past_the_end :
    (sections : List (List ℕ)) (i : ℕ) → i ≡ length sections → get_elem? sections i ≡ none
past_the_end [] i e = refl
past_the_end (s ∷ sections) zero e = absurd (omega arith)
past_the_end (s ∷ sections) (suc i) e = past_the_end sections i (omega arith)

search_throws :
    (lower : ℕ → List ℕ) (sections : List (List ℕ)) (b : Box)
    → get_elem? sections b.search_index ≡ none
    → box_search lower sections b ≡ none
unfolding box_search
search_throws lower sections b e = rw (e, box_search) refl

item_throws :
    (lower : ℕ → List ℕ) (sections : List (List ℕ)) (id : ℕ) (b : Box)
    → same_text (remove_spaces b.field) [] ≡ false
    → b.search_active ≡ true
    → get_elem? sections id ≡ none
    → on_select_item lower sections id b ≡ none
unfolding on_select_item
item_throws lower sections id b typed active e =
    rw (typed, active, on_select_item)
      (search_throws lower sections (record b { search_index = id; search_active = true }) e)

-- In the list of sections, with as many items as there are sections, the arrow down goes past the last
-- one; where a search is active and something is typed, the search of that section throws.
pub step-select_key :
    (lower : ℕ → List ℕ) (sections : List (List ℕ)) (b : Box)
    → b.search_index + 1 ≡ length sections
    → b.search_active ≡ true
    → same_text (remove_spaces b.field) [] ≡ false
    → step lower sections (length sections) (select_key 40) b ≡ none
unfolding step on_search_select_key
step-select_key lower sections b last active typed =
    rw (lt→ltb b.search_index (length sections) (omega arith), step, on_search_select_key)
      (item_throws lower sections (b.search_index + 1) b typed active
        (past_the_end sections (b.search_index + 1) last))

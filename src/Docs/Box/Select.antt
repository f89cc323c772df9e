-- ===== src/Docs/Box/Select.antt =====
-- docs/search/search.js: the list of sections in the selection window, with the marks of
-- `SelectItemSet`, `SelectItemCount`, and the items that `init_search` appends.
pub mod Data
pub mod Marks
pub mod Examples
use re_boot.Base.{
  ℕ, zero, suc, ◌+◌, ◌-◌, ◌≤◌, ◌<◌, ◌≡◌, refl, sym, ap, ◌∙◌, arith, ◌==◌, if◌then◌else◌, Bool, true,
  false, Bool-cases, inl, inr, List, [], ◌∷◌, ◌++◌, length, ==→eq, ==→ne, eq→==,
}

-- An item: whether its mark is the bullet, the section that a click selects, and its text.
pub record Item : Type 0 where
  pub is_marked : Bool
  pub on_click : ℕ
  pub label : List ℕ

-- A child of the window: a node of another class, or an item.
pub data Child : Type 0 where
  other : Child
  item : Item → Child

-- The items of `init_search` from a number on.
pub label_items : ℕ → List (List ℕ) → List Child
label_items key [] = []
label_items key (label ∷ labels) =
    item (record { is_marked = false; on_click = key; label = label })
    ∷ label_items (key + 1) labels

-- `SelectItemCount`
pub select_item_count : List Child → ℕ
select_item_count [] = 0
select_item_count (other ∷ window) = select_item_count window
select_item_count (item i ∷ window) = select_item_count window + 1

-- The loop of `SelectItemSet`; the first number is that of the next item.
pub set_items : ℕ → ℕ → List Child → List Child
set_items id j [] = []
set_items id j (other ∷ window) = other ∷ set_items id j window
set_items id j (item i ∷ window) =
    item (record i { is_marked = j == id }) ∷ set_items id (j + 1) window

pub select_item_set : ℕ → List Child → List Child
unfolding set_items
select_item_set id window = set_items id 0 window

-- `init_search`, as far as the window is concerned.
pub init_search : List (List ℕ) → List Child → List Child
unfolding label_items select_item_set
init_search labels window = select_item_set 0 (window ++ label_items 0 labels)

-- The selections that follow, in order.
pub select_all : List ℕ → List Child → List Child
unfolding select_item_set
select_all [] window = window
select_all (id ∷ ids) window = select_all ids (select_item_set id window)

-- ===== src/Docs/Menu.antt =====
-- docs/menu.js: `makeTree`, the list of the main menu. The fixed pieces of the text that it builds are
-- marks: '<ul>', '</ul>', '</li>', and an '<li>' with its link.
pub mod Outline
pub mod Data
pub mod Examples
use re_boot.Base.{ℕ, ◌==◌, if◌then◌else◌, List, [], ◌∷◌, ◌++◌}

-- An entry of the menu's data, as far as it has children, and a list of children.
mutual
  pub data Menu : Type 0 where
    leaf : Menu
    branch : Items → Menu

  pub data Items : Type 0 where
    done : Items
    entry : List ℕ → List ℕ → Menu → Items → Items

pub data Mark : Type 0 where
  open_list close_list close_item : Mark
  open_item : List ℕ → List ℕ → Mark

-- The address of a link: what is behind a '^', or the link behind the relative path.
pub item_url : List ℕ → List ℕ → List ℕ
item_url rel_path [] = rel_path
item_url rel_path (c ∷ link) = if c == b'^' then link else rel_path ++ c ∷ link

mutual
  unfolding item_url

  pub make_tree : List ℕ → Menu → List Mark
  make_tree rel_path leaf = []
  make_tree rel_path (branch items) = open_list ∷ (make_items rel_path items ++ close_list ∷ [])

  pub make_items : List ℕ → Items → List Mark
  make_items rel_path done = []
  make_items rel_path (entry text link menu items) =
      open_item (item_url rel_path link) text
      ∷ (make_tree rel_path menu ++ close_item ∷ make_items rel_path items)

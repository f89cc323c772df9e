-- ===== src/Docs/Menu/Outline.antt =====
-- The marks of the menu are a list of links inside of each other, one for each entry at its depth.
use re_boot.Base.{
  ℕ, ◌+◌, ◌≡◌, ◌≢◌, refl, sym, ap, ◌∙◌, ◌==◌, Bool-cases, ==→eq, ==→ne, inl, inr, Option, none,
  some, List, [], ◌∷◌, ◌++◌, append_assoc, append-nil,
}
use mathlib.Core.Path.{subst}
use re_boot.Docs.Menu.{
  Menu, leaf, branch, Items, done, entry, Mark, open_list, close_list, close_item, open_item,
  item_url, make_tree, make_items,
}

-- A link with the number of lists around it; likewise an entry of the menu, with the address that the
-- data give.
pub record Link : Type 0 where
  pub depth : ℕ
  pub url : List ℕ
  pub text : List ℕ

-- An element that is open.
pub data Tag : Type 0 where
  in_list in_item : Tag

lists : List Tag → ℕ
lists [] = 0
lists (in_list ∷ stack) = lists stack + 1
lists (in_item ∷ stack) = lists stack

join : List Link → Option (List Link) → Option (List Link)
join links none = none
join links (some more) = some (links ++ more)

-- A reader of the marks that keeps what is open, the innermost first: a list stands by itself or in an
-- item, an item in a list, each is closed by its own mark, and nothing is open at the end.
pub read_marks : List Tag → List Mark → Option (List Link)
unfolding join lists
read_marks [] [] = some []
read_marks (tag ∷ stack) [] = none
read_marks [] (open_list ∷ marks) = read_marks (in_list ∷ []) marks
read_marks (in_item ∷ stack) (open_list ∷ marks) = read_marks (in_list ∷ in_item ∷ stack) marks
read_marks (in_list ∷ stack) (open_list ∷ marks) = none
read_marks [] (close_list ∷ marks) = none
read_marks (in_list ∷ stack) (close_list ∷ marks) = read_marks stack marks
read_marks (in_item ∷ stack) (close_list ∷ marks) = none
read_marks [] (close_item ∷ marks) = none
read_marks (in_list ∷ stack) (close_item ∷ marks) = none
read_marks (in_item ∷ stack) (close_item ∷ marks) = read_marks stack marks
read_marks [] (open_item url text ∷ marks) = none
read_marks (in_item ∷ stack) (open_item url text ∷ marks) = none
read_marks (in_list ∷ stack) (open_item url text ∷ marks) =
    join (record { depth = lists stack + 1; url = url; text = text } ∷ [])
      (read_marks (in_item ∷ in_list ∷ stack) marks)

-- The entries of the menu, each before its children.
mutual
  pub menu_entries : ℕ → Menu → List Link
  menu_entries depth leaf = []
  menu_entries depth (branch items) = items_entries (depth + 1) items

  pub items_entries : ℕ → Items → List Link
  items_entries depth done = []
  items_entries depth (entry text link menu items) =
      record { depth = depth; url = link; text = text }
      ∷ (menu_entries depth menu ++ items_entries depth items)

-- Where an address of the data leads: one with a '^' to what is behind it, and any other, the empty
-- one too, to the address behind the path.
pub data Resolves (rel_path : List ℕ) : List ℕ → List ℕ → Type 0 where
  absolute : (url : List ℕ) → Resolves rel_path (b'^' ∷ url) url
  relative :
      (c : ℕ) (link : List ℕ) → c ≢ b'^' → Resolves rel_path (c ∷ link) (rel_path ++ c ∷ link)
  root : Resolves rel_path [] rel_path

-- The links are those of the entries, in order.
pub data Shows (rel_path : List ℕ) : List Link → List Link → Type 0 where
  nothing : Shows rel_path [] []
  shown :
      {link url text : List ℕ} {entries links : List Link} (depth : ℕ)
      → Resolves rel_path link url
      → Shows rel_path entries links
      → Shows rel_path
          (record { depth = depth; url = link; text = text } ∷ entries)
          (record { depth = depth; url = url; text = text } ∷ links)

Shows-append :
    (rel_path : List ℕ) {es ls es' ls' : List Link}
    → Shows rel_path es ls
    → Shows rel_path es' ls'
    → Shows rel_path (es ++ es') (ls ++ ls')
Shows-append rel_path nothing more = more
Shows-append rel_path (shown depth r rest) more = shown depth r (Shows-append rel_path rest more)

item_url-Resolves : (rel_path link : List ℕ) → Resolves rel_path link (item_url rel_path link)
unfolding item_url
item_url-Resolves rel_path [] = root
item_url-Resolves rel_path (c ∷ link) = elim (Bool-cases (c == b'^')) [
  | inl caret ↦ rw caret (
      subst (λ (x : ℕ). Resolves rel_path (x ∷ link) link) (sym (==→eq c b'^' caret))
        (absolute link))
  | inr other ↦ rw other (relative c link (==→ne c b'^' other))
]

-- The links of the entries, with the addresses of the code.
mutual
  unfolding item_url

  menu_links : List ℕ → ℕ → Menu → List Link
  menu_links rel_path depth leaf = []
  menu_links rel_path depth (branch items) = items_links rel_path (depth + 1) items

  items_links : List ℕ → ℕ → Items → List Link
  items_links rel_path depth done = []
  items_links rel_path depth (entry text link menu items) =
      record { depth = depth; url = item_url rel_path link; text = text }
      ∷ (menu_links rel_path depth menu ++ items_links rel_path depth items)

mutual
  unfolding menu_entries items_entries menu_links items_links

  menu-Shows :
      (rel_path : List ℕ) (depth : ℕ) (menu : Menu)
      → Shows rel_path (menu_entries depth menu) (menu_links rel_path depth menu)
  menu-Shows rel_path depth leaf = nothing
  menu-Shows rel_path depth (branch items) = items-Shows rel_path (depth + 1) items

  items-Shows :
      (rel_path : List ℕ) (depth : ℕ) (items : Items)
      → Shows rel_path (items_entries depth items) (items_links rel_path depth items)
  items-Shows rel_path depth done = nothing
  items-Shows rel_path depth (entry text link menu items) =
      shown depth (item_url-Resolves rel_path link)
        (Shows-append rel_path (menu-Shows rel_path depth menu) (items-Shows rel_path depth items))

join_assoc : (a b : List Link) (o : Option (List Link)) → join a (join b o) ≡ join (a ++ b) o
unfolding join
join_assoc a b none = refl
join_assoc a b (some links) = ap some (sym (append_assoc a b links))

join_nil : (o : Option (List Link)) → o ≡ join [] o
unfolding join
join_nil none = refl
join_nil (some links) = refl

-- What a tree in an item, and the items of a list, are to the reader.
mutual
  unfolding read_marks lists make_tree make_items menu_links items_links

  read_marks_tree :
      (menu : Menu) (rel_path : List ℕ) (stack : List Tag) (marks : List Mark)
      → read_marks (in_item ∷ stack) (make_tree rel_path menu ++ marks)
        ≡ join (menu_links rel_path (lists stack) menu) (read_marks (in_item ∷ stack) marks)
  read_marks_tree leaf rel_path stack marks = join_nil (read_marks (in_item ∷ stack) marks)
  read_marks_tree (branch items) rel_path stack marks =
      ap (read_marks (in_list ∷ in_item ∷ stack))
        (append_assoc (make_items rel_path items) (close_list ∷ []) marks)
      ∙ read_marks_items items rel_path (in_item ∷ stack) (close_list ∷ marks)

  read_marks_items :
      (items : Items) (rel_path : List ℕ) (stack : List Tag) (marks : List Mark)
      → read_marks (in_list ∷ stack) (make_items rel_path items ++ marks)
        ≡ join (items_links rel_path (lists stack + 1) items) (read_marks (in_list ∷ stack) marks)
  read_marks_items done rel_path stack marks = join_nil (read_marks (in_list ∷ stack) marks)
  read_marks_items (entry text link menu items) rel_path stack marks =
      let here : List Link =
        record { depth = lists stack + 1; url = item_url rel_path link; text = text } ∷ [] in
      let inner = menu_links rel_path (lists stack + 1) menu in
      let more = items_links rel_path (lists stack + 1) items in
      ap (join here) (
        ap (read_marks (in_item ∷ in_list ∷ stack))
          (append_assoc (make_tree rel_path menu) (close_item ∷ make_items rel_path items) marks)
        ∙ read_marks_tree menu rel_path (in_list ∷ stack)
            (close_item ∷ (make_items rel_path items ++ marks))
        ∙ ap (join inner) (read_marks_items items rel_path stack marks))
      ∙ ap (join here) (join_assoc inner more (read_marks (in_list ∷ stack) marks))
      ∙ join_assoc here (inner ++ more) (read_marks (in_list ∷ stack) marks)

append_empty : (links : List Link) → join links (some []) ≡ some links
unfolding join
append_empty links = ap some (append-nil links)

tree_read :
    (menu : Menu) (rel_path : List ℕ)
    → read_marks [] (make_tree rel_path menu) ≡ some (menu_links rel_path 0 menu)
unfolding read_marks lists make_tree menu_links
tree_read leaf rel_path = refl
tree_read (branch items) rel_path =
    read_marks_items items rel_path [] (close_list ∷ [])
    ∙ append_empty (items_links rel_path 1 items)

-- The text that makeTree builds is well formed: a list stands by itself or in an item, an item in
-- a list, and each is closed where it ends. It has a link for each entry of the menu, in order and
-- each before those of its children, with the entry's text, inside as many lists as the entry has
-- levels; it leads to what is behind the '^' of the entry's address, or, where that does not start
-- with one, to the address behind the relative path.
pub read_marks-make_tree :
    (menu : Menu) (rel_path : List ℕ)
    → (links : List Link) × (read_marks [] (make_tree rel_path menu) ≡ some links)
      × Shows rel_path (menu_entries 0 menu) links
read_marks-make_tree menu rel_path =
    (menu_links rel_path 0 menu, tree_read menu rel_path, menu-Shows rel_path 0 menu)

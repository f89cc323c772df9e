-- ===== src/Docs/NavTree.antt =====
-- docs/navtree.js: where `navTo` and `gotoNode` lead in the navigation tree. A file
-- navtreeindex<i>.js is a table from addresses to paths; whether it was loaded before or `getScript`
-- loads it now, `gotoNode` looks into the same table.
pub mod Go
pub mod Index
pub mod Examples
use re_boot.Base.{
  ℕ, zero, suc, ◌-◌, ltb, leb, ◌==◌, if◌then◌else◌, Bool, true, false, not, ◌&&◌, ◌||◌,
}
use re_boot.Base.{same_text, is_digit, Option, none, some, List, [], ◌∷◌, ◌++◌, get_elem?}

-- `a<=b` on texts.
pub text_le : List ℕ → List ℕ → Bool
text_le [] b = true
text_le (x ∷ a) [] = false
text_le (x ∷ a) (y ∷ b) =
    let rest = text_le a b in if ltb x y then true else if x == y then rest else false

-- `[\w\-]`
pub is_word_or_dash : ℕ → Bool
is_word_or_dash c =
    (leb b'a' c && leb c b'z')
    || ((leb b'A' c && leb c b'Z') || ((leb b'0' c && leb c b'9') || ((c == b'_') || (c == b'-'))))

-- `replace(/[^\w\-]/g,'')`
pub keep_word : List ℕ → List ℕ
unfolding is_word_or_dash
keep_word [] = []
keep_word (c ∷ text) = let rest = keep_word text in if is_word_or_dash c then c ∷ rest else rest

-- The text up to the next '#', and what is behind it, if there is one: the first two parts that
-- `split('#')` makes are found by doing this twice.
pub cut : List ℕ → List ℕ × Option (List ℕ)
cut [] = ([], none)
cut (c ∷ text) =
    let (before, behind) = cut text in if c == b'#' then ([], some text) else (c ∷ before, behind)

-- The root and the hash of a link that is stored.
pub link_parts : List ℕ → List ℕ × List ℕ
unfolding cut keep_word
link_parts link =
    let (root, behind) = cut link in
    elim behind [ none ↦ (root, []) | some text ↦ (root, b'#' ∷ keep_word (cut text).0) ]

pub all_digits : List ℕ → Bool
unfolding is_digit
all_digits [] = true
all_digits (c ∷ text) = let rest = all_digits text in if is_digit c then rest else false

-- `hash.match(/^#l\d+$/)`
pub is_line : List ℕ → Bool
unfolding all_digits
is_line (a ∷ b ∷ c ∷ text) = (a == b'#') && ((b == b'l') && all_digits (c ∷ text))
is_line text = false

abbrev pub Table : Type 0
Table = List (List ℕ × List ℕ)

-- `NAVTREEINDEX`, the tables `NAVTREEINDEX<i>`, and `NAVTREE[0][1]`.
pub record Tree : Type 0 where
  pub bounds : List (List ℕ)
  pub tables : List Table
  pub home : List ℕ

-- The loop that leaves i: one more than i, since i starts at -1.
pub advance : List (List ℕ) → List ℕ → ℕ
unfolding text_le
advance [] url = 0
advance (bound ∷ bounds) url =
    let rest = advance bounds url in if text_le bound url then suc rest else 0

-- An object literal's property: of two with one name the later counts.
pub lookup : Table → List ℕ → Option (List ℕ)
unfolding same_text
lookup [] key = none
lookup ((k, path) ∷ table) key = elim (lookup table key) [
  | some later ↦ some later
  | none ↦ if same_text k key then some path else none
]

-- The table of the number, with nothing in it where there is no such file.
pub table_at : List Table → ℕ → Table
table_at tables i = elim (get_elem? tables i) [ none ↦ [] | some table ↦ table ]

-- The breadcrumbs that `gotoNode` finds: those of the address, or of the page.
pub breadcrumbs : Table → List ℕ → List ℕ → Option (List ℕ)
unfolding lookup
breadcrumbs table root hash = elim (lookup table (root ++ hash)) [
  | some path ↦ some path
  | none ↦ lookup table root
]

-- The root and the hash that `navTo` goes by.
pub target : List ℕ → List ℕ → List ℕ → List ℕ × List ℕ
unfolding link_parts is_line
target [] root hash = (root, if is_line hash then [] else hash)
target (c ∷ link) root hash =
    let (root', hash') = link_parts (c ∷ link) in (root', if is_line hash' then [] else hash')

-- The table and the root after the search of the index.
pub section : Tree → List ℕ → List ℕ → Table × List ℕ
unfolding advance table_at
section tree root hash = elim (advance tree.bounds (root ++ hash)) [
  | zero ↦ (table_at tree.tables 0, tree.home)
  | suc i ↦ (table_at tree.tables i, root)
]

-- `navTo` with the stored link: the path from the root node down that is shown. `extend` is
-- `$.extend(true, [], …)`, which returns an array also for an undefined argument: `o.breadcrumbs` is
-- never false.
pub nav_to : (Option (List ℕ) → List ℕ) → Tree → List ℕ → List ℕ → List ℕ → List ℕ
unfolding target section breadcrumbs
nav_to extend tree link root hash =
    let (root', hash') = target link root hash in
    let (table, page) = section tree root' hash' in 0 ∷ extend (breadcrumbs table page hash')

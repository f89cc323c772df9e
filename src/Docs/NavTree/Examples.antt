-- ===== src/Docs/NavTree/Examples.antt =====
-- Addresses in the tables of the viewer.
use re_boot.Base.{
  ℕ, suc, ◌≡◌, refl, Option, none, some, List, [], ◌∷◌, codes, Bool, true, false, ◌&&◌, ◌==◌, All,
}
use re_boot.Base.{==→eq}
use re_boot.Docs.NavTree.{Tree, Table, advance, text_le, lookup, table_at, nav_to, is_line}
use re_boot.Docs.NavTree.Index.{viewer_tree}
use re_boot.Docs.NavTree.Index.First.{navtreeindex0}
use re_boot.Docs.NavTree.Index.Second.{navtreeindex1}
use re_boot.Docs.NavTree.Go.{IsExtend, IsPlaced, nav_to-lookup, nav_to-unlisted}

-- A copy of an array, and an empty one for nothing.
abbrev copy : Option (List ℕ) → List ℕ
copy none = []
copy (some path) = path

copy-IsExtend : IsExtend copy
copy-IsExtend = record { copies = λ path. refl; empty = refl }

-- The search for every address, evaluated.
stops_at : Tree → ℕ → Table → Bool
unfolding advance
stops_at tree i [] = true
stops_at tree i (e ∷ table) = (advance tree.bounds e.0 == suc i) && stops_at tree i table

stops_at-All :
    (tree : Tree) (i : ℕ) (table : Table)
    → stops_at tree i table ≡ true
    → All (λ e. advance tree.bounds e.0 ≡ suc i) table
unfolding stops_at
stops_at-All tree i [] h = tt
stops_at-All tree i (e ∷ table) h =
    let (here, rest) = both (advance tree.bounds e.0 == suc i) (stops_at tree i table) h in
    (==→eq (advance tree.bounds e.0) (suc i) here, stops_at-All tree i table rest)
  where
    both : (a b : Bool) → a && b ≡ true → (a ≡ true) × (b ≡ true)
    both true b h = (refl, h)
    both false b h = absurd cc

viewer_tree-IsPlaced : IsPlaced viewer_tree
unfolding stops_at advance text_le
viewer_tree-IsPlaced = (
  stops_at-All viewer_tree 0 navtreeindex0 refl,
  (stops_at-All viewer_tree 1 navtreeindex1 refl, tt),
)

nav_to-lookup_example :
    nav_to copy viewer_tree []
      (codes "app__config_8h.html")
      (codes "#a01c3892c16d6330e486637967ab0289b")
    ≡ 0 ∷ 3 ∷ 0 ∷ 1 ∷ 0 ∷ 4 ∷ []
unfolding lookup is_line table_at
nav_to-lookup_example =
    nav_to-lookup copy viewer_tree 0 (codes "app__config_8h.html")
      (codes "#a01c3892c16d6330e486637967ab0289b") (3 ∷ 0 ∷ 1 ∷ 0 ∷ 4 ∷ []) copy-IsExtend
      viewer_tree-IsPlaced refl refl

nav_to-unlisted_example : nav_to copy viewer_tree [] (codes "nowhere.html") (codes "#top") ≡ 0 ∷ []
unfolding lookup is_line advance table_at
nav_to-unlisted_example =
    nav_to-unlisted copy viewer_tree 1 (codes "nowhere.html") (codes "#top") copy-IsExtend refl refl
      refl refl

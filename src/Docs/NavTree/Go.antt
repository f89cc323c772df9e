-- ===== src/Docs/NavTree/Go.antt =====
-- Which path an address leads to.
use re_boot.Base.{ℕ, zero, suc, ◌+◌, ◌≡◌, refl, ap, ◌∙◌, arith, true, false}
use re_boot.Base.{
  Option, none, some, List, [], ◌∷◌, ◌++◌, All, same_text, same_text→eq, ◌⊎◌, inl, inr,
}
use mathlib.Core.Path.{subst}
use re_boot.Docs.NavTree.{
  advance, lookup, Table, Tree, table_at, breadcrumbs, section, nav_to, is_line,
}

-- The entry that is found is the first or a later one.
lookup-case :
    (k p key path : List ℕ) (table : Table)
    → lookup ((k, p) ∷ table) key ≡ some path
    → (lookup table key ≡ some path) ⊎ (same_text k key ≡ true)
unfolding lookup
lookup-case k p key path table h = ground arith

-- What holds of all addresses of a table holds of one that is found.
lookup-All :
    (P : List ℕ → Type 0) (table : Table) (key path : List ℕ)
    → All (λ e. P e.0) table
    → lookup table key ≡ some path
    → P key
lookup-All P [] key path v h = absurd (unfold lookup in cc)
lookup-All P ((k, p) ∷ table) key path v h = elim (lookup-case k p key path table h) [
  | inl later ↦ lookup-All P table key path v.1 later
  | inr same ↦ subst P (same_text→eq k key same) v.0
]

-- Every table holds addresses for which the search of the index stops at it.
abbrev pub PlacedFrom : Tree → ℕ → List Table → Type 0
PlacedFrom tree i [] = Unit
PlacedFrom tree i (table ∷ tables) =
    All (λ e. advance tree.bounds e.0 ≡ suc i) table × PlacedFrom tree (suc i) tables

abbrev pub IsPlaced : Tree → Type 0
IsPlaced tree = PlacedFrom tree 0 tree.tables

-- What `$.extend(true, [], …)` returns.
pub record IsExtend (extend : Option (List ℕ) → List ℕ) : Type 0 where
  pub copies : (path : List ℕ) → extend (some path) ≡ path
  pub empty : extend none ≡ []

placed_at :
    (tree : Tree) (n i : ℕ) (tables : List Table) (key path : List ℕ)
    → PlacedFrom tree n tables
    → lookup (table_at tables i) key ≡ some path
    → advance tree.bounds key ≡ suc (n + i)
unfolding table_at
placed_at tree n i [] key path v h = absurd (unfold lookup in cc)
placed_at tree n zero (table ∷ tables) key path v h =
    lookup-All (λ k. advance tree.bounds k ≡ suc n) table key path v.0 h ∙ omega arith
placed_at tree n (suc i) (table ∷ tables) key path v h =
    placed_at tree (suc n) i tables key path v.1 h ∙ omega arith

section-suc :
    (tree : Tree) (root hash : List ℕ) (i : ℕ)
    → advance tree.bounds (root ++ hash) ≡ suc i
    → section tree root hash ≡ (table_at tree.tables i, root)
unfolding section
section-suc tree root hash i e = rw (e, section) refl

breadcrumbs_listed :
    (table : Table) (root hash path : List ℕ)
    → lookup table (root ++ hash) ≡ some path
    → breadcrumbs table root hash ≡ some path
unfolding breadcrumbs
breadcrumbs_listed table root hash path e = rw (e, breadcrumbs) refl

breadcrumbs_page :
    (table : Table) (root hash : List ℕ)
    → lookup table (root ++ hash) ≡ none
    → breadcrumbs table root hash ≡ lookup table root
unfolding breadcrumbs
breadcrumbs_page table root hash e = rw (e, breadcrumbs) refl

nav_to-section :
    (extend : Option (List ℕ) → List ℕ) (tree : Tree) (i : ℕ) (root hash : List ℕ)
    (found : Option (List ℕ))
    → is_line hash ≡ false
    → advance tree.bounds (root ++ hash) ≡ suc i
    → breadcrumbs (table_at tree.tables i) root hash ≡ found
    → nav_to extend tree [] root hash ≡ 0 ∷ extend found
unfolding nav_to
nav_to-section extend tree i root hash found l e b = rw (l, section-suc tree root hash i e, b) refl

-- With no stored link, an address that a table lists, and whose hash is not that of a source line,
-- leads from the root along the path listed for it, if for every listed address the search of the
-- index stops at its table.
pub nav_to-lookup :
    (extend : Option (List ℕ) → List ℕ) (tree : Tree) (i : ℕ) (root hash path : List ℕ)
    → IsExtend extend
    → IsPlaced tree
    → is_line hash ≡ false
    → lookup (table_at tree.tables i) (root ++ hash) ≡ some path
    → nav_to extend tree [] root hash ≡ 0 ∷ path
nav_to-lookup extend tree i root hash path x v l h =
    nav_to-section extend tree i root hash (some path) l
      (placed_at tree 0 i tree.tables (root ++ hash) path v h ∙ ap suc (omega arith))
      (breadcrumbs_listed (table_at tree.tables i) root hash path h)
    ∙ ap (λ (t : List ℕ). 0 ∷ t) (x.copies path)

-- With no stored link, an address behind the first bound of the index, of which its table lists
-- neither the address nor the page, leads to the root node alone: the index page is not shown for it.
pub nav_to-unlisted :
    (extend : Option (List ℕ) → List ℕ) (tree : Tree) (i : ℕ) (root hash : List ℕ)
    → IsExtend extend
    → is_line hash ≡ false
    → advance tree.bounds (root ++ hash) ≡ suc i
    → lookup (table_at tree.tables i) (root ++ hash) ≡ none
    → lookup (table_at tree.tables i) root ≡ none
    → nav_to extend tree [] root hash ≡ 0 ∷ []
nav_to-unlisted extend tree i root hash x l e h h' =
    nav_to-section extend tree i root hash none l e
      (breadcrumbs_page (table_at tree.tables i) root hash h ∙ h')
    ∙ ap (λ (t : List ℕ). 0 ∷ t) x.empty

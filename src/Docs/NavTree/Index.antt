-- ===== src/Docs/NavTree/Index.antt =====
-- The tables that the viewer loads: docs/navtreeindex0.js, docs/navtreeindex1.js, and from
-- docs/navtreedata.js the index and the address of the root.
pub mod First
pub mod Second
use re_boot.Base.{List, [], ◌∷◌, codes}
use re_boot.Docs.NavTree.{Tree}
use re_boot.Docs.NavTree.Index.First.{navtreeindex0}
use re_boot.Docs.NavTree.Index.Second.{navtreeindex1}

abbrev pub viewer_tree : Tree
viewer_tree = record {
  bounds =
      codes "annotated.html" ∷ codes "group__fileio.html#ga6b358f78e9e2c28d530f45af26ca9a81" ∷ [];
  tables = navtreeindex0 ∷ navtreeindex1 ∷ [];
  home = codes "index.html";
}

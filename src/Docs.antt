-- ===== src/Docs.antt =====
-- The documentation viewer under docs/: the search panel and the tables that it works on. Text is a
-- list of UTF-16 code units, as JavaScript counts characters.
pub mod Ids
pub mod Results
pub mod Nav
pub mod NavTree
pub mod Box
pub mod Menu
pub mod Fold
pub mod Directory

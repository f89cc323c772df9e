-- ===== src/Docs/Box/Select/Data.antt =====
-- docs/search/searchdata.js: the sections of the search.
use re_boot.Base.{ℕ, List, [], ◌∷◌, codes}

-- `indexSectionsWithContent`
abbrev pub index_sections_with_content : List (List ℕ)
index_sections_with_content =
    codes "_abcdefghilmnopqrstuvw—→"
    ∷ codes "bcdfhmpqst"
    ∷ codes "abcdfgmpqrt"
    ∷ codes "acdfghimpqrst"
    ∷ codes "abcdefhilmnopqrstuvw"
    ∷ codes "fqt"
    ∷ codes "efs"
    ∷ codes "efs"
    ∷ codes "_cfmpqrstuv"
    ∷ codes "acdfilmoqstu"
    ∷ codes "br"
    ∷ []

-- `indexSectionLabels`
abbrev pub index_section_labels : List (List ℕ)
index_section_labels =
    codes "All"
    ∷ codes "Classes"
    ∷ codes "Files"
    ∷ codes "Functions"
    ∷ codes "Variables"
    ∷ codes "Typedefs"
    ∷ codes "Enumerations"
    ∷ codes "Enumerator"
    ∷ codes "Macros"
    ∷ codes "Modules"
    ∷ codes "Pages"
    ∷ []

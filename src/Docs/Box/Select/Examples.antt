-- ===== src/Docs/Box/Select/Examples.antt =====
-- The selection window of the documentation.
use re_boot.Base.{◌≡◌, refl, arith, [], ◌∷◌, length}
use re_boot.Docs.Box.Select.{other, select_item_count, select_item_set, init_search, select_all}
use re_boot.Docs.Box.Select.Data.{index_section_labels}
use re_boot.Docs.Box.Select.Marks.{marked, marked-select_item_set}

marked-select_item_set_example :
    (select_item_count (select_all (3 ∷ 7 ∷ []) (init_search index_section_labels (other ∷ [])))
      ≡ length index_section_labels)
    × (marked (
          select_item_set 10
            (select_all (3 ∷ 7 ∷ []) (init_search index_section_labels (other ∷ []))))
        ≡ 10 ∷ [])
unfolding select_item_count
marked-select_item_set_example =
    marked-select_item_set index_section_labels (other ∷ []) (3 ∷ 7 ∷ []) 10 refl (omega arith)

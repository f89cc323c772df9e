-- ===== src/Docs/Menu/Examples.antt =====
-- The main menu of the documentation.
use re_boot.Base.{◌≡◌, some, List, [], codes}
use re_boot.Docs.Menu.{make_tree}
use re_boot.Docs.Menu.Data.{menudata}
use re_boot.Docs.Menu.Outline.{Link, read_marks, menu_entries, Shows, read_marks-make_tree}

read_marks-make_tree_example :
    (links : List Link) × (read_marks [] (make_tree (codes "../") menudata) ≡ some links)
    × Shows (codes "../") (menu_entries 0 menudata) links
read_marks-make_tree_example = read_marks-make_tree menudata (codes "../")

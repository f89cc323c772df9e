-- ===== src/Docs/Directory/Level.antt =====
-- `toggleLevel`
use re_boot.Base.{ℕ, ◌+◌, ◌≡◌, sym, arith, ltb, ◌==◌, if◌then◌else◌, true, false, List, map}
use re_boot.Docs.Directory.{Row, is_child, underscores, level_row, toggle_level}
use re_boot.Docs.Directory.Keys.{underscores_of_child}
use re_boot.Docs.Directory.Shape.{In-map, keys-map, IsFolded, Folds, IsDirectory}
use re_boot.Docs.Directory.Stripes.{update_stripes-IsDirectory}

level_row-key : (level : ℕ) (r : Row) → (level_row level r).key ≡ r.key
unfolding level_row
level_row-key level r = ground arith

-- A row and its child after `toggleLevel`.
level_row-Folds :
    (level : ℕ) (p c : Row)
    → is_child p.key c.key ≡ true
    → Folds p c
    → Folds (level_row level p) (level_row level c)
unfolding level_row
level_row-Folds level p c h (down, a, v) =
    let l = underscores p.key + 1 in
    (
      if ltb l (level + 1) then true else if l == level + 1 then false else down,
      ground arith,
      ground (arith, underscores_of_child p.key c.key),
    )

level-IsFolded :
    (level : ℕ) (rows : List Row) → IsFolded rows → IsFolded (map (level_row level) rows)
level-IsFolded level rows f p c hp hc h =
    let (q, iq, eq) = In-map (level_row level) rows p hp in
    let (d, id, ed) = In-map (level_row level) rows c hc in
    let child : is_child q.key d.key ≡ true =
      rw (sym (level_row-key level q), sym (level_row-key level d), sym eq, sym ed) h in
    rw (eq, ed) (level_row-Folds level q d child (f q d iq id child))

pub toggle_level-IsDirectory :
    (level : ℕ) (rows : List Row) → IsDirectory rows → IsDirectory (toggle_level level rows)
unfolding toggle_level
toggle_level-IsDirectory level rows d =
    update_stripes-IsDirectory (map (level_row level) rows)
      (rw (keys-map (level_row level) rows (level_row-key level)) d.ordered)
      (level-IsFolded level rows d.folded)

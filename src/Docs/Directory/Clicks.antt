-- ===== src/Docs/Directory/Clicks.antt =====
-- The table after any clicks on its levels and its folders.
use re_boot.Base.{
  ℕ, ◌≡◌, inl, inr, refl, sym, ap, ◌∙◌, Bool, true, false, ◌&&◌, some, List, [], ◌∷◌, map,
}
use re_boot.Docs.Ids.Prefix.{starts_with}
use re_boot.Docs.Directory.{Row, is_child, first_child_shown, toggle_level, toggle_folder}
use re_boot.Docs.Directory.Keys.{starts_self}
use re_boot.Docs.Directory.Shape.{
  In, In-map, keys, keys-map, In-keys, IsOrdered, IsOrdered-closed, IsFolded, Folds, IsDirectory,
}
use re_boot.Docs.Directory.Stripes.{update_stripes-IsDirectory}
use re_boot.Docs.Directory.Level.{toggle_level-IsDirectory}
use re_boot.Docs.Directory.Folder.{change, toggle_rows-map, first_child_shown_all, change-key}
use re_boot.Docs.Directory.Folder.Pairs.{closing-Folds, opening-Folds}

-- A key has one row.
one_row :
    (rows : List Row) (r s : Row)
    → IsOrdered (keys rows)
    → In r rows
    → In s rows
    → r.key ≡ s.key
    → r ≡ s
one_row [] r s o i j e = absurd i
one_row (t ∷ rows) r s o (inl i) (inl j) e = i ∙ sym j
one_row (t ∷ rows) r s o (inl i) (inr j) e = absurd (
    cc
      (In-keys (λ (l : List ℕ). starts_with l t.key ≡ false) rows s o.1 j, starts_self s.key, e, i))
one_row (t ∷ rows) r s o (inr i) (inl j) e = absurd (
    cc
      (In-keys (λ (l : List ℕ). starts_with l t.key ≡ false) rows r o.1 i, starts_self r.key, e, j))
one_row (t ∷ rows) r s o (inr i) (inr j) e = one_row rows r s o.2 i j e

module _ (rows : List Row) (d : IsDirectory rows) (cur : Row) (here : In cur rows)
    (shown : cur.shown ≡ true) where
  -- A child is shown as the arrow of the row says, ...
  child_as_arrow :
      (down : Bool)
      → cur.arrow ≡ some down
      → (c : Row) → In c rows
      → is_child cur.key c.key ≡ true
      → c.shown ≡ down
  child_as_arrow down a c i h =
      let (b, a', v) = d.folded cur c here i h in cc (a, a', v, shown, and_true b)
    where
      and_true : (b : Bool) → (true && b) ≡ b
      and_true b = refl

  -- ... and so as the first child is.
  all_as_first :
      (c : Row)
      → In c rows
      → is_child cur.key c.key ≡ true
      → c.shown ≡ first_child_shown cur.key rows
  all_as_first c i h =
      let (down, a, v) = d.folded cur c here i h in
      child_as_arrow down a c i h
      ∙ sym (first_child_shown_all down cur.key rows (child_as_arrow down a) c i h)

  change-Folds :
      (b : Bool)
      → first_child_shown cur.key rows ≡ b
      → (p c : Row) → In p rows
      → In c rows
      → is_child p.key c.key ≡ true
      → Folds (change b cur.key p) (change b cur.key c)
  change-Folds true f p c i j h =
      closing-Folds cur.key p c (IsOrdered-closed rows cur d.ordered here) h (d.folded p c i j h)
  change-Folds false f p c i j h =
      opening-Folds cur.key p c (IsOrdered-closed rows cur d.ordered here)
        (IsOrdered-closed rows p d.ordered i) h
        (λ e. ap (λ (t : Row). t.shown) (one_row rows p cur d.ordered i here e) ∙ shown)
        (λ k. all_as_first p i k ∙ f) (d.folded p c i j h)

  change-IsFolded :
      (b : Bool) → first_child_shown cur.key rows ≡ b → IsFolded (map (change b cur.key) rows)
  change-IsFolded b f p c hp hc h =
      let (q, iq, eq) = In-map (change b cur.key) rows p hp in
      let (e, ie, ee) = In-map (change b cur.key) rows c hc in
      rw (eq, ee)
        (change-Folds b f q e iq ie
          (rw (sym (change-key b cur.key q), sym (change-key b cur.key e), sym eq, sym ee) h))

  pub toggle_folder-IsDirectory : IsDirectory (toggle_folder cur.key rows)
  unfolding toggle_folder
  toggle_folder-IsDirectory =
      let b = first_child_shown cur.key rows in
      rw (toggle_rows-map b cur.key rows cur d.ordered here refl refl) (
        update_stripes-IsDirectory (map (change b cur.key) rows)
          (rw (keys-map (change b cur.key) rows (change-key b cur.key)) d.ordered)
          (change-IsFolded b refl))

-- The tables that clicks lead to: on a level, or on the arrow of a row that is shown.
pub data Reached (start : List Row) : List Row → Type 0 where
  drawn : Reached start start
  level : {rows : List Row} → Reached start rows → (n : ℕ) → Reached start (toggle_level n rows)
  folder :
      {rows : List Row}
      → Reached start rows
      → (cur : Row) → In cur rows
      → cur.shown ≡ true
      → Reached start (toggle_folder cur.key rows)

-- Where it holds of a table as it is drawn, it holds after any clicks on a level or on a row that is
-- shown: the rows with children have an arrow, a child is shown exactly where its parent is shown
-- with the arrow down, the shown rows are even and odd in turn, and the keys are in order.
pub Reached-IsDirectory :
    {start rows : List Row} → IsDirectory start → Reached start rows → IsDirectory rows
Reached-IsDirectory h drawn = h
Reached-IsDirectory h (level r n) = toggle_level-IsDirectory n _ (Reached-IsDirectory h r)
Reached-IsDirectory h (folder r cur i s) =
    toggle_folder-IsDirectory _ (Reached-IsDirectory h r) cur i s

-- ===== src/Docs/Fold/Examples.antt =====
-- Clicks on a section and on a listing of two blocks.
use re_boot.Base.{◌≡◌, true, [], ◌∷◌, codes}
use re_boot.Docs.Fold.{
  toggle_visibility, toggle_inherit, codefold_toggle, codefold_toggle_all, init_codefold,
}
use re_boot.Docs.Fold.Toggles.{
  section, inherit, clicks, flipped, toggle_visibility-toggle_inherit, IsListing, Listed,
  Listed-IsListing,
}

toggle_visibility-toggle_inherit_example :
    (clicks 3 toggle_visibility (section (codes "dyn") true)
      ≡ section (codes "dyn") (flipped 3 true))
    × (clicks 3 toggle_inherit (inherit (codes "dyn") 4 true)
        ≡ inherit (codes "dyn") 4 (flipped 3 true))
toggle_visibility-toggle_inherit_example = toggle_visibility-toggle_inherit 3 (codes "dyn") 4 true

Listed-IsListing_example : IsListing (
    codefold_toggle
      (codes "00024")
      (codefold_toggle_all (init_codefold (codes "00012" ∷ codes "00024" ∷ []))))
Listed-IsListing_example = Listed-IsListing (Listed.one (Listed.all Listed.drawn) (codes "00024"))

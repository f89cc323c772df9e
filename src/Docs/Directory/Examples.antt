-- ===== src/Docs/Directory/Examples.antt =====
-- The first rows of the table of files.
use re_boot.Base.{
  ◌≡◌, ◌⊎◌, ap, arith, refl, inl, inr, true, false, none, some, List, [], ◌∷◌, codes,
}
use re_boot.Docs.Ids.Prefix.{starts_with}
use re_boot.Docs.Directory.{Row, toggle_folder, is_child}
use re_boot.Docs.Directory.Keys.{closed}
use re_boot.Docs.Directory.Shape.{IsDirectory, IsFolded, In, Folds}
use re_boot.Docs.Directory.Clicks.{Reached, Reached-IsDirectory}

abbrev comm : Row
comm = record {
  key = codes "0_";
  arrow = some true;
  icon = some true;
  shown = true;
  even = true;
  odd = false;
}

abbrev comm_manager : Row
comm_manager = record {
  key = codes "0_0_";
  arrow = none;
  icon = none;
  shown = true;
  even = false;
  odd = true;
}

abbrev transport_layer : Row
transport_layer = record {
  key = codes "0_1_";
  arrow = none;
  icon = none;
  shown = true;
  even = true;
  odd = false;
}

abbrev config : Row
config = record {
  key = codes "1_";
  arrow = some true;
  icon = some true;
  shown = true;
  even = false;
  odd = true;
}

abbrev files : List Row
files = comm ∷ comm_manager ∷ transport_layer ∷ config ∷ []

no_children :
    (p c : Row)
    → In c files
    → is_child p.key c.key ≡ true
    → (p.key ≡ codes "0_0_") ⊎ (p.key ≡ codes "0_1_") ⊎ (p.key ≡ codes "1_")
    → Folds p c
unfolding is_child
no_children p c hc h e = ground arith

files-IsFolded : IsFolded files
unfolding is_child
files-IsFolded p c (inl e) (inl f) h = ground arith
files-IsFolded p c (inl e) (inr (inl f)) h = (true, ap (λ (t : Row). t.arrow) e, ground arith)
files-IsFolded p c (inl e) (inr (inr (inl f))) h = (true, ap (λ (t : Row). t.arrow) e, ground arith)
files-IsFolded p c (inl e) (inr (inr (inr (inl f)))) h = ground arith
files-IsFolded p c (inl e) (inr (inr (inr (inr f)))) h = absurd f
files-IsFolded p c (inr (inl e)) hc h = no_children p c hc h (ground arith)
files-IsFolded p c (inr (inr (inl e))) hc h = no_children p c hc h (ground arith)
files-IsFolded p c (inr (inr (inr (inl e)))) hc h = no_children p c hc h (ground arith)
files-IsFolded p c (inr (inr (inr (inr e)))) hc h = absurd e

files-IsDirectory : IsDirectory files
unfolding closed starts_with
files-IsDirectory = record {
  ordered = (
    refl,
    (refl, (refl, (refl, tt))),
    (refl, (refl, (refl, tt)), (refl, (refl, tt), (refl, tt, tt))),
  );
  folded = files-IsFolded;
  striped = (refl, refl, (refl, refl, (refl, refl, (refl, refl, tt))));
}

Reached-IsDirectory_example : IsDirectory (toggle_folder (codes "0_") files)
Reached-IsDirectory_example =
    Reached-IsDirectory files-IsDirectory (Reached.folder Reached.drawn comm (inl refl) refl)

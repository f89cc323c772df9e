-- ===== src/Docs/Fold/Toggles.antt =====
-- What clicks make of a section and of a listing.
use re_boot.Base.{
  ℕ, zero, suc, ◌≡◌, refl, ap, ◌∙◌, arith, Bool, true, false, not, List, [], ◌∷◌, ◌++◌, map, length,
  take, take-length_append, length-append, replicate, codes, same_text, All, Bool-cases, inl, inr,
}
use re_boot.Docs.Fold.{
  Section, without_end, toggle_visibility, Inherit, toggle_inherit, Block, Listing,
  codefold_toggle_all, toggle_block, codefold_toggle, init_codefold,
}

-- The names of the two pictures.
abbrev pub picture : Bool → List ℕ
picture true = codes "open.png"
picture false = codes "closed.png"

abbrev pub section : List ℕ → Bool → Section
section base open_ = record {
  summary = not open_;
  content = open_;
  has_closed = not open_;
  has_opened = open_;
  src = base ++ picture open_;
}

abbrev pub inherit : List ℕ → ℕ → Bool → Inherit
inherit base more open_ = record {
  rows = open_ ∷ replicate more open_;
  src = base ++ picture open_;
}

without_end-append :
    (n : ℕ) (base end_ : List ℕ) → length end_ ≡ n → without_end n (base ++ end_) ≡ base
unfolding without_end
without_end-append n base end_ h =
    ap (λ (k : ℕ). take k (base ++ end_)) (omega (arith, length-append base end_, h))
    ∙ take-length_append base end_

map-replicate : (a b : Bool) (n : ℕ) → map (λ (r : Bool). a) (replicate n b) ≡ replicate n a
map-replicate a b zero = refl
map-replicate a b (suc n) = ap (λ (rows : List Bool). a ∷ rows) (map-replicate a b n)

visibility_once :
    (base : List ℕ) (b : Bool) → toggle_visibility (section base b) ≡ section base (not b)
unfolding toggle_visibility
visibility_once base true = rw (without_end-append 8 base (codes "open.png") refl) refl
visibility_once base false = rw (without_end-append 10 base (codes "closed.png") refl) refl

inherit_once :
    (base : List ℕ) (more : ℕ) (b : Bool)
    → toggle_inherit (inherit base more b) ≡ inherit base more (not b)
unfolding toggle_inherit
inherit_once base more true =
    rw (without_end-append 8 base (codes "open.png") refl, map-replicate false true more) refl
inherit_once base more false =
    rw (without_end-append 10 base (codes "closed.png") refl, map-replicate true false more) refl

abbrev pub clicks {ℓ} : {A : Type ℓ} → ℕ → (A → A) → A → A
clicks zero f a = a
clicks (suc n) f a = f (clicks n f a)

abbrev pub flipped : ℕ → Bool → Bool
flipped zero b = b
flipped (suc n) b = not (flipped n b)

-- After any number of clicks a section of a page and the rows of inherited members, of which there is
-- one at least, are open or closed as they were at first, or the other way round, as the number is
-- even or odd; the summary, the classes of the link and the picture go with it.
pub toggle_visibility-toggle_inherit :
    (n : ℕ) (base : List ℕ) (more : ℕ) (b : Bool)
    → (clicks n toggle_visibility (section base b) ≡ section base (flipped n b))
      × (clicks n toggle_inherit (inherit base more b) ≡ inherit base more (flipped n b))
toggle_visibility-toggle_inherit zero base more b = (refl, refl)
toggle_visibility-toggle_inherit (suc n) base more b =
    let (s, i) = toggle_visibility-toggle_inherit n base more b in
    (
      ap toggle_visibility s ∙ visibility_once base (flipped n b),
      ap toggle_inherit i ∙ inherit_once base more (flipped n b),
    )

-- One part of each block is shown, and the picture is as the variable says.
pub record IsListing (l : Listing) : Type 0 where
  pub pictured : l.minus ≡ l.opened
  pub one_part : All (λ (b : Block). b.closed_shown ≡ not b.open_shown) l.blocks

-- The listings that clicks lead to.
pub data Listed (ids : List (List ℕ)) : Listing → Type 0 where
  drawn : Listed ids (init_codefold ids)
  all : {l : Listing} → Listed ids l → Listed ids (codefold_toggle_all l)
  one : {l : Listing} → Listed ids l → (id : List ℕ) → Listed ids (codefold_toggle id l)

toggle_block-one_part :
    (id : List ℕ) (blocks : List Block)
    → All (λ (b : Block). b.closed_shown ≡ not b.open_shown) blocks
    → All (λ (b : Block). b.closed_shown ≡ not b.open_shown) (toggle_block id blocks)
unfolding toggle_block
toggle_block-one_part id [] h = tt
toggle_block-one_part id (b ∷ blocks) h = elim (Bool-cases (same_text b.id id)) [
  | inl e ↦ rw e (ap not h.0, h.1)
  | inr e ↦ rw e (h.0, toggle_block-one_part id blocks h.1)
]

blocks_alike :
    (o : Bool) (blocks : List Block)
    → All
        (λ (b : Block). b.closed_shown ≡ not b.open_shown)
        (map (λ (b : Block). record b { open_shown = not o; closed_shown = o }) blocks)
blocks_alike o [] = tt
blocks_alike true (b ∷ blocks) = (refl, blocks_alike true blocks)
blocks_alike false (b ∷ blocks) = (refl, blocks_alike false blocks)

init_one_part :
    (ids : List (List ℕ))
    → All (λ (b : Block). b.closed_shown ≡ not b.open_shown) (init_codefold ids).blocks
unfolding init_codefold
init_one_part [] = tt
init_one_part (id ∷ ids) = (refl, init_one_part ids)

-- In a listing, after any clicks on its blocks and on the switch for all of them, one of the two parts
-- of each block is shown and the other is not, and the switch has the picture for its variable.
pub Listed-IsListing : {ids : List (List ℕ)} {l : Listing} → Listed ids l → IsListing l
unfolding init_codefold codefold_toggle_all codefold_toggle
Listed-IsListing {ids} drawn = record { pictured = refl; one_part = init_one_part ids }
Listed-IsListing (all {l} r) = record { pictured = refl; one_part = blocks_alike l.opened l.blocks }
Listed-IsListing (one {l} r id) =
    let v = Listed-IsListing r in
    record { pictured = v.pictured; one_part = toggle_block-one_part id l.blocks v.one_part }

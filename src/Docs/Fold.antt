-- ===== src/Docs/Fold.antt =====
-- docs/dynsections.js: the sections of a page that fold. A section of a diagram, the rows of
-- inherited members, and the blocks of a source listing.
pub mod Toggles
pub mod Examples
use re_boot.Base.{
  ℕ, ◌-◌, if◌then◌else◌, Bool, true, false, not, List, [], ◌∷◌, ◌++◌, map, length, take, codes,
  same_text,
}

-- `toggleVisibility`: the summary, the content, the classes of the link and the picture of the trigger.
pub record Section : Type 0 where
  pub summary : Bool
  pub content : Bool
  pub has_closed : Bool
  pub has_opened : Bool
  pub src : List ℕ

-- `src.substring(0, src.length - n)`
pub without_end : ℕ → List ℕ → List ℕ
without_end n src = take (length src - n) src

pub toggle_visibility : Section → Section
unfolding without_end
toggle_visibility s =
    if s.content
    then record {
      summary = true;
      content = false;
      has_closed = true;
      has_opened = false;
      src = without_end 8 s.src ++ codes "closed.png";
    }
    else record {
      summary = false;
      content = true;
      has_closed = false;
      has_opened = true;
      src = without_end 10 s.src ++ codes "open.png";
    }

-- `toggleInherit`: whether each row is displayed, and the picture of the header.
pub record Inherit : Type 0 where
  pub rows : List Bool
  pub src : List ℕ

abbrev first_shown : List Bool → Bool
first_shown [] = false
first_shown (r ∷ rows) = r

pub toggle_inherit : Inherit → Inherit
unfolding without_end
toggle_inherit s =
    if first_shown s.rows
    then record {
      rows = map (λ (r : Bool). false) s.rows;
      src = without_end 8 s.src ++ codes "closed.png";
    }
    else record {
      rows = map (λ (r : Bool). true) s.rows;
      src = without_end 10 s.src ++ codes "open.png";
    }

-- A block of a listing: its id, and whether its 'foldopen' and its 'foldclosed' parts are shown.
pub record Block : Type 0 where
  pub id : List ℕ
  pub open_shown : Bool
  pub closed_shown : Bool

-- A listing; the picture of the first line is 'minus' where the variable `opened` holds.
pub record Listing : Type 0 where
  pub opened : Bool
  pub minus : Bool
  pub blocks : List Block

pub codefold_toggle_all : Listing → Listing
codefold_toggle_all l = record {
  opened = not l.opened;
  minus = not l.opened;
  blocks =
      map (λ (b : Block). record b { open_shown = not l.opened; closed_shown = l.opened }) l.blocks;
}

-- `codefold_toggle`: jQuery's `toggle` of both parts; an id has one block.
pub toggle_block : List ℕ → List Block → List Block
toggle_block id [] = []
toggle_block id (b ∷ blocks) =
    if same_text b.id id
    then record b { open_shown = not b.open_shown; closed_shown = not b.closed_shown } ∷ blocks
    else b ∷ toggle_block id blocks

pub codefold_toggle : List ℕ → Listing → Listing
unfolding toggle_block
codefold_toggle id l = record l { blocks = toggle_block id l.blocks }

-- The blocks that `init_codefold` makes of the 'foldopen' parts: the other part is added hidden.
pub init_codefold : List (List ℕ) → Listing
init_codefold ids = record {
  opened = true;
  minus = true;
  blocks = map (λ (id : List ℕ). record { id = id; open_shown = true; closed_shown = false }) ids;
}

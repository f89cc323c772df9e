-- ===== src/Docs/Directory/Shape.antt =====
-- The invariant of a directory table.
use re_boot.Base.{
  ℕ, ◌≡◌, ◌⊎◌, inl, inr, refl, ap₂, Bool, true, false, not, ◌&&◌, if◌then◌else◌, some, List, [],
  ◌∷◌, map, All,
}
use re_boot.Docs.Ids.Prefix.{starts_with}
use re_boot.Docs.Directory.{Row, is_child}
use re_boot.Docs.Directory.Keys.{closed}

abbrev pub In : Row → List Row → Type 0
In r [] = ⊥
In r (s ∷ rows) = (r ≡ s) ⊎ In r rows

pub In-map :
    (f : Row → Row) (rows : List Row) (r : Row)
    → In r (map f rows)
    → (s : Row) × In s rows × (r ≡ f s)
In-map f [] r h = absurd h
In-map f (s ∷ rows) r (inl e) = (s, inl refl, e)
In-map f (s ∷ rows) r (inr h) = let (t, i, e) = In-map f rows r h in (t, inr i, e)

-- A row has an arrow, and one of its children is shown exactly where the row is and the arrow points
-- down.
abbrev pub Folds : Row → Row → Type 0
Folds p c = (down : Bool) × (p.arrow ≡ some down) × (c.shown ≡ (p.shown && down))

abbrev pub IsFolded : List Row → Type 0
IsFolded rows = (p c : Row) → In p rows → In c rows → is_child p.key c.key ≡ true → Folds p c

abbrev pub keys : List Row → List (List ℕ)
keys [] = []
keys (r ∷ rows) = r.key ∷ keys rows

-- The keys end with an underscore, and none starts a key before it.
abbrev pub IsOrdered : List (List ℕ) → Type 0
IsOrdered [] = Unit
IsOrdered (k ∷ ks) =
    (closed k ≡ true) × All (λ (l : List ℕ). starts_with l k ≡ false) ks × IsOrdered ks

pub keys-map :
    (f : Row → Row) (rows : List Row)
    → ((r : Row) → (f r).key ≡ r.key)
    → keys (map f rows) ≡ keys rows
keys-map f [] h = refl
keys-map f (r ∷ rows) h = ap₂ ◌∷◌ (h r) (keys-map f rows h)

pub In-keys :
    (P : List ℕ → Type 0) (rows : List Row) (r : Row) → All P (keys rows) → In r rows → P r.key
In-keys P [] r a h = absurd h
In-keys P (s ∷ rows) r a (inl e) = rw e a.0
In-keys P (s ∷ rows) r a (inr h) = In-keys P rows r a.1 h

pub IsOrdered-closed :
    (rows : List Row) (r : Row) → IsOrdered (keys rows) → In r rows → closed r.key ≡ true
IsOrdered-closed [] r o h = absurd h
IsOrdered-closed (s ∷ rows) r o (inl e) = rw e o.0
IsOrdered-closed (s ∷ rows) r o (inr h) = IsOrdered-closed rows r o.2 h

-- The shown rows are even and odd in turn, the others neither.
abbrev pub IsStriped : Bool → List Row → Type 0
IsStriped is_even [] = Unit
IsStriped is_even (r ∷ rows) =
    (r.even ≡ (r.shown && is_even))
    × (r.odd ≡ (r.shown && not is_even))
    × IsStriped (if r.shown then not is_even else is_even) rows

-- What holds of a table that is drawn.
pub record IsDirectory (rows : List Row) : Type 0 where
  pub ordered : IsOrdered (keys rows)
  pub folded : IsFolded rows
  pub striped : IsStriped true rows

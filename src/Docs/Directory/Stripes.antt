-- ===== src/Docs/Directory/Stripes.antt =====
-- The stripes change nothing else.
use re_boot.Base.{
  ℕ, ◌≡◌, inl, inr, refl, sym, ap, ◌∙◌, Bool, true, not, ◌&&◌, if◌then◌else◌, List, [], ◌∷◌,
}
use re_boot.Docs.Directory.{Row, stripes, update_stripes}
use re_boot.Docs.Directory.Shape.{In, keys, IsOrdered, IsFolded, IsStriped, IsDirectory}

stripes-IsStriped : (b : Bool) (rows : List Row) → IsStriped b (stripes b rows)
unfolding stripes
stripes-IsStriped b [] = tt
stripes-IsStriped b (r ∷ rows) = (refl, refl, stripes-IsStriped (if r.shown then not b else b) rows)

keys-stripes : (b : Bool) (rows : List Row) → keys (stripes b rows) ≡ keys rows
unfolding stripes
keys-stripes b [] = refl
keys-stripes b (r ∷ rows) =
    ap (λ (ks : List (List ℕ)). r.key ∷ ks) (keys-stripes (if r.shown then not b else b) rows)

In-stripes :
    (b : Bool) (rows : List Row) (r : Row)
    → In r (stripes b rows)
    → (s : Row) × In s rows × (r.key ≡ s.key) × (r.arrow ≡ s.arrow) × (r.shown ≡ s.shown)
unfolding stripes
In-stripes b [] r h = absurd h
In-stripes b (s ∷ rows) r (inl e) = (
  s,
  inl refl,
  ap (λ (t : Row). t.key) e,
  ap (λ (t : Row). t.arrow) e,
  ap (λ (t : Row). t.shown) e,
)
In-stripes b (s ∷ rows) r (inr h) =
    let (t, i, k, a, v) = In-stripes (if s.shown then not b else b) rows r h in (t, inr i, k, a, v)

stripes-IsFolded : (rows : List Row) → IsFolded rows → IsFolded (stripes true rows)
stripes-IsFolded rows f p c hp hc h =
    let (q, iq, kq, aq, vq) = In-stripes true rows p hp in
    let (d, id, kd, ad, vd) = In-stripes true rows c hc in
    let (down, a, v) = f q d iq id (rw (sym kq, sym kd) h) in
    (down, aq ∙ a, vd ∙ v ∙ ap (λ (t : Bool). t && down) (sym vq))

pub update_stripes-IsDirectory :
    (rows : List Row) → IsOrdered (keys rows) → IsFolded rows → IsDirectory (update_stripes rows)
unfolding update_stripes
update_stripes-IsDirectory rows o f = record {
  ordered = rw (keys-stripes true rows) o;
  folded = stripes-IsFolded rows f;
  striped = stripes-IsStriped true rows;
}

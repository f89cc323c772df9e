-- ===== src/Base/Text.antt =====
-- Text as the list of its code units.
use Prim.Native.Nat.{ℕ}
use Prim.Native.Char.{code}
use Prim.Native.String.{String}
use mathlib.Core.Path.{◌≡◌, refl, ap₂}
use mathlib.Core.Bool.{Bool, true, false, ◌&&◌}
use mathlib.Core.List.{List, [], ◌∷◌}
use native.Mathlib.Omega.{arith}
use re_boot.Base.Tests.{leb, ◌==◌, if◌then◌else◌}

abbrev pub codes : String → List ℕ
codes String.[] = []
codes (String.◌∷◌ c s) = code c ∷ codes s

unfoldable pub is_digit : ℕ → Bool
is_digit c = leb b'0' c && leb c b'9'

-- Whether two texts are equal.
unfoldable pub same_text : List ℕ → List ℕ → Bool
same_text [] [] = true
same_text [] (y ∷ b) = false
same_text (x ∷ a) [] = false
same_text (x ∷ a) (y ∷ b) = if x == y then same_text a b else false

first_same :
    (x y : ℕ) (a b : List ℕ) → same_text (x ∷ a) (y ∷ b) ≡ true → (x ≡ y) × (same_text a b ≡ true)
unfolding same_text
first_same x y a b h = ground arith

pub same_text→eq : (a b : List ℕ) → same_text a b ≡ true → a ≡ b
same_text→eq [] [] h = refl
same_text→eq [] (y ∷ b) h = absurd (unfold same_text in cc)
same_text→eq (x ∷ a) [] h = absurd (unfold same_text in cc)
same_text→eq (x ∷ a) (y ∷ b) h =
    let (e, rest) = first_same x y a b h in
    ap₂ (λ (x : ℕ) (a : List ℕ). x ∷ a) e (same_text→eq a b rest)

pub same_text_self : (a : List ℕ) → same_text a a ≡ true
unfolding same_text
same_text_self [] = refl
same_text_self (x ∷ a) = ground (arith, same_text_self a)

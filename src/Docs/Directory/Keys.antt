-- ===== src/Docs/Directory/Keys.antt =====
-- Keys of rows and of their children.
use re_boot.Base.{
  ℕ, ◌+◌, ◌≤◌, ◌≡◌, ◌⊎◌, inl, inr, refl, arith, ◌==◌, Bool, true, false, List, [], ◌∷◌, is_digit,
  Bool-cases, eq→==,
}
use re_boot.Docs.Ids.Prefix.{starts_with}
use re_boot.Docs.Directory.{underscores, digits_then_end, one_name, is_child}

-- The last unit is an underscore.
unfoldable pub closed : List ℕ → Bool
closed [] = false
closed (c ∷ []) = c == b'_'
closed (c ∷ d ∷ key) = closed (d ∷ key)

digits_count : (key : List ℕ) → digits_then_end key ≡ true → underscores key ≡ 1
unfolding digits_then_end underscores is_digit
digits_count [] h = cc
digits_count (c ∷ []) h = ground arith
digits_count (c ∷ d ∷ key) h = ground (arith, digits_count (d ∷ key))

name_count : (key : List ℕ) → one_name key ≡ true → underscores key ≡ 1
unfolding one_name underscores is_digit
name_count [] h = cc
name_count (c ∷ key) h = ground (arith, digits_count key)

pub underscores_of_child :
    (id key : List ℕ) → is_child id key ≡ true → underscores key ≡ underscores id + 1
unfolding is_child underscores
underscores_of_child [] key h = omega (arith, name_count key h)
underscores_of_child (c ∷ id) [] h = cc
underscores_of_child (c ∷ id) (d ∷ key) h = ground (arith, underscores_of_child id key)

pub child_starts : (id key : List ℕ) → is_child id key ≡ true → starts_with id key ≡ true
unfolding is_child starts_with
child_starts [] key h = refl
child_starts (c ∷ id) [] h = cc
child_starts (c ∷ id) (d ∷ key) h = ground (arith, child_starts id key)

pub starts_trans :
    (a b c : List ℕ) → starts_with a b ≡ true → starts_with b c ≡ true → starts_with a c ≡ true
unfolding starts_with
starts_trans [] b c h k = refl
starts_trans (x ∷ a) [] c h k = cc
starts_trans (x ∷ a) (y ∷ b) [] h k = cc
starts_trans (x ∷ a) (y ∷ b) (z ∷ c) h k = ground (arith, starts_trans a b c)

pub starts_self : (a : List ℕ) → starts_with a a ≡ true
unfolding starts_with
starts_self [] = refl
starts_self (x ∷ a) = rw (eq→== x x refl) (starts_self a)

-- What is left of a key behind its first units.
abbrev IsRest : List ℕ → Type 0
IsRest key = (key ≡ []) ⊎ (closed key ≡ true)

tail-IsRest : (c : ℕ) (key : List ℕ) → IsRest (c ∷ key) → IsRest key
unfolding closed
tail-IsRest c [] h = inl refl
tail-IsRest c (d ∷ key) h = ground arith

rest_count : (c : ℕ) (key : List ℕ) → IsRest (c ∷ key) → 1 ≤ underscores (c ∷ key)
unfolding closed underscores
rest_count c [] h = ground arith
rest_count c (d ∷ key) h =
    let more : 1 ≤ underscores (d ∷ key) = rest_count d key (tail-IsRest c (d ∷ key) h) in
    elim (Bool-cases (c == b'_')) [ inl e ↦ rw (e) (omega arith) | inr e ↦ rw (e) more ]

name_or_more :
    (c : ℕ) (id key : List ℕ)
    → IsRest (c ∷ id)
    → one_name key ≡ true
    → is_child (c ∷ id) key ≡ true
    → ⊥
name_or_more c id key r h k =
    omega (arith, name_count key h, underscores_of_child (c ∷ id) key k, rest_count c id r)

same_parent :
    (a b key : List ℕ) → IsRest a → IsRest b → is_child a key ≡ true → is_child b key ≡ true → a ≡ b
unfolding is_child
same_parent [] [] key ra rb h k = refl
same_parent [] (d ∷ b) key ra rb h k = absurd (name_or_more d b key rb h k)
same_parent (c ∷ a) [] key ra rb h k = absurd (name_or_more c a key ra k h)
same_parent (c ∷ a) (d ∷ b) [] ra rb h k = cc
same_parent (c ∷ a) (d ∷ b) (e ∷ key) ra rb h k =
    ground (arith, same_parent a b key (tail-IsRest c a ra) (tail-IsRest d b rb))

-- A key has one parent.
pub one_parent :
    (a b key : List ℕ)
    → closed a ≡ true
    → closed b ≡ true
    → is_child a key ≡ true
    → is_child b key ≡ true
    → a ≡ b
one_parent a b key ca cb h k = same_parent a b key (inr ca) (inr cb) h k

digits_whole :
    (c : ℕ) (id key : List ℕ)
    → IsRest (c ∷ id)
    → digits_then_end key ≡ true
    → starts_with (c ∷ id) key ≡ true
    → c ∷ id ≡ key
unfolding digits_then_end starts_with closed is_digit
digits_whole c id [] r h k = cc
digits_whole c [] (d ∷ []) r h k = ground arith
digits_whole c (e ∷ id) (d ∷ []) r h k = ground arith
digits_whole c [] (d ∷ f ∷ key) r h k = ground arith
digits_whole c (e ∷ id) (d ∷ f ∷ key) r h k =
    ground (arith, digits_whole e id (f ∷ key) (tail-IsRest c (e ∷ id) r))

name_whole :
    (c : ℕ) (id key : List ℕ)
    → IsRest (c ∷ id)
    → one_name key ≡ true
    → starts_with (c ∷ id) key ≡ true
    → c ∷ id ≡ key
unfolding one_name starts_with closed is_digit digits_then_end
name_whole c id [] r h k = cc
name_whole c [] (d ∷ key) r h k = ground arith
name_whole c (e ∷ id) (d ∷ key) r h k =
    ground (arith, digits_whole e id key (tail-IsRest c (e ∷ id) r))

parent_or_same :
    (id p key : List ℕ)
    → IsRest id
    → is_child p key ≡ true
    → starts_with id key ≡ true
    → (id ≡ key) ⊎ (starts_with id p ≡ true)
unfolding is_child starts_with
parent_or_same [] p key r h k = inr refl
parent_or_same (c ∷ id) [] key r h k = inl (name_whole c id key r h k)
parent_or_same (c ∷ id) (d ∷ p) [] r h k = cc
parent_or_same (c ∷ id) (d ∷ p) (e ∷ key) r h k =
    ground (arith, parent_or_same id p key (tail-IsRest c id r))

-- What begins with a key is this key, or its parent begins with it.
pub starts_or_same :
    (id p key : List ℕ)
    → closed id ≡ true
    → is_child p key ≡ true
    → starts_with id key ≡ true
    → (id ≡ key) ⊎ (starts_with id p ≡ true)
starts_or_same id p key c h k = parent_or_same id p key (inr c) h k

-- A child is not the start of its parent.
pub child_not_start : (id key : List ℕ) → is_child id key ≡ true → starts_with key id ≡ false
unfolding is_child starts_with one_name
child_not_start [] [] h = cc
child_not_start [] (d ∷ key) h = refl
child_not_start (c ∷ id) [] h = cc
child_not_start (c ∷ id) (d ∷ key) h = ground (arith, child_not_start id key)

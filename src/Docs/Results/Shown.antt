-- ===== src/Docs/Results/Shown.antt =====
-- Which results a search shows.
use re_boot.Base.{same_text, ℕ, suc, ◌+◌, ◌^◌, ◌<◌, ◌≡◌, ◌≢◌, refl, sym, ap, ◌∙◌, ◌⊎◌, inl, inr}
use re_boot.Base.{leb, ◌==◌, if◌then◌else◌, Bool, true, false, ◌&&◌, arith, All, eq→==, ne→==}
use re_boot.Base.{List, [], ◌∷◌, ◌++◌, map, Bool-cases, ℕ_discrete, length}
use re_boot.Docs.Ids.{convert_to_id}
use re_boot.Docs.Ids.Prefix.{starts_with, starts_with-convert_to_id}
use re_boot.Docs.Results.{
  is_block, block, hidden, Div, Entry, create_result, create_results, row_match_name,
}
use re_boot.Docs.Results.{
  row_matches, search_rows, Page, search_id, search, strip_leading, strip_trailing,
}

-- The test of the loop is that the name starts with the word.
row_matches-eq-starts_with : (word name : List ℕ) → row_matches word name ≡ starts_with word name
unfolding row_matches starts_with same_text
row_matches-eq-starts_with [] name = ground arith
row_matches-eq-starts_with (w ∷ word) [] = ground arith
row_matches-eq-starts_with (w ∷ word) (n ∷ name) =
    let rest = row_matches-eq-starts_with word name in
    elim (ℕ_discrete w n) [
      | yes e ↦ rw (eq→== w n e, eq→== n w (sym e), leb_suc (length word) (length name)) rest
      | no ne ↦
          rw (ne→== w n ne, ne→== n w (λ e. ne (sym e)))
            (never (leb (suc (length word)) (suc (length name))))
    ]
  where
    leb_suc : (a b : ℕ) → leb (suc a) (suc b) ≡ leb a b
    leb_suc a b = ground arith

    never : (b : Bool) → b && false ≡ false
    never true = refl
    never false = refl

first_same :
    (x y : ℕ) (xs ys : List ℕ)
    → starts_with (x ∷ xs) (y ∷ ys) ≡ true
    → (x ≡ y) × (starts_with xs ys ≡ true)
unfolding starts_with
first_same x y xs ys h = ground arith

same_first :
    (x y : ℕ) (xs ys : List ℕ)
    → x ≡ y
    → starts_with xs ys ≡ true
    → starts_with (x ∷ xs) (y ∷ ys) ≡ true
unfolding starts_with
same_first x y xs ys e h = rw (eq→== x y e) h

-- A start of a text that goes on.
starts_longer : (xs ys zs : List ℕ) → starts_with xs ys ≡ true → starts_with xs (ys ++ zs) ≡ true
starts_longer [] ys zs h = unfold starts_with in refl
starts_longer (x ∷ xs) [] zs h = absurd (unfold starts_with in cc)
starts_longer (x ∷ xs) (y ∷ ys) zs h =
    let (e, rest) = first_same x y xs ys h in
    same_first x y xs (ys ++ zs) e (starts_longer xs ys zs rest)

starts_shorter :
    (xs ys zs : List ℕ)
    → starts_with xs (ys ++ zs) ≡ true
    → (starts_with xs ys ≡ true) ⊎ (starts_with ys xs ≡ true)
starts_shorter [] ys zs h = inl (unfold starts_with in refl)
starts_shorter (x ∷ xs) [] zs h = inr (unfold starts_with in refl)
starts_shorter (x ∷ xs) (y ∷ ys) zs h =
    let (e, rest) = first_same x y xs (ys ++ zs) h in
    elim (starts_shorter xs ys zs rest) [
      | inl s ↦ inl (same_first x y xs ys e s)
      | inr s ↦ inr (same_first y x ys xs (sym e) s)
    ]

-- A result as the tables list it: the id is the name's, an underscore and a suffix.
pub record Named : Type 0 where
  pub name : List ℕ
  pub suffix : List ℕ
  pub places : ℕ

abbrev pub entry_of : Named → Entry
entry_of n = record { id = convert_to_id n.name ++ b'_' ∷ n.suffix; places = n.places }

-- A name of code units, whose id is in lower case.
pub record IsNamed (lower : List ℕ → List ℕ) (n : Named) : Type 0 where
  pub units : All (λ c. c < 2 ^ 16) n.name
  pub lowered : lower (b'S' ∷ b'R' ∷ b'_' ∷ (entry_of n).id) ≡ b's' ∷ b'r' ∷ b'_' ∷ (entry_of n).id

-- A result is shown if its name starts with the text; and one that is shown has a name that starts
-- with the text, or that the text runs through and goes on.
abbrev pub IsShown : List ℕ → List Named → List Div → Type 0
IsShown text [] [] = Unit
IsShown text (n ∷ names) [] = true ≡ false
IsShown text [] (d ∷ divs) = true ≡ false
IsShown text (n ∷ names) (d ∷ divs) =
    ((starts_with text n.name ≡ true → d.display ≡ block)
      × (d.display ≡ block → (starts_with text n.name ≡ true) ⊎ (starts_with n.name text ≡ true)))
    × IsShown text names divs

unfoldable pub shown_count : List Div → ℕ
shown_count [] = 0
shown_count (d ∷ divs) =
    let rest = shown_count divs in if is_block d.display then suc rest else rest

-- A row of the loop that matches, and one that does not.
row_shown :
    (lower : List ℕ → List ℕ) (word : List ℕ) (row : Div) (rows : List Div)
    → row.result ≡ true
    → row_matches word (row_match_name (lower row.id)) ≡ true
    → let r = search_rows lower word rows in
      search_rows lower word (row ∷ rows) ≡ (record row { display = block } ∷ r.0, r.1 + 1)
unfolding search_rows
row_shown lower word row rows e m = rw (e, m) refl

row_hidden :
    (lower : List ℕ → List ℕ) (word : List ℕ) (row : Div) (rows : List Div)
    → row.result ≡ true
    → row_matches word (row_match_name (lower row.id)) ≡ false
    → let r = search_rows lower word rows in
      search_rows lower word (row ∷ rows) ≡ (record row { display = hidden } ∷ r.0, r.1)
unfolding search_rows
row_hidden lower word row rows e m = rw (e, m) refl

module _ (lower : List ℕ → List ℕ) (text : List ℕ) (units : All (λ c. c < 2 ^ 16) text) where
  -- The name that the loop compares is the id of the table.
  row_name :
      (n : Named)
      → IsNamed lower n
      → row_match_name (lower (create_result (entry_of n)).id) ≡ (entry_of n).id
  unfolding row_match_name create_result
  row_name n v = ap row_match_name v.lowered

  row_matches-starts_with :
      (n : Named)
      → IsNamed lower n
      → row_matches (convert_to_id text) (row_match_name (lower (create_result (entry_of n)).id))
        ≡ starts_with (convert_to_id text) (convert_to_id n.name ++ b'_' ∷ n.suffix)
  row_matches-starts_with n v =
      ap (row_matches (convert_to_id text)) (row_name n v) ∙ row_matches-eq-starts_with _ _

  -- The loop over the rows that `createResults` made.
  search_rows-IsShown :
      (names : List Named)
      → All (IsNamed lower) names
      → let r = search_rows lower (convert_to_id text) (create_results (map entry_of names)) in
        IsShown text names r.0 × (r.1 ≡ shown_count r.0)
  unfolding create_results create_result search_rows shown_count is_block
  search_rows-IsShown [] v = (tt, refl)
  search_rows-IsShown (n ∷ names) v =
      let row = create_result (entry_of n) in
      let rows = create_results (map entry_of names) in
      let (shown, counted) = search_rows-IsShown names v.1 in
      let word = convert_to_id text in
      let by_name = starts_with-convert_to_id text n.name units v.0.units in
      let matched = row_matches-starts_with n v.0 in
      elim (Bool-cases (row_matches word (row_match_name (lower row.id)))) [
        | inl m ↦ rw (row_shown lower word row rows refl m) (
          ((λ h. refl, λ h. name_or_beyond n (sym matched ∙ m) v.0), shown),
          omega (arith, counted),
        )
        | inr m ↦ rw (row_hidden lower word row rows refl m) (
          (
            (
              λ h. absurd (
                  true≢false (
                    sym (starts_longer word (convert_to_id n.name) (b'_' ∷ n.suffix) (by_name ∙ h))
                    ∙ sym matched
                    ∙ m)),
              λ h. absurd (hidden≢block h),
            ),
            shown,
          ),
          counted,
        )
      ]
    where
      true≢false : true ≢ false
      true≢false e = cc

      hidden≢block : hidden ≢ block
      hidden≢block e = cc

      name_or_beyond :
          (n : Named)
          → starts_with (convert_to_id text) (convert_to_id n.name ++ b'_' ∷ n.suffix) ≡ true
          → IsNamed lower n
          → (starts_with text n.name ≡ true) ⊎ (starts_with n.name text ≡ true)
      name_or_beyond n h v =
          elim (starts_shorter (convert_to_id text) (convert_to_id n.name) (b'_' ∷ n.suffix) h) [
            | inl s ↦ inl (sym (starts_with-convert_to_id text n.name units v.units) ∙ s)
            | inr s ↦ inr (sym (starts_with-convert_to_id n.name text v.units units) ∙ s)
          ]

-- After a search for a word that is not empty, over the rows that `createResults` makes of results
-- whose ids are their names' with a suffix: a row is shown if its name starts with the word, without
-- the spaces around it and in lower case; a row that is shown has a name that starts with the word, or
-- the word starts with the name; `lastMatchCount` is the number of rows shown; and `No Matches` is
-- shown exactly where there are none. For text of 16-bit units and a `toLowerCase` that keeps the
-- ids and makes the rows' `SR` small.
pub search-IsShown :
    (lower : List ℕ → List ℕ) (url : List ℕ) (c : ℕ) (word : List ℕ) (names : List Named)
    (page : Page)
    → let text = lower (strip_trailing (strip_leading (c ∷ word))) in
      All (λ u. u < 2 ^ 16) text
      → All (IsNamed lower) names
      → page.divs ≡ create_results (map entry_of names)
      → let after = search lower url (c ∷ word) page in
        IsShown text names after.divs
        × (after.last_match_count ≡ shown_count after.divs)
        × (after.no_matches ≡ (if shown_count after.divs == 0 then block else hidden))
unfolding search search_id
search-IsShown lower url c word names page units v e =
    let text = lower (strip_trailing (strip_leading (c ∷ word))) in
    let (shown, counted) = search_rows-IsShown lower text units names v in
    rw e (shown, counted, ap (λ n. if n == 0 then block else hidden) counted)

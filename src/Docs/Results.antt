-- ===== src/Docs/Results.antt =====
-- docs/search/search.js: `createResults` and the method `Search` of `SearchResults`, over the `div`
-- elements of the page. `toLowerCase` depends on the tables of Unicode and is an argument.
pub mod Shown
pub mod Examples
use re_boot.Base.{
  same_text, is_digit, ℕ, zero, suc, ◌+◌, ◌-◌, leb, ◌==◌, if◌then◌else◌, Bool, true, false, ◌&&◌,
  Option, none, some,
}
use re_boot.Base.{List, [], ◌∷◌, ◌++◌, length, take}
use re_boot.Docs.Ids.{convert_to_id}

-- `style.display`; a new element has none.
pub data Display : Type 0 where
  unset block hidden inline_block : Display

-- `style.display=='block'`
unfoldable pub is_block : Display → Bool
is_block block = true
is_block d = false

-- A `div`: whether its class is `SRResult`, and what the result's entry has: the display of its
-- `SRChildren` element and the number of children, where there is one.
pub record Div : Type 0 where
  pub result : Bool
  pub id : List ℕ
  pub display : Display
  pub children : Option (Display × ℕ)

-- An entry of `searchData`: its id, and how many places it was found at.
pub record Entry : Type 0 where
  pub id : List ℕ
  pub places : ℕ

-- `createResults`: 'SR_' and the id; children where there is not exactly one place.
pub create_result : Entry → Div
create_result e = record {
  result = true;
  id = b'S' ∷ b'R' ∷ b'_' ∷ e.id;
  display = unset;
  children = if e.places == 1 then none else some (unset, e.places);
}

pub create_results : List Entry → List Div
unfolding create_result
create_results [] = []
create_results (e ∷ entries) = create_result e ∷ create_results entries

-- `replace(/^ +/, "")` and `replace(/ +$/, "")`.
pub strip_leading : List ℕ → List ℕ
strip_leading [] = []
strip_leading (c ∷ text) = if c == b' ' then strip_leading text else c ∷ text

pub strip_trailing : List ℕ → List ℕ
strip_trailing [] = []
strip_trailing (c ∷ text) =
    let rest = strip_trailing text in
    elim rest [ [] ↦ if c == b' ' then [] else c ∷ [] | r ∷ rs ↦ c ∷ r ∷ rs ]

-- `/\d*_/` at the start of a text: what stands behind it.
pub after_digits : List ℕ → Option (List ℕ)
unfolding is_digit
after_digits [] = none
after_digits (c ∷ text) =
    let rest = after_digits text in
    if is_digit c then rest else if c == b'_' then some text else none

-- `replace(/^sr\d*_/, '')`
pub row_match_name : List ℕ → List ℕ
unfolding after_digits
row_match_name [] = []
row_match_name (a ∷ []) = a ∷ []
row_match_name (a ∷ b ∷ text) =
    if (a == b's') && (b == b'r')
    then elim (after_digits text) [ none ↦ a ∷ b ∷ text | some rest ↦ rest ]
    else a ∷ b ∷ text

-- The test of the loop in `Search`.
pub row_matches : List ℕ → List ℕ → Bool
unfolding same_text
row_matches search name =
    leb (length search) (length name) && same_text (take (length search) name) search

-- The loop: the elements, and the number of matches.
pub search_rows : (List ℕ → List ℕ) → List ℕ → List Div → List Div × ℕ
unfolding row_matches row_match_name
search_rows lower search [] = ([], 0)
search_rows lower search (row ∷ rows) =
    let (rest, matches) = search_rows lower search rows in
    if row.result
    then (if row_matches search (row_match_name (lower row.id))
        then (record row { display = block } ∷ rest, matches + 1)
        else (record row { display = hidden } ∷ rest, matches))
    else (row ∷ rest, matches)

-- The page: its elements, the two messages, and `lastMatchCount`.
pub record Page : Type 0 where
  pub divs : List Div
  pub searching : Display
  pub no_matches : Display
  pub last_match_count : ℕ

-- The search word, or where it is empty the one of the URL, as an id.
pub search_id : (List ℕ → List ℕ) → List ℕ → List ℕ → List ℕ
unfolding strip_leading strip_trailing
search_id lower url [] = convert_to_id (lower (strip_trailing (strip_leading url)))
search_id lower url (c ∷ search) =
    convert_to_id (lower (strip_trailing (strip_leading (c ∷ search))))

pub search : (List ℕ → List ℕ) → List ℕ → List ℕ → Page → Page
unfolding search_id search_rows
search lower url word page =
    let (divs, matches) = search_rows lower (search_id lower url word) page.divs in
    record {
      divs = divs;
      searching = hidden;
      no_matches = if matches == 0 then block else hidden;
      last_match_count = matches;
    }

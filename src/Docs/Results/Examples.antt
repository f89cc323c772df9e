-- ===== src/Docs/Results/Examples.antt =====
-- A search over two results.
use re_boot.Base.{ℕ, ◌≡◌, refl, List, [], ◌∷◌, codes, map, arith, All}
use re_boot.Base.{leb, ◌&&◌, ◌==◌, if◌then◌else◌, ◌+◌}
use re_boot.Docs.Ids.{hex_digit, hex_string, is_kept, convert_char, convert_to_id}
use re_boot.Docs.Results.{
  block, hidden, unset, Page, create_results, search, strip_leading, strip_trailing,
}
use re_boot.Docs.Results.Shown.{Named, IsNamed, IsShown, entry_of, shown_count, search-IsShown}

-- Capital ASCII letters made small.
abbrev to_lower : List ℕ → List ℕ
to_lower text = map (λ c. if leb b'A' c && leb c b'Z' then c + 32 else c) text

abbrev names : List Named
names =
    record { name = codes "act_chain"; suffix = codes "0"; places = 1 }
    ∷ record { name = codes "crc32"; suffix = codes "1"; places = 2 }
    ∷ []

abbrev page : Page
page = record {
  divs = create_results (map entry_of names);
  searching = block;
  no_matches = unset;
  last_match_count = 0;
}

names-IsNamed : All (IsNamed to_lower) names
unfolding convert_to_id convert_char is_kept hex_string hex_digit
names-IsNamed = (
  record { units = ground arith; lowered = refl },
  (record { units = ground arith; lowered = refl }, tt),
)

search-IsShown_example :
    let after = search to_lower [] (b'A' ∷ codes "ct ") page in
    IsShown (codes "act") names after.divs
    × (after.last_match_count ≡ shown_count after.divs)
    × (after.no_matches ≡ (if shown_count after.divs == 0 then block else hidden))
unfolding strip_leading strip_trailing
search-IsShown_example =
    search-IsShown to_lower [] b'A' (codes "ct ") names page (ground arith) names-IsNamed refl

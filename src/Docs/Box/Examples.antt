-- ===== src/Docs/Box/Examples.antt =====
-- A box with two sections.
use re_boot.Base.{ℕ, ◌≡◌, refl, arith, true, false, none, List, [], ◌∷◌, codes, same_text}
use re_boot.Docs.Results.{block, hidden, inline_block}
use re_boot.Docs.Box.{Box, step, select_key, key_timer, remove_spaces}
use re_boot.Docs.Box.Select.Data.{index_sections_with_content}
use re_boot.Docs.Box.State.{IsStepped, step-IsStepped}
use re_boot.Docs.Box.Ends.{step-select_key}

abbrev sections : List (List ℕ)
sections = codes "abc" ∷ codes "xyz" ∷ []

abbrev lower : ℕ → List ℕ
lower c = c ∷ []

abbrev box : Box
box = record {
  key_timeout = true;
  hide_timeout = false;
  last_search_value = [];
  search_index = 1;
  search_active = true;
  field = codes " x";
  results = block;
  close_button = inline_block;
  select_window = hidden;
  active_class = true;
  loading = 0;
}

step-IsStepped_example : IsStepped 2 sections (step lower sections 2 key_timer box)
step-IsStepped_example =
    step-IsStepped lower sections 2 box
      (record { class_is = refl; button = λ h. refl; index_in = omega arith }) key_timer tt

-- The last of the sections of the documentation.
abbrev last_section : Box
last_section = record box { search_index = 10 }

step-select_key_example :
    step lower index_sections_with_content 11 (select_key 40) last_section ≡ none
unfolding remove_spaces same_text
step-select_key_example =
    step-select_key lower index_sections_with_content last_section refl refl refl

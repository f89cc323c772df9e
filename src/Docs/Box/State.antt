-- ===== src/Docs/Box/State.antt =====
-- What holds of the search box after any events.
use re_boot.Base.{
  ℕ, zero, suc, ◌+◌, ◌-◌, ◌≤◌, ◌≡◌, refl, sym, ap, ◌∙◌, arith, ltb, ◌==◌, if◌then◌else◌, Bool, true,
  false, not, ◌&&◌, ◌||◌,
}
use re_boot.Base.{
  Option, none, some, List, [], ◌∷◌, ltb→lt, get_elem?, length, same_text, Bool-cases, inl, inr,
}
use re_boot.Docs.Results.{inline_block, is_block, strip_leading}
use re_boot.Docs.Box.{
  find_script, remove_spaces, close_selection_window, Box, BoxEvent, step, activate, box_search,
  handle_results, on_select_item, on_search_select_key, on_search_field_change,
}
use re_boot.Docs.Box.{
  focus, typed, field_key, select_shown, select_hidden, closed, select_key, select_item, key_timer,
  hide_timer, script_loaded, close_results_window,
}

-- The box looks active exactly when it is, where the results are open the close button is there, and
-- the index is at most the number of items.
pub record IsBox (count : ℕ) (b : Box) : Type 0 where
  pub class_is : b.active_class ≡ b.search_active
  pub button : is_block b.results ≡ true → b.close_button ≡ inline_block
  pub index_in : b.search_index ≤ count

-- What an event comes to: a box of this kind, or an exception, for want of a section for an item.
abbrev pub IsStepped : ℕ → List (List ℕ) → Option Box → Type 0
IsStepped count sections none = length sections ≤ count
IsStepped count sections (some b) = IsBox count b

-- An item that is selected is one of the list.
abbrev pub IsItem : ℕ → BoxEvent → Type 0
IsItem count (select_item id) = id ≤ count
IsItem count e = Unit

handle_results-IsBox : (count : ℕ) (b : Box) → IsBox count b → IsBox count (handle_results b)
unfolding handle_results
handle_results-IsBox count b v = elim (Bool-cases (is_block b.results)) [
  | inl e ↦ rw (e, handle_results) v
  | inr e ↦
      rw (e, handle_results)
        (record { class_is = v.class_is; button = λ h. refl; index_in = v.index_in })
]

no_section : (sections : List (List ℕ)) (i : ℕ) → get_elem? sections i ≡ none → length sections ≤ i
no_section [] i e = omega arith
no_section (s ∷ sections) zero e = cc
no_section (s ∷ sections) (suc i) e = omega (arith, no_section sections i e)

search-IsStepped :
    (lower : ℕ → List ℕ) (sections : List (List ℕ)) (count : ℕ) (b : Box)
    → IsBox count b
    → IsStepped count sections (box_search lower sections b)
unfolding box_search
search-IsStepped lower sections count b v = by_section (get_elem? sections b.search_index) refl
  where
    shown : IsBox count (handle_results (record b { key_timeout = false }))
    shown =
        handle_results-IsBox count (record b { key_timeout = false })
          (record { class_is = v.class_is; button = v.button; index_in = v.index_in })

    by_script :
        (units : List ℕ)
        → get_elem? sections b.search_index ≡ some units
        → (found : Option ℕ) → find_script lower units (strip_leading b.field) ≡ found
        → IsStepped count sections (box_search lower sections b)
    by_script units e none e' =
        rw (e, e', box_search)
          (record { class_is = shown.class_is; button = shown.button; index_in = shown.index_in })
    by_script units e (some script) e' =
        rw (e, e', box_search)
          (record { class_is = v.class_is; button = v.button; index_in = v.index_in })

    by_section :
        (found : Option (List ℕ))
        → get_elem? sections b.search_index ≡ found
        → IsStepped count sections (box_search lower sections b)
    by_section none e =
        rw (e, box_search) (omega (arith, no_section sections b.search_index e, v.index_in))
    by_section (some units) e =
        by_script units e (find_script lower units (strip_leading b.field)) refl

item-IsStepped :
    (lower : ℕ → List ℕ) (sections : List (List ℕ)) (count id : ℕ) (b : Box)
    → id ≤ count
    → IsBox count b
    → IsStepped count sections (on_select_item lower sections id b)
unfolding on_select_item
item-IsStepped lower sections count id b le v =
    let b' : Box = record b { search_index = id } in
    let v' : IsBox count b' = record { class_is = v.class_is; button = v.button; index_in = le } in
    elim (Bool-cases (not (same_text (remove_spaces b.field) []) && b.search_active)) [
      | inl e ↦ rw (e, on_select_item) (search-IsStepped lower sections count b' v')
      | inr e ↦ rw (e, on_select_item) v'
    ]

room : (a : Bool) (i n : ℕ) → a && ltb i n ≡ true → i + 1 ≤ n
room true i n e = omega (arith, ltb→lt i n e)
room false i n e = absurd cc

either-IsStepped :
    (count : ℕ) (sections : List (List ℕ)) (c : Bool) (x y : Option Box)
    → IsStepped count sections x
    → IsStepped count sections y
    → IsStepped count sections (if c then x else y)
either-IsStepped count sections true x y vx vy = vx
either-IsStepped count sections false x y vx vy = vy

closed_selection :
    (count : ℕ) (sections : List (List ℕ)) (r : Option Box)
    → IsStepped count sections r
    → IsStepped count sections (elim r [ none ↦ none | some b ↦ some (close_selection_window b) ])
unfolding close_selection_window
closed_selection count sections none v = v
closed_selection count sections (some b) v = record {
  class_is = v.class_is;
  button = v.button;
  index_in = v.index_in;
}

module _ (lower : ℕ → List ℕ) (sections : List (List ℕ)) (count : ℕ) (b : Box)
    (v : IsBox count b) where
  -- The keys of the selection: down, up, return or escape, and the others.
  key-IsStepped :
      (key : ℕ) → IsStepped count sections (on_search_select_key lower sections count key b)
  unfolding on_search_select_key
  key-IsStepped key = elim (Bool-cases (key == 40 && ltb b.search_index count)) [
    | inl e ↦
        rw (e, on_search_select_key)
          (item-IsStepped lower sections count (b.search_index + 1) b
            (room (key == 40) b.search_index count e) v)
    | inr e ↦ elim (Bool-cases (key == 38 && ltb 0 b.search_index)) [
      | inl e' ↦
          rw (e, e', on_search_select_key)
            (item-IsStepped lower sections count (b.search_index - 1) b (omega (arith, v.index_in))
              v)
      | inr e' ↦ elim (Bool-cases (key == 13 || key == 27)) [
        | inl e'' ↦
            rw (e, e', e'', on_search_select_key)
              (closed_selection count sections (on_select_item lower sections b.search_index b)
                (item-IsStepped lower sections count b.search_index b v.index_in v))
        | inr e'' ↦ rw (e, e', e'', on_search_select_key) v
      ]
    ]
  ]

  activate-IsBox : (a : Bool) → IsBox count (activate a b)
  unfolding activate
  activate-IsBox a = ground arith

  field_change-IsBox : (key : ℕ) (shift : Bool) → IsBox count (on_search_field_change key shift b)
  unfolding on_search_field_change is_block
  field_change-IsBox key shift = ground arith

  closed-IsBox : IsBox count (close_results_window b)
  unfolding close_results_window is_block
  closed-IsBox = ground arith

  same_box :
      (b' : Box)
      → b'.active_class ≡ b.active_class
      → b'.search_active ≡ b.search_active
      → b'.results ≡ b.results
      → b'.close_button ≡ b.close_button
      → b'.search_index ≡ b.search_index
      → IsBox count b'
  same_box b' a s r c i = record {
    class_is = a ∙ v.class_is ∙ sym s;
    button = λ h. c ∙ v.button (ap is_block (sym r) ∙ h);
    index_in = omega (arith, v.index_in, i);
  }

  -- After any event the box looks active exactly when it is, an open result window has its close
  -- button, and the index is at most the number of items, if these hold before and an item that is
  -- selected is one of the list; and an exception comes only where there is no section for some number
  -- up to that of the items.
  pub step-IsStepped :
      (e : BoxEvent) → IsItem count e → IsStepped count sections (step lower sections count e b)
  unfolding step
  step-IsStepped (focus a) h = activate-IsBox a
  step-IsStepped (typed text) h = same_box (record b { field = text }) refl refl refl refl refl
  step-IsStepped (field_key key shift) h = field_change-IsBox key shift
  step-IsStepped select_shown h = same_box _ refl refl refl refl refl
  step-IsStepped select_hidden h = same_box _ refl refl refl refl refl
  step-IsStepped closed h = closed-IsBox
  step-IsStepped (select_key key) h = key-IsStepped key
  step-IsStepped (select_item id) h = item-IsStepped lower sections count id b h v
  step-IsStepped key_timer h =
      either-IsStepped count sections b.key_timeout (box_search lower sections b) (some b)
        (search-IsStepped lower sections count b v) v
  step-IsStepped hide_timer h =
      either-IsStepped count sections b.hide_timeout (some (close_selection_window b)) (some b)
        (same_box (close_selection_window b) refl refl refl refl refl) v
  step-IsStepped script_loaded h =
      let b' : Box = record b { loading = b.loading - 1 } in
      either-IsStepped count sections (ltb 0 b.loading) (some (handle_results b')) (some b)
        (handle_results-IsBox count b' (same_box b' refl refl refl refl refl)) v

-- ===== src/Docs/Box/Select/Marks.antt =====
-- The marks of the selection window: one item at a time.
use re_boot.Base.{
  ℕ, ◌+◌, ◌≤◌, ◌<◌, ◌≡◌, refl, ap, ◌∙◌, arith, ◌==◌, if◌then◌else◌, Bool-cases, inl, inr, List, [],
  ◌∷◌, ◌++◌, length, ==→eq, ==→ne,
}
use re_boot.Docs.Box.Select.{
  Child, other, item, label_items, select_item_count, set_items, select_item_set, init_search,
  select_all,
}

-- The sections of the items with the bullet.
pub marked : List Child → List ℕ
marked [] = []
marked (other ∷ window) = marked window
marked (item i ∷ window) = if i.is_marked then i.on_click ∷ marked window else marked window

-- The items select the numbers from one on.
IsNumbered : ℕ → List Child → Type 0
IsNumbered j [] = Unit
IsNumbered j (other ∷ window) = IsNumbered j window
IsNumbered j (item i ∷ window) = (i.on_click ≡ j) × IsNumbered (j + 1) window

set_items-IsNumbered :
    (id j k : ℕ) (window : List Child) → IsNumbered k window → IsNumbered k (set_items id j window)
unfolding set_items IsNumbered
set_items-IsNumbered id j k [] n = tt
set_items-IsNumbered id j k (other ∷ window) n = set_items-IsNumbered id j k window n
set_items-IsNumbered id j k (item i ∷ window) n =
    (n.0, set_items-IsNumbered id (j + 1) (k + 1) window n.1)

count-set_items :
    (id j : ℕ) (window : List Child)
    → select_item_count (set_items id j window) ≡ select_item_count window
unfolding set_items select_item_count
count-set_items id j [] = refl
count-set_items id j (other ∷ window) = count-set_items id j window
count-set_items id j (item i ∷ window) = ap (λ (n : ℕ). n + 1) (count-set_items id (j + 1) window)

label_items-IsNumbered :
    (key : ℕ) (labels : List (List ℕ)) → IsNumbered key (label_items key labels)
unfolding label_items IsNumbered
label_items-IsNumbered key [] = tt
label_items-IsNumbered key (label ∷ labels) = (refl, label_items-IsNumbered (key + 1) labels)

count-label_items :
    (key : ℕ) (labels : List (List ℕ)) → select_item_count (label_items key labels) ≡ length labels
unfolding label_items select_item_count
count-label_items key [] = refl
count-label_items key (label ∷ labels) = omega (arith, count-label_items (key + 1) labels)

-- No item behind the selected one is marked.
marked_behind : (id j : ℕ) (window : List Child) → id < j → marked (set_items id j window) ≡ []
unfolding set_items marked
marked_behind id j [] h = refl
marked_behind id j (other ∷ window) h = marked_behind id j window h
marked_behind id j (item i ∷ window) h = elim (Bool-cases (j == id)) [
  | inl e ↦ absurd (omega (arith, ==→eq j id e))
  | inr e ↦ rw (e) (marked_behind id (j + 1) window (omega arith))
]

marked_once :
    (id j : ℕ) (window : List Child)
    → IsNumbered j window
    → j ≤ id
    → id < j + select_item_count window
    → marked (set_items id j window) ≡ id ∷ []
unfolding set_items marked IsNumbered select_item_count
marked_once id j [] n h b = absurd (omega arith)
marked_once id j (other ∷ window) n h b = marked_once id j window n h b
marked_once id j (item i ∷ window) n h b = elim (Bool-cases (j == id)) [
  | inl e ↦
      rw (e, marked_behind id (j + 1) window (omega (arith, ==→eq j id e)), n.0, ==→eq j id e) refl
  | inr e ↦ rw (e) (marked_once id (j + 1) window n.1 (omega (arith, ==→ne j id e)) (omega arith))
]

append-IsNumbered :
    (j : ℕ) (before window : List Child)
    → select_item_count before ≡ 0
    → IsNumbered j window
    → IsNumbered j (before ++ window)
unfolding IsNumbered select_item_count
append-IsNumbered j [] window e n = n
append-IsNumbered j (other ∷ before) window e n = append-IsNumbered j before window e n
append-IsNumbered j (item i ∷ before) window e n = absurd (omega arith)

count-append :
    (before window : List Child)
    → select_item_count (before ++ window) ≡ select_item_count before + select_item_count window
unfolding select_item_count
count-append [] window = omega arith
count-append (other ∷ before) window = count-append before window
count-append (item i ∷ before) window = omega (arith, count-append before window)

-- The window has an item for each number below a bound.
record IsWindow (size : ℕ) (window : List Child) : Type 0 where
  numbered : IsNumbered 0 window
  count_is : select_item_count window ≡ size

set-IsWindow :
    (size id : ℕ) (window : List Child)
    → IsWindow size window
    → IsWindow size (select_item_set id window)
unfolding select_item_set
set-IsWindow size id window v = record {
  numbered = set_items-IsNumbered id 0 0 window v.numbered;
  count_is = count-set_items id 0 window ∙ v.count_is;
}

select_all-IsWindow :
    (size : ℕ) (ids : List ℕ) (window : List Child)
    → IsWindow size window
    → IsWindow size (select_all ids window)
unfolding select_all
select_all-IsWindow size [] window v = v
select_all-IsWindow size (id ∷ ids) window v =
    select_all-IsWindow size ids (select_item_set id window) (set-IsWindow size id window v)

init_search-IsWindow :
    (labels : List (List ℕ)) (before : List Child)
    → select_item_count before ≡ 0
    → IsWindow (length labels) (init_search labels before)
unfolding init_search
init_search-IsWindow labels before e =
    set-IsWindow (length labels) 0 (before ++ label_items 0 labels) (record {
      numbered =
          append-IsNumbered 0 before (label_items 0 labels) e (label_items-IsNumbered 0 labels);
      count_is =
          omega (arith, count-append before (label_items 0 labels), count-label_items 0 labels, e);
    })

-- In a window without items to which `init_search` appended one for each label, after any selections,
-- there are as many items as labels, and the selection of one of them leaves the bullet at the item
-- that selects it, and at no other.
pub marked-select_item_set :
    (labels : List (List ℕ)) (before : List Child) (ids : List ℕ) (id : ℕ)
    → select_item_count before ≡ 0
    → id < length labels
    → (select_item_count (select_all ids (init_search labels before)) ≡ length labels)
      × (marked (select_item_set id (select_all ids (init_search labels before))) ≡ id ∷ [])
unfolding select_item_set
marked-select_item_set labels before ids id e h =
    let window : List Child = select_all ids (init_search labels before) in
    let v : IsWindow (length labels) window =
      select_all-IsWindow (length labels) ids (init_search labels before)
        (init_search-IsWindow labels before e) in
    (v.count_is, marked_once id 0 window v.numbered (omega arith) (omega (arith, v.count_is)))

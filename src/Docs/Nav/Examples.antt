-- ===== src/Docs/Nav/Examples.antt =====
-- Keys in a list of two visible results.
use re_boot.Base.{◌≡◌, refl, none, some, List, [], ◌∷◌, true, false, arith}
use re_boot.Base.{◌⊎◌, replicate}
use re_boot.Docs.Results.{block, hidden, Div}
use re_boot.Docs.Nav.{child, open_children, Panel, keydown}
use re_boot.Docs.Results.{is_block, Div, block, hidden}
use re_boot.Docs.Nav.Press.{press, press_up-press_down, answers, held, answers-held}
use re_boot.Docs.Nav.Order.{IsPlace, visible}

-- Two results, the first with two places that are displayed.
abbrev rows : List Div
rows =
    record { result = true; id = []; display = block; children = some (block, 2) }
    ∷ record { result = true; id = []; display = hidden; children = none }
    ∷ record { result = true; id = []; display = block; children = none }
    ∷ []

abbrev panel : Panel
panel = record {
  keys = record { last_key = 0; repeat_on = false };
  rows = rows;
  focus = child 0 1;
  closed = false;
}

panel-IsPlace : IsPlace panel.rows panel.focus
unfolding visible open_children is_block
panel-IsPlace = (refl, omega arith)

press_up-press_down_example :
    let q = press 40 panel in
    (q.rows ≡ rows)
    × IsPlace rows q.focus
    × ((q.focus ≡ child 0 1) ⊎ ((press 38 q).focus ≡ child 0 1))
press_up-press_down_example = press_up-press_down panel panel-IsPlace

answers-held_example :
    answers (record { kind = keydown; key_code = 40 } ∷ replicate 3 (held 40)) panel.keys
    ≡ true ∷ false ∷ true ∷ true ∷ []
answers-held_example = answers-held 40 2 panel.keys (λ e. omega arith)

-- ===== src/Service/QueryTests.antt =====
-- Searches by expression and the check of a bill of materials, on two parts.
use parts_bin.Prelude.{ℕ, ◌≡◌, ◌≤◌, refl, Bool, true, none, some, [], ◌∷◌, pos}
use parts_bin.Storage.Parts.{PartFields, PartRow, discrete_ic, same_text}
use parts_bin.Storage.Parts
use parts_bin.Storage.Rows.{Db}
use parts_bin.Storage.Tx.{ok}
use parts_bin.Samples.{empty}
use parts_bin.Texts.{codes}
use parts_bin.Normalization.{null, text, number}
use parts_bin.Normalization.Tests.{readers}
use parts_bin.Service.Search.{search_filters, search_category}
use parts_bin.Service.Expressions.{
  filters_of, Node, leaf, all_of, any_of, end, next_child, compile_node, search_expression,
  search_parts, every, some_one, admits_leaf,
}
use parts_bin.Service.Compiled.{size, nesting, means, search_expression-means}
use parts_bin.Service.Checking.{
  CheckItem, CheckAnswer, CheckLine, check_inventory, sufficient, missing,
}
use parts_bin.Service.Placed.{item_at}
use parts_bin.Service.Lines.{LinesOwn, LinesApart, is_named}
use parts_bin.Service.Checked.{known_in, indices_of, AllHeld, check_inventory_accounts}

abbrev lamp : PartFields
lamp = record {
  part_category = codes "led";
  profile = discrete_ic;
  quantity = pos 4;
  value = none;
  «package» = none;
  part_number = some (codes "A1");
  manufacturer = none;
  description = none;
  datasheet_url = none;
  value_unit = none;
}

abbrev lamp_row : PartRow
lamp_row = record { fields = lamp; passive_identity = none; created_at = 0; updated_at = 0 }

abbrev lamps : Db
lamps = record empty {
  parts =
      (1, lamp_row)
      ∷ (
        2,
        record lamp_row {
          fields = record lamp { part_number = some (codes "B2"); quantity = pos 1 };
        },
      )
      ∷ [];
}

abbrev numbered_a : Node
numbered_a = leaf ((Parts.part_number, text (codes "A1")) ∷ [])

abbrev numbered_c : Node
numbered_c = leaf ((Parts.part_number, text (codes "C3")) ∷ [])

-- An LED with one of two numbers
abbrev wanted : Node
wanted = all_of (
    next_child (leaf ((Parts.part_category, text (codes "LEDs")) ∷ []))
      (next_child (any_of (next_child numbered_a (next_child numbered_c end))) end))

abbrev predicate : ℕ → PartRow → Bool
predicate = every (
    admits_leaf readers ((Parts.part_category, text (codes "LEDs")) ∷ [])
    ∷ some_one (
        admits_leaf readers ((Parts.part_number, text (codes "A1")) ∷ [])
        ∷ admits_leaf readers ((Parts.part_number, text (codes "C3")) ∷ [])
        ∷ [])
    ∷ [])

compiled : search_expression readers wanted ≡ ok predicate
unfolding compile_node
compiled = refl

search_expression-means_example :
    ((j : ℕ) (p : PartRow) → predicate j p ≡ means readers wanted j p)
    × (size wanted ≤ 100)
    × (nesting wanted ≤ 4)
search_expression-means_example = search_expression-means readers wanted predicate compiled

found : search_parts readers (some wanted) [] (pos 0) lamps.parts ≡ ok ((1, lamp_row) ∷ [])
unfolding search_parts compile_node search_filters search_category
found = refl

abbrev one_of : CheckItem
one_of = record { filters = (Parts.part_number, text (codes "A1")) ∷ []; quantity = number (pos 1) }

abbrev two_of : CheckItem
two_of = record one_of { quantity = number (pos 2) }

abbrev unknown_c : CheckItem
unknown_c = record { filters = (Parts.part_number, text (codes "C3")) ∷ []; quantity = null }

-- Two rows ask for three lamps of four, and one for a part that is not there.
abbrev three_lamps : CheckLine
three_lamps = record {
  input_indices = 0 ∷ 2 ∷ [];
  filters = filters_of one_of.filters;
  requested_quantity = some 3;
  known_requested_quantity = 3;
  status = sufficient;
  max_available_quantity = 4;
  shortage = some 0;
  match_count = 1;
  best = some (1, lamp_row);
}

abbrev no_part : CheckLine
no_part = record {
  input_indices = 1 ∷ [];
  filters = filters_of unknown_c.filters;
  requested_quantity = none;
  known_requested_quantity = 0;
  status = missing;
  max_available_quantity = 0;
  shortage = none;
  match_count = 0;
  best = none;
}

abbrev checked : CheckAnswer
checked = record {
  items = three_lamps ∷ no_part ∷ [];
  input_count = 3;
  overlapping_requirements = [];
}

check : check_inventory readers (one_of ∷ unknown_c ∷ two_of ∷ []) lamps ≡ ok (checked, lamps)
unfolding check_inventory search_filters search_category
check = refl

check_inventory_accounts_example :
    (lamps ≡ lamps)
    × LinesOwn (one_of ∷ unknown_c ∷ two_of ∷ []) checked.items
    × LinesApart checked.items
    × ((i : ℕ) (item : CheckItem)
        → item_at i (one_of ∷ unknown_c ∷ two_of ∷ []) ≡ some item
        → is_named i checked.items ≡ true)
    × (indices_of checked.items ≡ 3)
    × (known_in checked.items ≡ 3)
    × AllHeld checked.items
check_inventory_accounts_example =
    check_inventory_accounts readers (one_of ∷ unknown_c ∷ two_of ∷ []) lamps checked lamps check

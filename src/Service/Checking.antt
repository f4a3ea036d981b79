-- ===== src/Service/Checking.antt =====
-- The check of a bill of materials against stock: `check_inventory` of domain/service.py.
use parts_bin.Prelude.{
  ℕ, zero, suc, ◌+◌, ◌-◌, Bool, true, false, not, ◌&&◌, ◌||◌, Option, none, some, List, [], ◌∷◌,
  ◌++◌, map, length, any, if◌then◌else◌, ltb, leb, ◌==◌, ℤ, pos, negsuc, is_some, max,
}
use parts_bin.Storage.Table.{Table}
use parts_bin.Storage.Parts.{same_text?, PartRow}
use parts_bin.Storage.Tx.{
  Tx, Result, ok, err, domain_error, invalid_input, pure, gets, ◌>>=◌, ◌>>◌, raise_if,
}
use parts_bin.Normalization.{Readers, FieldValue, null, text, number}
use parts_bin.Service.{lift}
use parts_bin.Service.Search.{Filters, search_filters}
use parts_bin.Service.Updating.{Updates}
use parts_bin.Service.Reviewing.{is_blank}
use parts_bin.Service.Expressions.{filters_of, are_filters}

-- `InventoryCheckItem`
pub record CheckItem : Type 0 where
  pub filters : Updates
  pub quantity : FieldValue

-- `not isinstance(value, str) or not value.strip()`
abbrev pub is_no_word : FieldValue → Bool
is_no_word (text s) = is_blank s
is_no_word v = true

-- A part number, or a category and a value
abbrev pub is_identified : Filters → Bool
is_identified f = is_some f.part_number || (is_some f.part_category && is_some f.value)

-- `type(item.quantity) is not int or item.quantity < 1`, where it is not `None`
abbrev pub is_bad_quantity : FieldValue → Bool
is_bad_quantity null = false
is_bad_quantity (number (pos (suc n))) = false
is_bad_quantity v = true

abbrev pub is_bad_item : CheckItem → Bool
is_bad_item item =
    any (λ f. is_no_word f.1) item.filters
    || not (are_filters item.filters)
    || not (is_identified (filters_of item.filters))
    || is_bad_quantity item.quantity

-- `item.quantity or 0`
abbrev pub known_quantity : FieldValue → ℕ
known_quantity (number (pos n)) = n
known_quantity v = 0

abbrev pub is_null : FieldValue → Bool
is_null null = true
is_null v = false

-- Rows of the request with the same filters
pub record Group : Type 0 where
  pub filters : Filters
  pub input_indices : List ℕ
  pub quantity : ℕ
  pub unknown_quantity : Bool

-- `key`: the filters are equal
abbrev pub same_filters : Filters → Filters → Bool
same_filters a b =
    same_text? a.part_category b.part_category
    && same_text? a.profile b.profile
    && same_text? a.value b.value
    && same_text? a.«package» b.«package»
    && same_text? a.part_number b.part_number
    && same_text? a.value_unit b.value_unit

abbrev pub new_group : ℕ → CheckItem → Group
new_group index item = record {
  filters = filters_of item.filters;
  input_indices = index ∷ [];
  quantity = known_quantity item.quantity;
  unknown_quantity = is_null item.quantity;
}

abbrev pub join_group : ℕ → CheckItem → Group → Group
join_group index item g = record g {
  input_indices = g.input_indices ++ index ∷ [];
  quantity = g.quantity + known_quantity item.quantity;
  unknown_quantity = g.unknown_quantity || is_null item.quantity;
}

-- `groups.setdefault(key, …)`, and the item joins the group
abbrev pub add_item : ℕ → CheckItem → List Group → List Group
add_item index item [] = new_group index item ∷ []
add_item index item (g ∷ groups) =
    let rest = add_item index item groups in
    if same_filters g.filters (filters_of item.filters)
    then join_group index item g ∷ groups
    else g ∷ rest

abbrev pub group_items : List CheckItem → ℕ → List Group → List Group
group_items [] index groups = groups
group_items (item ∷ items) index groups = group_items items (index + 1) (add_item index item groups)

pub data Availability : Type 0 where
  missing out_of_stock in_stock sufficient insufficient : Availability

-- One line of the answer; `parts` holds at most the part with the most stock.
pub record CheckLine : Type 0 where
  pub input_indices : List ℕ
  pub filters : Filters
  pub requested_quantity : Option ℕ
  pub known_requested_quantity : ℕ
  pub status : Availability
  pub max_available_quantity : ℕ
  pub shortage : Option ℕ
  pub match_count : ℕ
  pub best : Option (ℕ × PartRow)

-- A quantity that a search found, which is not negative
abbrev pub pieces : ℤ → ℕ
pieces (pos n) = n
pieces (negsuc n) = 0

-- `max((part.quantity for part in parts), default=0)`
abbrev pub most_pieces : Table PartRow → ℕ
most_pieces [] = 0
most_pieces ((j, p) ∷ rows) = max (pieces p.fields.quantity) (most_pieces rows)

-- The first in the order of `(-part.quantity, part.id)`
abbrev pub better : ℕ × PartRow → Option (ℕ × PartRow) → Option (ℕ × PartRow)
better p none = some p
better p (some q) =
    if ltb (pieces q.1.fields.quantity) (pieces p.1.fields.quantity)
      || ((pieces q.1.fields.quantity == pieces p.1.fields.quantity) && ltb p.0 q.0)
    then some p
    else some q

abbrev pub best_part : Table PartRow → Option (ℕ × PartRow)
best_part [] = none
best_part (p ∷ rows) = better p (best_part rows)

abbrev pub availability : Table PartRow → ℕ → Option ℕ → Availability
availability [] available requested = missing
availability (p ∷ rows) zero requested = out_of_stock
availability (p ∷ rows) (suc n) none = in_stock
availability (p ∷ rows) (suc n) (some requested) =
    if leb requested (suc n) then sufficient else insufficient

abbrev pub requested_of : Group → Option ℕ
requested_of g = if g.unknown_quantity then none else some g.quantity

-- `max(0, requested - available)`
abbrev pub shortage_of : Option ℕ → ℕ → Option ℕ
shortage_of none available = none
shortage_of (some requested) available = some (requested - available)

abbrev pub line_of : Group → Table PartRow → CheckLine
line_of g rows = record {
  input_indices = g.input_indices;
  filters = g.filters;
  requested_quantity = requested_of g;
  known_requested_quantity = g.quantity;
  status = availability rows (most_pieces rows) (requested_of g);
  max_available_quantity = most_pieces rows;
  shortage = shortage_of (requested_of g) (most_pieces rows);
  match_count = length rows;
  best = best_part rows;
}

abbrev pub add_line :
    Group
    → Result (Table PartRow)
    → Result (List (CheckLine × Table PartRow))
    → Result (List (CheckLine × Table PartRow))
add_line g (err e) rest = err e
add_line g (ok rows) (err e) = err e
add_line g (ok rows) (ok lines) = ok ((line_of g rows, rows) ∷ lines)

module _ (readers : Readers) where
  -- The line of each group, with the parts that it found
  abbrev pub check_groups : List Group → Table PartRow → Result (List (CheckLine × Table PartRow))
  check_groups [] stock = ok []
  check_groups (g ∷ groups) stock =
      add_line g (search_filters readers g.filters (pos 0) stock) (check_groups groups stock)

-- `stock_groups.setdefault(part.id, []).append(…)`
abbrev pub note_part : ℕ → ℕ → List (ℕ × List ℕ) → List (ℕ × List ℕ)
note_part part_id index [] = (part_id, index ∷ []) ∷ []
note_part part_id index ((k, indices) ∷ noted) =
    let rest = note_part part_id index noted in
    if k == part_id then (k, indices ++ index ∷ []) ∷ noted else (k, indices) ∷ rest

abbrev pub first_index : List ℕ → ℕ
first_index [] = 0
first_index (i ∷ indices) = i

abbrev pub note_parts : Table PartRow → ℕ → List (ℕ × List ℕ) → List (ℕ × List ℕ)
note_parts [] index noted = noted
note_parts ((part_id, p) ∷ rows) index noted = note_parts rows index (note_part part_id index noted)

abbrev pub note_lines : List (CheckLine × Table PartRow) → List (ℕ × List ℕ) → List (ℕ × List ℕ)
note_lines [] noted = noted
note_lines ((line, rows) ∷ lines) noted =
    note_lines lines (note_parts rows (first_index line.input_indices) noted)

abbrev pub same_indices : List ℕ → List ℕ → Bool
same_indices [] [] = true
same_indices (i ∷ s) (j ∷ t) = (i == j) && same_indices s t
same_indices _ _ = false

-- `dict.fromkeys(…)`: every list of more than one group once, in the order of its first
abbrev pub overlapping : List (ℕ × List ℕ) → List (List ℕ) → List (List ℕ)
overlapping [] found = found
overlapping ((k, indices) ∷ noted) found =
    if ltb 1 (length indices) && not (any (same_indices indices) found)
    then overlapping noted (found ++ indices ∷ [])
    else overlapping noted found

pub record CheckAnswer : Type 0 where
  pub items : List CheckLine
  pub input_count : ℕ
  pub overlapping_requirements : List (List ℕ)

module _ (readers : Readers) where
  -- `check_inventory`
  unfoldable pub check_inventory : List CheckItem → Tx CheckAnswer
  check_inventory items = do
    raise_if (not (leb 1 (length items) && leb (length items) 100)) (domain_error invalid_input)
    raise_if (any is_bad_item items) (domain_error invalid_input)
    stock ← gets (λ db. db.parts)
    lines ← lift (check_groups readers (group_items items 0 []) stock)
    pure (record {
      items = map (λ l. l.0) lines;
      input_count = length items;
      overlapping_requirements = overlapping (note_lines lines []) [];
    })

-- ===== src/Inventory/Stock.antt =====
-- The stock operations of domain/service.py, each as the body of its unit of work.
use parts_bin.Prelude.{
  ℕ, zero, suc, Bool, true, false, not, ◌&&◌, ◌||◌, none, some, List, [], ◌∷◌, length, map, ltb,
  leb, ◌==◌, any, ℤ, pos, negsuc, ◌+ℤ◌, is_negative,
}
use parts_bin.Storage.Parts.{PartRow}
use parts_bin.Storage.Tx.{
  Tx, domain_error, invalid_input, part_not_found, pure, raise, ◌>>=◌, ◌>>◌, raise_if,
}
use parts_bin.Inventory.{increment_stock}
use parts_bin.Inventory

-- `PartsBinService.get`
unfoldable pub get_part : ℕ → Tx PartRow
get_part part_id db = elim (Inventory.get part_id db) [
  | none ↦ raise (domain_error part_not_found) db
  | some p ↦ pure p db
]

-- `quantity <= 0`
abbrev pub is_not_positive : ℤ → Bool
is_not_positive (pos zero) = true
is_not_positive (pos (suc n)) = false
is_not_positive (negsuc n) = true

-- `add_stock`
unfoldable pub add_stock : ℕ → ℤ → ℕ → Tx PartRow
add_stock part_id quantity now = do
  raise_if (is_not_positive quantity) (domain_error invalid_input)
  current ← get_part part_id
  increment_stock part_id quantity now
  get_part part_id

-- `request.delta in {-1, 1}`
abbrev pub is_step : ℤ → Bool
is_step (pos n) = n == 1
is_step (negsuc n) = n == 0

-- `adjust_stock`
unfoldable pub adjust_stock : ℕ → ℤ → ℕ → Tx PartRow
adjust_stock part_id delta now = do
  raise_if (not (is_step delta)) (domain_error invalid_input)
  current ← get_part part_id
  raise_if (is_negative (current.fields.quantity +ℤ delta)) (domain_error invalid_input)
  increment_stock part_id delta now
  get_part part_id

-- `len(set(part_ids)) != len(part_ids)`
abbrev pub has_repeated : List ℕ → Bool
has_repeated [] = false
has_repeated (i ∷ ids) = any (λ j. j == i) ids || has_repeated ids

-- `1 <= len(items) <= 100`
abbrev pub is_batch_size : List ℕ → Bool
is_batch_size ids = leb 1 (length ids) && leb (length ids) 100

-- A target that is no part's id, or one that stands twice. An id below 0 is refused like 0.
abbrev pub has_bad_target : List ℕ → Bool
has_bad_target ids = any (λ i. ltb i 1) ids || has_repeated ids

-- `_validate_batch`
abbrev pub validate_batch : List ℕ → Tx Unit
validate_batch ids = do
  raise_if (not (is_batch_size ids)) (domain_error invalid_input)
  raise_if (has_bad_target ids) (domain_error invalid_input)

abbrev pub add_each : List (ℕ × ℤ) → ℕ → Tx (List PartRow)
add_each [] now = pure []
add_each ((part_id, quantity) ∷ items) now = do
  p ← add_stock part_id quantity now
  rest ← add_each items now
  pure (p ∷ rest)

-- `add_stock_batch`
unfoldable pub add_stock_batch : List (ℕ × ℤ) → ℕ → Tx (List PartRow)
add_stock_batch items now = do validate_batch (map (λ i. i.0) items); add_each items now

-- ===== src/Service/Updating.antt =====
-- Edits of parts: `_update_part`, `update_parts`, `preview_bulk_update`, `bulk_update` and
-- `delete_part` of domain/service.py.
use parts_bin.Prelude.{ℕ, Bool, true, false, not, ◌||◌, List, [], ◌∷◌, map, any}
use parts_bin.Storage.Parts.{FieldName, PartFields, PartRow}
use parts_bin.Storage.Rows.{Db}
use parts_bin.Storage.Tx.{
  Tx, Result, ok, err, ErrorCode, domain_error, invalid_input, pure, ◌>>=◌, ◌>>◌, raise_if,
}
use parts_bin.Inventory.Stock.{get_part, is_batch_size, has_bad_target, validate_batch}
use parts_bin.Inventory.Facts.{delete_part}
use parts_bin.Inventory.Reviews.{clear_pending_review}
use parts_bin.Normalization.{Readers, FieldValue, validate_fields}
use parts_bin.Service.{lift, draft_of, update_fields, has_unknown}
use parts_bin.Service.Identity.{replace_one}

abbrev pub Updates : Type 0
Updates = List (FieldName × FieldValue)

abbrev pub is_empty : Updates → Bool
is_empty [] = true
is_empty (u ∷ us) = false

module _ (readers : Readers) where
  -- `_update_part`
  unfoldable pub update_part : ℕ → Updates → ℕ → Tx PartRow
  update_part part_id updates now = do
    current ← get_part part_id
    raise_if (has_unknown updates) (domain_error invalid_input)
    f ← lift (validate_fields readers (update_fields updates (draft_of current.fields)))
    replace_one readers part_id f now
    clear_pending_review part_id []
    get_part part_id

  abbrev pub update_each : List (ℕ × Updates) → ℕ → Tx (List PartRow)
  update_each [] now = pure []
  update_each ((part_id, updates) ∷ items) now = do
    p ← update_part part_id updates now
    rest ← update_each items now
    pure (p ∷ rest)

  -- `update_parts`
  unfoldable pub update_parts : List (ℕ × Updates) → ℕ → Tx (List PartRow)
  update_parts items now = do
    validate_batch (map (λ i. i.0) items)
    raise_if (any (λ i. is_empty i.1) items) (domain_error invalid_input)
    update_each items now

  abbrev pub get_each : List ℕ → Tx (List PartRow)
  get_each [] = pure []
  get_each (part_id ∷ ids) = do p ← get_part part_id; rest ← get_each ids; pure (p ∷ rest)

  -- The fields that each part would have, or the first error
  abbrev pub preview_each : Updates → List PartRow → Tx (List (PartRow × PartFields))
  preview_each updates [] = pure []
  preview_each updates (p ∷ rows) = do
    f ← lift (validate_fields readers (update_fields updates (draft_of p.fields)))
    rest ← preview_each updates rows
    pure ((p, f) ∷ rest)

  -- `preview_bulk_update`
  unfoldable pub preview_bulk_update : List ℕ → Updates → Tx (List (PartRow × PartFields))
  preview_bulk_update ids updates = do
    raise_if (not (is_batch_size ids) || has_bad_target ids) (domain_error invalid_input)
    raise_if (is_empty updates) (domain_error invalid_input)
    raise_if (has_unknown updates) (domain_error invalid_input)
    rows ← get_each ids
    preview_each updates rows

-- What a bulk edit answers: the parts that it changed, and the errors of the others.
pub record BulkResult : Type 0 where
  pub parts : List PartRow
  pub errors : List (ℕ × ErrorCode)

abbrev pub nothing_done : BulkResult
nothing_done = record { parts = []; errors = [] }

abbrev pub add_changed : PartRow → BulkResult → BulkResult
add_changed p r = record r { parts = p ∷ r.parts }

abbrev pub add_error : ℕ → ErrorCode → BulkResult → BulkResult
add_error part_id code r = record r { errors = (part_id, code) ∷ r.errors }

module _ (readers : Readers) where
  -- One part of a bulk edit, in a unit of its own, which a `DomainError` rolls back.
  abbrev pub commit_one : ℕ → Result (PartRow × Db) → Db → Tx (BulkResult → BulkResult)
  commit_one part_id (ok (p, db')) db = λ _. ok (add_changed p, db')
  commit_one part_id (err (domain_error code)) db = λ _. ok (add_error part_id code, db)
  commit_one part_id (err e) db = λ _. err e

  -- The parts in their order, each at its own time of `now()`
  abbrev pub bulk_each : List ℕ → Updates → ℕ → Tx BulkResult
  bulk_each [] updates now = pure nothing_done
  bulk_each (part_id ∷ ids) updates now = do
    add ← λ db. commit_one part_id (update_part readers part_id updates now db) db db
    rest ← bulk_each ids updates now
    pure (add rest)

  -- `bulk_update`
  unfoldable pub bulk_update : List ℕ → Updates → ℕ → Tx BulkResult
  bulk_update ids updates now = do
    preview ← preview_bulk_update readers ids updates
    bulk_each ids updates now

-- `PartsBinService.delete_part`
unfoldable pub remove_part : ℕ → Tx Unit
remove_part part_id = do current ← get_part part_id; delete_part part_id

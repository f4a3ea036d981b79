-- ===== src/Service/Changes.antt =====
-- Every sequence of operations of domain/service.py that write parts, whoever calls them.
use parts_bin.Prelude.{ℕ, ◌≡◌, List, ℤ}
use parts_bin.Storage.Parts.{PartRow, Evidence}
use parts_bin.Storage.Rows.{Db}
use parts_bin.Storage.Tx.{ok}
use parts_bin.Inventory.Facts.{apply_specification_review}
use parts_bin.Inventory.Stock.{add_stock, adjust_stock, add_stock_batch}
use parts_bin.Inventory.Counts.{IsCounted}
use parts_bin.Inventory.Steps.{
  add_stock-IsCounted, adjust_stock-IsCounted, add_stock_batch-IsCounted,
  apply_specification_review-IsCounted,
}
use parts_bin.Normalization.{Readers, Draft}
use parts_bin.Service.Adding.{
  CreatePartOutcome, add_part, add_or_increment, add_parts, create_parts,
}
use parts_bin.Service.Updating.{
  Updates, update_part, update_parts, BulkResult, bulk_update, remove_part,
}
use parts_bin.Service.Reviewing.{update_with_provenance, apply_review}
use parts_bin.Service.Nominal.{Plan, normalize_nominal_values}
use parts_bin.Service.Counted.{
  add_part-IsCounted, add_or_increment-IsCounted, add_parts-IsCounted, create_parts-IsCounted,
}
use parts_bin.Service.EditedCounts.{
  update_part-IsCounted, update_parts-IsCounted, bulk_update-IsCounted, remove_part-IsCounted,
}
use parts_bin.Service.ReviewedCounts.{
  update_with_provenance-IsCounted, apply_review-IsCounted, normalize_nominal_values-IsCounted,
}

-- An operation that its caller was told of, on whatever the caller sends.
pub data Change (readers : Readers) : Db → Db → Type 0 where
  adds_stock :
      {db db' : Db} (part_id : ℕ) (quantity : ℤ) (now : ℕ) (p : PartRow)
      → add_stock part_id quantity now db ≡ ok (p, db')
      → Change readers db db'
  adjusts :
      {db db' : Db} (part_id : ℕ) (delta : ℤ) (now : ℕ) (p : PartRow)
      → adjust_stock part_id delta now db ≡ ok (p, db')
      → Change readers db db'
  adds_batch :
      {db db' : Db} (items : List (ℕ × ℤ)) (now : ℕ) (rows : List PartRow)
      → add_stock_batch items now db ≡ ok (rows, db')
      → Change readers db db'
  adds :
      {db db' : Db} (d : Draft) (now : ℕ) (r : ℕ × PartRow)
      → add_part readers d now db ≡ ok (r, db')
      → Change readers db db'
  increments :
      {db db' : Db} (d : Draft) (now : ℕ) (r : ℕ × PartRow)
      → add_or_increment readers d now db ≡ ok (r, db')
      → Change readers db db'
  adds_all :
      {db db' : Db} (items : List Draft) (now : ℕ) (rows : List (ℕ × PartRow))
      → add_parts readers items now db ≡ ok (rows, db')
      → Change readers db db'
  creates :
      {db db' : Db} (items : List Draft) (now : ℕ) (os : List CreatePartOutcome)
      → create_parts readers items now db ≡ ok (os, db')
      → Change readers db db'
  edits :
      {db db' : Db} (part_id : ℕ) (updates : Updates) (now : ℕ) (p : PartRow)
      → update_part readers part_id updates now db ≡ ok (p, db')
      → Change readers db db'
  edits_all :
      {db db' : Db} (items : List (ℕ × Updates)) (now : ℕ) (rows : List PartRow)
      → update_parts readers items now db ≡ ok (rows, db')
      → Change readers db db'
  edits_selection :
      {db db' : Db} (ids : List ℕ) (updates : Updates) (now : ℕ) (r : BulkResult)
      → bulk_update readers ids updates now db ≡ ok (r, db')
      → Change readers db db'
  removes :
      {db db' : Db} (part_id : ℕ) (u : Unit)
      → remove_part part_id db ≡ ok (u, db')
      → Change readers db db'
  enriches :
      {db db' : Db} (part_id : ℕ) (fields : Updates) (provenance : List Evidence) (now : ℕ)
      (p : PartRow)
      → update_with_provenance readers part_id fields provenance now db ≡ ok (p, db')
      → Change readers db db'
  applies :
      {db db' : Db} (part_id : ℕ) (requested : Updates) (provenance : List Evidence) (now : ℕ)
      (p : PartRow)
      → apply_review readers part_id requested provenance now db ≡ ok (p, db')
      → Change readers db db'
  applies_facts :
      {db db' : Db} (part_id now : ℕ) (u : Unit)
      → apply_specification_review part_id now db ≡ ok (u, db')
      → Change readers db db'
  normalizes :
      {db db' : Db} (now : ℕ) (plan : Plan)
      → normalize_nominal_values readers now db ≡ ok (plan, db')
      → Change readers db db'

pub data Changes (readers : Readers) : Db → Db → Type 0 where
  unchanged : {db : Db} → Changes readers db db
  after :
      {db mid db' : Db} → Changes readers db mid → Change readers mid db' → Changes readers db db'

module _ (readers : Readers) where
  Change-IsCounted : (db db' : Db) → Change readers db db' → IsCounted db → IsCounted db'
  Change-IsCounted db db' (adds_stock part_id quantity now p e) h =
      add_stock-IsCounted part_id quantity now db p db' e h
  Change-IsCounted db db' (adjusts part_id delta now p e) h =
      adjust_stock-IsCounted part_id delta now db p db' e h
  Change-IsCounted db db' (adds_batch items now rows e) h =
      add_stock_batch-IsCounted items now db rows db' e h
  Change-IsCounted db db' (adds d now r e) h = add_part-IsCounted readers d now db r db' e h
  Change-IsCounted db db' (increments d now r e) h =
      add_or_increment-IsCounted readers d now db r db' e h
  Change-IsCounted db db' (adds_all items now rows e) h =
      add_parts-IsCounted readers items now db rows db' e h
  Change-IsCounted db db' (creates items now os e) h =
      create_parts-IsCounted readers items now db os db' e h
  Change-IsCounted db db' (edits part_id updates now p e) h =
      update_part-IsCounted readers part_id updates now db p db' e h
  Change-IsCounted db db' (edits_all items now rows e) h =
      update_parts-IsCounted readers items now db rows db' e h
  Change-IsCounted db db' (edits_selection ids updates now r e) h =
      bulk_update-IsCounted readers ids updates now db r db' e h
  Change-IsCounted db db' (removes part_id u e) h = remove_part-IsCounted part_id db u db' e h
  Change-IsCounted db db' (enriches part_id fields provenance now p e) h =
      update_with_provenance-IsCounted readers part_id fields provenance now db p db' e h
  Change-IsCounted db db' (applies part_id requested provenance now p e) h =
      apply_review-IsCounted readers part_id requested provenance now db p db' e h
  Change-IsCounted db db' (applies_facts part_id now u e) h =
      apply_specification_review-IsCounted part_id now db u db' e h
  Change-IsCounted db db' (normalizes now plan e) h =
      normalize_nominal_values-IsCounted readers now db plan db' e h

  -- Whatever stock is added and adjusted, whatever parts are added, edited and removed, and whatever
  -- reviews are applied and values rewritten, with whatever callers send and in whatever order: where no
  -- quantity was negative, none is.
  pub Changes-IsCounted : {db db' : Db} → Changes readers db db' → IsCounted db → IsCounted db'
  Changes-IsCounted unchanged h = h
  Changes-IsCounted (after {db} {mid} {db'} changes change) h =
      Change-IsCounted mid db' change (Changes-IsCounted changes h)

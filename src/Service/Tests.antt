-- ===== src/Service/Tests.antt =====
-- Two integrated circuits, the first with an electrical fact: edits, additions and reviews.
use parts_bin.Prelude.{◌≡◌, refl, arith, false, none, some, List, [], ◌∷◌, map, ℤ, pos}
use parts_bin.Storage.Table.{insert}
use parts_bin.Storage.Parts.{
  PartFields, PartRow, Fact, Metadata, discrete_ic, passive, SpecificationReview,
}
use parts_bin.Storage.Parts
use parts_bin.Storage.Rows.{Db}
use parts_bin.Storage.Tx.{ok, err, domain_error, domain_conflict}
use parts_bin.Samples.{empty}
use parts_bin.Texts.{codes}
use parts_bin.Inventory.{insert_part, replace, increment_stock}
use parts_bin.Inventory.Stock.{get_part}
use parts_bin.Inventory.Counts.{IsCounted}
use parts_bin.Inventory.Reviews.{clear_pending_review}
use parts_bin.Normalization.{
  FieldValue, text, validate_fields, typed, normalize_part_payload, part_identity,
}
use parts_bin.Normalization.Repair.{repair_fields}
use parts_bin.Normalization.Tests.{readers}
use parts_bin.Service.{draft_of}
use parts_bin.Service.Search.{search_filters}
use parts_bin.Service.Identity.{
  identities_meet, duplicate_for_add, collisions, check_replacement, replace_one,
}
use parts_bin.Service.Adding.{
  CreatePartOutcome, added, existing, duplicate_input, add_part, add_or_increment,
  increment_duplicate, create_parts,
}
use parts_bin.Service.Updating.{update_part, bulk_update, preview_bulk_update, BulkResult}
use parts_bin.Service.Editing.{edited}
use parts_bin.Service.Creation.{KeepsParts}
use parts_bin.Service.Batch.{numbered, AllAccounted, create_parts_creates}
use parts_bin.Service.Increment.{IsStocked, KeepsOthers, add_or_increment_stocks}
use parts_bin.Service.Changes.{unchanged, after, increments, Changes-IsCounted}
use parts_bin.Service.Bulk.{KeepsUnlisted, AreAnswered, bulk_update_answers}
use parts_bin.Inventory.Quantities.{restocked}
use parts_bin.Service.Distinct.{update_part_distinct}

abbrev chip : PartFields
chip = record {
  part_category = codes "led";
  profile = discrete_ic;
  quantity = pos 4;
  value = none;
  «package» = none;
  part_number = some (codes "A1");
  manufacturer = none;
  description = none;
  datasheet_url = none;
  value_unit = none;
}

abbrev other_chip : PartFields
other_chip = record chip { part_number = some (codes "B2"); quantity = pos 1 }

abbrev row_of : PartFields → PartRow
row_of f = record { fields = f; passive_identity = none; created_at = 0; updated_at = 0 }

abbrev fact : Fact
fact = record { name = 7; rest = 1 }

abbrev stock : Db
stock = record empty {
  pb_revision = some (record { revision = 0; next_part_id = 3; next_thread_order = 1 });
  parts = (1, row_of chip) ∷ (2, row_of other_chip) ∷ [];
  specifications = (1, fact ∷ []) ∷ [];
}

abbrev described : PartFields
described = record chip { description = some (codes "red") }

abbrev after_edit : PartRow
after_edit = record (row_of described) { updated_at = 9 }

edit :
    update_part readers 1 ((Parts.description, text (codes " red ")) ∷ []) 9 stock
    ≡ ok (after_edit, edited 1 described 9 stock)
unfolding update_part get_part validate_fields typed normalize_part_payload repair_fields
    part_identity replace_one check_replacement collisions replace clear_pending_review
edit = refl

-- The number of the other part is refused.
edit_refused :
    update_part readers 2 ((Parts.part_number, text (codes "A1")) ∷ []) 9 stock
    ≡ err (domain_error domain_conflict)
unfolding update_part get_part validate_fields typed normalize_part_payload repair_fields
    part_identity replace_one check_replacement collisions
edit_refused = refl

IsCounted-stock : IsCounted stock
IsCounted-stock j p h = ground arith

update_part_distinct_example :
    identities_meet (part_identity readers other_chip) (part_identity readers described) ≡ false
update_part_distinct_example =
    update_part_distinct readers 1 ((Parts.description, text (codes " red ")) ∷ []) 9 stock
      after_edit (edited 1 described 9 stock) IsCounted-stock edit 2 (row_of other_chip)
      (ground arith) refl

abbrev third : PartFields
third = record chip { part_number = some (codes "C3"); quantity = pos 2 }

abbrev third_row : PartRow
third_row = record { fields = third; passive_identity = none; created_at = 9; updated_at = 9 }

abbrev outcomes : List CreatePartOutcome
outcomes =
    (record { index = 0; part_id = 1; part = row_of chip; reason = existing })
    ∷ (record { index = 1; part_id = 3; part = third_row; reason = added })
    ∷ (record { index = 2; part_id = 3; part = third_row; reason = duplicate_input 1 })
    ∷ []

abbrev with_third : Db
with_third = record stock {
  pb_revision = some (record { revision = 0; next_part_id = 4; next_thread_order = 1 });
  parts = insert 3 third_row stock.parts;
}

create :
    create_parts readers (draft_of chip ∷ draft_of third ∷ draft_of third ∷ []) 9 stock
    ≡ ok (outcomes, with_third)
unfolding create_parts add_part duplicate_for_add search_filters get_part validate_fields typed
    normalize_part_payload repair_fields part_identity insert_part
create = refl

create_parts_creates_example :
    (map (λ (o : CreatePartOutcome). o.index) outcomes ≡ numbered 3 0)
    × KeepsParts stock with_third
    × AllAccounted stock with_third outcomes
create_parts_creates_example =
    create_parts_creates readers (draft_of chip ∷ draft_of third ∷ draft_of third ∷ []) 9 stock
      outcomes with_third create

abbrev more : PartRow
more = record {
  fields = record other_chip { quantity = pos 6 };
  passive_identity = none;
  created_at = 0;
  updated_at = 9;
}

increment :
    add_or_increment readers (draft_of (record other_chip { quantity = pos 5 })) 9 stock
    ≡ ok ((2, more), restocked 2 (pos 5) 9 stock)
unfolding add_or_increment increment_duplicate duplicate_for_add search_filters get_part
    validate_fields typed normalize_part_payload repair_fields part_identity increment_stock
increment = refl

add_or_increment_stocks_example :
    (quantity : ℤ) × (FieldValue.number (pos 5) ≡ FieldValue.number quantity)
    × IsStocked stock (restocked 2 (pos 5) 9 stock) 2 more quantity
    × KeepsOthers stock (restocked 2 (pos 5) 9 stock) 2
add_or_increment_stocks_example =
    add_or_increment_stocks readers (draft_of (record other_chip { quantity = pos 5 })) 9 stock 2
      more (restocked 2 (pos 5) 9 stock) increment

Changes-IsCounted_example : IsCounted (restocked 2 (pos 5) 9 stock)
Changes-IsCounted_example =
    Changes-IsCounted readers
      (after unchanged
        (increments (draft_of (record other_chip { quantity = pos 5 })) 9 (2, more) increment))
      IsCounted-stock

abbrev bulk_result : BulkResult
bulk_result = record {
  parts = record (row_of chip) { updated_at = 9 } ∷ [];
  errors = (2, domain_conflict) ∷ [];
}

bulk :
    bulk_update readers (1 ∷ 2 ∷ []) ((Parts.part_number, text (codes "A1")) ∷ []) 9 stock
    ≡ ok (bulk_result, edited 1 chip 9 stock)
unfolding bulk_update preview_bulk_update update_part get_part validate_fields typed
    normalize_part_payload repair_fields part_identity replace_one check_replacement collisions
    replace clear_pending_review
bulk = refl

bulk_update_answers_example :
    KeepsUnlisted (1 ∷ 2 ∷ []) stock (edited 1 chip 9 stock)
    × AreAnswered readers
        ((Parts.part_number, text (codes "A1")) ∷ [])
        9
        (1 ∷ 2 ∷ [])
        bulk_result.parts
        bulk_result.errors
        stock
        (edited 1 chip 9 stock)
bulk_update_answers_example =
    bulk_update_answers readers (1 ∷ 2 ∷ []) ((Parts.part_number, text (codes "A1")) ∷ []) 9 stock
      bulk_result (edited 1 chip 9 stock) bulk

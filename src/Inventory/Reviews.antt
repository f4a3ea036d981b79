-- ===== src/Inventory/Reviews.antt =====
-- db/postgres/inventory.py: reviews of proposed metadata, and provenance.
use parts_bin.Prelude.{
  ℕ, ◌+◌, Bool, true, false, not, ◌&&◌, Option, none, some, List, [], ◌∷◌, ◌++◌, map, if◌then◌else◌,
  ◌==◌, is_some, any,
}
use parts_bin.Storage.Table.{delete_where}
use parts_bin.Storage.Parts
use parts_bin.Storage.Parts.{
  Text, same_text, same_text?, PartFields, PartRow, FieldName, unknown, Evidence, PendingRow,
  ProvenanceRow, Fact, Metadata, SpecificationSnapshot, SpecificationReview, Profile, passive,
  discrete_ic,
}
use parts_bin.Storage.Rows.{Db}
use parts_bin.Storage.Tx.{Tx, conflict, pure, gets, modify, ◌>>=◌, ◌>>◌, raise_if}
use parts_bin.Inventory.{get, replace}
use parts_bin.Inventory.Facts.{metadata_of, same_metadata}

abbrev pub field_number : FieldName → ℕ
field_number Parts.part_category = 0
field_number Parts.profile = 1
field_number Parts.quantity = 2
field_number Parts.value = 3
field_number Parts.part_package = 4
field_number Parts.part_number = 5
field_number Parts.manufacturer = 6
field_number Parts.description = 7
field_number Parts.datasheet_url = 8
field_number Parts.value_unit = 9
field_number (unknown n) = n + 10

abbrev pub same_field : FieldName → FieldName → Bool
same_field a b = field_number a == field_number b

-- `part_id in self.list_pending_reviews()`
abbrev pub has_pending : ℕ → Db → Bool
has_pending part_id db = any (λ row. row.part_id == part_id) db.pending_reviews

abbrev pub is_cleared : ℕ → List FieldName → PendingRow → Bool
is_cleared part_id [] row = row.part_id == part_id
is_cleared part_id (name ∷ names) row =
    (row.part_id == part_id) && any (same_field row.field_name) (name ∷ names)

-- `clear_pending_review`: of the named fields, or of all where none is named
unfoldable pub clear_pending_review : ℕ → List FieldName → Tx Unit
clear_pending_review part_id names = modify (λ db. record db {
  pending_reviews = delete_where (is_cleared part_id names) db.pending_reviews;
})

-- `by_field.get(name, …)`: the last record of the field
abbrev pub evidence_for : FieldName → Option Text → List Evidence → Evidence
evidence_for name value [] = record {
  field_name = name;
  field_value = value;
  evidence = false;
  rest = 0;
}
evidence_for name value (e ∷ es) =
    let rest = evidence_for name value es in
    if same_field e.field_name name && not (any (λ (x : Evidence). same_field x.field_name name) es)
    then e
    else rest

abbrev pub pending_rows : ℕ → List (FieldName × Option Text) → List Evidence → List PendingRow
pending_rows part_id [] evidence = []
pending_rows part_id ((name, value) ∷ fields) evidence =
    (record {
      part_id = part_id;
      field_name = name;
      proposed_value = value;
      provenance = evidence_for name value evidence;
    })
    ∷ pending_rows part_id fields evidence

abbrev pub add_pending : List PendingRow → Db → Db
add_pending rows db = record db { pending_reviews = db.pending_reviews ++ rows }

-- `save_pending_review`
unfoldable pub save_pending_review : ℕ → List (FieldName × Option Text) → List Evidence → Tx Unit
save_pending_review part_id fields evidence = do
  raise_if (not (← gets (λ db. is_some (get part_id db)))) conflict
  clear_pending_review part_id []
  modify (add_pending (pending_rows part_id fields evidence))

-- The part is as it was, and nothing is proposed for it
abbrev pub is_unchanged : PartFields → Bool → Option PartRow → Bool
is_unchanged original pending none = false
is_unchanged original pending (some p) =
    same_metadata (metadata_of p.fields) (metadata_of original)
    && same_text? p.fields.description original.description
    && not pending

-- `stage_enrichment_if_unchanged`
unfoldable pub stage_enrichment_if_unchanged :
    ℕ → PartFields → List (FieldName × Option Text) → List Evidence → Tx Bool
stage_enrichment_if_unchanged part_id original fields evidence db =
    if is_unchanged original (has_pending part_id db) (get part_id db)
    then (save_pending_review part_id fields evidence >> pure true) db
    else pure false db

abbrev pub is_record_of : ℕ → FieldName → ProvenanceRow → Bool
is_record_of part_id name row = (row.part_id == part_id) && same_field row.field_name name

-- `INSERT … ON CONFLICT(part_id, field_name) DO UPDATE`
abbrev pub upsert_provenance : ℕ → Evidence → List ProvenanceRow → List ProvenanceRow
upsert_provenance part_id e rows =
    if any (is_record_of part_id e.field_name) rows
    then map
        (λ row. if is_record_of part_id e.field_name row then record row { entry = e } else row)
        rows
    else rows ++ (record { part_id = part_id; field_name = e.field_name; entry = e }) ∷ []

abbrev pub upsert_all : ℕ → List Evidence → List ProvenanceRow → List ProvenanceRow
upsert_all part_id [] rows = rows
upsert_all part_id (e ∷ es) rows = upsert_all part_id es (upsert_provenance part_id e rows)

-- `update_with_provenance`, with the fields as they become
unfoldable pub update_with_provenance : ℕ → PartFields → List Evidence → ℕ → Tx Unit
update_with_provenance part_id f evidence now = do
  replace part_id f now
  modify (λ db. record db { provenance = upsert_all part_id evidence db.provenance })

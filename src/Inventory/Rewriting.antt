-- ===== src/Inventory/Rewriting.antt =====
-- `rewrite_nominal_values` of db/postgres/inventory.py: values in another notation, with the reviews of
-- electrical facts carried along.
use parts_bin.Prelude.{ℕ, Bool, false, Option, none, some, List, [], ◌∷◌, if◌then◌else◌}
use parts_bin.Storage.Table.{Table, lookup, update}
use parts_bin.Storage.Parts.{Text, PartFields, SpecificationReview, SpecificationSnapshot}
use parts_bin.Storage.Rows.{Db}
use parts_bin.Storage.Tx.{Tx, key_error, pure, raise, gets, modify, ◌>>=◌, ◌>>◌}
use parts_bin.Inventory.{get, replace}
use parts_bin.Inventory.Facts.{specifications, is_current}

-- One part with its value and unit in the other notation
pub record Rewrite : Type 0 where
  pub part_id : ℕ
  pub value : Text
  pub value_unit : Text

abbrev pub rewritten : Rewrite → PartFields → PartFields
rewritten r f = record f { value = some r.value; value_unit = some r.value_unit }

abbrev pub rewritten_review : Rewrite → SpecificationReview → SpecificationReview
rewritten_review r review = record review {
  snapshot = record review.snapshot {
    metadata = record review.snapshot.metadata {
      value = some r.value;
      value_unit = some r.value_unit;
    };
  };
}

-- `snapshot == before`, of the review that is stored
abbrev pub is_bound : Option SpecificationReview → ℕ → Db → Bool
is_bound none part_id db = false
is_bound (some review) part_id db =
    is_current review.snapshot (specifications part_id db) (get part_id db)

-- `UPDATE part_specification_reviews SET snapshot_json = …`
abbrev pub with_snapshot : SpecificationSnapshot → SpecificationReview → SpecificationReview
with_snapshot snapshot review = record review { snapshot = snapshot }

abbrev pub carry_review : Rewrite → Option SpecificationReview → Bool → Db → Db
carry_review r none bound db = db
carry_review r (some review) bound db =
    if bound
    then record db {
      specification_reviews =
          update r.part_id (with_snapshot (rewritten_review r review).snapshot)
            db.specification_reviews;
    }
    else db

-- `_replace(part_id, fields)`, of the two fields
abbrev pub replace_value : Rewrite → ℕ → Tx Unit
replace_value r now db = elim (get r.part_id db) [
  | none ↦ raise key_error db
  | some p ↦ replace r.part_id (rewritten r p.fields) now db
]

-- One round of the loop, with the reviews that were read before it
unfoldable pub rewrite_one : Table SpecificationReview → Rewrite → ℕ → Tx Unit
rewrite_one reviews r now = do
  bound ← gets (is_bound (lookup r.part_id reviews) r.part_id)
  replace_value r now
  modify (carry_review r (lookup r.part_id reviews) bound)

unfoldable pub rewrite_each : Table SpecificationReview → List Rewrite → ℕ → Tx Unit
rewrite_each reviews [] now = pure tt
rewrite_each reviews (r ∷ rewrites) now = do
  rewrite_one reviews r now
  rewrite_each reviews rewrites now

-- `rewrite_nominal_values`
unfoldable pub rewrite_nominal_values : List Rewrite → ℕ → Tx Unit
rewrite_nominal_values rewrites now = do
  reviews ← gets (λ db. db.specification_reviews)
  rewrite_each reviews rewrites now

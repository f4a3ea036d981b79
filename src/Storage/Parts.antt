-- ===== src/Storage/Parts.antt =====
-- The rows of db/postgres/schema.sql for the inventory, and the records of domain/models.py. A text
-- is the list of its code points.
use parts_bin.Prelude.{ℕ, Bool, true, false, ◌&&◌, Option, none, some, List, [], ◌∷◌, ◌==◌}
use parts_bin.Prelude.{ℤ}

abbrev pub Text : Type 0
Text = List ℕ

abbrev pub same_text : Text → Text → Bool
same_text [] [] = true
same_text (a ∷ s) (b ∷ t) = (a == b) && same_text s t
same_text _ _ = false

abbrev pub same_text? : Option Text → Option Text → Bool
same_text? none none = true
same_text? (some s) (some t) = same_text s t
same_text? _ _ = false

-- The `CHECK` on `parts.profile`
pub data Profile : Type 0 where
  passive discrete_ic : Profile

-- `PartFields`
pub record PartFields : Type 0 where
  pub part_category : Text
  pub profile : Profile
  pub quantity : ℤ
  pub value : Option Text
  pub «package» : Option Text
  pub part_number : Option Text
  pub manufacturer : Option Text
  pub description : Option Text
  pub datasheet_url : Option Text
  pub value_unit : Option Text

-- A row of `parts` beside its id. A time is a number of microseconds.
pub record PartRow : Type 0 where
  pub fields : PartFields
  pub passive_identity : Option (Text × Text × Text)
  pub created_at : ℕ
  pub updated_at : ℕ

-- The fields that may be edited, and any other name that a request holds.
pub data FieldName : Type 0 where
  part_category profile quantity value part_package part_number : FieldName
  manufacturer description datasheet_url value_unit : FieldName
  unknown : ℕ → FieldName

-- One record of provenance: the entries that the code reads, and all others. `evidence` is whether the
-- record quotes any.
pub record Evidence : Type 0 where
  pub field_name : FieldName
  pub field_value : Option Text
  pub evidence : Bool
  pub rest : ℕ

-- A row of `part_pending_field_review`
pub record PendingRow : Type 0 where
  pub part_id : ℕ
  pub field_name : FieldName
  pub proposed_value : Option Text
  pub provenance : Evidence

-- A row of `part_field_provenance`
pub record ProvenanceRow : Type 0 where
  pub part_id : ℕ
  pub field_name : FieldName
  pub entry : Evidence

-- An electrical fact: its name, and all other entries.
pub record Fact : Type 0 where
  pub name : ℕ
  pub rest : ℕ

-- `_METADATA` of a part
pub record Metadata : Type 0 where
  pub part_category : Text
  pub profile : Profile
  pub value : Option Text
  pub «package» : Option Text
  pub part_number : Option Text
  pub manufacturer : Option Text
  pub value_unit : Option Text

-- What an electrical review was staged against.
pub record SpecificationSnapshot : Type 0 where
  pub metadata : Metadata
  pub facts : List Fact

-- A row of `part_specification_reviews`
pub record SpecificationReview : Type 0 where
  pub facts : List Fact
  pub snapshot : SpecificationSnapshot

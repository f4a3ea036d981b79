-- ===== src/Electrical/Requirements.antt =====
-- `validate_requirements` of domain/specifications.py: what a request may ask of a field.
use parts_bin.Prelude.{Bool, true, false, not, ◌&&◌, List, [], ◌∷◌, length, if◌then◌else◌, is_some}
use parts_bin.Storage.Parts.{Text, same_text}
use parts_bin.Storage.Tx.{Result, ok}
use parts_bin.Texts.{codes}
use parts_bin.Electrical.Quantities.{invalid}
use parts_bin.Electrical.Quantities.Comparing.{Comparison, eq, gte, lte}
use parts_bin.Electrical.Conditions.{Conditions}
use parts_bin.Electrical.Results.{◌>>=◌, ◌>>◌, refuse_if}
use parts_bin.Electrical.Json.{Json, text_of, array_of, object_of}
use parts_bin.Electrical.Specifications.{Normal, definition, specification_value, conditions}
use parts_bin.Electrical.Facts.{is_list_size}
use parts_bin.Electrical.Facts.Checks.{member, has_only}

-- `SpecificationRequirement`, with its normalized value
pub record Requirement : Type 0 where
  pub name : Text
  pub comparison : Comparison
  pub value : Text
  pub basis : Text
  pub conditions : Conditions
  pub normalized_value : Normal

abbrev pub comparison_of : Text → Result Comparison
comparison_of s =
    if same_text s (codes "eq")
    then ok eq
    else if same_text s (codes "gte")
    then ok gte
    else if same_text s (codes "lte")
    then ok lte
    else invalid

abbrev pub is_eq : Comparison → Bool
is_eq eq = true
is_eq _ = false

abbrev pub requirement_keys : List Text
requirement_keys =
    codes "name" ∷ codes "comparison" ∷ codes "value" ∷ codes "basis" ∷ codes "conditions" ∷ []

unfoldable pub validate_requirement : Text → Json → Result Requirement
unfolding specification_value definition conditions
validate_requirement category raw = do
  record_ ← object_of raw
  refuse_if (not (has_only requirement_keys record_))
  name ← text_of (member (codes "name") record_)
  op ← text_of (member (codes "comparison") record_)
  comparison ← comparison_of op
  let basis = member (codes "basis") record_
  normal ← specification_value category name (member (codes "value") record_) basis
  item ← definition category name
  refuse_if (not (is_some item.unit) && not (is_eq comparison))
  qualified ← conditions (member (codes "conditions") record_)
  value_text ← text_of (member (codes "value") record_)
  basis_text ← text_of basis
  ok (record {
    name = name;
    comparison = comparison;
    value = value_text;
    basis = basis_text;
    conditions = qualified;
    normalized_value = normal;
  })

abbrev pub validate_all : Text → List Json → Result (List Requirement)
validate_all category [] = ok []
validate_all category (raw ∷ rest) = do
  requirement ← validate_requirement category raw
  requirements ← validate_all category rest
  ok (requirement ∷ requirements)

-- `validate_requirements`
unfoldable pub validate_requirements : Text → Json → Result (List Requirement)
unfolding validate_requirement
validate_requirements category raw = do
  records ← array_of raw
  refuse_if (not (is_list_size (length records)))
  validate_all category records

-- ===== src/Electrical/Facts.antt =====
-- `validate_facts` of domain/specifications.py. The reading of URLs and of times is a parameter.
pub mod Checks
pub mod Evidence
pub mod Accepted
mod Tests
use parts_bin.Prelude.{
  ℕ, Bool, true, false, not, ◌&&◌, ◌||◌, List, [], ◌∷◌, length, Option, none, some, ltb, leb,
  if◌then◌else◌, ◌==◌,
}
use parts_bin.Storage.Parts.{Text, same_text}
use parts_bin.Storage.Tx.{Result, ok, err, type_error}
use parts_bin.Texts.{codes, among}
use parts_bin.Electrical.Entries.{lookup, keys}
use parts_bin.Electrical.Quantities.{invalid}
use parts_bin.Electrical.Conditions.{Conditions}
use parts_bin.Electrical.Results.{◌>>=◌, ◌>>◌, refuse_if}
use parts_bin.Electrical.Json.{Json, null, text, Object, text_of, array_of, object_of}
use parts_bin.Electrical.Specifications.{
  Normal, range, choice, specification_value, conditions, is_unbounded,
}
use parts_bin.Electrical.Facts.Checks.{
  Readers, member, has_only, source_keys, kind_of, check_excerpt, check_source,
}

-- `SpecificationFact`, as a dictionary
pub record SpecificationFact : Type 0 where
  pub name : Text
  pub value : Text
  pub basis : Text
  pub conditions : Conditions
  pub evidence : Object

-- The two endpoints differ.
abbrev pub is_range : Normal → Bool
is_range (range a b) = not (same_text a b)
is_range (choice s) = false

abbrev pub passive_identities : List Text
passive_identities = codes "resistance" ∷ codes "capacitance" ∷ codes "inductance" ∷ []

abbrev pub check_by_kind : Readers → Option Text → Text → Object → Result (Unit {0})
check_by_kind readers part_number kind evidence =
    if same_text kind (codes "source")
    then check_source readers part_number evidence
    else refuse_if (not (has_only (codes "kind" ∷ codes "excerpt" ∷ []) evidence))

-- The evidence of one fact
unfoldable pub check_evidence : Readers → Option Text → Object → Result (Unit {0})
unfolding kind_of check_excerpt check_source
check_evidence readers part_number evidence = do
  kind ← kind_of (member (codes "kind") evidence)
  refuse_if (not (among kind (codes "source" ∷ codes "user_assertion" ∷ [])))
  check_excerpt 1200 (member (codes "excerpt") evidence)
  check_by_kind readers part_number kind evidence

abbrev pub fact_keys : List Text
fact_keys =
    codes "name" ∷ codes "value" ∷ codes "basis" ∷ codes "conditions" ∷ codes "evidence" ∷ []

-- One record, after records with the names that are given
unfoldable pub validate_fact :
    Readers → Text → Option Text → List Text → Json → Result SpecificationFact
unfolding specification_value conditions check_evidence
validate_fact readers category part_number names raw = do
  record_ ← object_of raw
  refuse_if (not (has_only fact_keys record_))
  name ← text_of (member (codes "name") record_)
  refuse_if (among name names)
  let basis = member (codes "basis") record_
  value ← specification_value category name (member (codes "value") record_) basis
  refuse_if (among name passive_identities && is_range value)
  qualified ← conditions (member (codes "conditions") record_)
  evidence ← object_of (member (codes "evidence") record_)
  check_evidence readers part_number evidence
  value_text ← text_of (member (codes "value") record_)
  basis_text ← text_of basis
  ok (record {
    name = name;
    value = value_text;
    basis = basis_text;
    conditions = qualified;
    evidence = evidence;
  })

abbrev pub validate_facts_each :
    Readers → Text → Option Text → List Text → List Json → Result (List SpecificationFact)
validate_facts_each readers category part_number names [] = ok []
validate_facts_each readers category part_number names (raw ∷ rest) = do
  fact ← validate_fact readers category part_number names raw
  facts ← validate_facts_each readers category part_number (fact.name ∷ names) rest
  ok (fact ∷ facts)

abbrev pub is_list_size : ℕ → Bool
is_list_size n = leb 1 n && leb n 20

-- `validate_facts`
unfoldable pub validate_facts :
    Readers → Text → Option Text → Json → Result (List SpecificationFact)
unfolding validate_fact
validate_facts readers category part_number raw = do
  records ← array_of raw
  refuse_if (not (is_list_size (length records)))
  validate_facts_each readers category part_number [] records

-- ===== src/Service.antt =====
-- domain/service.py over the rows of the inventory: searches, identities, and the operations that add,
-- edit and remove parts. Every operation is the body of its unit of work; Units is what wraps it.
pub mod Search
pub mod Identity
pub mod Adding
pub mod Updating
pub mod Expressions
pub mod Compiled
pub mod Checking
pub mod Placed
pub mod Lines
pub mod Checked
pub mod Nominal
pub mod Listing
pub mod Reviewing
pub mod Inversion
pub mod Editing
pub mod Distinct
pub mod Creation
pub mod Batch
pub mod Bulk
pub mod Counted
pub mod EditedCounts
pub mod ReviewedCounts
pub mod Changes
mod Tests
mod QueryTests
pub mod Increment
use parts_bin.Prelude.{
  ℕ, Bool, true, false, Option, none, some, List, [], ◌∷◌, if◌then◌else◌, ◌==◌, ◌||◌,
}
use parts_bin.Storage.Parts.{Text, FieldName, unknown}
use parts_bin.Storage.Parts
use parts_bin.Storage.Parts.{PartFields, Profile, passive, discrete_ic}
use parts_bin.Storage.Rows.{Db}
use parts_bin.Storage.Tx.{
  Tx, Result, ok, err, conflict, domain_error, ErrorCode, domain_conflict, invalid_input,
}
use parts_bin.Texts.{codes}
use parts_bin.Normalization.{FieldValue, null, text, number, boolean, Draft}

-- A computation that touches no row, within a unit.
abbrev pub lift : {A : Type 0} → Result A → Tx A
lift (ok a) db = ok (a, db)
lift (err e) db = err e

-- `except RepositoryConflict as exc: raise DomainError(code, …) from exc`
abbrev pub on_conflict : {A : Type 0} → ErrorCode → Result A → Result A
on_conflict code (ok a) = ok a
on_conflict code (err conflict) = err (domain_error code)
on_conflict code (err e) = err e

abbrev pub text_or_null : Option Text → FieldValue
text_or_null none = null
text_or_null (some s) = text s

abbrev pub profile_text : Profile → Text
profile_text passive = codes "passive"
profile_text discrete_ic = codes "discrete_ic"

-- `vars(fields)`, or `getattr(current, name) for name in _EDITABLE`
abbrev pub draft_of : PartFields → Draft
draft_of f = record {
  part_category = text f.part_category;
  profile = text (profile_text f.profile);
  quantity = number f.quantity;
  value = text_or_null f.value;
  «package» = text_or_null f.«package»;
  part_number = text_or_null f.part_number;
  manufacturer = text_or_null f.manufacturer;
  description = text_or_null f.description;
  datasheet_url = text_or_null f.datasheet_url;
  value_unit = text_or_null f.value_unit;
}

-- `merged[name] = value`
abbrev pub set_field : FieldName → FieldValue → Draft → Draft
set_field Parts.part_category v d = record d { part_category = v }
set_field Parts.profile v d = record d { profile = v }
set_field Parts.quantity v d = record d { quantity = v }
set_field Parts.value v d = record d { value = v }
set_field Parts.part_package v d = record d { «package» = v }
set_field Parts.part_number v d = record d { part_number = v }
set_field Parts.manufacturer v d = record d { manufacturer = v }
set_field Parts.description v d = record d { description = v }
set_field Parts.datasheet_url v d = record d { datasheet_url = v }
set_field Parts.value_unit v d = record d { value_unit = v }
set_field (unknown n) v d = d

-- `merged.update(fields)`
abbrev pub update_fields : List (FieldName × FieldValue) → Draft → Draft
update_fields [] d = d
update_fields ((name, v) ∷ fields) d = update_fields fields (set_field name v d)

-- `set(fields) - _EDITABLE`, whether it is not empty
abbrev pub has_unknown : List (FieldName × FieldValue) → Bool
has_unknown [] = false
has_unknown ((unknown n, v) ∷ fields) = true
has_unknown ((_, v) ∷ fields) = has_unknown fields

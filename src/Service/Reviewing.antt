-- ===== src/Service/Reviewing.antt =====
-- Reviews of proposed metadata: `stage_enrichment`, `apply_review`, `reject_review` and
-- `update_with_provenance` of domain/service.py.
use parts_bin.Prelude.{
  ℕ, Bool, true, false, not, ◌&&◌, ◌||◌, Option, none, some, List, [], ◌∷◌, map, any, if◌then◌else◌,
  ◌==◌,
}
use parts_bin.Storage.Parts.{
  Text, same_text, same_text?, FieldName, unknown, PartFields, PartRow, Evidence, PendingRow,
}
use parts_bin.Storage.Parts
use parts_bin.Storage.Tx.{
  Tx, domain_error, invalid_input, review_not_found, domain_conflict, pure, gets, ◌>>=◌, ◌>>◌,
  raise_if,
}
use parts_bin.Texts.{strip}
use parts_bin.Inventory.Stock.{get_part}
use parts_bin.Inventory.Reviews.{
  same_field, has_pending, clear_pending_review, evidence_for, stage_enrichment_if_unchanged,
}
use parts_bin.Inventory.Reviews
use parts_bin.Normalization.{Readers, FieldValue, null, text, validate_fields}
use parts_bin.Service.{lift, on_conflict, draft_of, update_fields}
use parts_bin.Service.Identity.{check_replacement}
use parts_bin.Service.Updating.{Updates, is_empty}

-- `set(updates) - allowed` of `stage_enrichment`, of one name
abbrev pub may_propose : FieldName → Bool
may_propose Parts.part_number = true
may_propose Parts.manufacturer = true
may_propose Parts.part_package = true
may_propose Parts.description = true
may_propose _ = false

-- `updates.get("part_number", original.part_number) != original.part_number`, of one field
abbrev pub changes_number : Option Text → FieldName × FieldValue → Bool
changes_number original (Parts.part_number, text s) = not (same_text? (some s) original)
changes_number none (Parts.part_number, null) = false
changes_number original (Parts.part_number, v) = true
changes_number original _ = false

abbrev pub is_blank : Text → Bool
is_blank s = elim (strip s) [ [] ↦ true | c ∷ t ↦ false ]

-- A text that the record of its field has as its value, with evidence
abbrev pub is_evidenced : List Evidence → FieldName × FieldValue → Bool
is_evidenced provenance (name, text s) =
    let e = evidence_for name none provenance in
    not (is_blank s) && same_text? e.field_value (some s) && e.evidence
is_evidenced provenance (name, v) = false

abbrev pub value_text : FieldValue → Option Text
value_text (text s) = some s
value_text _ = none

abbrev pub proposed : Updates → List (FieldName × Option Text)
proposed [] = []
proposed ((name, v) ∷ updates) = (name, value_text v) ∷ proposed updates

-- `stage_enrichment`, of the part as the caller saw it
unfoldable pub stage_enrichment : ℕ → PartFields → Updates → List Evidence → Tx Unit
stage_enrichment part_id original updates provenance = do
  raise_if (is_empty updates || any (λ u. not (may_propose u.0)) updates)
      (domain_error invalid_input)
  raise_if (any (changes_number original.part_number) updates) (domain_error domain_conflict)
  raise_if (any (λ u. not (is_evidenced provenance u)) updates) (domain_error invalid_input)
  staged ← stage_enrichment_if_unchanged part_id original (proposed updates) provenance
  raise_if (not staged) (domain_error domain_conflict)

-- `set(fields) - (_EDITABLE - {"quantity"})`, of one name
abbrev pub no_metadata : FieldName → Bool
no_metadata Parts.quantity = true
no_metadata (unknown n) = true
no_metadata _ = false

-- `if value is not None`
abbrev pub without_null : Updates → Updates
without_null [] = []
without_null ((name, null) ∷ updates) = without_null updates
without_null ((name, v) ∷ updates) = (name, v) ∷ without_null updates

-- `updates[name] = cleaned[name]`
abbrev pub take_field : PartFields → FieldName → PartFields → PartFields
take_field cleaned Parts.part_category f = record f { part_category = cleaned.part_category }
take_field cleaned Parts.profile f = record f { profile = cleaned.profile }
take_field cleaned Parts.quantity f = record f { quantity = cleaned.quantity }
take_field cleaned Parts.value f = record f { value = cleaned.value }
take_field cleaned Parts.part_package f = record f { «package» = cleaned.«package» }
take_field cleaned Parts.part_number f = record f { part_number = cleaned.part_number }
take_field cleaned Parts.manufacturer f = record f { manufacturer = cleaned.manufacturer }
take_field cleaned Parts.description f = record f { description = cleaned.description }
take_field cleaned Parts.datasheet_url f = record f { datasheet_url = cleaned.datasheet_url }
take_field cleaned Parts.value_unit f = record f { value_unit = cleaned.value_unit }
take_field cleaned (unknown n) f = f

abbrev pub take_fields : PartFields → List FieldName → PartFields → PartFields
take_fields cleaned [] f = f
take_fields cleaned (name ∷ names) f = take_fields cleaned names (take_field cleaned name f)

-- `'value' in updates or 'part_category' in updates or 'value_unit' in updates`
abbrev pub touches_value : FieldName → Bool
touches_value Parts.value = true
touches_value Parts.part_category = true
touches_value Parts.value_unit = true
touches_value _ = false

-- The names whose cleaned value is written
abbrev pub names_written : List FieldName → List FieldName
names_written names =
    if any touches_value names then Parts.value ∷ Parts.value_unit ∷ names else names

-- The repository leaves a field as it was where the new value is null.
abbrev pub or_before : Option Text → Option Text → Option Text
or_before none old = old
or_before (some s) old = some s

abbrev pub keep_for_null : PartFields → PartFields → PartFields
keep_for_null old f = record f {
  value = or_before f.value old.value;
  «package» = or_before f.«package» old.«package»;
  part_number = or_before f.part_number old.part_number;
  manufacturer = or_before f.manufacturer old.manufacturer;
  description = or_before f.description old.description;
  datasheet_url = or_before f.datasheet_url old.datasheet_url;
  value_unit = or_before f.value_unit old.value_unit;
}

-- The fields of the part with those that are written
abbrev pub changed_fields : PartFields → Updates → PartFields → PartFields
changed_fields cleaned fields current =
    take_fields cleaned (names_written (map (λ u. u.0) (without_null fields))) current

module _ (readers : Readers) where
  abbrev pub write_fields : ℕ → PartFields → PartFields → List Evidence → ℕ → Tx PartRow
  write_fields part_id current changed provenance now = do
    check_replacement readers part_id changed
    λ db.
        on_conflict domain_conflict
          (Reviews.update_with_provenance part_id (keep_for_null current changed) provenance now db)
    get_part part_id

  -- `update_with_provenance` of the service
  unfoldable pub update_with_provenance : ℕ → Updates → List Evidence → ℕ → Tx PartRow
  update_with_provenance part_id fields provenance now = do
    current ← get_part part_id
    raise_if (any (λ u. no_metadata u.0) fields) (domain_error invalid_input)
    cleaned ←
        lift
          (validate_fields readers (update_fields (without_null fields) (draft_of current.fields)))
    write_fields part_id current.fields (changed_fields cleaned fields current.fields) provenance
        now

-- `row['proposed_value'] or ''`
abbrev pub text_or_empty : Option Text → FieldValue
text_or_empty none = text []
text_or_empty (some s) = text s

-- The fields of the review of a part, and its records of provenance
abbrev pub review_fields : ℕ → List PendingRow → Updates
review_fields part_id [] = []
review_fields part_id (row ∷ rows) =
    let rest = review_fields part_id rows in
    if row.part_id == part_id
    then (row.field_name, text_or_empty row.proposed_value) ∷ rest
    else rest

abbrev pub review_provenance : ℕ → List PendingRow → List Evidence
review_provenance part_id [] = []
review_provenance part_id (row ∷ rows) =
    let rest = review_provenance part_id rows in
    if row.part_id == part_id then row.provenance ∷ rest else rest

-- `request.updates or {…}` and `list(request.provenance) or …`
abbrev pub or_else {ℓ} : {A : Type ℓ} → List A → List A → List A
or_else [] ys = ys
or_else (x ∷ xs) ys = x ∷ xs

module _ (readers : Readers) where
  -- `apply_review`
  unfoldable pub apply_review : ℕ → Updates → List Evidence → ℕ → Tx PartRow
  apply_review part_id requested provenance now = do
    current ← get_part part_id
    raise_if (← gets (λ db. not (has_pending part_id db))) (domain_error review_not_found)
    updates ← gets (λ db. or_else requested (review_fields part_id db.pending_reviews))
    raise_if (is_empty updates) (domain_error invalid_input)
    records ← gets (λ db. or_else provenance (review_provenance part_id db.pending_reviews))
    result ← update_with_provenance readers part_id updates records now
    clear_pending_review part_id (map (λ u. u.0) updates)
    pure result

abbrev pub reject_named : ℕ → List FieldName → Tx Unit
reject_named part_id [] = clear_pending_review part_id []
reject_named part_id (name ∷ names) = do
  raise_if (← gets (λ db. not (has_pending part_id db))) (domain_error review_not_found)
  clear_pending_review part_id (name ∷ names)

-- `reject_review`
unfoldable pub reject_review : ℕ → List FieldName → Tx Unit
reject_review part_id names = do current ← get_part part_id; reject_named part_id names

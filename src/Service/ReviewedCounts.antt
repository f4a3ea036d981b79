-- ===== src/Service/ReviewedCounts.antt =====
-- Quantities through reviews of metadata, provenance and the notation of values: domain/service.py.
use parts_bin.Prelude.{ℕ, ◌≡◌, ap, subst, false, not, List, [], ◌∷◌, map, any, arith, is_negative}
use parts_bin.Storage.Keys.{AllRows}
use parts_bin.Storage.Parts
use parts_bin.Storage.Parts.{PartFields, PartRow, Evidence, FieldName, unknown}
use parts_bin.Storage.Rows.{Db}
use parts_bin.Storage.Tx.{
  ok, ok-injective, domain_error, invalid_input, domain_conflict, review_not_found, >>=-eq-ok,
  raise_if_then-eq-ok,
}
use parts_bin.Inventory.{replace}
use parts_bin.Inventory.Reviews
use parts_bin.Inventory.Reviews.{has_pending, clear_pending_review}
use parts_bin.Inventory.Rewriting.{rewrite_nominal_values}
use parts_bin.Inventory.Quantities.{get_part-eq-ok}
use parts_bin.Inventory.Counts.{IsCounted}
use parts_bin.Inventory.Steps.{replace-IsCounted, rewrite_nominal_values-IsCounted}
use parts_bin.Normalization.{Readers, FieldValue, validate_fields}
use parts_bin.Normalization.Validation.{validate_fields_sound}
use parts_bin.Service.{on_conflict, draft_of, update_fields}
use parts_bin.Service.Identity.{check_replacement}
use parts_bin.Service.Updating.{Updates, is_empty}
use parts_bin.Service.Reviewing.{
  take_field, take_fields, keep_for_null, changed_fields, names_written, without_null, no_metadata,
  write_fields, update_with_provenance, apply_review, or_else, review_fields, review_provenance,
}
use parts_bin.Service.Nominal.{
  Plan, plan_nominal_normalization, has_conflicting, normalize_nominal_values,
}
use parts_bin.Service.Inversion.{get_part_then-eq-ok, lift_then-eq-ok, on_conflict-eq-ok}
use parts_bin.Service.Editing.{check_replacement-eq-ok}

take_field-counted :
    (cleaned : PartFields) (name : FieldName) (f : PartFields)
    → is_negative cleaned.quantity ≡ false
    → is_negative f.quantity ≡ false
    → is_negative (take_field cleaned name f).quantity ≡ false
take_field-counted cleaned Parts.quantity f h k = h
take_field-counted cleaned Parts.part_category f h k = k
take_field-counted cleaned Parts.profile f h k = k
take_field-counted cleaned Parts.value f h k = k
take_field-counted cleaned Parts.part_package f h k = k
take_field-counted cleaned Parts.part_number f h k = k
take_field-counted cleaned Parts.manufacturer f h k = k
take_field-counted cleaned Parts.description f h k = k
take_field-counted cleaned Parts.datasheet_url f h k = k
take_field-counted cleaned Parts.value_unit f h k = k
take_field-counted cleaned (unknown n) f h k = k

take_fields-counted :
    (cleaned : PartFields) (names : List FieldName) (f : PartFields)
    → is_negative cleaned.quantity ≡ false
    → is_negative f.quantity ≡ false
    → is_negative (take_fields cleaned names f).quantity ≡ false
take_fields-counted cleaned [] f h k = k
take_fields-counted cleaned (name ∷ names) f h k =
    take_fields-counted cleaned names (take_field cleaned name f) h
      (take_field-counted cleaned name f h k)

stored_provenance-IsCounted :
    (part_id : ℕ) (f : PartFields) (provenance : List Evidence) (now : ℕ) (db : Db) (u : Unit)
    (db' : Db)
    → is_negative f.quantity ≡ false
    → Reviews.update_with_provenance part_id f provenance now db ≡ ok (u, db')
    → IsCounted db
    → IsCounted db'
unfolding Reviews.update_with_provenance
stored_provenance-IsCounted part_id f provenance now db u db' n e h =
    let (v, mid, is_replaced, rest) = >>=-eq-ok (replace part_id f now) _ db e in
    let rows : mid.parts ≡ db'.parts = ap (λ (d : Db). d.parts) (ok-injective rest).1 in
    subst (AllRows (λ p. not (is_negative p.fields.quantity))) rows
      (replace-IsCounted part_id f now db v mid n is_replaced h)

write_fields-IsCounted :
    (readers : Readers) (part_id : ℕ) (current changed : PartFields) (provenance : List Evidence)
    (now : ℕ) (db : Db) (p : PartRow) (db' : Db)
    → is_negative changed.quantity ≡ false
    → write_fields readers part_id current changed provenance now db ≡ ok (p, db')
    → IsCounted db
    → IsCounted db'
write_fields-IsCounted readers part_id current changed provenance now db p db' n e h =
    let (u, mid, is_checked, rest) = >>=-eq-ok (check_replacement readers part_id changed) _ db e in
    let (old, is_old, bound, few, same) =
      check_replacement-eq-ok readers part_id changed db u mid is_checked in
    let kept = keep_for_null current changed in
    let (v, last, is_stored, ended) =
      >>=-eq-ok
        (λ d.
          on_conflict domain_conflict
            (Reviews.update_with_provenance part_id kept provenance now d))
        _ mid rest in
    let stored =
      on_conflict-eq-ok domain_conflict
        (Reviews.update_with_provenance part_id kept provenance now mid) (v, last) is_stored in
    subst IsCounted (get_part-eq-ok part_id last p db' ended).1 (
      stored_provenance-IsCounted part_id kept provenance now mid v last n stored
        (subst IsCounted same h))

pub update_with_provenance-IsCounted :
    (readers : Readers) (part_id : ℕ) (fields : Updates) (provenance : List Evidence) (now : ℕ)
    (db : Db) (p : PartRow) (db' : Db)
    → update_with_provenance readers part_id fields provenance now db ≡ ok (p, db')
    → IsCounted db
    → IsCounted db'
unfolding update_with_provenance
update_with_provenance-IsCounted readers part_id fields provenance now db p db' e h =
    let (current, found, rest) = get_part_then-eq-ok part_id _ db e in
    let (metadata, checked) =
      raise_if_then-eq-ok (any (λ (u : FieldName × FieldValue). no_metadata u.0) fields)
        (domain_error invalid_input) _ db rest in
    let d = update_fields (without_null fields) (draft_of current.fields) in
    let (cleaned, valid, last) = lift_then-eq-ok (validate_fields readers d) _ db checked in
    let (given, counted, profile) = validate_fields_sound readers d cleaned valid in
    let changed = changed_fields cleaned fields current.fields in
    let names = names_written (map (λ (u : FieldName × FieldValue). u.0) (without_null fields)) in
    let changed_counted : is_negative changed.quantity ≡ false =
      take_fields-counted cleaned names current.fields counted
        (ground (arith, h part_id current)) in
    write_fields-IsCounted readers part_id current.fields changed provenance now db p db'
      changed_counted last h

pub apply_review-IsCounted :
    (readers : Readers) (part_id : ℕ) (requested : Updates) (provenance : List Evidence) (now : ℕ)
    (db : Db) (p : PartRow) (db' : Db)
    → apply_review readers part_id requested provenance now db ≡ ok (p, db')
    → IsCounted db
    → IsCounted db'
unfolding apply_review clear_pending_review
apply_review-IsCounted readers part_id requested provenance now db p db' e h =
    let (current, found, rest) = get_part_then-eq-ok part_id _ db e in
    let (pending, h1) =
      raise_if_then-eq-ok (not (has_pending part_id db)) (domain_error review_not_found) _ db
        rest in
    let updates = or_else requested (review_fields part_id db.pending_reviews) in
    let records = or_else provenance (review_provenance part_id db.pending_reviews) in
    let (given, h2) = raise_if_then-eq-ok (is_empty updates) (domain_error invalid_input) _ db h1 in
    let (result, mid, is_updated, ended) =
      >>=-eq-ok (update_with_provenance readers part_id updates records now) _ db h2 in
    let rows : mid.parts ≡ db'.parts = ap (λ (d : Db). d.parts) (ok-injective ended).1 in
    subst (AllRows (λ q. not (is_negative q.fields.quantity))) rows (
      update_with_provenance-IsCounted readers part_id updates records now db result mid is_updated
        h)

pub normalize_nominal_values-IsCounted :
    (readers : Readers) (now : ℕ) (db : Db) (plan : Plan) (db' : Db)
    → normalize_nominal_values readers now db ≡ ok (plan, db')
    → IsCounted db
    → IsCounted db'
unfolding normalize_nominal_values
normalize_nominal_values-IsCounted readers now db plan db' e h =
    let planned = plan_nominal_normalization readers db in
    let (free, rest) =
      raise_if_then-eq-ok (has_conflicting readers planned) (domain_error domain_conflict) _ db e in
    let (u, mid, is_rewritten, ended) =
      >>=-eq-ok (λ d. on_conflict domain_conflict (rewrite_nominal_values planned.changes now d)) _
        db rest in
    subst IsCounted (ok-injective ended).1 (
      rewrite_nominal_values-IsCounted planned.changes now db u mid
        (on_conflict-eq-ok domain_conflict (rewrite_nominal_values planned.changes now db) (u, mid)
          is_rewritten)
        h)

-- ===== src/Service/Editing.antt =====
-- What an accepted edit of a part went through: `_update_part`, `_replace_one` and
-- `_check_replacement_identities` of domain/service.py.
use parts_bin.Prelude.{
  ℕ, ◌≡◌, sym, ap, ◌∙◌, Bool, false, not, ◌&&◌, some, [], ltb, length, subst, arith, some-injective,
}
use parts_bin.Storage.Table.{lookup, update, delete_where, lookup-update_self}
use parts_bin.Storage.Parts.{PartFields, PartRow}
use parts_bin.Storage.Rows.{Db}
use parts_bin.Storage.Tx.{
  ok, domain_error, domain_conflict, invalid_input, raise_if-eq-ok, raise_if_then-eq-ok, >>=-eq-ok,
}
use parts_bin.Inventory.{replace, replaced_row}
use parts_bin.Inventory.Facts.{metadata_of, same_metadata}
use parts_bin.Inventory.Reviews.{clear_pending_review, is_cleared}
use parts_bin.Normalization.{Readers, validate_fields}
use parts_bin.Service.{draft_of, update_fields, has_unknown}
use parts_bin.Service.Identity.{collisions, has_evidence, check_replacement, replace_one}
use parts_bin.Service.Updating.{Updates, update_part}
use parts_bin.Inventory.Quantities.{get_part-eq-ok}
use parts_bin.Service.Inversion.{
  get_part_then-eq-ok, lift_then-eq-ok, on_conflict-eq-ok, replace-eq-ok,
}

-- The metadata differs while evidence is bound to it.
abbrev pub breaks_evidence : ℕ → PartFields → PartRow → Db → Bool
breaks_evidence part_id f current db =
    not (same_metadata (metadata_of f) (metadata_of current.fields)) && has_evidence part_id db

-- More than one part has the identity.
abbrev pub is_taken : Readers → ℕ → PartFields → Db → Bool
is_taken readers part_id f db = ltb 1 (length (collisions readers part_id f db))

pub check_replacement-eq-ok :
    (readers : Readers) (part_id : ℕ) (f : PartFields) (db : Db) (u : Unit) (db' : Db)
    → check_replacement readers part_id f db ≡ ok (u, db')
    → (current : PartRow) × (lookup part_id db.parts ≡ some current)
      × (breaks_evidence part_id f current db ≡ false)
      × (is_taken readers part_id f db ≡ false)
      × (db ≡ db')
unfolding check_replacement
check_replacement-eq-ok readers part_id f db u db' h =
    let (current, found, rest) = get_part_then-eq-ok part_id _ db h in
    let (bound, unbound) = raise_if_then-eq-ok _ _ _ db rest in
    let (few, ended) = raise_if-eq-ok _ _ db u db' unbound in (current, found, bound, few, ended)

abbrev replaced : ℕ → PartFields → ℕ → Db → Db
replaced part_id f now db = record db { parts = update part_id (replaced_row f now) db.parts }

pub replace_one-eq-ok :
    (readers : Readers) (part_id : ℕ) (f : PartFields) (now : ℕ) (db : Db) (u : Unit) (db' : Db)
    → replace_one readers part_id f now db ≡ ok (u, db')
    → (current : PartRow) × (lookup part_id db.parts ≡ some current)
      × (breaks_evidence part_id f current db ≡ false)
      × (is_taken readers part_id f db ≡ false)
      × (replaced part_id f now db ≡ db')
unfolding replace_one
replace_one-eq-ok readers part_id f now db u db' h =
    let (v, mid, is_checked, rest) = >>=-eq-ok (check_replacement readers part_id f) _ db h in
    let (current, found, bound, few, same) =
      check_replacement-eq-ok readers part_id f db v mid is_checked in
    let is_replaced = on_conflict-eq-ok domain_conflict (replace part_id f now mid) (u, db') rest in
    (
      current,
      found,
      bound,
      few,
      ap (replaced part_id f now) same ∙ replace-eq-ok part_id f now mid u db' is_replaced,
    )

-- The database after an edit of a part.
abbrev pub edited : ℕ → PartFields → ℕ → Db → Db
edited part_id f now db = record db {
  parts = update part_id (replaced_row f now) db.parts;
  pending_reviews = delete_where (is_cleared part_id []) db.pending_reviews;
}

pub update_part-eq-ok :
    (readers : Readers) (part_id : ℕ) (updates : Updates) (now : ℕ) (db : Db) (p : PartRow)
    (db' : Db)
    → update_part readers part_id updates now db ≡ ok (p, db')
    → (current : PartRow) × (f : PartFields) × (lookup part_id db.parts ≡ some current)
      × (validate_fields readers (update_fields updates (draft_of current.fields)) ≡ ok f)
      × (breaks_evidence part_id f current db ≡ false)
      × (is_taken readers part_id f db ≡ false)
      × (edited part_id f now db ≡ db')
      × (replaced_row f now current ≡ p)
unfolding update_part clear_pending_review
update_part-eq-ok readers part_id updates now db p db' h =
    let (current, found, rest) = get_part_then-eq-ok part_id _ db h in
    let (known, valid) =
      raise_if_then-eq-ok (has_unknown updates) (domain_error invalid_input) _ db rest in
    let (f, cleaned, one) =
      lift_then-eq-ok (validate_fields readers (update_fields updates (draft_of current.fields))) _
        db valid in
    let (u, mid, is_replaced, last) = >>=-eq-ok (replace_one readers part_id f now) _ db one in
    let (old, is_old, bound, few, same) =
      replace_one-eq-ok readers part_id f now db u mid is_replaced in
    let (is_p, ended) = get_part-eq-ok part_id _ p db' last in
    let same_row : old ≡ current = ground arith in
    let after =
      ap
        (λ (d : Db). record d {
          pending_reviews = delete_where (is_cleared part_id []) d.pending_reviews;
        })
        same
      ∙ ended in
    let read =
      sym (lookup-update_self part_id (replaced_row f now) db.parts current found)
      ∙ ap (λ (d : Db). lookup part_id d.parts) (after ∙ sym ended)
      ∙ is_p in
    (
      current,
      f,
      found,
      cleaned,
      subst (λ (q : PartRow). breaks_evidence part_id f q db ≡ false) same_row bound,
      few,
      after,
      some-injective read,
    )

-- ===== src/Service/EditedCounts.antt =====
-- Quantities through the operations of domain/service.py that edit and remove parts.
use parts_bin.Prelude.{ℕ, ◌≡◌, refl, ap, subst, not, List, [], ◌∷◌, map, any, arith, is_negative}
use parts_bin.Storage.Keys.{update-AllRows}
use parts_bin.Storage.Parts.{PartRow}
use parts_bin.Storage.Rows.{Db}
use parts_bin.Storage.Tx.{
  Result, ok, err, ok-injective, domain_error, invalid_input, >>=-eq-ok, raise_if_then-eq-ok,
}
use parts_bin.Inventory.{replaced_row}
use parts_bin.Inventory.Stock.{validate_batch}
use parts_bin.Inventory.Counts.{IsCounted, validate_batch-keeps}
use parts_bin.Inventory.Steps.{delete_part-IsCounted}
use parts_bin.Normalization.{Readers}
use parts_bin.Normalization.Validation.{validate_fields_sound}
use parts_bin.Service.{draft_of, update_fields}
use parts_bin.Service.Updating.{
  Updates, is_empty, update_part, update_each, update_parts, commit_one, bulk_each, bulk_update,
  preview_bulk_update, BulkResult, remove_part,
}
use parts_bin.Service.Inversion.{get_part_then-eq-ok}
use parts_bin.Service.Editing.{update_part-eq-ok}
use parts_bin.Service.Bulk.{preview_bulk_update-keeps}

pub update_part-IsCounted :
    (readers : Readers) (part_id : ℕ) (updates : Updates) (now : ℕ) (db : Db) (p : PartRow)
    (db' : Db)
    → update_part readers part_id updates now db ≡ ok (p, db')
    → IsCounted db
    → IsCounted db'
update_part-IsCounted readers part_id updates now db p db' e h =
    let (current, f, found, cleaned, bound, free, after, is_p) =
      update_part-eq-ok readers part_id updates now db p db' e in
    let (given, counted, profile) =
      validate_fields_sound readers (update_fields updates (draft_of current.fields)) f cleaned in
    subst IsCounted after (
      update-AllRows (λ q. not (is_negative q.fields.quantity)) part_id (replaced_row f now)
        db.parts h (λ q is_q. ap not counted))

update_each-IsCounted :
    (readers : Readers) (items : List (ℕ × Updates)) (now : ℕ) (db : Db) (rows : List PartRow)
    (db' : Db)
    → update_each readers items now db ≡ ok (rows, db')
    → IsCounted db
    → IsCounted db'
update_each-IsCounted readers [] now db rows db' e h = subst IsCounted (ok-injective e).1 h
update_each-IsCounted readers ((part_id, updates) ∷ items) now db rows db' e h =
    let (p, mid, is_one, rest) = >>=-eq-ok (update_part readers part_id updates now) _ db e in
    let (ps, last, is_rest, ended) = >>=-eq-ok (update_each readers items now) _ mid rest in
    subst IsCounted (ok-injective ended).1 (
      update_each-IsCounted readers items now mid ps last is_rest
        (update_part-IsCounted readers part_id updates now db p mid is_one h))

pub update_parts-IsCounted :
    (readers : Readers) (items : List (ℕ × Updates)) (now : ℕ) (db : Db) (rows : List PartRow)
    (db' : Db)
    → update_parts readers items now db ≡ ok (rows, db')
    → IsCounted db
    → IsCounted db'
unfolding update_parts
update_parts-IsCounted readers items now db rows db' e h =
    let ids = map (λ (i : ℕ × Updates). i.0) items in
    let (u, mid, is_valid, rest) = >>=-eq-ok (validate_batch ids) _ db e in
    let (given, last) =
      raise_if_then-eq-ok (any (λ (i : ℕ × Updates). is_empty i.1) items)
        (domain_error invalid_input) _ mid rest in
    update_each-IsCounted readers items now mid rows db' last
      (subst IsCounted (validate_batch-keeps ids db u mid is_valid) h)

commit_one-IsCounted :
    (readers : Readers) (part_id : ℕ) (updates : Updates) (now : ℕ) (r : Result (PartRow × Db))
    (db : Db) (add : BulkResult → BulkResult) (db' : Db)
    → update_part readers part_id updates now db ≡ r
    → commit_one readers part_id r db db ≡ ok (add, db')
    → IsCounted db
    → IsCounted db'
commit_one-IsCounted readers part_id updates now (ok (p, mid)) db add db' is_r e h =
    subst IsCounted (ok-injective e).1
      (update_part-IsCounted readers part_id updates now db p mid is_r h)
commit_one-IsCounted readers part_id updates now (err (domain_error code)) db add db' is_r e h =
    subst IsCounted (ok-injective e).1 h
commit_one-IsCounted readers part_id updates now (err _) db add db' is_r e h = absurd (ground arith)

bulk_each-IsCounted :
    (readers : Readers) (ids : List ℕ) (updates : Updates) (now : ℕ) (db : Db) (r : BulkResult)
    (db' : Db)
    → bulk_each readers ids updates now db ≡ ok (r, db')
    → IsCounted db
    → IsCounted db'
bulk_each-IsCounted readers [] updates now db r db' e h = subst IsCounted (ok-injective e).1 h
bulk_each-IsCounted readers (part_id ∷ ids) updates now db r db' e h =
    let one = update_part readers part_id updates now db in
    let (add, mid, is_one, rest) =
      >>=-eq-ok (λ d. commit_one readers part_id (update_part readers part_id updates now d) d d) _
        db e in
    let (later, last, is_rest, ended) = >>=-eq-ok (bulk_each readers ids updates now) _ mid rest in
    subst IsCounted (ok-injective ended).1 (
      bulk_each-IsCounted readers ids updates now mid later last is_rest
        (commit_one-IsCounted readers part_id updates now one db add mid refl is_one h))

pub bulk_update-IsCounted :
    (readers : Readers) (ids : List ℕ) (updates : Updates) (now : ℕ) (db : Db) (r : BulkResult)
    (db' : Db)
    → bulk_update readers ids updates now db ≡ ok (r, db')
    → IsCounted db
    → IsCounted db'
unfolding bulk_update
bulk_update-IsCounted readers ids updates now db r db' e h =
    let (out, mid, is_previewed, rest) =
      >>=-eq-ok (preview_bulk_update readers ids updates) _ db e in
    let (same, distinct) = preview_bulk_update-keeps readers ids updates db out mid is_previewed in
    bulk_each-IsCounted readers ids updates now mid r db' rest (subst IsCounted same h)

pub remove_part-IsCounted :
    (part_id : ℕ) (db : Db) (u : Unit) (db' : Db)
    → remove_part part_id db ≡ ok (u, db')
    → IsCounted db
    → IsCounted db'
unfolding remove_part
remove_part-IsCounted part_id db u db' e h =
    let (current, found, rest) = get_part_then-eq-ok part_id _ db e in
    delete_part-IsCounted part_id db u db' rest h

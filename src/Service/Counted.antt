-- ===== src/Service/Counted.antt =====
-- Quantities through the operations of domain/service.py that add, edit and remove parts.
use parts_bin.Prelude.{
  ℕ, ◌+◌, ◌≡◌, ◌∙◌, subst, false, not, ◌&&◌, Option, none, some, List, [], ◌∷◌, arith, is_negative,
  leb, length, ◌==◌,
}
use parts_bin.Storage.Parts.{PartFields, PartRow}
use parts_bin.Storage.Rows.{Db}
use parts_bin.Storage.Tx.{
  ok, ok-injective, domain_error, invalid_input, duplicate_part, >>=-eq-ok, raise_if_then-eq-ok,
}
use parts_bin.Inventory.{insert_part}
use parts_bin.Inventory.Stock.{get_part}
use parts_bin.Inventory.Quantities.{get_part-eq-ok}
use parts_bin.Inventory.Counts.{IsCounted, restocked-IsCounted, plus_positive}
use parts_bin.Inventory.Steps.{insert_part-IsCounted}
use parts_bin.Normalization.{Readers, Draft, validate_fields, part_identity, Identity}
use parts_bin.Normalization.Validation.{validate_fields_sound}
use parts_bin.Service.{on_conflict, draft_of}
use parts_bin.Service.Identity.{duplicate_for_add}
use parts_bin.Service.Adding.{
  CreatePartOutcome, insert_new, add_part, increment_duplicate, increment_or_add, add_or_increment,
  add_each_merged, merge_each, add_parts, existing_or_added, create_one, find_seen, note_seen,
  create_each, validate_each, create_parts,
}
use parts_bin.Service.Inversion.{lift_then-eq-ok, on_conflict-eq-ok}
use parts_bin.Service.Increment.{increment_duplicate-eq-ok}

module _ (readers : Readers) where
  insert_new-IsCounted :
      (f : PartFields) (now : ℕ) (o : Option (ℕ × PartRow)) (db : Db) (r : ℕ × PartRow) (db' : Db)
      → is_negative f.quantity ≡ false
      → insert_new readers f now o db ≡ ok (r, db')
      → IsCounted db
      → IsCounted db'
  insert_new-IsCounted f now (some q) db r db' n e h = absurd (ground arith)
  insert_new-IsCounted f now none db r db' n e h =
      let (k, mid, is_inserted, rest) =
        >>=-eq-ok (λ d. on_conflict duplicate_part (insert_part f now d)) _ db e in
      let (q, last, is_read, ended) = >>=-eq-ok (get_part k) _ mid rest in
      let inserted = on_conflict-eq-ok duplicate_part (insert_part f now db) (k, mid) is_inserted in
      subst IsCounted ((get_part-eq-ok k mid q last is_read).1 ∙ (ok-injective ended).1)
        (insert_part-IsCounted f now db k mid n inserted h)

  pub add_part-IsCounted :
      (d : Draft) (now : ℕ) (db : Db) (r : ℕ × PartRow) (db' : Db)
      → add_part readers d now db ≡ ok (r, db')
      → IsCounted db
      → IsCounted db'
  unfolding add_part
  add_part-IsCounted d now db r db' e h =
      let (f, valid, rest) = lift_then-eq-ok (validate_fields readers d) _ db e in
      let (o, is_found, last) = lift_then-eq-ok (duplicate_for_add readers f db) _ db rest in
      insert_new-IsCounted f now o db r db' (validate_fields_sound readers d f valid).1 last h

  increment_or_add-IsCounted :
      (f : PartFields) (now : ℕ) (o : Option (ℕ × PartRow)) (db : Db) (r : ℕ × PartRow) (db' : Db)
      → increment_or_add readers f now o db ≡ ok (r, db')
      → IsCounted db
      → IsCounted db'
  increment_or_add-IsCounted f now none db r db' e h =
      add_part-IsCounted (draft_of f) now db r db' e h
  increment_or_add-IsCounted f now (some duplicate) db r db' e h =
      let (u, mid, is_added, rest) =
        >>=-eq-ok (increment_duplicate readers duplicate.0 f now) _ db e in
      let (after, positive) =
        increment_duplicate-eq-ok readers duplicate.0 f now db u mid is_added in
      let (q, last, is_read, ended) = >>=-eq-ok (get_part duplicate.0) _ mid rest in
      let same = (get_part-eq-ok duplicate.0 mid q last is_read).1 ∙ (ok-injective ended).1 in
      subst IsCounted (after ∙ same) (
        restocked-IsCounted duplicate.0 f.quantity now db h (λ old found.
          plus_positive old.fields.quantity f.quantity (ground (arith, h duplicate.0 old found))
            positive))

  pub add_or_increment-IsCounted :
      (d : Draft) (now : ℕ) (db : Db) (r : ℕ × PartRow) (db' : Db)
      → add_or_increment readers d now db ≡ ok (r, db')
      → IsCounted db
      → IsCounted db'
  unfolding add_or_increment
  add_or_increment-IsCounted d now db r db' e h =
      let (f, valid, rest) = lift_then-eq-ok (validate_fields readers d) _ db e in
      let (o, is_found, last) = lift_then-eq-ok (duplicate_for_add readers f db) _ db rest in
      increment_or_add-IsCounted f now o db r db' last h

  add_each_merged-IsCounted :
      (merged : List (Option Identity × PartFields)) (now : ℕ) (db : Db) (rows : List (ℕ × PartRow))
      (db' : Db)
      → add_each_merged readers merged now db ≡ ok (rows, db')
      → IsCounted db
      → IsCounted db'
  add_each_merged-IsCounted [] now db rows db' e h = subst IsCounted (ok-injective e).1 h
  add_each_merged-IsCounted ((k, f) ∷ merged) now db rows db' e h =
      let (p, mid, is_one, rest) = >>=-eq-ok (add_or_increment readers (draft_of f) now) _ db e in
      let (ps, last, is_rest, ended) = >>=-eq-ok (add_each_merged readers merged now) _ mid rest in
      subst IsCounted (ok-injective ended).1 (
        add_each_merged-IsCounted merged now mid ps last is_rest
          (add_or_increment-IsCounted (draft_of f) now db p mid is_one h))

  pub add_parts-IsCounted :
      (items : List Draft) (now : ℕ) (db : Db) (rows : List (ℕ × PartRow)) (db' : Db)
      → add_parts readers items now db ≡ ok (rows, db')
      → IsCounted db
      → IsCounted db'
  unfolding add_parts
  add_parts-IsCounted items now db rows db' e h =
      let (some_items, rest) =
        raise_if_then-eq-ok (length items == 0) (domain_error invalid_input) _ db e in
      let (fields, valid, last) = lift_then-eq-ok (validate_each readers items) _ db rest in
      add_each_merged-IsCounted (merge_each readers fields []) now db rows db' last h

  create_one-IsCounted :
      (index : ℕ) (f : PartFields) (now : ℕ) (seen : Option CreatePartOutcome) (db : Db)
      (o : CreatePartOutcome) (db' : Db)
      → create_one readers index f now seen db ≡ ok (o, db')
      → IsCounted db
      → IsCounted db'
  create_one-IsCounted index f now (some previous) db o db' e h =
      subst IsCounted (ok-injective e).1 h
  create_one-IsCounted index f now none db o db' e h =
      let (found, is_found, rest) = lift_then-eq-ok (duplicate_for_add readers f db) _ db e in
      counted_by found rest
    where
      counted_by :
          (found : Option (ℕ × PartRow))
          → existing_or_added readers index f now found db ≡ ok (o, db')
          → IsCounted db'
      counted_by (some q) k = subst IsCounted (ok-injective k).1 h
      counted_by none k =
          let (r, mid, is_inserted, ended) = >>=-eq-ok (add_part readers (draft_of f) now) _ db k in
          subst IsCounted (ok-injective ended).1
            (add_part-IsCounted (draft_of f) now db r mid is_inserted h)

  create_each-IsCounted :
      (fs : List PartFields) (index now : ℕ) (seen : List (Identity × CreatePartOutcome)) (db : Db)
      (os : List CreatePartOutcome) (db' : Db)
      → create_each readers fs index now seen db ≡ ok (os, db')
      → IsCounted db
      → IsCounted db'
  create_each-IsCounted [] index now seen db os db' e h = subst IsCounted (ok-injective e).1 h
  create_each-IsCounted (f ∷ fs) index now seen db os db' e h =
      let identity = part_identity readers f in
      let found = find_seen readers identity seen in
      let (o, mid, is_one, rest) = >>=-eq-ok (create_one readers index f now found) _ db e in
      let noted = note_seen readers identity found o seen in
      let (later, last, is_rest, ended) =
        >>=-eq-ok (create_each readers fs (index + 1) now noted) _ mid rest in
      subst IsCounted (ok-injective ended).1 (
        create_each-IsCounted fs (index + 1) now noted mid later last is_rest
          (create_one-IsCounted index f now found db o mid is_one h))

  pub create_parts-IsCounted :
      (items : List Draft) (now : ℕ) (db : Db) (os : List CreatePartOutcome) (db' : Db)
      → create_parts readers items now db ≡ ok (os, db')
      → IsCounted db
      → IsCounted db'
  unfolding create_parts
  create_parts-IsCounted items now db os db' e h =
      let (sized, rest) =
        raise_if_then-eq-ok (not (leb 1 (length items) && leb (length items) 100))
          (domain_error invalid_input) _ db e in
      let (fields, valid, last) = lift_then-eq-ok (validate_each readers items) _ db rest in
      create_each-IsCounted fields 0 now [] db os db' last h

-- ===== src/Service/Increment.antt =====
-- What `add_or_increment` of domain/service.py adds to stock.
use parts_bin.Prelude.{
  ℕ, ◌≡◌, ◌≢◌, ◌⊎◌, inl, inr, refl, sym, ap, ◌∙◌, subst, false, Option, none, some, arith, ℤ,
  some-injective,
}
use parts_bin.Storage.Table.{lookup, update, lookup-update, lookup-update_self, lookup-update_ne}
use parts_bin.Storage.Parts.{PartFields, PartRow}
use parts_bin.Storage.Rows.{Db}
use parts_bin.Storage.Tx.{
  ok, domain_error, domain_conflict, invalid_input, >>=-eq-ok, raise_if_then-eq-ok,
}
use parts_bin.Inventory.{stocked_row}
use parts_bin.Inventory.Stock.{get_part, is_not_positive}
use parts_bin.Inventory.Quantities.{get_part-eq-ok, increment_stock-eq-ok, restocked}
use parts_bin.Normalization.{Readers, Draft, number, validate_fields}
use parts_bin.Normalization.Validation.{validate_fields_sound}
use parts_bin.Service.{draft_of}
use parts_bin.Service.Identity.{duplicate_for_add, has_evidence}
use parts_bin.Service.Adding.{add_or_increment, increment_or_add, increment_duplicate}
use parts_bin.Service.Inversion.{lift_then-eq-ok}
use parts_bin.Service.Creation.{IsNewPart, add_part_inserts}

-- A part was new with this quantity, or it was there and has this much more.
abbrev pub IsStocked : Db → Db → ℕ → PartRow → ℤ → Type 0
IsStocked db db' part_id p quantity =
    (IsNewPart db db' part_id p × (p.fields.quantity ≡ quantity))
    ⊎ ((old : PartRow) × (now : ℕ) × (lookup part_id db.parts ≡ some old)
        × (lookup part_id db'.parts ≡ some p)
        × (p ≡ stocked_row quantity now old))

-- All rows but one are as they were.
abbrev pub KeepsOthers : Db → Db → ℕ → Type 0
KeepsOthers db db' part_id =
    (j : ℕ) (q : PartRow) → j ≢ part_id → lookup j db.parts ≡ some q → lookup j db'.parts ≡ some q

number-injective : (a b : ℤ) → number a ≡ number b → a ≡ b
number-injective a b h = ground arith

pub increment_duplicate-eq-ok :
    (readers : Readers) (part_id : ℕ) (f : PartFields) (now : ℕ) (db : Db) (u : Unit) (db' : Db)
    → increment_duplicate readers part_id f now db ≡ ok (u, db')
    → (restocked part_id f.quantity now db ≡ db') × (is_not_positive f.quantity ≡ false)
unfolding increment_duplicate
increment_duplicate-eq-ok readers part_id f now db u db' h =
    let (unbound, rest) =
      raise_if_then-eq-ok (has_evidence part_id db) (domain_error domain_conflict) _ db h in
    let (positive, last) =
      raise_if_then-eq-ok (is_not_positive f.quantity) (domain_error invalid_input) _ db rest in
    ((increment_stock-eq-ok part_id f.quantity now db u db' last).0, positive)

restocked-IsStocked :
    (k : ℕ) (quantity : ℤ) (now : ℕ) (db : Db) (p : PartRow) (db' : Db)
    → restocked k quantity now db ≡ db'
    → lookup k db'.parts ≡ some p
    → IsStocked db db' k p quantity × KeepsOthers db db' k
restocked-IsStocked k quantity now db p db' same read =
    (inr (stocked (lookup k db.parts) refl), others)
  where
    after : lookup k (update k (stocked_row quantity now) db.parts) ≡ some p
    after = ap (λ (d : Db). lookup k d.parts) same ∙ read

    stocked :
        (o : Option PartRow)
        → lookup k db.parts ≡ o
        → (old : PartRow) × (now : ℕ) × (lookup k db.parts ≡ some old)
          × (lookup k db'.parts ≡ some p)
          × (p ≡ stocked_row quantity now old)
    stocked none e =
        absurd (ground (arith, after, e, lookup-update k k (stocked_row quantity now) db.parts))
    stocked (some old) e =
        let now_in = lookup-update_self k (stocked_row quantity now) db.parts old e in
        (old, now, e, read, some-injective (sym after ∙ now_in))

    others : KeepsOthers db db' k
    others j q differ found =
        ap (λ (d : Db). lookup j d.parts) (sym same)
        ∙ lookup-update_ne k j (stocked_row quantity now) db.parts differ
        ∙ found

increment_or_add_stocks :
    (readers : Readers) (f : PartFields) (now : ℕ) (o : Option (ℕ × PartRow)) (db : Db)
    (part_id : ℕ) (p : PartRow) (db' : Db)
    → increment_or_add readers f now o db ≡ ok ((part_id, p), db')
    → IsStocked db db' part_id p f.quantity × KeepsOthers db db' part_id
increment_or_add_stocks readers f now none db part_id p db' h =
    let (g, valid, is_fresh, new, keeps) =
      add_part_inserts readers (draft_of f) now db part_id p db' h in
    let given = (validate_fields_sound readers (draft_of f) g valid).0 in
    (
      inl (
        new,
        ap (λ (r : PartRow). r.fields.quantity) is_fresh
            ∙ sym (number-injective f.quantity g.quantity given),
      ),
      λ j q differ found. keeps j q found,
    )
increment_or_add_stocks readers f now (some duplicate) db part_id p db' h =
    let (u, mid, is_added, rest) =
      >>=-eq-ok (increment_duplicate readers duplicate.0 f now) _ db h in
    let after = (increment_duplicate-eq-ok readers duplicate.0 f now db u mid is_added).0 in
    let (q, last, is_read, ended) = >>=-eq-ok (get_part duplicate.0) _ mid rest in
    let (read, same) = get_part-eq-ok duplicate.0 mid q last is_read in
    let same_id : duplicate.0 ≡ part_id = ground arith in
    let same_row : q ≡ p = ground arith in
    let all : restocked duplicate.0 f.quantity now db ≡ db' = after ∙ same ∙ ground arith in
    subst (λ i. IsStocked db db' i p f.quantity × KeepsOthers db db' i) same_id
      (restocked-IsStocked duplicate.0 f.quantity now db p db' all (
        ap (λ (d : Db). lookup duplicate.0 d.parts) (sym (sym after ∙ all))
        ∙ read
        ∙ ap some same_row))

-- An addition that is accepted counts the quantity of the request on one part, which is new with that
-- quantity or was there and has so much more; every other row stays as it was.
pub add_or_increment_stocks :
    (readers : Readers) (d : Draft) (now : ℕ) (db : Db) (part_id : ℕ) (p : PartRow) (db' : Db)
    → add_or_increment readers d now db ≡ ok ((part_id, p), db')
    → (quantity : ℤ) × (d.quantity ≡ number quantity)
      × IsStocked db db' part_id p quantity
      × KeepsOthers db db' part_id
unfolding add_or_increment
add_or_increment_stocks readers d now db part_id p db' h =
    let (f, valid, rest) = lift_then-eq-ok (validate_fields readers d) _ db h in
    let (o, is_found, last) = lift_then-eq-ok (duplicate_for_add readers f db) _ db rest in
    let (stocked, keeps) = increment_or_add_stocks readers f now o db part_id p db' last in
    (f.quantity, (validate_fields_sound readers d f valid).0, stocked, keeps)

-- ===== src/Inventory/Undo.antt =====
-- A step of `adjust_stock` of domain/service.py is taken back by the opposite one.
use parts_bin.Prelude.{
  ℕ, ◌≡◌, refl, sym, ap, ◌∙◌, subst, true, false, not, some, arith, ℤ, pos, negsuc, ◌+ℤ◌,
  is_negative,
}
use parts_bin.Storage.Table.{lookup, lookup-update_self}
use parts_bin.Storage.Parts.{PartRow}
use parts_bin.Storage.Rows.{Db}
use parts_bin.Storage.Tx.{ok, domain_error, invalid_input, raise_if, raise_if-run, >>=-run}
use parts_bin.Inventory.{increment_stock, stocked_row, is_bigint}
use parts_bin.Inventory.Stock.{get_part, adjust_stock, is_step}
use parts_bin.Inventory.Quantities.{restocked, adjust_stock-eq-ok}

get_part-run :
    (part_id : ℕ) (db : Db) (p : PartRow)
    → lookup part_id db.parts ≡ some p
    → get_part part_id db ≡ ok (p, db)
unfolding get_part
get_part-run part_id db p found = ground arith

increment_stock-run :
    (part_id : ℕ) (quantity : ℤ) (now : ℕ) (db : Db) (old : PartRow)
    → lookup part_id db.parts ≡ some old
    → is_bigint (old.fields.quantity +ℤ quantity) ≡ true
    → increment_stock part_id quantity now db ≡ ok (tt, restocked part_id quantity now db)
unfolding increment_stock
increment_stock-run part_id quantity now db old found fits = ground arith

adjust_stock-run :
    (part_id : ℕ) (delta : ℤ) (now : ℕ) (db : Db) (old : PartRow)
    → lookup part_id db.parts ≡ some old
    → is_step delta ≡ true
    → is_negative (old.fields.quantity +ℤ delta) ≡ false
    → is_bigint (old.fields.quantity +ℤ delta) ≡ true
    → adjust_stock part_id delta now db
      ≡ ok (stocked_row delta now old, restocked part_id delta now db)
unfolding adjust_stock
adjust_stock-run part_id delta now db old found step enough fits =
    let e = domain_error invalid_input in
    let after = restocked part_id delta now db in
    let kept = lookup-update_self part_id (stocked_row delta now) db.parts old found in
    >>=-run (raise_if (not (is_step delta)) e) _ db tt db
      (raise_if-run (not (is_step delta)) e db (ap not step))
    ∙ >>=-run (get_part part_id) _ db old db (get_part-run part_id db old found)
    ∙ >>=-run (raise_if (is_negative (old.fields.quantity +ℤ delta)) e) _ db tt db
        (raise_if-run (is_negative (old.fields.quantity +ℤ delta)) e db enough)
    ∙ >>=-run (increment_stock part_id delta now) _ db tt after
        (increment_stock-run part_id delta now db old found fits)
    ∙ get_part-run part_id after (stocked_row delta now old) kept

-- Of a stock q that is a count, one more and then one less are q, and within range.
one_more_less :
    (q : ℤ)
    → is_negative q ≡ false
    → is_bigint (q +ℤ pos 1) ≡ true
    → (q +ℤ pos 1 +ℤ negsuc 0 ≡ q) × (is_bigint (q +ℤ pos 1 +ℤ negsuc 0) ≡ true)
one_more_less (pos n) h k = (ground arith, ground arith)
one_more_less (negsuc n) h k = absurd (ground arith)

-- A part of which one more was counted can be counted one less again, and has the quantity that it had.
pub adjust_stock_undone :
    (part_id now later : ℕ) (db : Db) (p old : PartRow) (db' : Db)
    → lookup part_id db.parts ≡ some old
    → is_negative old.fields.quantity ≡ false
    → adjust_stock part_id (pos 1) now db ≡ ok (p, db')
    → (q : PartRow) × (db'' : Db) × (adjust_stock part_id (negsuc 0) later db' ≡ ok (q, db''))
      × (q.fields.quantity ≡ old.fields.quantity)
adjust_stock_undone part_id now later db p old db' found counted h =
    let (step, same, before, is_before, enough, fits) =
      adjust_stock-eq-ok part_id (pos 1) now db p db' h in
    let is_old : before ≡ old = ground arith in
    let (undone, in_range) =
      one_more_less old.fields.quantity counted
        (subst (λ x. is_bigint (x.fields.quantity +ℤ pos 1) ≡ true) is_old fits) in
    let now_row = stocked_row (pos 1) now old in
    let kept : lookup part_id db'.parts ≡ some now_row =
      ap (λ d. lookup part_id d.parts) (sym same)
      ∙ lookup-update_self part_id (stocked_row (pos 1) now) db.parts old found in
    (
      stocked_row (negsuc 0) later now_row,
      restocked part_id (negsuc 0) later db',
      adjust_stock-run part_id (negsuc 0) later db' now_row kept refl
          (ap is_negative undone ∙ counted) in_range,
      undone,
    )

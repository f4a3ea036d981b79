-- ===== src/Inventory/Quantities.antt =====
-- What the stock operations of domain/service.py do to the quantities.
use parts_bin.Prelude.{
  ℕ, ◌≡◌, sym, ap, ◌∙◌, true, false, not, some, arith, Option-cases, Bool-cases, inl, inr, ℤ, ◌+ℤ◌,
  is_negative,
}
use parts_bin.Storage.Table.{lookup, update, lookup-update_self}
use parts_bin.Storage.Parts.{PartRow}
use parts_bin.Storage.Rows.{Db}
use parts_bin.Storage.Tx.{ok, domain_error, invalid_input, raise_if, >>=-eq-ok, raise_if-eq-ok}
use parts_bin.Inventory.{increment_stock, stocked_row, is_bigint}
use parts_bin.Inventory.Stock.{get_part, add_stock, adjust_stock, is_not_positive, is_step}

abbrev pub restocked : ℕ → ℤ → ℕ → Db → Db
restocked part_id quantity now db = record db {
  parts = update part_id (stocked_row quantity now) db.parts;
}

pub increment_stock-eq-ok :
    (part_id : ℕ) (quantity : ℤ) (now : ℕ) (db : Db) (u : Unit) (db' : Db)
    → increment_stock part_id quantity now db ≡ ok (u, db')
    → (restocked part_id quantity now db ≡ db')
      × ((old : PartRow)
          → lookup part_id db.parts ≡ some old
          → is_bigint (old.fields.quantity +ℤ quantity) ≡ true)
unfolding increment_stock
increment_stock-eq-ok part_id quantity now db u db' h =
    elim (Option-cases (lookup part_id db.parts)) [
      | inl missing ↦ absurd (ground arith)
      | inr (p, found) ↦ elim (Bool-cases (is_bigint (p.fields.quantity +ℤ quantity))) [
        | inl fits ↦ (ground arith, λ old is_old. ground arith)
        | inr large ↦ absurd (ground arith)
      ]
    ]

pub get_part-eq-ok :
    (part_id : ℕ) (db : Db) (p : PartRow) (db' : Db)
    → get_part part_id db ≡ ok (p, db')
    → (lookup part_id db.parts ≡ some p) × (db ≡ db')
unfolding get_part
get_part-eq-ok part_id db p db' h = elim (Option-cases (lookup part_id db.parts)) [
  | inl missing ↦ absurd (ground arith)
  | inr (q, found) ↦ (found ∙ ground arith, ground arith)
]

-- What `add_stock` leaves: the part before and after.
pub add_stock-eq-ok :
    (part_id : ℕ) (quantity : ℤ) (now : ℕ) (db : Db) (p : PartRow) (db' : Db)
    → add_stock part_id quantity now db ≡ ok (p, db')
    → (is_not_positive quantity ≡ false)
      × (restocked part_id quantity now db ≡ db')
      × (old : PartRow) × (lookup part_id db.parts ≡ some old)
      × (p ≡ stocked_row quantity now old)
unfolding add_stock
add_stock-eq-ok part_id quantity now db p db' h =
    let (u, d0, is_checked, h1) =
      >>=-eq-ok (raise_if (is_not_positive quantity) (domain_error invalid_input)) _ db h in
    let (positive, same0) =
      raise_if-eq-ok (is_not_positive quantity) (domain_error invalid_input) db u d0 is_checked in
    let (old, d1, is_found, h2) = >>=-eq-ok (get_part part_id) _ d0 h1 in
    let (found, same1) = get_part-eq-ok part_id d0 old d1 is_found in
    let (v, d2, is_added, h3) = >>=-eq-ok (increment_stock part_id quantity now) _ d1 h2 in
    let added = increment_stock-eq-ok part_id quantity now d1 v d2 is_added in
    let (read, same2) = get_part-eq-ok part_id d2 p db' h3 in
    let before : lookup part_id db.parts ≡ some old =
      ap (λ d. lookup part_id d.parts) same0 ∙ found in
    let after : restocked part_id quantity now db ≡ db' =
      ap (restocked part_id quantity now) (same0 ∙ same1) ∙ added.0 ∙ same2 in
    let seen : lookup part_id db'.parts ≡ some p =
      ap (λ d. lookup part_id d.parts) (sym same2) ∙ read in
    let kept = lookup-update_self part_id (stocked_row quantity now) db.parts old before in
    (positive, after, old, before, ground arith)

-- What `adjust_stock` leaves.
pub adjust_stock-eq-ok :
    (part_id : ℕ) (delta : ℤ) (now : ℕ) (db : Db) (p : PartRow) (db' : Db)
    → adjust_stock part_id delta now db ≡ ok (p, db')
    → (is_step delta ≡ true)
      × (restocked part_id delta now db ≡ db')
      × (old : PartRow) × (lookup part_id db.parts ≡ some old)
      × (is_negative (old.fields.quantity +ℤ delta) ≡ false)
      × (is_bigint (old.fields.quantity +ℤ delta) ≡ true)
unfolding adjust_stock
adjust_stock-eq-ok part_id delta now db p db' h =
    let (u, d0, is_checked, h1) =
      >>=-eq-ok (raise_if (not (is_step delta)) (domain_error invalid_input)) _ db h in
    let (step, same0) =
      raise_if-eq-ok (not (is_step delta)) (domain_error invalid_input) db u d0 is_checked in
    let (old, d1, is_found, h2) = >>=-eq-ok (get_part part_id) _ d0 h1 in
    let (found, same1) = get_part-eq-ok part_id d0 old d1 is_found in
    let low = is_negative (old.fields.quantity +ℤ delta) in
    let (v, d2, is_low, h3) = >>=-eq-ok (raise_if low (domain_error invalid_input)) _ d1 h2 in
    let (enough, same2) = raise_if-eq-ok low (domain_error invalid_input) d1 v d2 is_low in
    let (w, d3, is_added, h4) = >>=-eq-ok (increment_stock part_id delta now) _ d2 h3 in
    let added = increment_stock-eq-ok part_id delta now d2 w d3 is_added in
    let (read, same3) = get_part-eq-ok part_id d3 p db' h4 in
    let before : lookup part_id db.parts ≡ some old =
      ap (λ d. lookup part_id d.parts) same0 ∙ found in
    (
      ground arith,
      ap (restocked part_id delta now) (same0 ∙ same1 ∙ same2) ∙ added.0 ∙ same3,
      old,
      before,
      enough,
      added.1 old (ap (λ d. lookup part_id d.parts) (sym same2 ∙ sym same1) ∙ found),
    )

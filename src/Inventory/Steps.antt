-- ===== src/Inventory/Steps.antt =====
-- Quantities through single changes: db/postgres/inventory.py and the stock operations of
-- domain/service.py.
use parts_bin.Prelude.{
  ℕ, ◌≡◌, sym, ap, ◌∙◌, subst, false, not, Option, none, some, List, [], ◌∷◌, map, arith,
  Option-cases, Bool-cases, inl, inr, ℤ, is_negative, is_some,
}
use parts_bin.Storage.Table.{Table, lookup, exists, update, delete}
use parts_bin.Storage.Keys.{AllRows, update-AllRows, insert-AllRows, delete-AllRows}
use parts_bin.Storage.Parts.{PartRow, PartFields, SpecificationReview}
use parts_bin.Storage.Rows.{Db, Revision}
use parts_bin.Storage.Tx.{
  ok, ok-injective, conflict, >>=-eq-ok, raise_if, raise_if-eq-ok, modify, pure, ◌>>◌,
}
use parts_bin.Inventory.{
  insert_part, insert_under, add_part_row, replace, replaced_row, breaks_unique, get,
}
use parts_bin.Inventory.Facts.{
  delete_part, apply_specification_review, accept_review, is_current, specifications,
}
use parts_bin.Inventory.Rewriting.{
  Rewrite, rewritten, is_bound, rewrite_one, rewrite_each, rewrite_nominal_values,
}
use parts_bin.Inventory.Carried.{moved, rewrite_one-eq-ok, carry_review-parts}
use parts_bin.Inventory.Stock.{add_stock, adjust_stock, add_each, add_stock_batch, validate_batch}
use parts_bin.Inventory.Quantities.{add_stock-eq-ok, adjust_stock-eq-ok}
use parts_bin.Inventory.Counts.{IsCounted, restocked-IsCounted, plus_positive, validate_batch-keeps}

pub add_stock-IsCounted :
    (part_id : ℕ) (quantity : ℤ) (now : ℕ) (db : Db) (p : PartRow) (db' : Db)
    → add_stock part_id quantity now db ≡ ok (p, db')
    → IsCounted db
    → IsCounted db'
add_stock-IsCounted part_id quantity now db p db' e h =
    let (positive, same, first, is_first, is_p) = add_stock-eq-ok part_id quantity now db p db' e in
    subst IsCounted same (
      restocked-IsCounted part_id quantity now db h
        (λ old found. plus_positive old.fields.quantity quantity (is_count old found) positive))
  where
    is_count :
        (old : PartRow)
        → lookup part_id db.parts ≡ some old
        → is_negative old.fields.quantity ≡ false
    is_count old found = ground (arith, h part_id old found)

pub adjust_stock-IsCounted :
    (part_id : ℕ) (delta : ℤ) (now : ℕ) (db : Db) (p : PartRow) (db' : Db)
    → adjust_stock part_id delta now db ≡ ok (p, db')
    → IsCounted db
    → IsCounted db'
adjust_stock-IsCounted part_id delta now db p db' e h =
    let (step, same, old, found, enough, fits) = adjust_stock-eq-ok part_id delta now db p db' e in
    subst IsCounted same
      (restocked-IsCounted part_id delta now db h (λ other is_other. ground arith))

add_each-IsCounted :
    (items : List (ℕ × ℤ)) (now : ℕ) (db : Db) (rows : List PartRow) (db' : Db)
    → add_each items now db ≡ ok (rows, db')
    → IsCounted db
    → IsCounted db'
add_each-IsCounted [] now db rows db' e h =
    let same : db ≡ db' = ground arith in subst IsCounted same h
add_each-IsCounted ((part_id, quantity) ∷ items) now db rows db' e h =
    let (p, mid, is_added, rest) = >>=-eq-ok (add_stock part_id quantity now) _ db e in
    let (ps, last, is_rest, ended) = >>=-eq-ok (add_each items now) _ mid rest in
    let same : last ≡ db' = ground arith in
    subst IsCounted same (
      add_each-IsCounted items now mid ps last is_rest
        (add_stock-IsCounted part_id quantity now db p mid is_added h))

pub replace-IsCounted :
    (part_id : ℕ) (f : PartFields) (now : ℕ) (db : Db) (u : Unit) (db' : Db)
    → is_negative f.quantity ≡ false
    → replace part_id f now db ≡ ok (u, db')
    → IsCounted db
    → IsCounted db'
unfolding replace
replace-IsCounted part_id f now db u db' n e h = elim (Option-cases (lookup part_id db.parts)) [
  | inl missing ↦ absurd (ground arith)
  | inr (p, found) ↦ elim (Bool-cases (exists (breaks_unique part_id f) db.parts)) [
    | inl broken ↦ absurd (ground arith)
    | inr unique ↦
        let same : record db { parts = update part_id (replaced_row f now) db.parts } ≡ db' =
          ground arith in
        subst IsCounted same (
          update-AllRows (λ q. not (is_negative q.fields.quantity)) part_id (replaced_row f now)
            db.parts h (λ q is_q. ap not n))
  ]
]

pub insert_part-IsCounted :
    (f : PartFields) (now : ℕ) (db : Db) (part_id : ℕ) (db' : Db)
    → is_negative f.quantity ≡ false
    → insert_part f now db ≡ ok (part_id, db')
    → IsCounted db
    → IsCounted db'
unfolding insert_part
insert_part-IsCounted f now db part_id db' n e h = insert_under-IsCounted db.pb_revision e
  where
    insert_under-IsCounted :
        (r : Option Revision) → insert_under f now r db ≡ ok (part_id, db') → IsCounted db'
    insert_under-IsCounted none k = absurd (ground arith)
    insert_under-IsCounted (some r) k =
        let taken = is_some (get r.next_part_id db) in
        let (u, d0, is_free, k1) = >>=-eq-ok (raise_if taken conflict) _ db k in
        let broken = exists (breaks_unique r.next_part_id f) d0.parts in
        let (v, d1, is_unique, k2) =
          >>=-eq-ok (raise_if broken conflict)
            (λ _. modify (add_part_row f now r) >> pure r.next_part_id) d0 k1 in
        let same : db ≡ d1 =
          (raise_if-eq-ok taken conflict db u d0 is_free).1
          ∙ (raise_if-eq-ok broken conflict d0 v d1 is_unique).1 in
        let last : add_part_row f now r d1 ≡ db' = ground arith in
        subst IsCounted (ap (add_part_row f now r) same ∙ last) (
          insert-AllRows (λ q. not (is_negative q.fields.quantity)) r.next_part_id _ db.parts h
            (ap not n))

pub add_stock_batch-IsCounted :
    (items : List (ℕ × ℤ)) (now : ℕ) (db : Db) (rows : List PartRow) (db' : Db)
    → add_stock_batch items now db ≡ ok (rows, db')
    → IsCounted db
    → IsCounted db'
unfolding add_stock_batch
add_stock_batch-IsCounted items now db rows db' e h =
    let ids = map (λ i. i.0) items in
    let (u, mid, is_valid, rest) = >>=-eq-ok (validate_batch ids) (λ _. add_each items now) db e in
    add_each-IsCounted items now mid rows db' rest
      (subst IsCounted (validate_batch-keeps ids db u mid is_valid) h)

pub delete_part-IsCounted :
    (part_id : ℕ) (db : Db) (u : Unit) (db' : Db)
    → delete_part part_id db ≡ ok (u, db')
    → IsCounted db
    → IsCounted db'
unfolding delete_part
delete_part-IsCounted part_id db u db' e h =
    let rows : delete part_id db.parts ≡ db'.parts = ap (λ (d : Db). d.parts) (ok-injective e).1 in
    subst (AllRows (λ p. not (is_negative p.fields.quantity))) rows
      (delete-AllRows (λ p. not (is_negative p.fields.quantity)) part_id db.parts h)

pub apply_specification_review-IsCounted :
    (part_id now : ℕ) (db : Db) (u : Unit) (db' : Db)
    → apply_specification_review part_id now db ≡ ok (u, db')
    → IsCounted db
    → IsCounted db'
unfolding apply_specification_review
apply_specification_review-IsCounted part_id now db u db' e h =
    elim (Option-cases (lookup part_id db.specification_reviews)) [
      | inl missing ↦ absurd (ground arith)
      | inr (review, held) ↦
          elim (Bool-cases
            (is_current review.snapshot (specifications part_id db) (get part_id db))) [
              | inr stale ↦ absurd (ground arith)
              | inl current ↦
                  let same : accept_review part_id review now db ≡ db' = ground arith in
                  subst IsCounted same (
                    update-AllRows (λ q. not (is_negative q.fields.quantity)) part_id
                      (λ q. record q { updated_at = now }) db.parts h (h part_id))
            ]
    ]

rewrite_one-IsCounted :
    (reviews : Table SpecificationReview) (r : Rewrite) (now : ℕ) (db : Db) (u : Unit) (db' : Db)
    → rewrite_one reviews r now db ≡ ok (u, db')
    → IsCounted db
    → IsCounted db'
rewrite_one-IsCounted reviews r now db u db' e h =
    let (p, found, after) = rewrite_one-eq-ok reviews r now db u db' e in
    let o = lookup r.part_id reviews in
    let bound = is_bound o r.part_id db in
    subst IsCounted after (
      subst (AllRows (λ q. not (is_negative q.fields.quantity)))
        (sym (carry_review-parts r o bound (moved r now p db)))
        (update-AllRows (λ q. not (is_negative q.fields.quantity)) r.part_id
          (replaced_row (rewritten r p.fields) now) db.parts h (λ q is_q. h r.part_id p found)))

rewrite_each-IsCounted :
    (reviews : Table SpecificationReview) (rewrites : List Rewrite) (now : ℕ) (db : Db) (u : Unit)
    (db' : Db)
    → rewrite_each reviews rewrites now db ≡ ok (u, db')
    → IsCounted db
    → IsCounted db'
unfolding rewrite_each
rewrite_each-IsCounted reviews [] now db u db' e h = subst IsCounted (ok-injective e).1 h
rewrite_each-IsCounted reviews (r ∷ rewrites) now db u db' e h =
    let (v, mid, is_one, rest) = >>=-eq-ok (rewrite_one reviews r now) _ db e in
    rewrite_each-IsCounted reviews rewrites now mid u db' rest
      (rewrite_one-IsCounted reviews r now db v mid is_one h)

pub rewrite_nominal_values-IsCounted :
    (rewrites : List Rewrite) (now : ℕ) (db : Db) (u : Unit) (db' : Db)
    → rewrite_nominal_values rewrites now db ≡ ok (u, db')
    → IsCounted db
    → IsCounted db'
unfolding rewrite_nominal_values
rewrite_nominal_values-IsCounted rewrites now db u db' e h =
    rewrite_each-IsCounted db.specification_reviews rewrites now db u db' e h

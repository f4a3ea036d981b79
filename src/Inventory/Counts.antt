-- ===== src/Inventory/Counts.antt =====
-- Stock stays a count, and a batch adds what it says: the stock operations of domain/service.py.
use parts_bin.Prelude.{
  ℕ, ◌≡◌, refl, sym, ap, ◌∙◌, false, not, Option, none, some, List, [], ◌∷◌, map, arith,
  Option-cases, inl, inr, ◌==◌, if◌then◌else◌, ℤ, pos, negsuc, ◌+ℤ◌, is_negative,
}
use parts_bin.Storage.Table.{lookup, lookup-update}
use parts_bin.Storage.Keys.{AllRows, update-AllRows}
use parts_bin.Storage.Parts.{PartRow}
use parts_bin.Storage.Rows.{Db}
use parts_bin.Storage.Tx.{domain_error, invalid_input, ok, raise_if, raise_if-eq-ok, >>=-eq-ok}
use parts_bin.Inventory.{stocked_row}
use parts_bin.Inventory.Stock.{
  add_stock, add_each, add_stock_batch, is_not_positive, validate_batch, is_batch_size,
  has_bad_target,
}
use parts_bin.Inventory.Quantities.{restocked, add_stock-eq-ok}

-- The quantity of a part.
abbrev pub quantity_of : ℕ → Db → Option ℤ
quantity_of j db = elim (lookup j db.parts) [ none ↦ none | some p ↦ some p.fields.quantity ]

abbrev pub plus_item : ℕ → ℕ × ℤ → Option ℤ → Option ℤ
plus_item j item none = none
plus_item j item (some q) = some (if j == item.0 then q +ℤ item.1 else q)

-- A quantity with what the items add to the part.
abbrev pub plus_items : ℕ → List (ℕ × ℤ) → Option ℤ → Option ℤ
plus_items j [] q = q
plus_items j (item ∷ items) q = plus_items j items (plus_item j item q)

quantity_of-restocked :
    (j part_id : ℕ) (quantity : ℤ) (now : ℕ) (db : Db)
    → quantity_of j (restocked part_id quantity now db)
      ≡ plus_item j (part_id, quantity) (quantity_of j db)
quantity_of-restocked j part_id quantity now db = elim (Option-cases (lookup j db.parts)) [
  | inl missing ↦ ground (arith, lookup-update part_id j (stocked_row quantity now) db.parts)
  | inr (p, found) ↦ ground (arith, lookup-update part_id j (stocked_row quantity now) db.parts)
]

pub validate_batch-keeps :
    (ids : List ℕ) (db : Db) (u : Unit) (db' : Db) → validate_batch ids db ≡ ok (u, db') → db ≡ db'
validate_batch-keeps ids db u db' h =
    let sized = not (is_batch_size ids) in
    let bad = has_bad_target ids in
    let e = domain_error invalid_input in
    let (v, mid, is_first, rest) = >>=-eq-ok (raise_if sized e) (λ _. raise_if bad e) db h in
    (raise_if-eq-ok sized e db v mid is_first).1 ∙ (raise_if-eq-ok bad e mid u db' rest).1

add_each_counts :
    (items : List (ℕ × ℤ)) (now : ℕ) (db : Db) (rows : List PartRow) (db' : Db)
    → add_each items now db ≡ ok (rows, db')
    → (j : ℕ) → quantity_of j db' ≡ plus_items j items (quantity_of j db)
add_each_counts [] now db rows db' h j =
    let same : db' ≡ db = ground arith in ap (quantity_of j) same
add_each_counts ((part_id, quantity) ∷ items) now db rows db' h j =
    let (p, mid, is_added, rest) = >>=-eq-ok (add_stock part_id quantity now) _ db h in
    let (ps, last, is_rest, ended) = >>=-eq-ok (add_each items now) _ mid rest in
    let same : last ≡ db' = ground arith in
    let added = (add_stock-eq-ok part_id quantity now db p mid is_added).1 in
    ap (quantity_of j) (sym same)
    ∙ add_each_counts items now mid ps last is_rest j
    ∙ ap (λ d. plus_items j items (quantity_of j d)) (sym added)
    ∙ ap (plus_items j items) (quantity_of-restocked j part_id quantity now db)

-- A batch that is accepted adds to each part what the items say of it, and to no other part anything.
pub add_stock_batch_counts :
    (items : List (ℕ × ℤ)) (now : ℕ) (db : Db) (rows : List PartRow) (db' : Db)
    → add_stock_batch items now db ≡ ok (rows, db')
    → (j : ℕ) → quantity_of j db' ≡ plus_items j items (quantity_of j db)
unfolding add_stock_batch
add_stock_batch_counts items now db rows db' h j =
    let (u, mid, is_valid, rest) =
      >>=-eq-ok (validate_batch (map (λ i. i.0) items)) (λ _. add_each items now) db h in
    add_each_counts items now mid rows db' rest j
    ∙ ap (λ d. plus_items j items (quantity_of j d))
        (sym (validate_batch-keeps (map (λ i. i.0) items) db u mid is_valid))

-- No quantity is negative.
abbrev pub IsCounted : Db → Type 0
IsCounted db = AllRows (λ p. not (is_negative p.fields.quantity)) db.parts

pub restocked-IsCounted :
    (part_id : ℕ) (quantity : ℤ) (now : ℕ) (db : Db)
    → IsCounted db
    → ((old : PartRow)
        → lookup part_id db.parts ≡ some old
        → is_negative (old.fields.quantity +ℤ quantity) ≡ false)
    → IsCounted (restocked part_id quantity now db)
restocked-IsCounted part_id quantity now db h enough =
    update-AllRows (λ p. not (is_negative p.fields.quantity)) part_id (stocked_row quantity now)
      db.parts h (λ old found. ap not (enough old found))

pub plus_positive :
    (q n : ℤ) → is_negative q ≡ false → is_not_positive n ≡ false → is_negative (q +ℤ n) ≡ false
plus_positive (pos a) (pos b) h k = refl
plus_positive (pos a) (negsuc b) h k = absurd (ground arith)
plus_positive (negsuc a) n h k = absurd (ground arith)

-- ===== src/Service/Creation.antt =====
-- What `add_part` of domain/service.py leaves of the rows that were there.
use parts_bin.Prelude.{
  ℕ, ==_refl, some-injective, ◌≡◌, sym, ap, ◌∙◌, subst, Option, none, some, arith, Option-cases,
  inl, inr,
}
use parts_bin.Storage.Table.{lookup, insert, lookup-insert}
use parts_bin.Storage.Parts.{PartFields, PartRow}
use parts_bin.Storage.Rows.{Db}
use parts_bin.Storage.Tx.{ok, duplicate_part, >>=-eq-ok}
use parts_bin.Inventory.{insert_part}
use parts_bin.Inventory.Stock.{get_part}
use parts_bin.Normalization.{Readers, Draft, validate_fields}
use parts_bin.Service.{on_conflict}
use parts_bin.Service.Identity.{duplicate_for_add}
use parts_bin.Service.Adding.{insert_new, add_part}
use parts_bin.Inventory.Quantities.{get_part-eq-ok}
use parts_bin.Service.Inversion.{lift_then-eq-ok, on_conflict-eq-ok, insert_part-eq-ok, fresh_row}

-- Every row that was there is there, as it was.
abbrev pub KeepsParts : Db → Db → Type 0
KeepsParts db db' = (j : ℕ) (p : PartRow) → lookup j db.parts ≡ some p → lookup j db'.parts ≡ some p

-- The row of a key that was free before.
abbrev pub IsNewPart : Db → Db → ℕ → PartRow → Type 0
IsNewPart db db' j p = (lookup j db.parts ≡ none) × (lookup j db'.parts ≡ some p)

insert-KeepsParts :
    (part_id : ℕ) (r : PartRow) (db db' : Db)
    → insert part_id r db.parts ≡ db'.parts
    → KeepsParts db db'
insert-KeepsParts part_id r db db' same j p found =
    ap (lookup j) (sym same) ∙ lookup-insert part_id j r db.parts ∙ ground (arith, found)

pub KeepsParts-absent :
    (db db' : Db) (j : ℕ) → KeepsParts db db' → lookup j db'.parts ≡ none → lookup j db.parts ≡ none
KeepsParts-absent db db' j keeps absent = elim (Option-cases (lookup j db.parts)) [
  | inl missing ↦ missing
  | inr (p, found) ↦ absurd (ground (arith, keeps j p found))
]

insert_new_inserts :
    (readers : Readers) (f : PartFields) (now : ℕ) (o : Option (ℕ × PartRow)) (db : Db)
    (part_id : ℕ) (p : PartRow) (db' : Db)
    → insert_new readers f now o db ≡ ok ((part_id, p), db')
    → (p ≡ fresh_row f now) × IsNewPart db db' part_id p × KeepsParts db db'
insert_new_inserts readers f now (some q) db part_id p db' h = absurd (ground arith)
insert_new_inserts readers f now none db part_id p db' h =
    let (k, mid, is_inserted, rest) =
      >>=-eq-ok (λ d. on_conflict duplicate_part (insert_part f now d)) _ db h in
    let (q, last, is_read, ended) = >>=-eq-ok (get_part k) _ mid rest in
    let (found, same_db) = get_part-eq-ok k mid q last is_read in
    let (free, inserted) =
      insert_part-eq-ok f now db k mid
        (on_conflict-eq-ok duplicate_part (insert_part f now db) (k, mid) is_inserted) in
    let here : lookup k mid.parts ≡ some (fresh_row f now) =
      ap (lookup k) (sym inserted)
      ∙ lookup-insert k k (fresh_row f now) db.parts
      ∙ ground (arith, free, ==_refl k) in
    let same_id : k ≡ part_id = ground arith in
    let same_row : q ≡ p = ground arith in
    let same : mid ≡ db' = same_db ∙ ground arith in
    let is_fresh : fresh_row f now ≡ q = some-injective (sym here ∙ found) in
    (
      sym (is_fresh ∙ same_row),
      (
        subst (λ i. lookup i db.parts ≡ none) same_id free,
        subst (λ i. lookup i db'.parts ≡ some p) same_id
            (ap (λ (d : Db). lookup k d.parts) (sym same) ∙ found ∙ ap some same_row),
      ),
      subst (KeepsParts db) same (insert-KeepsParts k (fresh_row f now) db mid inserted),
    )

-- Fields that are accepted become one new row, and no other row changes.
pub add_part_inserts :
    (readers : Readers) (d : Draft) (now : ℕ) (db : Db) (part_id : ℕ) (p : PartRow) (db' : Db)
    → add_part readers d now db ≡ ok ((part_id, p), db')
    → (f : PartFields) × (validate_fields readers d ≡ ok f)
      × (p ≡ fresh_row f now)
      × IsNewPart db db' part_id p
      × KeepsParts db db'
unfolding add_part
add_part_inserts readers d now db part_id p db' h =
    let (f, valid, rest) = lift_then-eq-ok (validate_fields readers d) _ db h in
    let (o, is_found, last) = lift_then-eq-ok (duplicate_for_add readers f db) _ db rest in
    let (is_fresh, new, keeps) = insert_new_inserts readers f now o db part_id p db' last in
    (f, valid, is_fresh, new, keeps)

-- ===== src/Service/Inversion.antt =====
-- Inversion of the steps that the operations of domain/service.py are made of: what holds where the
-- whole operation succeeds.
use parts_bin.Prelude.{
  ℕ, ◌≡◌, refl, sym, subst, ap, ◌∙◌, Option, is_some, is_some-false, none, some, arith, Bool-cases,
  Option-cases, inl, inr,
}
use parts_bin.Storage.Table.{lookup, update, exists, insert}
use parts_bin.Storage.Parts.{PartFields, PartRow}
use parts_bin.Storage.Rows.{Db, Revision}
use parts_bin.Storage.Tx.{
  Tx, Result, ok, err, conflict, ErrorCode, ◌>>=◌, >>=-eq-ok, raise_if_then-eq-ok,
}
use parts_bin.Inventory.{
  replace, replaced_row, breaks_unique, get, passive_identity, insert_part, insert_under,
  add_part_row,
}
use parts_bin.Inventory.Stock.{get_part}
use parts_bin.Inventory.Quantities.{get_part-eq-ok}
use parts_bin.Service.{lift, on_conflict}

pub get_part_then-eq-ok :
    {B : Type 0} (part_id : ℕ) (k : PartRow → Tx B) (db : Db) {b : B} {db' : Db}
    → (get_part part_id >>= k) db ≡ ok (b, db')
    → (p : PartRow) × (lookup part_id db.parts ≡ some p) × (k p db ≡ ok (b, db'))
get_part_then-eq-ok part_id k db {b} {db'} h =
    let (p, mid, is_p, rest) = >>=-eq-ok (get_part part_id) k db h in
    let (found, same) = get_part-eq-ok part_id db p mid is_p in
    (p, found, subst (λ d. k p d ≡ ok (b, db')) (sym same) rest)

pub lift_then-eq-ok :
    {A B : Type 0} (r : Result A) (k : A → Tx B) (db : Db) {b : B} {db' : Db}
    → (lift r >>= k) db ≡ ok (b, db')
    → (a : A) × (r ≡ ok a) × (k a db ≡ ok (b, db'))
lift_then-eq-ok (ok a) k db h = (a, refl, h)
lift_then-eq-ok (err e) k db h = absurd (ground arith)

pub on_conflict-eq-ok :
    {A : Type 0} (code : ErrorCode) (r : Result A) (a : A) → on_conflict code r ≡ ok a → r ≡ ok a
on_conflict-eq-ok code (ok b) a h = h
on_conflict-eq-ok code (err conflict) a h = absurd (ground arith)
on_conflict-eq-ok code (err _) a h = absurd (ground arith)

-- Fields that were replaced stand in their row, and nothing else changed.
pub replace-eq-ok :
    (part_id : ℕ) (f : PartFields) (now : ℕ) (db : Db) (u : Unit) (db' : Db)
    → replace part_id f now db ≡ ok (u, db')
    → record db { parts = update part_id (replaced_row f now) db.parts } ≡ db'
unfolding replace
replace-eq-ok part_id f now db u db' h = elim (Option-cases (lookup part_id db.parts)) [
  | inl missing ↦ absurd (ground arith)
  | inr (p, found) ↦ elim (Bool-cases (exists (breaks_unique part_id f) db.parts)) [
    | inl broken ↦ absurd (ground arith)
    | inr free ↦ ground arith
  ]
]

-- The row of a part that was just inserted.
abbrev pub fresh_row : PartFields → ℕ → PartRow
fresh_row f now = record {
  fields = f;
  passive_identity = passive_identity f;
  created_at = now;
  updated_at = now;
}

-- A part is inserted under a key that no row has.
pub insert_part-eq-ok :
    (f : PartFields) (now : ℕ) (db : Db) (part_id : ℕ) (db' : Db)
    → insert_part f now db ≡ ok (part_id, db')
    → (lookup part_id db.parts ≡ none) × (insert part_id (fresh_row f now) db.parts ≡ db'.parts)
unfolding insert_part
insert_part-eq-ok f now db part_id db' h = under db.pb_revision h
  where
    under :
        (r : Option Revision)
        → insert_under f now r db ≡ ok (part_id, db')
        → (lookup part_id db.parts ≡ none) × (insert part_id (fresh_row f now) db.parts ≡ db'.parts)
    under none k = absurd (ground arith)
    under (some r) k =
        let (free, k1) = raise_if_then-eq-ok (is_some (get r.next_part_id db)) conflict _ db k in
        let (unique, k2) =
          raise_if_then-eq-ok (exists (breaks_unique r.next_part_id f) db.parts) conflict _ db k1 in
        let same : r.next_part_id ≡ part_id = ground arith in
        let ended : add_part_row f now r db ≡ db' = ground arith in
        (
          subst (λ k. lookup k db.parts ≡ none) same
              (is_some-false (lookup r.next_part_id db.parts) free),
          ap (λ k. insert k (fresh_row f now) db.parts) (sym same) ∙ ap (λ (d : Db). d.parts) ended,
        )

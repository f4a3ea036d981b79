-- ===== src/Inventory.antt =====
-- db/postgres/inventory.py: the rows of parts. The unit of work that wraps every method is
-- Units; a time of `now()` is an argument.
pub mod Facts
pub mod Accepted
pub mod Bound
pub mod Rewriting
pub mod Carried
pub mod Reviews
pub mod Stock
pub mod Quantities
pub mod Counts
pub mod Steps
pub mod Undo
mod Tests
mod Reviewed
use parts_bin.Prelude.{
  ℕ, ◌+◌, ◌-◌, ◌^◌, Bool, true, false, not, ◌&&◌, ◌||◌, Option, none, some, List, [], ◌∷◌, map,
  ◌==◌, ltb, leb, if◌then◌else◌, is_some, ℤ, pos, negsuc, ◌+ℤ◌,
}
use parts_bin.Storage.Table.{Table, lookup, update, insert, exists}
use parts_bin.Storage.Parts.{Text, same_text, same_text?, PartFields, PartRow}
use parts_bin.Texts.{codes, lower, among}
use parts_bin.Storage.Rows.{Db, Revision}
use parts_bin.Storage.Tx.{
  Tx, ok, err, conflict, key_error, not_initialized, out_of_range, pure, raise, gets, modify, ◌>>=◌,
  ◌>>◌, raise_if,
}

-- `.lower() in {'resistor', 'capacitor', 'inductor'}`
abbrev pub is_passive_category : Text → Bool
is_passive_category category =
    among (lower category) (codes "resistor" ∷ codes "capacitor" ∷ codes "inductor" ∷ [])

abbrev pub identity_of : Text → Option Text → Option Text → Option (Text × Text × Text)
identity_of category (some value) (some case) = some (category, value, case)
identity_of category _ _ = none

-- `passive_identity`
abbrev pub passive_identity : PartFields → Option (Text × Text × Text)
passive_identity f =
    if not (is_some f.part_number) && is_passive_category f.part_category
    then identity_of f.part_category f.value f.«package»
    else none

-- Two texts of a UNIQUE column that collide
abbrev pub collide : Option Text → Option Text → Bool
collide (some s) (some t) = same_text s t
collide _ _ = false

abbrev pub collide_identity : Option (Text × Text × Text) → Option (Text × Text × Text) → Bool
collide_identity (some s) (some t) = same_text s.0 t.0 && same_text s.1 t.1 && same_text s.2 t.2
collide_identity _ _ = false

-- Whether a row other than that of the part breaks a UNIQUE constraint with these fields.
abbrev pub breaks_unique : ℕ → PartFields → ℕ → PartRow → Bool
breaks_unique part_id f j p =
    not (j == part_id)
    && (collide f.part_number p.fields.part_number
        || collide_identity (passive_identity f) p.passive_identity)

-- `get`
abbrev pub get : ℕ → Db → Option PartRow
get part_id db = lookup part_id db.parts

abbrev pub add_part_row : PartFields → ℕ → Revision → Db → Db
add_part_row f now r db = record db {
  pb_revision = some (record r { next_part_id = r.next_part_id + 1 });
  parts =
      insert r.next_part_id
        (record {
          fields = f;
          passive_identity = passive_identity f;
          created_at = now;
          updated_at = now;
        })
        db.parts;
}

abbrev pub insert_under : PartFields → ℕ → Option Revision → Tx ℕ
insert_under f now none = raise not_initialized
insert_under f now (some r) = do
  raise_if (← gets (λ db. is_some (get r.next_part_id db))) conflict
  raise_if (← gets (λ db. exists (breaks_unique r.next_part_id f) db.parts)) conflict
  modify (add_part_row f now r)
  pure r.next_part_id

-- `insert`
unfoldable pub insert_part : PartFields → ℕ → Tx ℕ
insert_part f now db = insert_under f now db.pb_revision db

-- The range of BIGINT
abbrev pub is_bigint : ℤ → Bool
is_bigint (pos n) = ltb n (2 ^ 63)
is_bigint (negsuc n) = ltb n (2 ^ 63)

abbrev pub stocked_row : ℤ → ℕ → PartRow → PartRow
stocked_row quantity now p = record p {
  fields = record p.fields { quantity = p.fields.quantity +ℤ quantity };
  updated_at = now;
}

-- `increment_stock`
unfoldable pub increment_stock : ℕ → ℤ → ℕ → Tx Unit
increment_stock part_id quantity now db = elim (get part_id db) [
  | none ↦ raise key_error db
  | some p ↦
      if is_bigint (p.fields.quantity +ℤ quantity)
      then ok (tt, record db { parts = update part_id (stocked_row quantity now) db.parts })
      else raise out_of_range db
]

abbrev pub replaced_row : PartFields → ℕ → PartRow → PartRow
replaced_row f now p = record p {
  fields = f;
  passive_identity = passive_identity f;
  updated_at = now;
}

-- `_replace`, of all editable fields
unfoldable pub replace : ℕ → PartFields → ℕ → Tx Unit
replace part_id f now db = elim (get part_id db) [
  | none ↦ raise key_error db
  | some p ↦
      if exists (breaks_unique part_id f) db.parts
      then raise conflict db
      else ok (tt, record db { parts = update part_id (replaced_row f now) db.parts })
]

-- ===== src/Inventory/Facts.antt =====
-- db/postgres/inventory.py: electrical facts with their reviews, and the deletion of a part with all
-- that is stored of it.
use parts_bin.Prelude.{
  ℕ, Bool, true, false, not, ◌&&◌, Option, none, some, List, [], ◌∷◌, if◌then◌else◌, ◌==◌, is_some,
  any,
}
use parts_bin.Storage.Table.{Table, lookup, update, insert, delete, delete_where}
use parts_bin.Storage.Parts.{
  same_text, same_text?, PartFields, PartRow, Fact, Metadata, SpecificationSnapshot,
  SpecificationReview, Profile, passive, discrete_ic,
}
use parts_bin.Storage.Rows.{Db}
use parts_bin.Storage.Tx.{Tx, ok, conflict, raise, modify}
use parts_bin.Inventory.{get}

abbrev pub metadata_of : PartFields → Metadata
metadata_of f = record {
  part_category = f.part_category;
  profile = f.profile;
  value = f.value;
  «package» = f.«package»;
  part_number = f.part_number;
  manufacturer = f.manufacturer;
  value_unit = f.value_unit;
}

abbrev pub same_profile : Profile → Profile → Bool
same_profile passive passive = true
same_profile discrete_ic discrete_ic = true
same_profile _ _ = false

abbrev pub same_metadata : Metadata → Metadata → Bool
same_metadata a b =
    same_text a.part_category b.part_category
    && same_profile a.profile b.profile
    && same_text? a.value b.value
    && same_text? a.«package» b.«package»
    && same_text? a.part_number b.part_number
    && same_text? a.manufacturer b.manufacturer
    && same_text? a.value_unit b.value_unit

abbrev pub facts_or_none : Option (List Fact) → List Fact
facts_or_none none = []
facts_or_none (some facts) = facts

-- `specifications`
abbrev pub specifications : ℕ → Db → List Fact
specifications part_id db = facts_or_none (lookup part_id db.specifications)

abbrev pub same_fact : Fact → Fact → Bool
same_fact a b = (a.name == b.name) && (a.rest == b.rest)

abbrev pub same_facts : List Fact → List Fact → Bool
same_facts [] [] = true
same_facts (a ∷ s) (b ∷ t) = same_fact a b && same_facts s t
same_facts _ _ = false

-- `snapshot == self._spec_snapshot(part_id)`
abbrev pub is_current : SpecificationSnapshot → List Fact → Option PartRow → Bool
is_current snapshot facts none = false
is_current snapshot facts (some p) =
    same_metadata snapshot.metadata (metadata_of p.fields) && same_facts snapshot.facts facts

abbrev pub add_review : ℕ → SpecificationReview → Db → Db
add_review part_id review db = record db {
  specification_reviews = insert part_id review db.specification_reviews;
}

-- `stage_specifications` of the repository
unfoldable pub stage_specifications : ℕ → PartFields → List Fact → List Fact → Tx Bool
stage_specifications part_id original facts existing db =
    let snapshot : SpecificationSnapshot = record {
      metadata = metadata_of original;
      facts = existing;
    } in
    if is_current snapshot (specifications part_id db) (get part_id db)
      && not (is_some (lookup part_id db.specification_reviews))
    then ok (true, add_review part_id (record { facts = facts; snapshot = snapshot }) db)
    else ok (false, db)

abbrev pub has_fact : ℕ → List Fact → Bool
has_fact name facts = any (λ (x : Fact). x.name == name) facts

-- `current[fact['name']] = fact`
abbrev pub put_fact : Fact → List Fact → List Fact
put_fact f [] = f ∷ []
put_fact f (g ∷ facts) =
    let rest = put_fact f facts in if g.name == f.name then f ∷ facts else g ∷ rest

-- `current.update(…)`
abbrev pub put_facts : List Fact → List Fact → List Fact
put_facts [] facts = facts
put_facts (f ∷ fs) facts = put_facts fs (put_fact f facts)

abbrev pub store_facts {ℓ} : {R : Type ℓ} → ℕ → R → Table R → Table R
store_facts k r t = if is_some (lookup k t) then update k (λ x. r) t else insert k r t

abbrev pub accept_review : ℕ → SpecificationReview → ℕ → Db → Db
accept_review part_id review now db = record db {
  specifications =
      store_facts part_id (put_facts review.facts (put_facts (specifications part_id db) []))
        db.specifications;
  parts = update part_id (λ p. record p { updated_at = now }) db.parts;
  specification_reviews = delete part_id db.specification_reviews;
}

-- `apply_specification_review` of the repository
unfoldable pub apply_specification_review : ℕ → ℕ → Tx Unit
apply_specification_review part_id now db = elim (lookup part_id db.specification_reviews) [
  | none ↦ raise conflict db
  | some review ↦
      if is_current review.snapshot (specifications part_id db) (get part_id db)
      then ok (tt, accept_review part_id review now db)
      else raise conflict db
]

-- `reject_specification_review`
unfoldable pub reject_specification_review : ℕ → Tx Unit
reject_specification_review part_id =
    modify (λ db. record db { specification_reviews = delete part_id db.specification_reviews })

-- `delete`
unfoldable pub delete_part : ℕ → Tx Unit
delete_part part_id = modify (λ db. record db {
  pending_reviews = delete_where (λ row. row.part_id == part_id) db.pending_reviews;
  provenance = delete_where (λ row. row.part_id == part_id) db.provenance;
  specifications = delete part_id db.specifications;
  specification_reviews = delete part_id db.specification_reviews;
  parts = delete part_id db.parts;
})

-- ===== src/Inventory/Bound.antt =====
-- What a review of electrical facts is bound to: `stage_specifications` and `apply_specification_review`
-- of db/postgres/inventory.py.
use parts_bin.Prelude.{
  ℕ, ◌≡◌, ◌≢◌, inl, inr, refl, sym, ap, ◌∙◌, true, false, Option, none, some, List, [], arith,
  Bool-cases, Option-cases, some-injective, ==_refl,
}
use parts_bin.Storage.Table.{lookup, lookup-insert, lookup-delete_self}
use parts_bin.Storage.Parts.{PartFields, PartRow, Fact, SpecificationSnapshot, SpecificationReview}
use parts_bin.Storage.Rows.{Db}
use parts_bin.Storage.Tx.{ok, err, conflict}
use parts_bin.Inventory.{get}
use parts_bin.Inventory.Facts.{
  metadata_of, specifications, facts_or_none, is_current, stage_specifications, put_facts,
  accept_review, add_review, apply_specification_review,
}
use parts_bin.Inventory.Accepted.{
  fact_named, or_other, last_named, fact_named-put_facts, or_other-none, lookup-store_facts,
  same_facts-eq, same_metadata-eq,
}

-- The part is there with the metadata and the facts of the snapshot.
abbrev pub IsCurrent : ℕ → SpecificationSnapshot → Db → Type 0
IsCurrent part_id snapshot db =
    (p : PartRow) × (get part_id db ≡ some p)
    × (snapshot.metadata ≡ metadata_of p.fields)
    × (snapshot.facts ≡ specifications part_id db)

is_current-eq-true :
    (snapshot : SpecificationSnapshot) (facts : List Fact) (o : Option PartRow)
    → is_current snapshot facts o ≡ true
    → (p : PartRow) × (o ≡ some p)
      × (snapshot.metadata ≡ metadata_of p.fields)
      × (snapshot.facts ≡ facts)
is_current-eq-true snapshot facts none h = absurd (ground arith)
is_current-eq-true snapshot facts (some p) h = (
  p,
  refl,
  same_metadata-eq snapshot.metadata (metadata_of p.fields) (ground arith),
  same_facts-eq snapshot.facts facts (ground arith),
)

apply_specification_review-eq-ok :
    (part_id now : ℕ) (db : Db) (u : Unit) (db' : Db)
    → apply_specification_review part_id now db ≡ ok (u, db')
    → (review : SpecificationReview) × (lookup part_id db.specification_reviews ≡ some review)
      × (is_current review.snapshot (specifications part_id db) (get part_id db) ≡ true)
      × (accept_review part_id review now db ≡ db')
unfolding apply_specification_review
apply_specification_review-eq-ok part_id now db u db' h =
    elim (Option-cases (lookup part_id db.specification_reviews)) [
      | inl missing ↦ absurd (ground arith)
      | inr (review, found) ↦
          elim (Bool-cases
            (is_current review.snapshot (specifications part_id db) (get part_id db))) [
              | inl current ↦ (review, found, current, ground arith)
              | inr stale ↦ absurd (ground arith)
            ]
    ]

-- A review that is applied was staged for what the part is now, in metadata and in accepted facts. After
-- it the accepted facts are those of the review over those that were accepted, name by name, and the
-- review is gone.
pub apply_specification_review_overrides :
    (part_id now : ℕ) (db : Db) (u : Unit) (db' : Db)
    → apply_specification_review part_id now db ≡ ok (u, db')
    → (review : SpecificationReview) × (lookup part_id db.specification_reviews ≡ some review)
      × IsCurrent part_id review.snapshot db
      × ((name : ℕ)
          → fact_named name (specifications part_id db')
            ≡ or_other (last_named name review.facts) (last_named name (specifications part_id db)))
      × (lookup part_id db'.specification_reviews ≡ none)
apply_specification_review_overrides part_id now db u db' h =
    let (review, found, current, after) = apply_specification_review-eq-ok part_id now db u db' h in
    let old = specifications part_id db in
    let merged = put_facts review.facts (put_facts old []) in
    let stored : specifications part_id db' ≡ merged =
      ap (specifications part_id) (sym after)
      ∙ ap facts_or_none (lookup-store_facts part_id merged db.specifications) in
    (
      review,
      found,
      is_current-eq-true review.snapshot old (get part_id db) current,
      λ name.
          ap (fact_named name) stored
          ∙ fact_named-put_facts name review.facts (put_facts old [])
          ∙ ap (or_other (last_named name review.facts))
              (fact_named-put_facts name old [] ∙ or_other-none (last_named name old)),
      ap (λ (d : Db). lookup part_id d.specification_reviews) (sym after)
          ∙ lookup-delete_self part_id db.specification_reviews,
    )

abbrev pub staged_review : PartFields → List Fact → List Fact → SpecificationReview
staged_review original facts existing = record {
  facts = facts;
  snapshot = record { metadata = metadata_of original; facts = existing };
}

stage_specifications-eq-ok :
    (part_id : ℕ) (original : PartFields) (facts existing : List Fact) (db mid : Db)
    → stage_specifications part_id original facts existing db ≡ ok (true, mid)
    → lookup part_id mid.specification_reviews ≡ some (staged_review original facts existing)
unfolding stage_specifications
stage_specifications-eq-ok part_id original facts existing db mid h =
    let review = staged_review original facts existing in
    let current = is_current review.snapshot (specifications part_id db) (get part_id db) in
    elim (Option-cases (lookup part_id db.specification_reviews)) [
      | inr (other, taken) ↦ absurd (ground arith)
      | inl free ↦ elim (Bool-cases current) [
        | inr stale ↦ absurd (ground arith)
        | inl fresh ↦
            let after : add_review part_id review db ≡ mid = ground arith in
            ap (λ (d : Db). lookup part_id d.specification_reviews) (sym after)
            ∙ lookup-insert part_id part_id review db.specification_reviews
            ∙ ground (arith, free, ==_refl part_id)
      ]
    ]

apply_specification_review-refused :
    (part_id now : ℕ) (review : SpecificationReview) (db : Db)
    → lookup part_id db.specification_reviews ≡ some review
    → is_current review.snapshot (specifications part_id db) (get part_id db) ≡ false
    → apply_specification_review part_id now db ≡ err conflict
unfolding apply_specification_review
apply_specification_review-refused part_id now review db found stale = ground arith

-- A review that was staged for a part is refused once the metadata of the part is other than it was, as
-- long as no other review takes its place.
pub apply_specification_review_stale :
    (part_id : ℕ) (original : PartFields) (facts existing : List Fact) (db mid later : Db)
    (p : PartRow) (now : ℕ)
    → stage_specifications part_id original facts existing db ≡ ok (true, mid)
    → lookup part_id later.specification_reviews ≡ lookup part_id mid.specification_reviews
    → get part_id later ≡ some p
    → metadata_of p.fields ≢ metadata_of original
    → apply_specification_review part_id now later ≡ err conflict
apply_specification_review_stale part_id original facts existing db mid later p now staged same
      found differ =
    let review = staged_review original facts existing in
    let held = same ∙ stage_specifications-eq-ok part_id original facts existing db mid staged in
    elim (Bool-cases
      (is_current review.snapshot (specifications part_id later) (get part_id later))) [
        | inr stale ↦ apply_specification_review-refused part_id now review later held stale
        | inl current ↦
            let (q, is_q, metadata, _) =
              is_current-eq-true review.snapshot (specifications part_id later) (get part_id later)
                current in
            let same_row : q ≡ p = some-injective (sym is_q ∙ found) in
            absurd
              (differ (ap (λ (r : PartRow). metadata_of r.fields) (sym same_row) ∙ sym metadata))
      ]

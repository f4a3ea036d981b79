-- ===== src/Inventory/Reviewed.antt =====
-- A review of electrical facts of one part, applied, and refused after an edit of the part.
use parts_bin.Prelude.{ℕ, ◌≡◌, ◌≢◌, refl, arith, true, none, some, [], ◌∷◌, ap}
use parts_bin.Storage.Table.{lookup}
use parts_bin.Storage.Parts.{PartRow, Fact, SpecificationReview}
use parts_bin.Storage.Rows.{Db}
use parts_bin.Storage.Tx.{ok}
use parts_bin.Samples.{stocked, opamp}
use parts_bin.Storage.Table.{update}
use parts_bin.Inventory.{replace, replaced_row}
use parts_bin.Inventory.Rewriting.{
  Rewrite, rewritten, carry_review, rewrite_one, rewrite_each, rewrite_nominal_values,
}
use parts_bin.Inventory.Carried.{IsBound, rewrite_nominal_values-IsBound}
use parts_bin.Inventory.Facts.{
  metadata_of, specifications, stage_specifications, apply_specification_review, accept_review,
  add_review,
}
use parts_bin.Inventory.Accepted.{fact_named, last_named, or_other}
use parts_bin.Inventory.Bound.{IsCurrent, staged_review, apply_specification_review_overrides}

abbrev supply_old : Fact
supply_old = record { name = 7; rest = 1 }

abbrev supply : Fact
supply = record { name = 7; rest = 2 }

abbrev known : Db
known = record stocked { specifications = (1, supply_old ∷ []) ∷ [] }

abbrev review : SpecificationReview
review = staged_review opamp.fields (supply ∷ []) (supply_old ∷ [])

abbrev reviewed : Db
reviewed = add_review 1 review known

stage :
    stage_specifications 1 opamp.fields (supply ∷ []) (supply_old ∷ []) known ≡ ok (true, reviewed)
unfolding stage_specifications
stage = refl

accepted : apply_specification_review 1 9 reviewed ≡ ok (tt, accept_review 1 review 9 reviewed)
unfolding apply_specification_review
accepted = refl

apply_specification_review_overrides_example :
    (r : SpecificationReview) × (some review ≡ some r)
    × IsCurrent 1 r.snapshot reviewed
    × ((name : ℕ)
        → fact_named name (specifications 1 (accept_review 1 review 9 reviewed))
          ≡ or_other (last_named name r.facts) (last_named name (supply_old ∷ [])))
    × (lookup 1 (accept_review 1 review 9 reviewed).specification_reviews ≡ none)
apply_specification_review_overrides_example =
    apply_specification_review_overrides 1 9 reviewed tt (accept_review 1 review 9 reviewed)
      accepted

abbrev renamed : PartRow
renamed = record opamp { fields = record opamp.fields { manufacturer = some (84 ∷ 73 ∷ []) } }

abbrev edited : Db
edited = record reviewed { parts = (1, renamed) ∷ [] }

other_maker : metadata_of renamed.fields ≢ metadata_of opamp.fields
other_maker h = ground (arith, ap (λ m. m.manufacturer) h)

abbrev five_volt : Rewrite
five_volt = record { part_id = 1; value = 53 ∷ []; value_unit = 86 ∷ [] }

abbrev migrated : Db
migrated = carry_review five_volt (some review) true (record reviewed {
  parts = update 1 (replaced_row (rewritten five_volt opamp.fields) 9) reviewed.parts;
})

rewrite : rewrite_nominal_values (five_volt ∷ []) 9 reviewed ≡ ok (tt, migrated)
unfolding rewrite_nominal_values rewrite_each rewrite_one replace
rewrite = refl

rewrite_nominal_values-IsBound_example : IsBound 1 migrated
rewrite_nominal_values-IsBound_example =
    rewrite_nominal_values-IsBound (five_volt ∷ []) 9 reviewed tt migrated 1 rewrite refl refl

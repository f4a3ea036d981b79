-- ===== src/Service/Nominal.antt =====
-- The migration of nominal values: `plan_nominal_normalization` and `normalize_nominal_values` of
-- domain/service.py.
use parts_bin.Prelude.{
  ℕ, Bool, not, ◌&&◌, Option, none, some, List, [], ◌∷◌, ◌++◌, if◌then◌else◌, ltb, length, any,
}
use parts_bin.Storage.Table.{Table}
use parts_bin.Storage.Parts.{Text, same_text?, PartFields, PartRow}
use parts_bin.Storage.Rows.{Db}
use parts_bin.Storage.Tx.{Tx, domain_error, domain_conflict, pure, gets, ◌>>=◌, ◌>>◌, raise_if}
use parts_bin.Inventory.Rewriting.{Rewrite, rewritten, rewrite_nominal_values}
use parts_bin.Normalization.{Readers, nominal_for_category, part_identity, Identity}
use parts_bin.Service.{on_conflict}
use parts_bin.Service.Search.{list_parts}
use parts_bin.Service.Identity.{identities_meet}

-- `plan_nominal_normalization`; a change is its part with what its value becomes.
pub record Plan : Type 0 where
  pub changes : List Rewrite
  pub unparsed_part_ids : List ℕ
  pub identities : List (Identity × List ℕ)

abbrev pub empty_plan : Plan
empty_plan = record { changes = []; unparsed_part_ids = []; identities = [] }

-- `(part.value, part.value_unit) != (quantity.decimal, quantity.unit)`
abbrev pub is_changed : PartFields → Text → Text → Bool
is_changed f value unit =
    not (same_text? f.value (some value) && same_text? f.value_unit (some unit))

-- `identities.setdefault(identity, []).append(part.id)`
abbrev pub note_identity : Option Identity → ℕ → List (Identity × List ℕ) → List (Identity × List ℕ)
note_identity none part_id noted = noted
note_identity (some i) part_id [] = (i, part_id ∷ []) ∷ []
note_identity (some i) part_id ((k, ids) ∷ noted) =
    let rest = note_identity (some i) part_id noted in
    if identities_meet (some i) (some k) then (k, ids ++ part_id ∷ []) ∷ noted else (k, ids) ∷ rest

module _ (readers : Readers) where
  -- A value as it is read, if there is one
  abbrev pub plan_value : ℕ → PartFields → Text → Option (Text × Text) → Plan → Plan
  plan_value part_id f v none plan = record plan {
    unparsed_part_ids = plan.unparsed_part_ids ++ part_id ∷ [];
    identities = note_identity (part_identity readers f) part_id plan.identities;
  }
  plan_value part_id f v (some (value, unit)) plan =
      let r : Rewrite = record { part_id = part_id; value = value; value_unit = unit } in
      record plan {
        changes = if is_changed f value unit then plan.changes ++ r ∷ [] else plan.changes;
        identities = note_identity (part_identity readers (rewritten r f)) part_id plan.identities;
      }

  abbrev pub plan_part : ℕ → PartFields → Option Text → Plan → Plan
  plan_part part_id f none plan = record plan {
    identities = note_identity (part_identity readers f) part_id plan.identities;
  }
  plan_part part_id f (some v) plan =
      plan_value part_id f v (nominal_for_category readers v f.part_category f.value_unit) plan

  abbrev pub plan_each : Table PartRow → Plan → Plan
  plan_each [] plan = plan
  plan_each ((part_id, p) ∷ rows) plan =
      plan_each rows (plan_part part_id p.fields p.fields.value plan)

  abbrev pub plan_nominal_normalization : Db → Plan
  plan_nominal_normalization db = plan_each (list_parts db) empty_plan

  -- `conflicting_part_ids`, whether there are any
  abbrev pub has_conflicting : Plan → Bool
  has_conflicting plan = any (λ (i : Identity × List ℕ). ltb 1 (length i.1)) plan.identities

  -- `normalize_nominal_values`
  unfoldable pub normalize_nominal_values : ℕ → Tx Plan
  normalize_nominal_values now = do
    plan ← gets plan_nominal_normalization
    raise_if (has_conflicting plan) (domain_error domain_conflict)
    λ db. on_conflict domain_conflict (rewrite_nominal_values plan.changes now db)
    pure plan

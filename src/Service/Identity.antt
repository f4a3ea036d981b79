-- ===== src/Service/Identity.antt =====
-- `duplicate_for_add`, `_check_replacement_identities` and `_replace_one` of domain/service.py: one
-- record for each identity of stock.
use parts_bin.Prelude.{
  ℕ, Bool, true, false, not, ◌&&◌, ◌||◌, Option, none, some, List, [], ◌∷◌, if◌then◌else◌, ◌==◌,
  ltb, is_some, length, pos,
}
use parts_bin.Storage.Table.{Table, lookup, select}
use parts_bin.Storage.Parts.{Text, PartFields, PartRow, Fact}
use parts_bin.Storage.Rows.{Db}
use parts_bin.Storage.Tx.{
  Tx, Result, ok, err, domain_error, domain_conflict, gets, ◌>>=◌, ◌>>◌, raise_if,
}
use parts_bin.Inventory.{replace}
use parts_bin.Inventory.Facts.{metadata_of, same_metadata}
use parts_bin.Inventory.Stock.{get_part}
use parts_bin.Normalization.{
  Readers, normalize_part_payload, part_identity, Identity, same_identity,
}
use parts_bin.Service.{on_conflict}
use parts_bin.Service.Search.{Filters, no_filters, search_filters, list_parts}

-- Two identities are the same, and neither is unknown
abbrev pub identities_meet : Option Identity → Option Identity → Bool
identities_meet (some i) (some j) = same_identity i j
identities_meet _ _ = false

-- The filters under which `duplicate_for_add` looks
abbrev pub duplicate_filters : PartFields → Option Text → Filters
duplicate_filters f (some n) = record no_filters { part_number = some n }
duplicate_filters f none = record no_filters {
  part_category = some f.part_category;
  value = f.value;
  «package» = f.«package»;
}

abbrev pub at_most_one : Table PartRow → Result (Option (ℕ × PartRow))
at_most_one [] = ok none
at_most_one (p ∷ []) = ok (some p)
at_most_one (p ∷ q ∷ rows) = err (domain_error domain_conflict)

module _ (readers : Readers) where
  abbrev pub same_stock : PartFields → ℕ → PartRow → Bool
  same_stock candidate j p =
      identities_meet (part_identity readers p.fields) (part_identity readers candidate)

  abbrev pub only_match : PartFields → Result (Table PartRow) → Result (Option (ℕ × PartRow))
  only_match candidate (err e) = err e
  only_match candidate (ok rows) = at_most_one (select (same_stock candidate) rows)

  abbrev pub duplicate_of_candidate :
      PartFields → Option Identity → Db → Result (Option (ℕ × PartRow))
  duplicate_of_candidate candidate none db = ok none
  duplicate_of_candidate candidate (some i) db =
      only_match candidate (
        search_filters readers (duplicate_filters candidate candidate.part_number) (pos 0) db.parts)

  -- `duplicate_for_add`
  unfoldable pub duplicate_for_add : PartFields → Db → Result (Option (ℕ × PartRow))
  duplicate_for_add f db =
      let candidate = normalize_part_payload readers f in
      duplicate_of_candidate candidate (part_identity readers candidate) db

  -- `replacements.get(part.id, vars(part))`
  abbrev pub final_fields : ℕ → PartFields → ℕ → PartRow → PartFields
  final_fields part_id f j p = if j == part_id then f else p.fields

  -- Whether a listed part has, in the end, the identity of these fields
  abbrev pub collides : ℕ → PartFields → ℕ → PartRow → Bool
  collides part_id f j p =
      identities_meet (part_identity readers (final_fields part_id f j p)) (part_identity readers f)

  -- `collisions`
  unfoldable pub collisions : ℕ → PartFields → Db → Table PartRow
  collisions part_id f db = select (collides part_id f) (list_parts db)

abbrev pub is_nonempty : Option (List Fact) → Bool
is_nonempty (some (fact ∷ facts)) = true
is_nonempty _ = false

-- `specifications(part_id) or part_id in specification_reviews()`
abbrev pub has_evidence : ℕ → Db → Bool
has_evidence part_id db =
    is_nonempty (lookup part_id db.specifications)
    || is_some (lookup part_id db.specification_reviews)

module _ (readers : Readers) where
  -- `_check_replacement_identities`, of one part
  unfoldable pub check_replacement : ℕ → PartFields → Tx Unit
  check_replacement part_id f = do
    current ← get_part part_id
    raise_if
        (← gets (λ db.
          not (same_metadata (metadata_of f) (metadata_of current.fields))
          && has_evidence part_id db))
        (domain_error domain_conflict)
    raise_if (← gets (λ db. ltb 1 (length (collisions readers part_id f db))))
        (domain_error domain_conflict)

  -- `_replace_one`
  unfoldable pub replace_one : ℕ → PartFields → ℕ → Tx Unit
  replace_one part_id f now = do
    check_replacement part_id f
    λ db. on_conflict domain_conflict (replace part_id f now db)

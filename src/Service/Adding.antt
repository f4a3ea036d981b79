-- ===== src/Service/Adding.antt =====
-- Additions of parts: `add_part`, `add_or_increment`, `add_parts` and `create_parts` of
-- domain/service.py.
use parts_bin.Prelude.{
  ℕ, ◌+◌, not, ◌&&◌, Option, none, some, List, [], ◌∷◌, length, if◌then◌else◌, ◌==◌, leb, ◌+ℤ◌,
}
use parts_bin.Storage.Parts.{PartFields, PartRow}
use parts_bin.Storage.Tx.{
  Tx, Result, ok, err, domain_error, domain_conflict, invalid_input, duplicate_part, pure, raise,
  gets, ◌>>=◌, ◌>>◌, raise_if,
}
use parts_bin.Inventory.{insert_part, increment_stock}
use parts_bin.Inventory.Stock.{get_part, is_not_positive}
use parts_bin.Normalization.{Readers, Draft, validate_fields, part_identity, Identity}
use parts_bin.Service.{lift, on_conflict, draft_of}
use parts_bin.Service.Identity.{duplicate_for_add, has_evidence, identities_meet}

-- `CreatePartOutcome`: the part and its id, and why it was skipped.
pub data Reason : Type 0 where
  added existing : Reason
  duplicate_input : ℕ → Reason

pub record CreatePartOutcome : Type 0 where
  pub index : ℕ
  pub part_id : ℕ
  pub part : PartRow
  pub reason : Reason

abbrev pub validated_and : Result PartFields → Result (List PartFields) → Result (List PartFields)
validated_and (err e) rest = err e
validated_and (ok f) (err e) = err e
validated_and (ok f) (ok fs) = ok (f ∷ fs)

module _ (readers : Readers) where
  -- `[validate_fields(vars(item)) for item in request.items]`
  abbrev pub validate_each : List Draft → Result (List PartFields)
  validate_each [] = ok []
  validate_each (d ∷ ds) = validated_and (validate_fields readers d) (validate_each ds)

  -- The rest of `add_part`, once no duplicate was found
  abbrev pub insert_new : PartFields → ℕ → Option (ℕ × PartRow) → Tx (ℕ × PartRow)
  insert_new f now (some duplicate) = raise (domain_error duplicate_part)
  insert_new f now none = do
    part_id ← λ db. on_conflict duplicate_part (insert_part f now db)
    p ← get_part part_id
    pure (part_id, p)

  abbrev pub add_fields : PartFields → ℕ → Tx (ℕ × PartRow)
  add_fields f now = do
    duplicate ← λ db. lift (duplicate_for_add readers f db) db
    insert_new f now duplicate

  -- `add_part`
  unfoldable pub add_part : Draft → ℕ → Tx (ℕ × PartRow)
  add_part d now = do f ← lift (validate_fields readers d); add_fields f now

  -- `_increment_duplicate`
  unfoldable pub increment_duplicate : ℕ → PartFields → ℕ → Tx Unit
  increment_duplicate part_id f now = do
    raise_if (← gets (has_evidence part_id)) (domain_error domain_conflict)
    raise_if (is_not_positive f.quantity) (domain_error invalid_input)
    increment_stock part_id f.quantity now

  abbrev pub increment_or_add : PartFields → ℕ → Option (ℕ × PartRow) → Tx (ℕ × PartRow)
  increment_or_add f now none = add_part (draft_of f) now
  increment_or_add f now (some duplicate) = do
    increment_duplicate duplicate.0 f now
    p ← get_part duplicate.0
    pure (duplicate.0, p)

  -- `add_or_increment`
  unfoldable pub add_or_increment : Draft → ℕ → Tx (ℕ × PartRow)
  add_or_increment d now = do
    f ← lift (validate_fields readers d)
    duplicate ← λ db. lift (duplicate_for_add readers f db) db
    increment_or_add f now duplicate

  -- `merged[key]["quantity"] += fields["quantity"]`, or `merged[key] = fields`
  abbrev pub merge_item :
      Option Identity
      → PartFields
      → List (Option Identity × PartFields)
      → List (Option Identity × PartFields)
  merge_item key f [] = (key, f) ∷ []
  merge_item key f ((k, g) ∷ merged) =
      let rest = merge_item key f merged in
      if identities_meet key k
      then (k, record g { quantity = g.quantity +ℤ f.quantity }) ∷ merged
      else (k, g) ∷ rest

  abbrev pub merge_each :
      List PartFields → List (Option Identity × PartFields) → List (Option Identity × PartFields)
  merge_each [] merged = merged
  merge_each (f ∷ fs) merged = merge_each fs (merge_item (part_identity readers f) f merged)

  abbrev pub add_each_merged : List (Option Identity × PartFields) → ℕ → Tx (List (ℕ × PartRow))
  add_each_merged [] now = pure []
  add_each_merged ((k, f) ∷ merged) now = do
    p ← add_or_increment (draft_of f) now
    rest ← add_each_merged merged now
    pure (p ∷ rest)

  -- `add_parts`, within the unit of its caller
  unfoldable pub add_parts : List Draft → ℕ → Tx (List (ℕ × PartRow))
  add_parts items now = do
    raise_if (length items == 0) (domain_error invalid_input)
    fields ← lift (validate_each items)
    add_each_merged (merge_each fields []) now

  -- `seen[identity]`
  abbrev pub find_seen :
      Option Identity → List (Identity × CreatePartOutcome) → Option CreatePartOutcome
  find_seen i [] = none
  find_seen i ((j, outcome) ∷ seen) =
      if identities_meet i (some j) then some outcome else find_seen i seen

  abbrev pub existing_or_added : ℕ → PartFields → ℕ → Option (ℕ × PartRow) → Tx CreatePartOutcome
  existing_or_added index f now (some p) =
      pure (record { index = index; part_id = p.0; part = p.1; reason = existing })
  existing_or_added index f now none = do
    p ← add_part (draft_of f) now
    pure (record { index = index; part_id = p.0; part = p.1; reason = added })

  -- One round of the loop of `create_parts`
  abbrev pub create_one : ℕ → PartFields → ℕ → Option CreatePartOutcome → Tx CreatePartOutcome
  create_one index f now (some previous) = pure (record {
    index = index;
    part_id = previous.part_id;
    part = previous.part;
    reason = duplicate_input previous.index;
  })
  create_one index f now none = do
    found ← λ db. lift (duplicate_for_add readers f db) db
    existing_or_added index f now found

  -- `seen[identity] = (index, outcome.part)`, of an identity that is known and new
  abbrev pub note_seen :
      Option Identity
      → Option CreatePartOutcome
      → CreatePartOutcome
      → List (Identity × CreatePartOutcome)
      → List (Identity × CreatePartOutcome)
  note_seen none found outcome seen = seen
  note_seen (some i) (some found) outcome seen = seen
  note_seen (some i) none outcome seen = (i, outcome) ∷ seen

  abbrev pub create_each :
      List PartFields → ℕ → ℕ → List (Identity × CreatePartOutcome) → Tx (List CreatePartOutcome)
  create_each [] index now seen = pure []
  create_each (f ∷ fs) index now seen =
      let identity = part_identity readers f in
      let found = find_seen identity seen in
      do
        outcome ← create_one index f now found
        rest ← create_each fs (index + 1) now (note_seen identity found outcome seen)
        pure (outcome ∷ rest)

  -- `create_parts`
  unfoldable pub create_parts : List Draft → ℕ → Tx (List CreatePartOutcome)
  create_parts items now = do
    raise_if (not (leb 1 (length items) && leb (length items) 100)) (domain_error invalid_input)
    fields ← lift (validate_each items)
    create_each fields 0 now []

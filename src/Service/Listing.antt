-- ===== src/Service/Listing.antt =====
-- Pages of pending reviews, the specifications of a part, and what an approval is bound to:
-- domain/service.py.
use parts_bin.Prelude.{
  ℕ, Bool, true, false, not, ◌&&◌, ◌||◌, Option, none, some, List, [], ◌∷◌, map, if◌then◌else◌, ltb,
  ◌==◌, is_some, ℤ,
}
use parts_bin.Storage.Table.{Table, lookup}
use parts_bin.Storage.Parts.{
  Text, same_text, same_text?, FieldName, PartRow, Fact, Evidence, PendingRow, SpecificationReview,
}
use parts_bin.Storage.Parts
use parts_bin.Storage.Rows.{Db}
use parts_bin.Storage.Tx.{
  Tx, Result, ok, err, domain_error, invalid_input, pure, gets, ◌>>=◌, ◌>>◌, raise_if,
}
use parts_bin.Pages.{Page, slice, validate_page}
use parts_bin.Normalization.{Readers, text}
use parts_bin.Inventory.{get}
use parts_bin.Inventory.Stock.{get_part}
use parts_bin.Inventory.Facts.{specifications}
use parts_bin.Inventory.Reviews.{same_field}
use parts_bin.Service.{lift}
use parts_bin.Service.Search.{values_match}
use parts_bin.Service.Updating.{Updates}
use parts_bin.Service.Reviewing.{review_fields, review_provenance, is_blank}

abbrev pub bounds_of : Option (ℕ × ℕ) → Result (ℕ × ℕ)
bounds_of none = err (domain_error invalid_input)
bounds_of (some b) = ok b

-- `sorted(reviews)`, each id once
abbrev pub insert_id : ℕ → List ℕ → List ℕ
insert_id i [] = i ∷ []
insert_id i (j ∷ ids) =
    let rest = insert_id i ids in
    if ltb i j then i ∷ j ∷ ids else if i == j then j ∷ ids else j ∷ rest

abbrev pub reviewed_ids : List PendingRow → List ℕ
reviewed_ids [] = []
reviewed_ids (row ∷ rows) = insert_id row.part_id (reviewed_ids rows)

abbrev pub keys_of {ℓ} : {R : Type ℓ} → Table R → List ℕ
keys_of [] = []
keys_of ((k, r) ∷ t) = insert_id k (keys_of t)

-- `proposed.get(name)`
abbrev pub proposed_text : FieldName → Updates → Option Text
proposed_text name [] = none
proposed_text name ((n, text s) ∷ fields) =
    if same_field n name then some s else proposed_text name fields
proposed_text name ((n, v) ∷ fields) = proposed_text name fields

-- What a page of reviews may be restricted to
pub record ReviewFilters : Type 0 where
  pub part_id : Option ℕ
  pub value : Option Text
  pub part_number : Option Text
  pub include_provenance : Bool

-- `part_id is not None and identifier != part_id`
abbrev pub is_other_part : Option ℕ → ℕ → Bool
is_other_part none j = false
is_other_part (some part_id) j = not (j == part_id)

abbrev pub has_number : Option Text → Option Text → Option Text → Bool
has_number none current new = true
has_number (some n) current new = same_text? (some n) current || same_text? (some n) new

abbrev pub or_text : Option Text → Text → Text
or_text none other = other
or_text (some s) other = s

module _ (readers : Readers) where
  abbrev pub matches_in : Option Text → Text → Text → Bool
  matches_in none v category = false
  matches_in (some candidate) v category = values_match readers candidate v category none

  -- The value, now or as proposed, in the category, now or as proposed
  abbrev pub has_value : Option Text → PartRow → Updates → Bool
  has_value none p fields = true
  has_value (some v) p fields =
      let category = p.fields.part_category in
      let proposed_category = or_text (proposed_text Parts.part_category fields) category in
      matches_in p.fields.value v category
      || matches_in p.fields.value v proposed_category
      || matches_in (proposed_text Parts.value fields) v category
      || matches_in (proposed_text Parts.value fields) v proposed_category

  abbrev pub is_listed : ReviewFilters → PartRow → Updates → Bool
  is_listed filters p fields =
      has_number filters.part_number p.fields.part_number (proposed_text Parts.part_number fields)
      && has_value filters.value p fields

-- A summary of a review, with its provenance where that was asked for
pub record ReviewSummary : Type 0 where
  pub part_id : ℕ
  pub fields : Updates
  pub provenance : Option (List Evidence)

abbrev pub summary_of : Bool → ℕ → List PendingRow → ReviewSummary
summary_of include_provenance part_id rows = record {
  part_id = part_id;
  fields = review_fields part_id rows;
  provenance = if include_provenance then some (review_provenance part_id rows) else none;
}

abbrev pub add_if {ℓ} : {A : Type ℓ} → Bool → A → List A → List A
add_if true x xs = x ∷ xs
add_if false x xs = xs

module _ (readers : Readers) where
  abbrev pub list_reviews : ReviewFilters → List PendingRow → List ℕ → Tx (List ReviewSummary)
  list_reviews filters pending [] = pure []
  list_reviews filters pending (part_id ∷ ids) =
      let rest = list_reviews filters pending ids in
      if is_other_part filters.part_id part_id then rest else do
        p ← get_part part_id
        later ← rest
        pure (
            add_if (is_listed readers filters p (review_fields part_id pending))
              (summary_of filters.include_provenance part_id pending) later)

  -- `pending_review_page`
  unfoldable pub pending_review_page : ReviewFilters → ℤ → ℤ → Tx (Page ReviewSummary)
  pending_review_page filters limit offset = do
    bounds ← lift (bounds_of (validate_page limit offset))
    raise_if (filters.include_provenance && not (is_some filters.part_id))
        (domain_error invalid_input)
    pending ← gets (λ db. db.pending_reviews)
    rows ← list_reviews filters pending (reviewed_ids pending)
    pure (slice rows bounds.0 bounds.1)

-- `value is not None and (not isinstance(value, str) or not value.strip())`, of a text
abbrev pub is_empty_filter : Option Text → Bool
is_empty_filter none = false
is_empty_filter (some s) = is_blank s

abbrev pub is_bad_id : Option ℕ → Bool
is_bad_id none = false
is_bad_id (some part_id) = ltb part_id 1

pub record SpecificationFilters : Type 0 where
  pub part_id : Option ℕ
  pub part_category : Option Text
  pub part_number : Option Text

abbrev pub equals_if_given : Option Text → Option Text → Bool
equals_if_given none stored = true
equals_if_given (some s) stored = same_text? (some s) stored

-- What is shown of an electrical review: the part, and the names of the facts
pub record SpecificationSummary : Type 0 where
  pub part_id : ℕ
  pub part_category : Text
  pub part_number : Option Text
  pub fact_names : List ℕ

abbrev pub names_of : Option SpecificationReview → List ℕ
names_of none = []
names_of (some review) = map (λ (f : Fact). f.name) review.facts

abbrev pub list_specification_reviews :
    SpecificationFilters → Table SpecificationReview → List ℕ → Tx (List SpecificationSummary)
list_specification_reviews filters reviews [] = pure []
list_specification_reviews filters reviews (part_id ∷ ids) =
    let rest = list_specification_reviews filters reviews ids in
    if is_other_part filters.part_id part_id then rest else do
      p ← get_part part_id
      later ← rest
      pure (
          add_if
            (equals_if_given filters.part_category (some p.fields.part_category)
              && equals_if_given filters.part_number p.fields.part_number)
            (record {
              part_id = part_id;
              part_category = p.fields.part_category;
              part_number = p.fields.part_number;
              fact_names = names_of (lookup part_id reviews);
            })
            later)

-- `specification_review_page`
unfoldable pub specification_review_page :
    SpecificationFilters → ℤ → ℤ → Tx (Page SpecificationSummary)
specification_review_page filters limit offset = do
  bounds ← lift (bounds_of (validate_page limit offset))
  raise_if (is_bad_id filters.part_id) (domain_error invalid_input)
  raise_if (is_empty_filter filters.part_category || is_empty_filter filters.part_number)
      (domain_error invalid_input)
  reviews ← gets (λ db. db.specification_reviews)
  rows ← list_specification_reviews filters reviews (keys_of reviews)
  pure (slice rows bounds.0 bounds.1)

-- `get_specifications`
pub record PartSpecifications : Type 0 where
  pub part_number : Option Text
  pub facts : List Fact
  pub pending_review : Option SpecificationReview

unfoldable pub get_specifications : ℕ → Tx PartSpecifications
get_specifications part_id = do
  p ← get_part part_id
  facts ← gets (specifications part_id)
  review ← gets (λ db. lookup part_id db.specification_reviews)
  pure (record { part_number = p.fields.part_number; facts = facts; pending_review = review })

-- `approval_snapshot`, of one target
pub record TargetSnapshot : Type 0 where
  pub part : Option PartRow
  pub review : List PendingRow
  pub specifications : List Fact
  pub specification_review : Option SpecificationReview

abbrev pub rows_of : ℕ → List PendingRow → List PendingRow
rows_of part_id [] = []
rows_of part_id (row ∷ rows) =
    let rest = rows_of part_id rows in if row.part_id == part_id then row ∷ rest else rest

abbrev pub approval_snapshot : List ℕ → Db → List (ℕ × TargetSnapshot)
approval_snapshot [] db = []
approval_snapshot (part_id ∷ ids) db =
    (
      part_id,
      record {
        part = get part_id db;
        review = rows_of part_id db.pending_reviews;
        specifications = specifications part_id db;
        specification_review = lookup part_id db.specification_reviews;
      },
    )
    ∷ approval_snapshot ids db

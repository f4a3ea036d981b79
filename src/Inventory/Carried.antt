-- ===== src/Inventory/Carried.antt =====
-- Reviews of electrical facts through the migration of nominal values: `rewrite_nominal_values` of
-- db/postgres/inventory.py.
use parts_bin.Prelude.{
  ℕ, ◌≡◌, ◌≢◌, refl, sym, ap, ◌∙◌, subst, Bool, true, false, Option, none, some, List, [], ◌∷◌,
  arith, Bool-cases, Option-cases, inl, inr, ==_iff, ◌==◌, map, any,
}
use parts_bin.Storage.Table.{Table, lookup, update, exists, lookup-update_self, lookup-update_ne}
use parts_bin.Storage.Parts.{PartRow, Fact, SpecificationReview}
use parts_bin.Storage.Rows.{Db}
use parts_bin.Storage.Tx.{ok, >>=-eq-ok, ok-injective}
use parts_bin.Texts.{same_text_refl}
use parts_bin.Inventory.{get, replace, replaced_row, breaks_unique}
use parts_bin.Inventory.Stock.{has_repeated}
use parts_bin.Inventory.Facts.{specifications, is_current}
use parts_bin.Inventory.Rewriting.{
  Rewrite, rewritten, rewritten_review, with_snapshot, is_bound, carry_review, replace_value,
  rewrite_one, rewrite_each, rewrite_nominal_values,
}

-- A part has a review that was staged for what the part is.
abbrev pub IsBound : ℕ → Db → Type 0
IsBound j db = is_bound (lookup j db.specification_reviews) j db ≡ true

abbrev pub moved : Rewrite → ℕ → PartRow → Db → Db
moved r now p db = record db {
  parts = update r.part_id (replaced_row (rewritten r p.fields) now) db.parts;
}

replace_value-eq-ok :
    (r : Rewrite) (now : ℕ) (db : Db) (u : Unit) (db' : Db)
    → replace_value r now db ≡ ok (u, db')
    → (p : PartRow) × (lookup r.part_id db.parts ≡ some p) × (moved r now p db ≡ db')
unfolding replace
replace_value-eq-ok r now db u db' h = elim (Option-cases (lookup r.part_id db.parts)) [
  | inl missing ↦ absurd (ground arith)
  | inr (p, found) ↦
      elim (Bool-cases (exists (breaks_unique r.part_id (rewritten r p.fields)) db.parts)) [
        | inl broken ↦ absurd (ground arith)
        | inr free ↦ (p, found, ground arith)
      ]
]

-- A review that was staged for a part goes along with it into the other notation.
is_current-rewritten :
    (r : Rewrite) (now : ℕ) (review : SpecificationReview) (facts : List Fact) (p : PartRow)
    → is_current review.snapshot facts (some p) ≡ true
    → is_current
        (rewritten_review r review).snapshot
        facts
        (some (replaced_row (rewritten r p.fields) now p))
      ≡ true
is_current-rewritten r now review facts p h =
    ground (arith, same_text_refl r.value, same_text_refl r.value_unit)

is_bound-eq-true :
    (o : Option SpecificationReview) (j : ℕ) (db : Db)
    → is_bound o j db ≡ true
    → (review : SpecificationReview) × (o ≡ some review)
      × (is_current review.snapshot (specifications j db) (get j db) ≡ true)
is_bound-eq-true none j db h = absurd (ground arith)
is_bound-eq-true (some review) j db h = (review, refl, h)

-- A round for part `r.part_id` leaves the reviews of all other parts.
carry_review-ne :
    (r : Rewrite) (now : ℕ) (db : Db) (p : PartRow) (o : Option SpecificationReview) (bound : Bool)
    (j : ℕ)
    → j ≢ r.part_id
    → lookup j (carry_review r o bound (moved r now p db)).specification_reviews
      ≡ lookup j db.specification_reviews
carry_review-ne r now db p none bound j differ = refl
carry_review-ne r now db p (some review) false j differ = refl
carry_review-ne r now db p (some review) true j differ =
    lookup-update_ne r.part_id j (with_snapshot (rewritten_review r review).snapshot)
      db.specification_reviews differ

pub carry_review-parts :
    (r : Rewrite) (o : Option SpecificationReview) (bound : Bool) (db : Db)
    → (carry_review r o bound db).parts ≡ db.parts
carry_review-parts r none bound db = refl
carry_review-parts r (some review) false db = refl
carry_review-parts r (some review) true db = refl

-- What a review is bound to is not in the table of reviews.
is_bound-carry_review :
    (r : Rewrite) (o : Option SpecificationReview) (bound : Bool) (x : Option SpecificationReview)
    (j : ℕ) (db : Db)
    → is_bound x j (carry_review r o bound db) ≡ is_bound x j db
is_bound-carry_review r none bound x j db = refl
is_bound-carry_review r (some review) bound none j db = refl
is_bound-carry_review r (some review) false (some y) j db = refl
is_bound-carry_review r (some review) true (some y) j db = refl

own_review_carried :
    (r : Rewrite) (now : ℕ) (db : Db) (p : PartRow)
    → lookup r.part_id db.parts ≡ some p
    → (o : Option SpecificationReview) → lookup r.part_id db.specification_reviews ≡ o
    → (bound : Bool) → is_bound o r.part_id db ≡ bound
    → bound ≡ true
    → IsBound r.part_id (carry_review r o bound (moved r now p db))
own_review_carried r now db p found o held false is_b h = absurd (ground arith)
own_review_carried r now db p found none held true is_b h = absurd (ground arith)
own_review_carried r now db p found (some review) held true is_b h =
    let facts = specifications r.part_id db in
    let after = with_snapshot (rewritten_review r review).snapshot in
    let carried = lookup-update_self r.part_id after db.specification_reviews review held in
    let row =
      lookup-update_self r.part_id (replaced_row (rewritten r p.fields) now) db.parts p found in
    let before : is_current review.snapshot facts (some p) ≡ true =
      ap (is_current review.snapshot facts) (sym found) ∙ is_b in
    ap
      (λ (o : Option SpecificationReview).
        is_bound o r.part_id (carry_review r (some review) true (moved r now p db)))
      carried
    ∙ ap (is_current (after review).snapshot facts) row
    ∙ is_current-rewritten r now review facts p before

other_review_kept :
    (r : Rewrite) (now : ℕ) (db : Db) (p : PartRow) (o : Option SpecificationReview) (bound : Bool)
    (j : ℕ)
    → j ≢ r.part_id
    → IsBound j db
    → IsBound j (carry_review r o bound (moved r now p db))
other_review_kept r now db p o bound j differ h =
    let row =
      lookup-update_ne r.part_id j (replaced_row (rewritten r p.fields) now) db.parts differ in
    let (review, held, current) = is_bound-eq-true (lookup j db.specification_reviews) j db h in
    let kept = carry_review-ne r now db p o bound j differ in
    let before : is_bound (some review) j (moved r now p db) ≡ true =
      ap (is_current review.snapshot (specifications j db)) row ∙ current in
    ap
      (λ (x : Option SpecificationReview). is_bound x j (carry_review r o bound (moved r now p db)))
      (kept ∙ held)
    ∙ is_bound-carry_review r o bound (some review) j (moved r now p db)
    ∙ before

pub rewrite_one-eq-ok :
    (reviews : Table SpecificationReview) (r : Rewrite) (now : ℕ) (db : Db) (u : Unit) (db' : Db)
    → rewrite_one reviews r now db ≡ ok (u, db')
    → (p : PartRow) × (lookup r.part_id db.parts ≡ some p)
      × (carry_review r
            (lookup r.part_id reviews)
            (is_bound (lookup r.part_id reviews) r.part_id db)
            (moved r now p db)
          ≡ db')
unfolding rewrite_one
rewrite_one-eq-ok reviews r now db u db' h =
    let o = lookup r.part_id reviews in
    let bound = is_bound o r.part_id db in
    let (v, mid, is_replaced, rest) = >>=-eq-ok (replace_value r now) _ db h in
    let (p, found, same) = replace_value-eq-ok r now db v mid is_replaced in
    (p, found, ap (carry_review r o bound) same ∙ (ok-injective rest).1)

rewrite_one-IsBound :
    (reviews : Table SpecificationReview) (r : Rewrite) (now : ℕ) (db : Db) (u : Unit) (db' : Db)
    (j : ℕ)
    → rewrite_one reviews r now db ≡ ok (u, db')
    → lookup r.part_id db.specification_reviews ≡ lookup r.part_id reviews
    → IsBound j db
    → IsBound j db'
rewrite_one-IsBound reviews r now db u db' j h fresh is_b =
    let (p, found, after) = rewrite_one-eq-ok reviews r now db u db' h in
    let o = lookup r.part_id reviews in
    let bound = is_bound o r.part_id db in
    subst (IsBound j) after (elim (Bool-cases (j == r.part_id)) [
      | inl own ↦
          let is_own : j ≡ r.part_id = (==_iff j r.part_id).0 own in
          let is_bound_own : bound ≡ true =
            ap (λ (x : Option SpecificationReview). is_bound x r.part_id db) (sym fresh)
            ∙ subst (λ i. IsBound i db) is_own is_b in
          subst (λ i. IsBound i (carry_review r o bound (moved r now p db))) (sym is_own)
            (own_review_carried r now db p found o fresh bound refl is_bound_own)
      | inr other ↦
          other_review_kept r now db p o bound j (λ e. ground (arith, ==_iff j r.part_id)) is_b
    ])

-- The reviews that were read are those stored now, for the parts that are still to come.
abbrev AreFresh : Table SpecificationReview → List Rewrite → Db → Type 0
AreFresh reviews rewrites db =
    (i : ℕ)
    → any (λ j. j == i) (map (λ (r : Rewrite). r.part_id) rewrites) ≡ true
    → lookup i db.specification_reviews ≡ lookup i reviews

rewrite_one-AreFresh :
    (reviews : Table SpecificationReview) (r : Rewrite) (rewrites : List Rewrite) (now : ℕ)
    (db : Db) (u : Unit) (db' : Db)
    → rewrite_one reviews r now db ≡ ok (u, db')
    → has_repeated (map (λ (s : Rewrite). s.part_id) (r ∷ rewrites)) ≡ false
    → AreFresh reviews (r ∷ rewrites) db
    → AreFresh reviews rewrites db'
rewrite_one-AreFresh reviews r rewrites now db u db' h distinct fresh i is_later =
    let (p, found, after) = rewrite_one-eq-ok reviews r now db u db' h in
    let o = lookup r.part_id reviews in
    let differ : i ≢ r.part_id = λ e.
      ground (arith, ap (λ k. any (λ j. j == k) (map (λ (s : Rewrite). s.part_id) rewrites)) e) in
    ap (λ (x : Db). lookup i x.specification_reviews) (sym after)
    ∙ carry_review-ne r now db p o (is_bound o r.part_id db) i differ
    ∙ fresh i (ground arith)

rewrite_each-IsBound :
    (reviews : Table SpecificationReview) (rewrites : List Rewrite) (now : ℕ) (db : Db) (u : Unit)
    (db' : Db) (j : ℕ)
    → rewrite_each reviews rewrites now db ≡ ok (u, db')
    → has_repeated (map (λ (r : Rewrite). r.part_id) rewrites) ≡ false
    → AreFresh reviews rewrites db
    → IsBound j db
    → IsBound j db'
unfolding rewrite_each
rewrite_each-IsBound reviews [] now db u db' j h distinct fresh is_b =
    subst (IsBound j) (ok-injective h).1 is_b
rewrite_each-IsBound reviews (r ∷ rewrites) now db u db' j h distinct fresh is_b =
    let (v, mid, is_one, rest) = >>=-eq-ok (rewrite_one reviews r now) _ db h in
    rewrite_each-IsBound reviews rewrites now mid u db' j rest (ground arith)
      (rewrite_one-AreFresh reviews r rewrites now db v mid is_one distinct fresh)
      (rewrite_one-IsBound reviews r now db v mid j is_one
        (fresh r.part_id (ground (arith, ==_iff r.part_id r.part_id))) is_b)

-- Where no part is rewritten twice, a review that could be applied before values were rewritten in
-- another notation can be applied after.
pub rewrite_nominal_values-IsBound :
    (rewrites : List Rewrite) (now : ℕ) (db : Db) (u : Unit) (db' : Db) (j : ℕ)
    → rewrite_nominal_values rewrites now db ≡ ok (u, db')
    → has_repeated (map (λ (r : Rewrite). r.part_id) rewrites) ≡ false
    → IsBound j db
    → IsBound j db'
unfolding rewrite_nominal_values
rewrite_nominal_values-IsBound rewrites now db u db' j h distinct is_b =
    rewrite_each-IsBound db.specification_reviews rewrites now db u db' j h distinct
      (λ i is_later. refl) is_b

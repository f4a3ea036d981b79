-- ===== src/Electrical/Evaluation/Validated.antt =====
-- What `validate_requirements` of domain/specifications.py leaves of a requirement.
use parts_bin.Prelude.{◌≡◌, ap, subst, not, ◌&&◌, List, [], ◌∷◌, arith, is_some, length}
use parts_bin.Storage.Parts.{Text}
use parts_bin.Storage.Tx.{ok}
use parts_bin.Electrical.Results.{>>=-eq-ok, refuse_if-eq-ok, ok-injective}
use parts_bin.Electrical.Json.{
  Json, null, boolean, integer, real, text, array, object, text_of, array_of, object_of,
}
use parts_bin.Electrical.Specifications.{specification_value, definition, conditions}
use parts_bin.Texts.{codes}
use parts_bin.Electrical.Facts.{is_list_size}
use parts_bin.Electrical.Facts.Checks.{member, has_only}
use parts_bin.Electrical.Requirements.{
  Requirement, requirement_keys, comparison_of, is_eq, validate_requirement, validate_all,
  validate_requirements,
}

-- The normalized value is that of the value's text.
abbrev pub IsNormalized : Text → Requirement → Type 0
IsNormalized category q =
    specification_value category q.name (text q.value) (text q.basis) ≡ ok q.normalized_value

abbrev pub Each {ℓ κ} : {A : Type ℓ} → (A → Type κ) → List A → Type κ
Each P [] = Unit
Each P (x ∷ xs) = P x × Each P xs

pub text_of-eq-ok : (j : Json) (s : Text) → text_of j ≡ ok s → j ≡ text s
text_of-eq-ok (text t) s h = ap text (ok-injective h)
text_of-eq-ok null s h = absurd (ground arith)
text_of-eq-ok (boolean b) s h = absurd (ground arith)
text_of-eq-ok (integer n) s h = absurd (ground arith)
text_of-eq-ok (real n) s h = absurd (ground arith)
text_of-eq-ok (array items) s h = absurd (ground arith)
text_of-eq-ok (object members) s h = absurd (ground arith)

validate_requirement-IsNormalized :
    (category : Text) (raw : Json) (q : Requirement)
    → validate_requirement category raw ≡ ok q
    → IsNormalized category q
unfolding validate_requirement
validate_requirement-IsNormalized category raw q h =
    let (entries, e0, h0) = >>=-eq-ok (object_of raw) _ h in
    let (only, h1) = refuse_if-eq-ok (not (has_only requirement_keys entries)) _ h0 in
    let value_json = member (codes "value") entries in
    let basis_json = member (codes "basis") entries in
    let (name, e2, h2) = >>=-eq-ok (text_of (member (codes "name") entries)) _ h1 in
    let (op, e3, h3) = >>=-eq-ok (text_of (member (codes "comparison") entries)) _ h2 in
    let (comparison, e4, h4) = >>=-eq-ok (comparison_of op) _ h3 in
    let (normal, e5, h5) =
      >>=-eq-ok (specification_value category name value_json basis_json) _ h4 in
    let (item, e6, h6) = >>=-eq-ok (definition category name) _ h5 in
    let (fits, h7) = refuse_if-eq-ok (not (is_some item.unit) && not (is_eq comparison)) _ h6 in
    let (qualified, e8, h8) = >>=-eq-ok (conditions (member (codes "conditions") entries)) _ h7 in
    let (value, e9, h9) = >>=-eq-ok (text_of value_json) _ h8 in
    let (basis, e10, h10) = >>=-eq-ok (text_of basis_json) _ h9 in
    let accepted : specification_value category name (text value) (text basis) ≡ ok normal =
      subst (λ j. specification_value category name (text value) j ≡ ok normal)
        (text_of-eq-ok basis_json basis e10)
        (subst (λ j. specification_value category name j basis_json ≡ ok normal)
          (text_of-eq-ok value_json value e9) e5) in
    subst (IsNormalized category) (ok-injective h10) accepted

validate_all-IsNormalized :
    (category : Text) (raws : List Json) (qs : List Requirement)
    → validate_all category raws ≡ ok qs
    → Each (IsNormalized category) qs
validate_all-IsNormalized category [] qs h =
    subst (Each (IsNormalized category)) (ok-injective h) tt
validate_all-IsNormalized category (raw ∷ raws) qs h =
    let (q, e, h1) = >>=-eq-ok (validate_requirement category raw) _ h in
    let (rest, e', h2) = >>=-eq-ok (validate_all category raws) _ h1 in
    subst (Each (IsNormalized category)) (ok-injective h2) (
      validate_requirement-IsNormalized category raw q e,
      validate_all-IsNormalized category raws rest e',
    )

-- Requirements that are accepted carry the normalized values of their texts.
pub validate_requirements-IsNormalized :
    (category : Text) (raw : Json) (qs : List Requirement)
    → validate_requirements category raw ≡ ok qs
    → Each (IsNormalized category) qs
unfolding validate_requirements
validate_requirements-IsNormalized category raw qs h =
    let (records, e, h1) = >>=-eq-ok (array_of raw) _ h in
    let (counted, h2) = refuse_if-eq-ok (not (is_list_size (length records))) _ h1 in
    validate_all-IsNormalized category records qs h2

-- ===== src/Electrical/Evaluation/Counting.antt =====
-- How many requirements the lists of an evaluation hold.
use parts_bin.Prelude.{
  ℕ, ◌+◌, ◌≡◌, inl, inr, sym, ap, ◌∙◌, Bool, true, false, List, [], ◌∷◌, length, length-append,
  Option, none, some, arith, Bool-cases,
}
use parts_bin.Storage.Parts.{Text}
use parts_bin.Storage.Tx.{ok}
use parts_bin.Electrical.Results.{>>=-eq-ok, ok-injective}
use parts_bin.Electrical.Facts.{SpecificationFact}
use parts_bin.Electrical.Evaluation.{
  Evaluation, ComparedOutcome, last_fact, is_qualified, compared, missed, count_verdict, judged_by,
  judged, evaluate_one, evaluate_each,
}
use parts_bin.Electrical.Requirements.{Requirement}

-- How many requirements an evaluation has answered.
abbrev pub answered : Evaluation → ℕ
answered e =
    length e.supporting_facts + length e.missing_or_unqualified + length e.failed_requirements

answered-count_verdict :
    (q : Requirement) (f : SpecificationFact) (e : Evaluation) (o : ComparedOutcome)
    (v : Option Bool)
    → answered (count_verdict q f o.gap v e) ≡ answered e + 1
answered-count_verdict q f e o none =
    omega (arith, length-append e.missing_or_unqualified (q.name ∷ []))
answered-count_verdict q f e o (some true) =
    omega (arith, length-append e.supporting_facts (f ∷ []))
answered-count_verdict q f e o (some false) =
    omega (arith, length-append e.failed_requirements ((q, f) ∷ []))

answered-judged :
    (category : Text) (q : Requirement) (o : Option SpecificationFact) (e e' : Evaluation)
    → judged category q o e ≡ ok e'
    → answered e' ≡ answered e + 1
answered-judged category q none e e' h =
    ap answered (sym (ok-injective h))
    ∙ omega (arith, length-append e.missing_or_unqualified (q.name ∷ []))
answered-judged category q (some f) e e' h = elim (Bool-cases (is_qualified category f q)) [
  | inl k ↦
      let there : judged_by f q e (compared category f q) ≡ ok e' = rw k at h in
      let (o, c, same) = >>=-eq-ok (compared category f q) _ there in
      ap answered (sym (ok-injective same)) ∙ answered-count_verdict q f e o o.verdict
  | inr k ↦
      let there : ok (missed q.name e) ≡ ok e' = rw k at h in
      ap answered (sym (ok-injective there))
      ∙ omega (arith, length-append e.missing_or_unqualified (q.name ∷ []))
]

pub answered-evaluate_each :
    (category : Text) (facts : List SpecificationFact) (qs : List Requirement) (e e' : Evaluation)
    → evaluate_each category facts qs e ≡ ok e'
    → answered e' ≡ answered e + length qs
unfolding evaluate_each evaluate_one
answered-evaluate_each category facts [] e e' h = ap answered (sym (ok-injective h)) ∙ omega arith
answered-evaluate_each category facts (q ∷ qs) e e' h =
    let (e1, h1, h2) = >>=-eq-ok (evaluate_one category facts q e) _ h in
    omega (
      arith,
      answered-judged category q (last_fact q.name facts) e e1 h1,
      answered-evaluate_each category facts qs e1 e' h2,
    )

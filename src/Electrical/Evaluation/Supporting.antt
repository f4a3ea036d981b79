-- ===== src/Electrical/Evaluation/Supporting.antt =====
-- What the lists of an evaluation hold: `evaluate` of domain/specifications.py as a whole.
use parts_bin.Prelude.{
  ◌+◌, ◌≡◌, ◌⊎◌, inl, inr, refl, subst, Bool, true, false, ◌&&◌, List, [], ◌∷◌, ◌++◌, length,
  Option, none, some, arith, Bool-cases,
}
use parts_bin.Storage.Parts.{Text}
use parts_bin.Storage.Tx.{ok}
use parts_bin.Texts.{codes, same_text-eq}
use parts_bin.Electrical.Results.{>>=-eq-ok, ok-injective}
use parts_bin.Electrical.Json.{Json}
use parts_bin.Electrical.Specifications.{missing_qualifiers, is_text}
use parts_bin.Electrical.Facts.{SpecificationFact}
use parts_bin.Electrical.Facts.Checks.{member}
use parts_bin.Electrical.Evaluation.{
  Evaluation, ComparedOutcome, last_fact, match_conditions, is_complete, is_qualified, compared,
  missed, count_verdict, judged_by, judged, evaluate_one, evaluate_each, nothing_evaluated,
  evaluate,
}
use parts_bin.Electrical.Requirements.{Requirement, validate_requirements}
use parts_bin.Electrical.Evaluation.Validated.{
  Each, IsNormalized, validate_requirements-IsNormalized,
}
use parts_bin.Electrical.Evaluation.Compared.{Means, compared-Means}
use parts_bin.Electrical.Evaluation.Counting.{answered-evaluate_each}

-- A fact that a requirement may rely on: it is quoted from a source, on the basis that is asked for, with
-- every qualifier that its field needs and under matching conditions.
abbrev pub Qualified : Text → SpecificationFact → Requirement → Type 0
Qualified category f q =
    (is_text (member (codes "kind") f.evidence) (codes "source") ≡ true)
    × (f.basis ≡ q.basis)
    × (missing_qualifiers category f.name f.conditions ≡ [])
    × (match_conditions q.basis f.conditions q.conditions ≡ true)

both : (p q : Bool) → (p && q) ≡ true → (p ≡ true) × (q ≡ true)
both true q h = (refl, h)
both false q h = absurd (ground arith)

is_complete-eq : (names : List Text) → is_complete names ≡ true → names ≡ []
is_complete-eq [] h = refl
is_complete-eq (n ∷ ns) h = absurd (ground arith)

is_qualified-Qualified :
    (category : Text) (f : SpecificationFact) (q : Requirement)
    → is_qualified category f q ≡ true
    → Qualified category f q
unfolding is_qualified
is_qualified-Qualified category f q h =
    let (left, right) = both _ _ h in
    let (source, basis) = both _ _ left in
    let (complete, conditions) = both _ _ right in
    (source, same_text-eq f.basis q.basis basis, is_complete-eq _ complete, conditions)

Each-append :
    {A : Type 0} (P : A → Type 0) (xs : List A) (x : A) → Each P xs → P x → Each P (xs ++ x ∷ [])
Each-append P [] x h p = (p, tt)
Each-append P (y ∷ ys) x h p = (h.0, Each-append P ys x h.1 p)

module _ (category : Text) (facts : List SpecificationFact) (R : Requirement → Type 0) where
  -- The last fact of the requirement's name is qualified, and its values meet the requirement or fail it.
  abbrev pub Answers : Bool → Requirement → SpecificationFact → Type 0
  Answers b q f =
      R q × (last_fact q.name facts ≡ some f) × Qualified category f q × Means b category f q

  abbrev pub Explained : Evaluation → Type 0
  Explained e =
      Each (λ f. (q : Requirement) × Answers true q f) e.supporting_facts
      × Each (λ (p : Requirement × SpecificationFact). Answers false p.0 p.1) e.failed_requirements
      × Each (λ name. (q : Requirement) × R q × (q.name ≡ name)) e.missing_or_unqualified

  missed-Explained :
      (q : Requirement) (e : Evaluation) → R q → Explained e → Explained (missed q.name e)
  missed-Explained q e r (s, f, m) =
      (s, f, Each-append _ e.missing_or_unqualified q.name m (q, r, refl))

  module _ (normal : (q : Requirement) → R q → IsNormalized category q) where
    count_verdict-Explained :
        (q : Requirement) (f : SpecificationFact) (e : Evaluation) (o : ComparedOutcome)
        (v : Option Bool)
        → R q
        → last_fact q.name facts ≡ some f
        → Qualified category f q
        → compared category f q ≡ ok o
        → o.verdict ≡ v
        → Explained e
        → Explained (count_verdict q f o.gap v e)
    count_verdict-Explained q f e o none r n k c v x = missed-Explained q e r x
    count_verdict-Explained q f e o (some true) r n k c v (s, g, m) = (
      Each-append _ e.supporting_facts f s
          (q, (r, n, k, compared-Means true category f q o (normal q r) c v)),
      g,
      m,
    )
    count_verdict-Explained q f e o (some false) r n k c v (s, g, m) = (
      s,
      Each-append _ e.failed_requirements (q, f) g
          (r, n, k, compared-Means false category f q o (normal q r) c v),
      m,
    )

    judged-Explained :
        (q : Requirement) (o : Option SpecificationFact) (e e' : Evaluation)
        → R q
        → last_fact q.name facts ≡ o
        → judged category q o e ≡ ok e'
        → Explained e
        → Explained e'
    judged-Explained q none e e' r n h x =
        subst Explained (ok-injective h) (missed-Explained q e r x)
    judged-Explained q (some f) e e' r n h x = elim (Bool-cases (is_qualified category f q)) [
      | inl k ↦
          let there : judged_by f q e (compared category f q) ≡ ok e' = rw k at h in
          let (o, c, same) = >>=-eq-ok (compared category f q) _ there in
          subst Explained (ok-injective same) (
            count_verdict-Explained q f e o o.verdict r n (is_qualified-Qualified category f q k) c
              refl x)
      | inr k ↦
          let there : ok (missed q.name e) ≡ ok e' = rw k at h in
          subst Explained (ok-injective there) (missed-Explained q e r x)
    ]

    evaluate_each-Explained :
        (qs : List Requirement) (e e' : Evaluation)
        → Each R qs
        → evaluate_each category facts qs e ≡ ok e'
        → Explained e
        → Explained e'
    unfolding evaluate_each evaluate_one
    evaluate_each-Explained [] e e' r h x = subst Explained (ok-injective h) x
    evaluate_each-Explained (q ∷ qs) e e' (r, rs) h x =
        let (e1, h1, h2) = >>=-eq-ok (evaluate_one category facts q e) _ h in
        evaluate_each-Explained qs e1 e' rs h2
          (judged-Explained q (last_fact q.name facts) e e1 r refl h1 x)

-- A requirement is one of those that were sent.
abbrev pub Elem : Requirement → List Requirement → Type 0
Elem q [] = ⊥
Elem q (r ∷ rs) = (q ≡ r) ⊎ Elem q rs

abbrev pub Asked : Text → List Requirement → Requirement → Type 0
Asked category qs q = Elem q qs × IsNormalized category q

Each-Asked :
    (category : Text) (all qs : List Requirement)
    → ((q : Requirement) → Elem q qs → Elem q all)
    → Each (IsNormalized category) qs
    → Each (Asked category all) qs
Each-Asked category all [] within h = tt
Each-Asked category all (q ∷ qs) within (h, hs) =
    ((within q (inl refl), h), Each-Asked category all qs (λ r m. within r (inr m)) hs)

-- An evaluation of requirements that were accepted gives as many answers as there are requirements. A
-- fact that it lists as supporting is the last of its name, quoted from a source on the basis that is
-- asked for, with the qualifiers that its field needs and under matching conditions, and every value
-- within its interval meets a requirement of the request; a requirement that it lists as failed is met
-- by no value of such a fact. A field without a unit is met by an equal text.
pub evaluate_sound :
    (category : Text) (raw : Json) (facts : List SpecificationFact) (qs : List Requirement)
    (e : Evaluation)
    → validate_requirements category raw ≡ ok qs
    → evaluate category facts qs ≡ ok e
    → Explained category facts (Asked category qs) e
      × (length e.supporting_facts + length e.missing_or_unqualified + length e.failed_requirements
          ≡ length qs)
unfolding evaluate
evaluate_sound category raw facts qs e valid h =
    let asked =
      Each-Asked category qs qs (λ q m. m)
        (validate_requirements-IsNormalized category raw qs valid) in
    (
      evaluate_each-Explained category facts (Asked category qs) (λ q r. r.1) qs nothing_evaluated e
          asked h (tt, tt, tt),
      omega (arith, answered-evaluate_each category facts qs nothing_evaluated e h),
    )

-- ===== src/Electrical/Evaluation/Compared.antt =====
-- What the comparison of a fact with a requirement says of the values that their texts stand for.
use parts_bin.Prelude.{
  ◌≡◌, ◌≢◌, refl, ap, ◌∙◌, Bool, true, false, Option, none, some, some-injective,
}
use parts_bin.Storage.Parts.{Text, same_text}
use parts_bin.Storage.Tx.{ok}
use parts_bin.Texts.{same_text_refl, same_text-eq}
use parts_bin.Electrical.Quantities.{Interval, interval}
use parts_bin.Electrical.Quantities.Comparing.{Comparison, compare_intervals}
use parts_bin.Electrical.Quantities.Meaning.{
  IsOrdered, Confirmed, Refuted, compare_intervals-decides,
}
use parts_bin.Electrical.Quantities.Ordered.{interval-IsOrdered}
use parts_bin.Electrical.Results.{>>=-eq-ok, ok-injective}
use parts_bin.Electrical.Json.{text}
use parts_bin.Electrical.Catalogue.{SpecificationDefinition}
use parts_bin.Electrical.Specifications.{Normal, range, choice, definition, specification_value}
use parts_bin.Electrical.Specifications.Accepting.{
  Denotes, specification_value-Denotes, specification_value-choice,
}
use parts_bin.Electrical.Facts.{SpecificationFact}
use parts_bin.Electrical.Evaluation.{ComparedOutcome, decimals_of, outcome_of, compared}
use parts_bin.Electrical.Requirements.{Requirement}
use parts_bin.Electrical.Evaluation.Validated.{IsNormalized}

-- Every value within the stored interval meets the requested one, or none does.
abbrev Intervals : Bool → Comparison → Interval → Interval → Type 0
Intervals true c i j = Confirmed c i j
Intervals false c i j = Refuted c i j

abbrev SameChoice : Bool → Text → Text → Type 0
SameChoice true s t = s ≡ t
SameChoice false s t = s ≢ t

abbrev MeansIn : Bool → Option Text → SpecificationFact → Requirement → Type 0
MeansIn b (some unit) f q =
    (i : Interval) × (j : Interval) × (interval f.value unit ≡ some i)
    × (interval q.value unit ≡ some j)
    × Intervals b q.comparison i j
MeansIn b none f q = SameChoice b f.value q.value

-- A fact meets a requirement, or fails it: the texts of both are intervals in the unit of the field and
-- every stored value meets the request, or none does; without a unit they are equal texts, or not.
abbrev pub Means : Bool → Text → SpecificationFact → Requirement → Type 0
Means b category f q =
    (d : SpecificationDefinition) × (definition category q.name ≡ ok d) × MeansIn b d.unit f q

decimals_of-Denotes : (n : Normal) (i : Interval) → Denotes n i → decimals_of n ≡ ok i
decimals_of-Denotes (range a b) i (h, k) = λ t. ok (h t, k t)
decimals_of-Denotes (choice s) i h = absurd h

decided_verdict :
    (b : Bool) (c : Comparison) (i j : Interval)
    → IsOrdered i
    → IsOrdered j
    → compare_intervals i j c ≡ some b
    → Intervals b c i j
decided_verdict true c i j io jo h = (compare_intervals-decides i j io jo c).0.0 h
decided_verdict false c i j io jo h = (compare_intervals-decides i j io jo c).1.0 h

same_choice : (b : Bool) (s t : Text) → same_text s t ≡ b → SameChoice b s t
same_choice true s t h = same_text-eq s t h
same_choice false s t h = λ e. cc (same_text_refl t, ap (λ u. same_text u t) e)

module _ (b : Bool) (category : Text) (f : SpecificationFact) (q : Requirement)
    (normal : IsNormalized category q) (d : SpecificationDefinition)
    (defined : definition category q.name ≡ ok d) (left : Normal)
    (stored : specification_value category q.name (text f.value) (text f.basis) ≡ ok left)
    (o : ComparedOutcome) where
  by_unit :
      (unit : Option Text)
      → d.unit ≡ unit
      → outcome_of unit q.comparison left q.normalized_value ≡ ok o
      → o.verdict ≡ some b
      → MeansIn b unit f q
  by_unit (some unit) u h v =
      let (i, fi, di, pi) =
        specification_value-Denotes category q.name f.value (text f.basis) left d unit defined u
          stored in
      let (j, qj, dj, pj) =
        specification_value-Denotes category q.name q.value (text q.basis) q.normalized_value d unit
          defined u normal in
      let there =
        rw (decimals_of-Denotes left i di, decimals_of-Denotes q.normalized_value j dj) at h in
      (
        i,
        j,
        fi,
        qj,
        decided_verdict b q.comparison i j (interval-IsOrdered f.value unit i fi)
            (interval-IsOrdered q.value unit j qj)
            (ap (λ (x : ComparedOutcome). x.verdict) (ok-injective there) ∙ v),
      )
  by_unit none u h v =
      let l =
        specification_value-choice category q.name f.value (text f.basis) left d defined u stored in
      let r =
        specification_value-choice category q.name q.value (text q.basis) q.normalized_value d
          defined u normal in
      let there = rw (l, r) at h in
      same_choice b f.value q.value
        (some-injective (ap (λ (x : ComparedOutcome). x.verdict) (ok-injective there) ∙ v))

-- A verdict means what it says of the values, for requirements that were accepted.
pub compared-Means :
    (b : Bool) (category : Text) (f : SpecificationFact) (q : Requirement) (o : ComparedOutcome)
    → IsNormalized category q
    → compared category f q ≡ ok o
    → o.verdict ≡ some b
    → Means b category f q
unfolding compared
compared-Means b category f q o normal h v =
    let (d, defined, h1) = >>=-eq-ok (definition category q.name) _ h in
    let (left, stored, h2) =
      >>=-eq-ok (specification_value category q.name (text f.value) (text f.basis)) _ h1 in
    (d, defined, by_unit b category f q normal d defined left stored o d.unit refl h2 v)

-- ===== src/Electrical/Evaluation.antt =====
-- `evaluate` of domain/specifications.py: which requirements the accepted facts of a part confirm.
pub mod Validated
pub mod Compared
pub mod Counting
pub mod Supporting
mod Tests
use parts_bin.Prelude.{
  ℕ, Bool, true, false, not, ◌&&◌, ◌||◌, List, [], ◌∷◌, ◌++◌, length, Option, none, some,
  if◌then◌else◌, is_some,
}
use parts_bin.Storage.Parts.{Text, same_text}
use parts_bin.Storage.Tx.{Result, ok, err, value_error}
use parts_bin.Texts.{codes, among}
use parts_bin.Electrical.Entries.{lookup}
use parts_bin.Electrical.Decimals.{Decimal, decimal_zero, add_decimals, rounded}
use parts_bin.Electrical.Decimals.Texts.{decimal_of, is_nothing}
use parts_bin.Electrical.Quantities.{Interval, invalid}
use parts_bin.Electrical.Quantities.Comparing.{
  Comparison, eq, gte, lte, compare_intervals, relative_interval_gap,
}
use parts_bin.Electrical.Conditions.{Conditions, same_conditions, conditions_cover}
use parts_bin.Electrical.Results.{◌>>=◌, ◌>>◌, refuse_if}
use parts_bin.Electrical.Json.{Json, text, Object, text_of, array_of, object_of}
use parts_bin.Electrical.Catalogue.{SpecificationDefinition}
use parts_bin.Electrical.Specifications.{
  Normal, range, choice, definition, specification_value, conditions, missing_qualifiers, is_text,
}
use parts_bin.Electrical.Facts.{SpecificationFact, is_list_size}
use parts_bin.Electrical.Facts.Checks.{member, has_only}
use parts_bin.Electrical.Requirements.{
  Requirement, comparison_of, is_eq, requirement_keys, validate_requirement, validate_all,
  validate_requirements,
}

-- `SpecificationEvaluation`. A failed requirement stands beside its fact.
pub record Evaluation : Type 0 where
  pub supporting_facts : List SpecificationFact
  pub missing_or_unqualified : List Text
  pub failed_requirements : List (Requirement × SpecificationFact)
  pub distance : Decimal

-- `{fact['name']: fact for fact in facts}.get(name)`: the last fact of that name
abbrev pub last_fact : Text → List SpecificationFact → Option SpecificationFact
last_fact name [] = none
last_fact name (f ∷ fs) = elim (last_fact name fs) [
  | some later ↦ some later
  | none ↦ if same_text f.name name then some f else none
]

-- `OPERATING_CONDITION_BASES`
abbrev pub operating_condition_bases : List Text
operating_condition_bases = codes "operating_minimum" ∷ codes "operating_maximum" ∷ []

abbrev pub match_conditions : Text → Conditions → Conditions → Bool
match_conditions basis stored requested =
    if among basis operating_condition_bases
    then conditions_cover stored requested
    else same_conditions stored requested

abbrev pub is_complete : List Text → Bool
is_complete [] = true
is_complete (name ∷ names) = false

-- A fact that may be compared with a requirement
unfoldable pub is_qualified : Text → SpecificationFact → Requirement → Bool
unfolding missing_qualifiers same_conditions conditions_cover
is_qualified category fact requirement =
    (is_text (member (codes "kind") fact.evidence) (codes "source")
      && same_text fact.basis requirement.basis)
    && (is_complete (missing_qualifiers category fact.name fact.conditions)
        && match_conditions requirement.basis fact.conditions requirement.conditions)

-- `tuple(map(Decimal, value))`. Of a text in place of a pair Python would read the characters one by one
-- and raise `InvalidOperation` at the first that is no digit; validated requirements and facts of a field
-- with a unit have pairs, and any other value is an error here.
abbrev pub decimals_of : Normal → Result Interval
decimals_of (range a b) = ok (decimal_of a, decimal_of b)
decimals_of (choice s) = err value_error

abbrev pub same_normal : Normal → Normal → Bool
same_normal (choice s) (choice t) = same_text s t
same_normal (range a b) (range c d) = same_text a c && same_text b d
same_normal _ _ = false

-- The verdict, and how far a failed requirement was missed
pub record ComparedOutcome : Type 0 where
  pub verdict : Option Bool
  pub gap : Decimal

abbrev decimal_one : Decimal
decimal_one = record { negative = false; digits = 1; places = 0 }

abbrev pub outcome_of : Option Text → Comparison → Normal → Normal → Result ComparedOutcome
outcome_of (some unit) comparison left right = do
  l ← decimals_of left
  r ← decimals_of right
  ok (record {
    verdict = compare_intervals l r comparison;
    gap = relative_interval_gap l r comparison;
  })
outcome_of none comparison left right =
    ok (record { verdict = some (same_normal left right); gap = decimal_one })

abbrev pub missed : Text → Evaluation → Evaluation
missed name e = record e { missing_or_unqualified = e.missing_or_unqualified ++ name ∷ [] }

abbrev pub failed : Requirement → SpecificationFact → Decimal → Evaluation → Evaluation
failed requirement fact gap e = record e {
  failed_requirements = e.failed_requirements ++ (requirement, fact) ∷ [];
  distance = rounded (add_decimals e.distance gap);
}

abbrev pub confirmed_by : SpecificationFact → Evaluation → Evaluation
confirmed_by fact e = record e { supporting_facts = e.supporting_facts ++ fact ∷ [] }

abbrev pub count_verdict :
    Requirement → SpecificationFact → Decimal → Option Bool → Evaluation → Evaluation
count_verdict requirement fact gap none e = missed requirement.name e
count_verdict requirement fact gap (some true) e = confirmed_by fact e
count_verdict requirement fact gap (some false) e = failed requirement fact gap e

-- The outcome for a fact that may be compared
unfoldable pub compared : Text → SpecificationFact → Requirement → Result ComparedOutcome
unfolding definition specification_value compare_intervals relative_interval_gap decimal_of
compared category fact requirement = do
  item ← definition category requirement.name
  left ← specification_value category requirement.name (text fact.value) (text fact.basis)
  outcome_of item.unit requirement.comparison left requirement.normalized_value

abbrev pub judged_by :
    SpecificationFact → Requirement → Evaluation → Result ComparedOutcome → Result Evaluation
judged_by fact requirement e outcome =
    outcome >>= λ o. ok (count_verdict requirement fact o.gap o.verdict e)

abbrev pub judged : Text → Requirement → Option SpecificationFact → Evaluation → Result Evaluation
judged category requirement none e = ok (missed requirement.name e)
judged category requirement (some fact) e =
    if is_qualified category fact requirement
    then judged_by fact requirement e (compared category fact requirement)
    else ok (missed requirement.name e)

-- One round of the loop over the requirements
unfoldable pub evaluate_one :
    Text → List SpecificationFact → Requirement → Evaluation → Result Evaluation
unfolding is_qualified compared
evaluate_one category facts requirement e =
    judged category requirement (last_fact requirement.name facts) e

unfoldable pub evaluate_each :
    Text → List SpecificationFact → List Requirement → Evaluation → Result Evaluation
unfolding evaluate_one
evaluate_each category facts [] e = ok e
evaluate_each category facts (q ∷ qs) e =
    evaluate_one category facts q e >>= λ e'. evaluate_each category facts qs e'

abbrev pub nothing_evaluated : Evaluation
nothing_evaluated = record {
  supporting_facts = [];
  missing_or_unqualified = [];
  failed_requirements = [];
  distance = decimal_zero;
}

-- `evaluate`
unfoldable pub evaluate : Text → List SpecificationFact → List Requirement → Result Evaluation
unfolding evaluate_each
evaluate category facts requirements = evaluate_each category facts requirements nothing_evaluated

-- ===== src/Electrical/Evaluation/Tests.antt =====
-- A requirement that a resistor meets, and one that it fails.
use parts_bin.Prelude.{◌≡◌, ◌+◌, ◌*◌, ◌^◌, refl, false, [], ◌∷◌, List, length}
use parts_bin.Storage.Parts.{Text}
use parts_bin.Storage.Tx.{ok}
use parts_bin.Texts.{codes}
use parts_bin.Electrical.Decimals.{
  Decimal, is_at_most, width_within, add_decimals, rounded, quotient,
}
use parts_bin.Electrical.Decimals.Texts.{decimal_of, fixed_text}
use parts_bin.Electrical.Quantities.Comparing.{gte}
use parts_bin.Electrical.Json.{Json, text, object, array, end, member, item, nil, Object}
use parts_bin.Electrical.Specifications.{range}
use parts_bin.Electrical.Facts.{SpecificationFact}
use parts_bin.Electrical.Evaluation.{Evaluation, evaluate, nothing_evaluated}
use parts_bin.Electrical.Requirements.{Requirement, validate_requirements}
use parts_bin.Electrical.Evaluation.Supporting.{Explained, Asked, evaluate_sound}

abbrev resistor : Text
resistor = codes "resistor"

abbrev asked : Json → Json
asked value = object (
    member (codes "name") (text (codes "rated_power")) (
      member (codes "comparison") (text (codes "gte")) (
        member (codes "value") value (
          member (codes "basis") (text (codes "rated"))
            (member (codes "conditions") (object end) end)))))

abbrev sent : Json
sent = array (item (asked (text (codes "200 mW"))) (item (asked (text (codes "1 W"))) nil))

abbrev at_least_watts : Text → Text → Requirement
at_least_watts value normal = record {
  name = codes "rated_power";
  comparison = gte;
  value = value;
  basis = codes "rated";
  conditions = [];
  normalized_value = range normal normal;
}

abbrev requirements : List Requirement
requirements =
    at_least_watts (codes "200 mW") (codes "0.200") ∷ at_least_watts (codes "1 W") (codes "1") ∷ []

validated : validate_requirements resistor sent ≡ ok requirements
unfolding validate_requirements decimal_of is_at_most fixed_text width_within
validated = refl

abbrev quarter_watt : Object → SpecificationFact
quarter_watt evidence = record {
  name = codes "rated_power";
  value = codes "250 mW";
  basis = codes "rated";
  conditions = [];
  evidence = evidence;
}

abbrev sourced : SpecificationFact
sourced = quarter_watt ((codes "kind", text (codes "source")) ∷ [])

-- A quotient keeps all of its places.
abbrev three_quarters : Decimal
three_quarters = record { negative = false; digits = 75 * 10 ^ 218; places = 220 }

abbrev evaluation : Evaluation
evaluation = record {
  supporting_facts = sourced ∷ [];
  missing_or_unqualified = [];
  failed_requirements = (at_least_watts (codes "1 W") (codes "1"), sourced) ∷ [];
  distance = three_quarters;
}

evaluated : evaluate resistor (sourced ∷ []) requirements ≡ ok evaluation
unfolding evaluate decimal_of is_at_most fixed_text width_within add_decimals rounded quotient
evaluated = refl

-- What a user asserts confirms nothing.
asserted :
    evaluate resistor
      (quarter_watt ((codes "kind", text (codes "user_assertion")) ∷ []) ∷ [])
      (at_least_watts (codes "200 mW") (codes "0.200") ∷ [])
    ≡ ok (record nothing_evaluated { missing_or_unqualified = codes "rated_power" ∷ [] })
unfolding evaluate
asserted = refl

evaluate_sound_example :
    Explained resistor (sourced ∷ []) (Asked resistor requirements) evaluation
    × (length evaluation.supporting_facts
          + length evaluation.missing_or_unqualified
          + length evaluation.failed_requirements
        ≡ length requirements)
evaluate_sound_example =
    evaluate_sound resistor sent (sourced ∷ []) requirements evaluation validated evaluated

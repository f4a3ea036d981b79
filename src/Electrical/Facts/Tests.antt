-- ===== src/Electrical/Facts/Tests.antt =====
-- Facts that `validate_facts` accepts, and that it refuses.
use parts_bin.Prelude.{◌≡◌, ◌≤◌, length, refl, ◌∷◌, [], some, none, true, pos, ℕ, zero, suc}
use parts_bin.Storage.Parts.{Text}
use parts_bin.Storage.Tx.{ok, err, domain_error, invalid_input, type_error}
use parts_bin.Texts.{codes}
use parts_bin.Electrical.Decimals.{is_at_most, width_within}
use parts_bin.Electrical.Decimals.Texts.{decimal_of, fixed_text}
use parts_bin.Electrical.Json.{
  Json, text, integer, object, array, Members, end, member, item, nil, members_of,
}
use parts_bin.Electrical.Facts.{SpecificationFact, validate_facts}
use parts_bin.Electrical.Facts.Accepted.{Distinct, IsAccepted, validate_facts_sound}
use parts_bin.Electrical.Evaluation.Validated.{Each}
use parts_bin.Electrical.Facts.Checks.{Readers}

-- Every URL is plain, and every time has a zone.
abbrev pub readers : Readers
readers = record {
  urlsplit = λ u. some (record {
    scheme = codes "https";
    hostname = some (codes "example.org");
    username = none;
    password = none;
  });
  has_timezone = λ t. some true;
}

abbrev repeat : ℕ → ℕ → Text
repeat zero c = []
repeat (suc n) c = c ∷ repeat n c

abbrev pub source : Members
source = member (codes "kind") (text (codes "source")) (
    member (codes "excerpt") (text (codes "Power rating 0.25 W")) (
      member (codes "url") (text (codes "https://example.org/r.pdf")) (
        member (codes "page") (integer (pos 1)) (
          member (codes "sha256") (text (repeat 64 97)) (
            member (codes "retrieved_at") (text (codes "2026-01-01T00:00:00+00:00"))
              (member (codes "part_number") (text (codes "RC0603")) end))))))

abbrev pub proposed_fact : Json → Json → Json
proposed_fact value evidence = object (
    member (codes "name") (text (codes "rated_power")) (
      member (codes "value") value (
        member (codes "basis") (text (codes "rated"))
          (member (codes "conditions") (object end) (member (codes "evidence") evidence end)))))

abbrev pub rated_power : SpecificationFact
rated_power = record {
  name = codes "rated_power";
  value = codes "250 mW";
  basis = codes "rated";
  conditions = [];
  evidence = members_of source;
}

abbrev pub sent : Json
sent = array (item (proposed_fact (text (codes "250 mW")) (object source)) nil)

abbrev pub resistor : Text
resistor = codes "resistor"

accepted : validate_facts readers resistor (some (codes "RC0603")) sent ≡ ok (rated_power ∷ [])
unfolding validate_facts decimal_of is_at_most fixed_text width_within
accepted = refl

other_part :
    validate_facts readers resistor (some (codes "RC0402")) sent ≡ err (domain_error invalid_input)
unfolding validate_facts decimal_of is_at_most fixed_text width_within
other_part = refl

twice :
    validate_facts readers resistor (some (codes "RC0603")) (
      array (
        item
          (proposed_fact (text (codes "250 mW")) (object source))
          (item (proposed_fact (text (codes "250 mW")) (object source)) nil)))
    ≡ err (domain_error invalid_input)
unfolding validate_facts decimal_of is_at_most fixed_text width_within
twice = refl

-- A kind that has no hash is not refused as an invalid input.
kind_of_list :
    validate_facts readers resistor (some (codes "RC0603")) (
      array (
        item
          (proposed_fact (text (codes "250 mW")) (object (member (codes "kind") (array nil) end)))
          nil))
    ≡ err type_error
unfolding validate_facts decimal_of is_at_most fixed_text width_within
kind_of_list = refl

validate_facts_sound_example :
    (1 ≤ length (rated_power ∷ []))
    × (length (rated_power ∷ []) ≤ 20)
    × Distinct (rated_power ∷ [])
    × Each (IsAccepted resistor (some (codes "RC0603"))) (rated_power ∷ [])
validate_facts_sound_example =
    validate_facts_sound readers resistor (some (codes "RC0603")) sent (rated_power ∷ []) accepted

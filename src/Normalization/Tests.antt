-- ===== src/Normalization/Tests.antt =====
-- Fields as they arrive, and what is stored of them: domain/normalization.py.
use parts_bin.Prelude.{◌≡◌, ◌||◌, refl, true, false, Option, none, some, pos, if◌then◌else◌}
use parts_bin.Storage.Parts.{Text, same_text, passive, PartFields}
use parts_bin.Storage.Tx.{ok, err, domain_error, invalid_input}
use parts_bin.Texts.{codes}
use parts_bin.Texts.Regex.{fullmatch}
use parts_bin.Inventory.{is_passive_category}
use parts_bin.Normalization.Patterns.{looks_like_package, looks_like_value}
use parts_bin.Normalization.Validation.{validate_fields_sound}
use parts_bin.Normalization.{
  null, text, number, boolean, Draft, Readers, validate_fields, typed, normalize_part_payload,
}
use parts_bin.Normalization.Repair.{repair_fields}

package_0603 : looks_like_package (some (codes "0603")) ≡ true
unfolding fullmatch
package_0603 = refl

package_sot : looks_like_package (some (codes " sot-23-5 ")) ≡ true
unfolding fullmatch
package_sot = refl

no_package : looks_like_package (some (codes "12x34")) ≡ false
unfolding fullmatch
no_package = refl

value_4k7 : looks_like_value (some (codes "4k7")) ≡ true
unfolding fullmatch
value_4k7 = refl

value_10uf : looks_like_value (some (codes "10 µF ")) ≡ true
unfolding fullmatch
value_10uf = refl

no_value : looks_like_value (some (codes "RC0603")) ≡ false
unfolding fullmatch
no_value = refl

-- Readers that know 10k and plain 10000.
abbrev kilo : Text → Option Text → Option (Text × Text)
kilo s unit =
    if same_text s (codes "10k") || same_text s (codes "10000")
    then some (codes "10000", codes "Ω")
    else none

abbrev pub readers : Readers
readers = record { parse_nominal = kilo; is_https_url = λ u. true }

-- A resistor whose value stands as its part number, and whose package stands as its value.
abbrev pub mixed_up : Draft
mixed_up = record {
  part_category = text (codes " resistor ");
  profile = text (codes "discrete_ic");
  quantity = number (pos 3);
  value = text (codes "0603");
  «package» = null;
  part_number = text (codes "10k");
  manufacturer = text (codes "  ");
  description = null;
  datasheet_url = null;
  value_unit = null;
}

abbrev pub resistor : PartFields
resistor = record {
  part_category = codes "resistor";
  profile = passive;
  quantity = pos 3;
  value = some (codes "10000");
  «package» = none;
  part_number = none;
  manufacturer = none;
  description = none;
  datasheet_url = none;
  value_unit = some (codes "Ω");
}

put_right : validate_fields readers mixed_up ≡ ok resistor
unfolding validate_fields typed normalize_part_payload repair_fields fullmatch
put_right = refl

no_boolean_quantity :
    validate_fields readers (record mixed_up { quantity = boolean true })
    ≡ err (domain_error invalid_input)
unfolding validate_fields typed
no_boolean_quantity = refl

validate_fields_sound_example :
    (number (pos 3) ≡ number (pos 3))
    × (false ≡ false)
    × (is_passive_category (codes "resistor") ≡ true → passive ≡ passive)
validate_fields_sound_example = validate_fields_sound readers mixed_up resistor put_right

-- A passive part whose package reads as a value: its value in base units has the form of a package, so
-- that normalizing a second time swaps the two.
abbrev odd_package : PartFields
odd_package = record resistor {
  value = some (codes "10k");
  «package» = some (codes "4K7");
  value_unit = none;
}

normalized_once : (normalize_part_payload readers odd_package).«package» ≡ some (codes "4K7")
unfolding normalize_part_payload repair_fields fullmatch
normalized_once = refl

normalized_twice :
    (normalize_part_payload readers (normalize_part_payload readers odd_package)).«package»
    ≡ some (codes "10000")
unfolding normalize_part_payload repair_fields fullmatch
normalized_twice = refl

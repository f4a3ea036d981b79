-- ===== src/Electrical/Conditions/Tests.antt =====
-- Conditions that cover others, and that do not.
use parts_bin.Prelude.{◌≡◌, refl, true, false, [], ◌∷◌, some}
use parts_bin.Texts.{codes}
use parts_bin.Electrical.Decimals.{is_at_most, add_decimals, rounded}
use parts_bin.Electrical.Decimals.Texts.{decimal_of}
use parts_bin.Electrical.Quantities.{interval}
use parts_bin.Electrical.Quantities.Comparing.{contains_interval}
use parts_bin.Electrical.Conditions.{Conditions, condition_units, same_conditions, conditions_cover}
use parts_bin.Electrical.Conditions.Stated.{is_plain}
use parts_bin.Electrical.Conditions.Raw.{SpansStated, conditions_cover_sound}
use parts_bin.Electrical.Entries.{lookup}

abbrev pub wide : Conditions
wide =
    (codes "ambient_temperature", codes "-40 to 85 °C") ∷ (codes "mounting", codes "on board") ∷ []

abbrev pub room : Conditions
room = (codes "ambient_temperature", codes "25 °C") ∷ (codes "mounting", codes "on board") ∷ []

abbrev near_room : Conditions
near_room =
    (codes "ambient_temperature", codes "25 °C")
    ∷ (codes "ambient_temperature_tolerance", codes "5 °C")
    ∷ []

abbrev around_room : Conditions
around_room = (codes "ambient_temperature", codes "20 °C to 30 °C") ∷ []

covered : conditions_cover wide room ≡ true
unfolding conditions_cover interval decimal_of is_at_most contains_interval
covered = refl

not_covered : conditions_cover room wide ≡ false
unfolding conditions_cover interval decimal_of is_at_most contains_interval
not_covered = refl

tolerance_apart : same_conditions near_room around_room ≡ true
unfolding same_conditions interval decimal_of is_at_most add_decimals rounded
tolerance_apart = refl

extra_qualifier : conditions_cover ((codes "cooling", codes "heat sink") ∷ wide) room ≡ false
unfolding conditions_cover interval decimal_of is_at_most contains_interval
extra_qualifier = refl

temperature : lookup (codes "ambient_temperature") condition_units ≡ some (codes "°C")
unfolding condition_units
temperature = refl

plain_name : is_plain (codes "mounting") ≡ true
unfolding condition_units
plain_name = refl

conditions_cover_sound_example :
    (lookup (codes "mounting") wide ≡ lookup (codes "mounting") room)
    × SpansStated
        (codes "°C")
        (lookup (codes "ambient_temperature") wide)
        (lookup (codes "ambient_temperature") room)
conditions_cover_sound_example =
    conditions_cover_sound wide room (codes "mounting") (codes "ambient_temperature") (codes "°C")
      covered plain_name temperature refl refl

-- ===== src/Electrical/Conditions.antt =====
-- domain/specification_conditions.py: the conditions under which a fact holds, compared by their
-- quantities where their names are known, and by their texts elsewhere.
pub mod Covering
pub mod Names
pub mod Stated
pub mod Raw
mod Tests
use parts_bin.Prelude.{
  Bool, true, false, not, ◌&&◌, ◌||◌, List, [], ◌∷◌, ◌++◌, map, Option, none, some, if◌then◌else◌,
}
use parts_bin.Storage.Parts.{Text, same_text}
use parts_bin.Texts.{codes, lower, among}
use parts_bin.Electrical.Entries.{lookup, assign, remove, has_key, keys, same_set}
use parts_bin.Electrical.Decimals.{
  Decimal, decimal_zero, below, same_number, add_decimals, negate, rounded, is_at_most,
}
use parts_bin.Electrical.Quantities.{Interval, interval}
use parts_bin.Electrical.Quantities.Comparing.{minus_rounded, contains_interval}

-- `_CONDITION_UNITS`
abbrev measured_in : Text → List Text → List (Text × Text)
measured_in unit names = map (λ (name : Text). (name, unit)) names

unfoldable pub condition_units : List (Text × Text)
condition_units =
    measured_in (codes "°C") (
      codes "ambient_temperature"
      ∷ codes "case_temperature"
      ∷ codes "rating_temperature"
      ∷ codes "measurement_temperature"
      ∷ codes "junction_temperature"
      ∷ codes "lead_temperature"
      ∷ codes "solder_point_temperature"
      ∷ [])
    ++ measured_in (codes "%") (codes "ambient_humidity" ∷ codes "duty_cycle" ∷ [])
    ++ measured_in (codes "A") (
        codes "forward_current"
        ∷ codes "output_current"
        ∷ codes "collector_current"
        ∷ codes "drain_current"
        ∷ codes "base_current"
        ∷ codes "reverse_current"
        ∷ codes "recovery_endpoint_current"
        ∷ [])
    ++ measured_in (codes "V") (
        codes "input_voltage"
        ∷ codes "output_voltage"
        ∷ codes "supply_voltage"
        ∷ codes "gate_source_voltage"
        ∷ codes "drain_source_voltage"
        ∷ codes "collector_emitter_voltage"
        ∷ codes "reverse_voltage"
        ∷ codes "common_mode_voltage"
        ∷ [])
    ++ (codes "measurement_frequency", codes "Hz")
      ∷ (codes "pulse_duration", codes "s")
      ∷ (codes "load_resistance", codes "Ω")
      ∷ []

-- `ConditionValue`
pub data ConditionValue : Type 0 where
  literal : Text → ConditionValue
  measured : Text → Interval → ConditionValue

abbrev pub Conditions : Type 0
Conditions = List (Text × Text)

abbrev pub Comparable : Type 0
Comparable = List (Text × ConditionValue)

abbrev pub literals : Conditions → Comparable
literals [] = []
literals ((k, v) ∷ m) = (k, literal v) ∷ literals m

abbrev pub retyped : Option ConditionValue → Comparable → Comparable
retyped none m = m
retyped (some v) m =
    if has_key (codes "current_type") m
    then m
    else assign (codes "current_type") v (remove (codes "voltage_type") m)

abbrev pub resistive : Option Text → Comparable → Comparable
resistive none m = m
resistive (some load) m =
    if among (lower load) (codes "resistive" ∷ codes "resistive load" ∷ [])
    then assign (codes "load_type") (literal (codes "resistive")) m
    else m

abbrev is_scalar : Interval → Bool
is_scalar i = same_number i.0 i.1

-- A scalar and its tolerance, which is a scalar that is not negative.
abbrev pub combined : Option Interval → Option Interval → Option Interval
combined (some value) (some delta) =
    if is_scalar value && is_scalar delta && not (below delta.0 decimal_zero)
    then some (minus_rounded value.0 delta.0, rounded (add_decimals value.0 delta.0))
    else none
combined _ _ = none

abbrev pub measure : Text → Text → Option Interval → Comparable → Comparable
measure key unit none m = m
measure key unit (some i) m = assign key (measured unit i) m

-- A condition whose tolerance stands beside it
abbrev pub with_tolerance : Text → Text → Option Interval → Comparable → Comparable
with_tolerance key unit none m = m
with_tolerance key unit (some i) m =
    assign key (measured unit i) (remove (key ++ codes "_tolerance") m)

abbrev pub interval_of : Text → Option Text → Option Interval
interval_of unit none = none
interval_of unit (some raw) = interval raw unit

-- One round of the loop over `_CONDITION_UNITS`
abbrev pub measure_key : Conditions → Text × Text → Comparable → Comparable
measure_key raw (key, unit) m =
    let tolerance = key ++ codes "_tolerance" in
    let value = interval_of unit (lookup key raw) in
    if not (has_key key m)
    then m
    else if has_key tolerance m
    then with_tolerance key unit (combined value (interval_of unit (lookup tolerance raw))) m
    else measure key unit value m

abbrev pub measure_keys : Conditions → List (Text × Text) → Comparable → Comparable
measure_keys raw [] m = m
measure_keys raw (u ∷ us) m = measure_keys raw us (measure_key raw u m)

unfoldable pub comparable_conditions : Conditions → Comparable
unfolding condition_units
comparable_conditions raw =
    let plain = literals raw in
    measure_keys raw condition_units (
      resistive (lookup (codes "load_type") raw)
        (retyped (lookup (codes "voltage_type") plain) plain))

abbrev pub same_value : ConditionValue → ConditionValue → Bool
same_value (literal s) (literal t) = same_text s t
same_value (measured u i) (measured v j) =
    same_text u v && (same_number i.0 j.0 && same_number i.1 j.1)
same_value _ _ = false

abbrev pub covers_value : ConditionValue → ConditionValue → Bool
covers_value (literal s) (literal t) = same_text s t
covers_value (measured u i) (measured v j) = same_text u v && contains_interval i j
covers_value _ _ = false

module _ (test : ConditionValue → ConditionValue → Bool) where
  abbrev pub passes : ConditionValue → Option ConditionValue → Bool
  passes v none = false
  passes v (some target) = test v target

  -- Every entry passes the test against the other mapping's.
  abbrev pub all_pass : Comparable → Comparable → Bool
  all_pass [] right = true
  all_pass ((k, v) ∷ left) right = passes v (lookup k right) && all_pass left right

  abbrev pub entries_match : Comparable → Comparable → Bool
  entries_match left right = same_set (keys left) (keys right) && all_pass left right

unfoldable pub same_conditions : Conditions → Conditions → Bool
unfolding comparable_conditions
same_conditions left right =
    entries_match same_value (comparable_conditions left) (comparable_conditions right)

unfoldable pub conditions_cover : Conditions → Conditions → Bool
unfolding comparable_conditions
conditions_cover available requested =
    entries_match covers_value (comparable_conditions available) (comparable_conditions requested)

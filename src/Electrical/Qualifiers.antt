-- ===== src/Electrical/Qualifiers.antt =====
-- `MINIMUM_SOURCE_CONDITIONS` of domain/specifications.py: for each field the groups of conditions of
-- which a source has to state one.
use Prim.Native.String.{String}
use parts_bin.Prelude.{List, [], ◌∷◌, ◌++◌, map}
use parts_bin.Storage.Parts.{Text}
use parts_bin.Texts.{codes}

abbrev pub Groups : Type 0
Groups = List (List Text)

-- A group of names
abbrev either : List String → List Text
either names = map codes names

abbrev only_one : String → List Text
only_one name = codes name ∷ []

abbrev ambient_or_junction : List Text
ambient_or_junction = either ("ambient_temperature" ∷ "junction_temperature" ∷ [])

-- A field with the names that a source has to state each, and groups after them
abbrev stating : String → List String → Groups → Text × Groups
stating field names groups = (codes field, map only_one names ++ groups)

abbrev conditions_of_linear_regulator : List (Text × Groups)
conditions_of_linear_regulator =
    stating "minimum_input_voltage" [] (ambient_or_junction ∷ [])
    ∷ stating "maximum_input_voltage" [] (ambient_or_junction ∷ [])
    ∷ stating "absolute_maximum_input_voltage" [] (ambient_or_junction ∷ [])
    ∷ stating "output_voltage" ("input_voltage" ∷ "output_current" ∷ []) (ambient_or_junction ∷ [])
    ∷ stating "rated_output_current" [] (ambient_or_junction ∷ [])
    ∷ stating "dropout_voltage" ("output_current" ∷ "output_voltage" ∷ [])
        (ambient_or_junction ∷ [])
    ∷ stating "quiescent_current" ("input_voltage" ∷ "output_current" ∷ [])
        (ambient_or_junction ∷ [])
    ∷ []

abbrev conditions_of_buck_converter : List (Text × Groups)
conditions_of_buck_converter =
    stating "minimum_input_voltage" [] (ambient_or_junction ∷ [])
    ∷ stating "maximum_input_voltage" [] (ambient_or_junction ∷ [])
    ∷ stating "absolute_maximum_input_voltage" [] (ambient_or_junction ∷ [])
    ∷ stating "minimum_output_voltage" ("input_voltage" ∷ []) (ambient_or_junction ∷ [])
    ∷ stating "maximum_output_voltage" ("input_voltage" ∷ []) (ambient_or_junction ∷ [])
    ∷ stating "rated_output_current" [] (ambient_or_junction ∷ [])
    ∷ stating "switching_frequency" ("input_voltage" ∷ []) (ambient_or_junction ∷ [])
    ∷ stating "quiescent_current" ("input_voltage" ∷ "output_current" ∷ "operating_mode" ∷ [])
        (ambient_or_junction ∷ [])
    ∷ []

abbrev conditions_of_led : List (Text × Groups)
conditions_of_led =
    stating "forward_voltage" ("forward_current" ∷ []) (ambient_or_junction ∷ [])
    ∷ stating "continuous_forward_current" [] (ambient_or_junction ∷ [])
    ∷ stating "peak_forward_current" ("pulse_duration" ∷ "duty_cycle" ∷ [])
        (ambient_or_junction ∷ [])
    ∷ stating "minimum_dominant_wavelength" ("forward_current" ∷ []) (ambient_or_junction ∷ [])
    ∷ stating "maximum_dominant_wavelength" ("forward_current" ∷ []) (ambient_or_junction ∷ [])
    ∷ stating "luminous_intensity" ("forward_current" ∷ []) (ambient_or_junction ∷ [])
    ∷ []

abbrev conditions_of_capacitor : List (Text × Groups)
conditions_of_capacitor =
    stating "capacitance" ("measurement_frequency" ∷ "measurement_temperature" ∷ []) []
    ∷ stating "rated_voltage" []
        (either ("current_type" ∷ "voltage_type" ∷ []) ∷ either ("rating_temperature" ∷ []) ∷ [])
    ∷ []

abbrev conditions_of_bjt : List (Text × Groups)
conditions_of_bjt =
    stating "dc_current_gain" ("collector_current" ∷ "collector_emitter_voltage" ∷ [])
      (ambient_or_junction ∷ [])
    ∷ stating "continuous_collector_current" []
        (either ("ambient_temperature" ∷ "case_temperature" ∷ "junction_temperature" ∷ []) ∷ [])
    ∷ stating "pulsed_collector_current" ("pulse_duration" ∷ [])
        (either ("ambient_temperature" ∷ "case_temperature" ∷ "junction_temperature" ∷ []) ∷ [])
    ∷ []

abbrev conditions_of_mosfet : List (Text × Groups)
conditions_of_mosfet =
    stating "on_resistance" ("gate_source_voltage" ∷ "drain_current" ∷ "junction_temperature" ∷ [])
      []
    ∷ stating "gate_threshold_voltage"
        ("drain_current" ∷ "drain_source_voltage" ∷ "junction_temperature" ∷ "value_kind" ∷ []) []
    ∷ stating "continuous_drain_current" ("gate_source_voltage" ∷ []) (
        either (
          "ambient_temperature" ∷ "case_temperature" ∷ "solder_point_temperature"
          ∷ "junction_temperature" ∷ [])
        ∷ [])
    ∷ stating "pulsed_drain_current" ("pulse_duration" ∷ []) (
        either (
          "ambient_temperature" ∷ "case_temperature" ∷ "solder_point_temperature"
          ∷ "junction_temperature" ∷ [])
        ∷ [])
    ∷ []

abbrev conditions_of_diode : List (Text × Groups)
conditions_of_diode =
    stating "continuous_forward_current" [] (
      either (
        "ambient_temperature" ∷ "case_temperature" ∷ "lead_temperature" ∷ "solder_point_temperature"
        ∷ [])
      ∷ [])
    ∷ stating "surge_forward_current" ("pulse_duration" ∷ "waveform" ∷ "junction_temperature" ∷ [])
        []
    ∷ stating "forward_voltage" ("forward_current" ∷ "junction_temperature" ∷ []) []
    ∷ stating "reverse_leakage_current" ("reverse_voltage" ∷ "junction_temperature" ∷ []) []
    ∷ stating "junction_capacitance"
        ("reverse_voltage" ∷ "measurement_frequency" ∷ "junction_temperature" ∷ []) []
    ∷ stating "reverse_recovery_time"
        ("forward_current" ∷ "reverse_current" ∷ "recovery_endpoint_current" ∷ "load_resistance"
          ∷ "junction_temperature" ∷ [])
        []
    ∷ []

abbrev conditions_of_operational_amplifier : List (Text × Groups)
conditions_of_operational_amplifier =
    stating "minimum_supply_voltage" ("supply_convention" ∷ "ambient_temperature" ∷ []) []
    ∷ stating "maximum_supply_voltage" ("supply_convention" ∷ "ambient_temperature" ∷ []) []
    ∷ stating "absolute_maximum_supply_voltage" ("supply_convention" ∷ "ambient_temperature" ∷ [])
        []
    ∷ stating "input_offset_voltage"
        ("supply_voltage" ∷ "ambient_temperature" ∷ "common_mode_voltage" ∷ []) []
    ∷ stating "input_bias_current"
        ("supply_voltage" ∷ "ambient_temperature" ∷ "common_mode_voltage" ∷ []) []
    ∷ stating "gain_bandwidth_product" ("supply_voltage" ∷ "ambient_temperature" ∷ []) []
    ∷ stating "slew_rate" ("supply_voltage" ∷ "ambient_temperature" ∷ "closed_loop_gain" ∷ []) []
    ∷ stating "quiescent_current" ("supply_voltage" ∷ "ambient_temperature" ∷ "current_scope" ∷ [])
        []
    ∷ []

unfoldable pub minimum_source_conditions : List (Text × List (Text × Groups))
minimum_source_conditions =
    (codes "linear regulator", conditions_of_linear_regulator)
    ∷ (codes "buck converter", conditions_of_buck_converter)
    ∷ (codes "led", conditions_of_led)
    ∷ (codes "capacitor", conditions_of_capacitor)
    ∷ (codes "bjt", conditions_of_bjt)
    ∷ (codes "mosfet", conditions_of_mosfet)
    ∷ (codes "diode", conditions_of_diode)
    ∷ (codes "operational amplifier", conditions_of_operational_amplifier)
    ∷ []

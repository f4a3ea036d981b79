-- ===== src/Electrical/Catalogue.antt =====
-- The categories of domain/specifications.py: the fields that each has, with their units and bases, and
-- the conditions that a source has to state.
use Prim.Native.String.{String}
use parts_bin.Prelude.{map, List, [], ◌∷◌, Option, none, some}
use parts_bin.Storage.Parts.{Text}
use parts_bin.Texts.{codes}

-- `SpecificationDefinition`
pub record SpecificationDefinition : Type 0 where
  pub unit : Option Text
  pub basis : Text
  pub choices : List Text

abbrev pub Fields : Type 0
Fields = List (Text × SpecificationDefinition)

abbrev field_in : String → String → String → Text × SpecificationDefinition
field_in name unit basis =
    (codes name, record { unit = some (codes unit); basis = codes basis; choices = [] })

abbrev field_named : String → String → List String → Text × SpecificationDefinition
field_named name basis choices =
    (codes name, record { unit = none; basis = codes basis; choices = map codes choices })

abbrev fields_of_linear_regulator : Fields
fields_of_linear_regulator =
    field_in "minimum_input_voltage" "V" "operating_minimum"
    ∷ field_in "maximum_input_voltage" "V" "operating_maximum"
    ∷ field_in "absolute_maximum_input_voltage" "V" "absolute_maximum"
    ∷ field_named "output_mode" "nominal" ("fixed" ∷ "adjustable" ∷ [])
    ∷ field_in "output_voltage" "V" "nominal"
    ∷ field_in "rated_output_current" "A" "rated"
    ∷ field_in "dropout_voltage" "V" "maximum"
    ∷ field_in "quiescent_current" "A" "typical"
    ∷ []

abbrev fields_of_buck_converter : Fields
fields_of_buck_converter =
    field_in "minimum_input_voltage" "V" "operating_minimum"
    ∷ field_in "maximum_input_voltage" "V" "operating_maximum"
    ∷ field_in "absolute_maximum_input_voltage" "V" "absolute_maximum"
    ∷ field_named "output_mode" "nominal" ("fixed" ∷ "adjustable" ∷ [])
    ∷ field_in "minimum_output_voltage" "V" "operating_minimum"
    ∷ field_in "maximum_output_voltage" "V" "operating_maximum"
    ∷ field_in "rated_output_current" "A" "rated"
    ∷ field_in "switching_frequency" "Hz" "typical"
    ∷ field_in "quiescent_current" "A" "typical"
    ∷ []

abbrev fields_of_led : Fields
fields_of_led =
    field_named "color" "nominal" []
    ∷ field_in "forward_voltage" "V" "maximum"
    ∷ field_in "continuous_forward_current" "A" "absolute_maximum_continuous"
    ∷ field_in "peak_forward_current" "A" "absolute_maximum_pulsed"
    ∷ field_in "minimum_dominant_wavelength" "m" "minimum"
    ∷ field_in "maximum_dominant_wavelength" "m" "maximum"
    ∷ field_in "luminous_intensity" "cd" "minimum"
    ∷ []

abbrev fields_of_resistor : Fields
fields_of_resistor =
    field_in "resistance" "Ω" "nominal"
    ∷ field_in "tolerance" "%" "maximum"
    ∷ field_in "rated_power" "W" "rated"
    ∷ []

abbrev fields_of_capacitor : Fields
fields_of_capacitor =
    field_in "capacitance" "F" "nominal"
    ∷ field_in "tolerance" "%" "maximum"
    ∷ field_in "rated_voltage" "V" "rated"
    ∷ field_named "dielectric" "nominal" []
    ∷ []

abbrev fields_of_bjt : Fields
fields_of_bjt =
    field_named "polarity" "nominal" ("NPN" ∷ "PNP" ∷ [])
    ∷ field_in "collector_emitter_voltage" "V" "absolute_maximum"
    ∷ field_in "continuous_collector_current" "A" "absolute_maximum_continuous"
    ∷ field_in "pulsed_collector_current" "A" "absolute_maximum_pulsed"
    ∷ field_in "dc_current_gain" "ratio" "minimum"
    ∷ []

abbrev fields_of_mosfet : Fields
fields_of_mosfet =
    field_named "channel_type" "nominal" ("N-channel" ∷ "P-channel" ∷ [])
    ∷ field_in "drain_source_voltage" "V" "absolute_maximum"
    ∷ field_in "continuous_drain_current" "A" "absolute_maximum_continuous"
    ∷ field_in "pulsed_drain_current" "A" "absolute_maximum_pulsed"
    ∷ field_in "on_resistance" "Ω" "maximum"
    ∷ field_in "gate_threshold_voltage" "V" "threshold"
    ∷ []

abbrev fields_of_diode : Fields
fields_of_diode =
    field_in "reverse_voltage" "V" "absolute_maximum_continuous"
    ∷ field_in "repetitive_peak_reverse_voltage" "V" "absolute_maximum_repetitive_peak"
    ∷ field_in "continuous_forward_current" "A" "absolute_maximum_continuous"
    ∷ field_in "surge_forward_current" "A" "absolute_maximum_nonrepetitive_peak"
    ∷ field_in "forward_voltage" "V" "maximum"
    ∷ field_in "reverse_leakage_current" "A" "maximum"
    ∷ field_in "junction_capacitance" "F" "maximum"
    ∷ field_in "reverse_recovery_time" "s" "maximum"
    ∷ []

abbrev fields_of_inductor : Fields
fields_of_inductor =
    field_in "inductance" "H" "nominal"
    ∷ field_in "tolerance" "%" "maximum"
    ∷ field_in "rated_current" "A" "rated"
    ∷ field_in "saturation_current" "A" "saturation"
    ∷ field_in "dc_resistance" "Ω" "maximum"
    ∷ []

abbrev fields_of_transformer : Fields
fields_of_transformer =
    field_in "turns_ratio" "ratio" "nominal"
    ∷ field_in "primary_rated_voltage" "V" "rated"
    ∷ field_in "secondary_rated_voltage" "V" "rated"
    ∷ field_in "rated_apparent_power" "VA" "rated"
    ∷ field_in "minimum_frequency" "Hz" "operating_minimum"
    ∷ field_in "maximum_frequency" "Hz" "operating_maximum"
    ∷ []

abbrev fields_of_switch : Fields
fields_of_switch =
    field_named "contact_form" "nominal" []
    ∷ field_in "rated_voltage" "V" "rated"
    ∷ field_in "rated_current" "A" "rated"
    ∷ []

abbrev fields_of_operational_amplifier : Fields
fields_of_operational_amplifier =
    field_in "minimum_supply_voltage" "V" "operating_minimum"
    ∷ field_in "maximum_supply_voltage" "V" "operating_maximum"
    ∷ field_in "absolute_maximum_supply_voltage" "V" "absolute_maximum"
    ∷ field_in "input_offset_voltage" "V" "maximum_magnitude"
    ∷ field_in "input_bias_current" "A" "maximum_magnitude"
    ∷ field_in "gain_bandwidth_product" "Hz" "typical"
    ∷ field_in "slew_rate" "V/s" "typical"
    ∷ field_in "quiescent_current" "A" "typical"
    ∷ []

-- `SPECIFICATIONS`
unfoldable pub specifications_of_categories : List (Text × Fields)
specifications_of_categories =
    ((codes "linear regulator", fields_of_linear_regulator)
      ∷ (codes "buck converter", fields_of_buck_converter)
      ∷ (codes "led", fields_of_led)
      ∷ (codes "resistor", fields_of_resistor)
      ∷ (codes "capacitor", fields_of_capacitor)
      ∷ (codes "bjt", fields_of_bjt)
      ∷ (codes "mosfet", fields_of_mosfet)
      ∷ (codes "diode", fields_of_diode)
      ∷ (codes "inductor", fields_of_inductor)
      ∷ (codes "transformer", fields_of_transformer)
      ∷ (codes "switch", fields_of_switch)
      ∷ (codes "operational amplifier", fields_of_operational_amplifier)
      ∷ [])

-- ===== src/Normalization/Repair.antt =====
-- `repair_fields` of domain/normalization.py: the texts of a passive part's entry, put in their places.
use parts_bin.Prelude.{◌&&◌, Option, none, if◌then◌else◌}
use parts_bin.Storage.Parts.{Text, passive, PartFields}
use parts_bin.Inventory.{is_passive_category}
use parts_bin.Normalization.Patterns.{looks_like_package, looks_like_value}

-- The three texts that a passive part's entry may have mixed up.
pub record Slots : Type 0 where
  pub value : Option Text
  pub «package» : Option Text
  pub part_number : Option Text

-- A package in the place of the value, with the value as part number or as package
abbrev pub swap_slots : Slots → Slots
swap_slots s =
    if looks_like_package s.value && looks_like_value s.part_number
    then record s { value = s.part_number; part_number = none }
    else if looks_like_package s.value && looks_like_value s.«package»
    then record s { value = s.«package»; «package» = s.value }
    else s

-- A value in the place of the part number
abbrev pub drop_part_number : Slots → Slots
drop_part_number s =
    if looks_like_value s.part_number
    then record s {
      value = if looks_like_value s.value then s.value else s.part_number;
      part_number = none;
    }
    else s

abbrev pub slots_of : PartFields → Slots
slots_of f = record { value = f.value; «package» = f.«package»; part_number = f.part_number }

abbrev pub with_slots : Slots → PartFields → PartFields
with_slots s f = record f {
  profile = passive;
  value = s.value;
  «package» = s.«package»;
  part_number = s.part_number;
}

-- `repair_fields`
unfoldable pub repair_fields : PartFields → PartFields
repair_fields f =
    if is_passive_category f.part_category
    then with_slots (drop_part_number (swap_slots (slots_of f))) f
    else f

-- ===== src/Normalization.antt =====
-- domain/normalization.py: which fields a part may have, and the identity under which stock is counted.
pub mod Patterns
pub mod Repair
pub mod Validation
pub mod Tests
use parts_bin.Prelude.{
  ℕ, ◌≡◌, Bool, true, false, not, ◌&&◌, ◌||◌, Option, none, some, List, [], ◌∷◌, ◌==◌,
  if◌then◌else◌, is_some, ℤ, pos, negsuc, is_negative,
}
use parts_bin.Storage.Parts.{Text, same_text, same_text?, Profile, passive, discrete_ic, PartFields}
use parts_bin.Storage.Tx.{Result, ok, err, Failure, domain_error, invalid_input}
use parts_bin.Texts.{codes, is_space, strip, lower, among}
use parts_bin.Texts.Regex.{
  Regex, empty, one, then_, or_, star, fullmatch, letter, word, digit, plus, optional, times,
  any_of,
}
use parts_bin.Inventory.{is_passive_category}
use parts_bin.Normalization.Repair.{
  Slots, swap_slots, drop_part_number, slots_of, with_slots, repair_fields,
}
use parts_bin.Normalization.Patterns.{looks_like_package, looks_like_value}

-- What a request gives for a field: `None`, a `str`, an `int` or a `bool`.
pub data FieldValue : Type 0 where
  null : FieldValue
  text : Text → FieldValue
  number : ℤ → FieldValue
  boolean : Bool → FieldValue

-- The fields of a part before they are validated.
pub record Draft : Type 0 where
  pub part_category : FieldValue
  pub profile : FieldValue
  pub quantity : FieldValue
  pub value : FieldValue
  pub «package» : FieldValue
  pub part_number : FieldValue
  pub manufacturer : FieldValue
  pub description : FieldValue
  pub datasheet_url : FieldValue
  pub value_unit : FieldValue

-- `BASE_UNITS` and `CATEGORY_UNITS` of domain/nominal.py
abbrev pub base_units : List Text
base_units =
    codes "Ω"
    ∷ codes "F"
    ∷ codes "H"
    ∷ codes "A"
    ∷ codes "V"
    ∷ codes "W"
    ∷ codes "Hz"
    ∷ codes "s"
    ∷ codes "m"
    ∷ codes "cd"
    ∷ codes "VA"
    ∷ codes "%"
    ∷ codes "ratio"
    ∷ codes "V/s"
    ∷ []

abbrev pub category_unit : Text → Option Text
category_unit c =
    if among c (codes "resistor" ∷ codes "potentiometer" ∷ codes "resistance" ∷ [])
    then some (codes "Ω")
    else if among c (codes "capacitor" ∷ codes "capacitance" ∷ [])
    then some (codes "F")
    else if among c (codes "inductor" ∷ codes "inductance" ∷ [])
    then some (codes "H")
    else if among c (codes "current" ∷ codes "amperage" ∷ [])
    then some (codes "A")
    else if same_text c (codes "voltage")
    then some (codes "V")
    else if same_text c (codes "power")
    then some (codes "W")
    else if same_text c (codes "frequency")
    then some (codes "Hz")
    else none

-- `parse_nominal` of domain/nominal.py, which reads a value with its unit; and whether `urlsplit`
-- finds a bounded HTTPS address without credentials.
pub record Readers : Type 0 where
  pub parse_nominal : Text → Option Text → Option (Text × Text)
  pub is_https_url : Text → Bool

module _ (readers : Readers) where
  -- `nominal_for_category`
  abbrev pub nominal_for_category : Text → Text → Option Text → Option (Text × Text)
  nominal_for_category raw category (some (c ∷ unit)) = readers.parse_nominal raw (some (c ∷ unit))
  nominal_for_category raw category _ =
      readers.parse_nominal raw (category_unit (lower (strip category)))

  abbrev pub with_nominal : Text → Option (Text × Text) → PartFields → PartFields
  with_nominal v (some (value, unit)) f = record f { value = some value; value_unit = some unit }
  with_nominal v none f = elim f.profile [
    | passive ↦ record f { value = some (strip v) }
    | discrete_ic ↦ f
  ]

  abbrev pub normalize_value : Option Text → PartFields → PartFields
  normalize_value none f = record f { value_unit = none }
  normalize_value (some v) f =
      with_nominal v (nominal_for_category v f.part_category f.value_unit) f

  -- `normalize_part_payload`
  unfoldable pub normalize_part_payload : PartFields → PartFields
  normalize_part_payload f = normalize_value (repair_fields f).value (repair_fields f)

-- `part_identity`, apart from `None`
pub data Identity : Type 0 where
  part_number : Text → Identity
  passive_part : Text → Option Text → Option Text → Identity

abbrev pub same_identity : Identity → Identity → Bool
same_identity (part_number s) (part_number t) = same_text s t
same_identity (passive_part c v p) (passive_part d w q) =
    same_text c d && same_text? v w && same_text? p q
same_identity _ _ = false

abbrev pub identity_of_fields : PartFields → Option Text → Option Identity
identity_of_fields f (some n) = some (part_number n)
identity_of_fields f none =
    if is_passive_category f.part_category
    then some (passive_part f.part_category f.value f.«package»)
    else none

module _ (readers : Readers) where
  -- `part_identity`
  unfoldable pub part_identity : PartFields → Option Identity
  part_identity f = let g = normalize_part_payload readers f in identity_of_fields g g.part_number

-- `clean_text`
abbrev pub clean_text : FieldValue → FieldValue
clean_text (text s) = elim (strip s) [ [] ↦ null | c ∷ t ↦ text (c ∷ t) ]
clean_text v = v

infixl 5 ◌>>=◌
abbrev pub ◌>>=◌ : {A B : Type 0} → Option A → (A → Option B) → Option B
none >>= k = none
some a >>= k = k a

abbrev pub required_text : FieldValue → Option Text
required_text (text s) = some s
required_text _ = none

abbrev pub optional_text : FieldValue → Option (Option Text)
optional_text (text s) = some (some s)
optional_text null = some none
optional_text _ = none

-- `profile not in ("passive", "discrete_ic")`
abbrev pub profile_of : FieldValue → Option Profile
profile_of (text s) =
    if same_text s (codes "passive")
    then some passive
    else if same_text s (codes "discrete_ic")
    then some discrete_ic
    else none
profile_of _ = none

-- An `int` that is no `bool` and at least 0
abbrev pub quantity_of_value : FieldValue → Option ℤ
quantity_of_value (number (pos n)) = some (pos n)
quantity_of_value _ = none

-- The cleaned fields, unless one has the wrong type
unfoldable pub typed : Draft → Option PartFields
typed d = do
  category ← required_text (clean_text d.part_category)
  profile ← profile_of (clean_text d.profile)
  value ← optional_text (clean_text d.value)
  case ← optional_text (clean_text d.«package»)
  part ← optional_text (clean_text d.part_number)
  manufacturer ← optional_text (clean_text d.manufacturer)
  description ← optional_text (clean_text d.description)
  url ← optional_text (clean_text d.datasheet_url)
  unit ← optional_text (clean_text d.value_unit)
  quantity ← quantity_of_value (clean_text d.quantity)
  some (record {
    part_category = category;
    profile = profile;
    quantity = quantity;
    value = value;
    «package» = case;
    part_number = part;
    manufacturer = manufacturer;
    description = description;
    datasheet_url = url;
    value_unit = unit;
  })

abbrev pub fits_unit : Text → Option Text → Bool
fits_unit unit none = true
fits_unit unit (some expected) = same_text unit expected

module _ (readers : Readers) where
  abbrev pub is_url : Option Text → Bool
  is_url none = true
  is_url (some u) = readers.is_https_url u

  abbrev pub reads_in : PartFields → Text → Option Text → Bool
  reads_in f unit none = true
  reads_in f unit (some v) = is_some (nominal_for_category readers v f.part_category (some unit))

  -- The unit is known and the category's own, and the value reads in it
  abbrev pub is_unit_of : PartFields → Option Text → Bool
  is_unit_of f none = true
  is_unit_of f (some unit) =
      among unit base_units
      && fits_unit unit (category_unit (lower f.part_category))
      && reads_in f unit f.value

  abbrev pub accept_fields : Option PartFields → Result PartFields
  accept_fields none = err (domain_error invalid_input)
  accept_fields (some f) =
      if is_url f.datasheet_url && is_unit_of f f.value_unit
      then ok (normalize_part_payload readers f)
      else err (domain_error invalid_input)

  -- `validate_fields`
  unfoldable pub validate_fields : Draft → Result PartFields
  validate_fields d = accept_fields (typed d)

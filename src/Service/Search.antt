-- ===== src/Service/Search.antt =====
-- `_search_filters` of domain/service.py, over domain/search.py. Rows come in the order of the table;
-- the code's order of the result is not modelled.
use parts_bin.Prelude.{
  ℕ, Bool, true, false, ◌&&◌, ◌||◌, Option, none, some, List, [], ◌∷◌, if◌then◌else◌, ◌==◌, leb, ℤ,
  pos, negsuc,
}
use parts_bin.Storage.Table.{Table, select}
use parts_bin.Storage.Parts.{Text, same_text, PartFields, PartRow}
use parts_bin.Storage.Rows.{Db}
use parts_bin.Storage.Tx.{Result, ok, err, domain_error, invalid_input}
use parts_bin.Texts.{codes, is_space, strip, lower, among}
use parts_bin.Normalization.{Readers, nominal_for_category}
use parts_bin.Service.{profile_text}

-- `re.sub(r"[\s_-]+", "", text)`
abbrev squeeze : Text → Text
squeeze [] = []
squeeze (c ∷ s) =
    let rest = squeeze s in if is_space c || (c == 95) || (c == 45) then rest else c ∷ rest

abbrev category_of_spelling : Text → Text → Text
category_of_spelling plain s =
    if among s
      (codes "linearregulator" ∷ codes "linearregulators" ∷ codes "ldo" ∷ codes "ldos" ∷ [])
    then codes "linear regulator"
    else if among s (codes "buckconverter" ∷ codes "buckconverters" ∷ [])
    then codes "buck converter"
    else if among s
        (codes "led" ∷ codes "leds" ∷ codes "lightemittingdiode" ∷ codes "lightemittingdiodes" ∷ [])
    then codes "led"
    else if among s (
        codes "opamp"
        ∷ codes "opamps"
        ∷ codes "operationalamplifier"
        ∷ codes "operationalamplifiers"
        ∷ [])
    then codes "operational amplifier"
    else if among s (
        codes "bjt"
        ∷ codes "bjts"
        ∷ codes "bipolartransistor"
        ∷ codes "bipolartransistors"
        ∷ codes "bipolarjunctiontransistor"
        ∷ codes "bipolarjunctiontransistors"
        ∷ [])
    then codes "bjt"
    else if among s (codes "mosfet" ∷ codes "mosfets" ∷ [])
    then codes "mosfet"
    else if among s (codes "diode" ∷ codes "diodes" ∷ [])
    then codes "diode"
    else if among s (codes "transistor" ∷ codes "transistors" ∷ [])
    then codes "transistor"
    else plain

-- `search_category`
unfoldable pub search_category : Text → Text
search_category raw = let plain = lower (strip raw) in category_of_spelling plain (squeeze plain)

abbrev aliased : List Text
aliased =
    codes "operational amplifier"
    ∷ codes "bjt"
    ∷ codes "mosfet"
    ∷ codes "diode"
    ∷ codes "transistor"
    ∷ codes "linear regulator"
    ∷ codes "buck converter"
    ∷ codes "led"
    ∷ []

abbrev pub same_nominal : Option (Text × Text) → Option (Text × Text) → Option Bool
same_nominal none none = none
same_nominal (some a) (some b) = some (same_text a.0 b.0 && same_text a.1 b.1)
same_nominal _ _ = some false

abbrev pub or_spelling : Option Bool → Bool → Bool
or_spelling (some b) spelled = b
or_spelling none spelled = spelled

module _ (readers : Readers) where
  -- `values_match`
  unfoldable pub values_match : Text → Text → Text → Option Text → Bool
  values_match stored requested category unit =
      or_spelling
        (same_nominal (nominal_for_category readers stored category unit)
          (nominal_for_category readers requested category unit))
        (same_text (lower (strip stored)) (lower (strip requested)))

-- The filters of a `SearchPartsRequest`. Other names are refused.
pub record Filters : Type 0 where
  pub part_category : Option Text
  pub profile : Option Text
  pub value : Option Text
  pub «package» : Option Text
  pub part_number : Option Text
  pub value_unit : Option Text

-- `clean_text` of a filter
abbrev pub clean : Option Text → Option Text
clean none = none
clean (some s) = elim (strip s) [ [] ↦ none | c ∷ t ↦ some (c ∷ t) ]

-- A filter that is given is equal to what is stored
abbrev pub admits : Option Text → Option Text → Bool
admits none stored = true
admits (some s) none = false
admits (some s) (some t) = same_text s t

abbrev pub admits_category : Option Text → Text → Bool
admits_category none stored = true
admits_category (some category) stored =
    if among (search_category category) aliased
    then same_text (search_category stored) (search_category category)
    else same_text category stored

-- `part.quantity >= request.minimum_quantity`
abbrev pub at_least : ℕ → ℤ → Bool
at_least m (pos n) = leb m n
at_least m (negsuc n) = false

module _ (readers : Readers) where
  abbrev pub admits_value : Option Text → Option Text → PartFields → Bool
  admits_value none stored f = true
  admits_value (some v) none f = false
  admits_value (some v) (some s) f = values_match readers s v f.part_category f.value_unit

  abbrev pub admits_part : Filters → ℕ → ℕ → PartRow → Bool
  admits_part filters minimum j p =
      let f = p.fields in
      admits_category (clean filters.part_category) f.part_category
      && admits (clean filters.profile) (some (profile_text f.profile))
      && admits (clean filters.«package») f.«package»
      && admits (clean filters.part_number) f.part_number
      && at_least minimum f.quantity
      && admits (clean filters.value_unit) f.value_unit
      && admits_value (clean filters.value) f.value f

  abbrev pub search_at : Filters → ℤ → Table PartRow → Result (Table PartRow)
  search_at filters (pos minimum) rows = ok (select (admits_part filters minimum) rows)
  search_at filters (negsuc n) rows = err (domain_error invalid_input)

  -- `_search_filters`, on given candidates or on the stored parts
  unfoldable pub search_filters : Filters → ℤ → Table PartRow → Result (Table PartRow)
  search_filters filters minimum rows = search_at filters minimum rows

abbrev pub no_filters : Filters
no_filters = record {
  part_category = none;
  profile = none;
  value = none;
  «package» = none;
  part_number = none;
  value_unit = none;
}

-- `PartsBinService.list`
abbrev pub list_parts : Db → Table PartRow
list_parts db = select (λ j p. at_least 0 p.fields.quantity) db.parts

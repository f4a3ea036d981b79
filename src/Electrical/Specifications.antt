-- ===== src/Electrical/Specifications.antt =====
-- domain/specifications.py: which values and conditions a category takes for a field.
pub mod Accepting
mod Tests
use parts_bin.Prelude.{
  ℕ, Bool, true, false, not, ◌&&◌, ◌||◌, List, [], ◌∷◌, map, any, length, Option, none, some,
  is_some, ltb, leb, if◌then◌else◌,
}
use parts_bin.Storage.Parts.{Text, same_text}
use parts_bin.Storage.Tx.{Result, ok, err, domain_error, invalid_input}
use parts_bin.Texts.{codes, strip, among}
use parts_bin.Service.Search.{search_category}
use parts_bin.Electrical.Entries.{lookup, has_key}
use parts_bin.Electrical.Decimals.{decimal_zero, below}
use parts_bin.Electrical.Decimals.Texts.{fixed_text, is_nothing}
use parts_bin.Electrical.Quantities.{Interval, invalid, interval}
use parts_bin.Electrical.Conditions.{Conditions}
use parts_bin.Electrical.Results.{◌>>=◌, ◌>>◌, refuse_if}
use parts_bin.Electrical.Json.{Json, text, object, Object, members_of, text_of, object_of}
use parts_bin.Electrical.Catalogue.{Fields, SpecificationDefinition, specifications_of_categories}
use parts_bin.Electrical.Qualifiers.{Groups, minimum_source_conditions}

abbrev found_or_invalid : {A : Type 0} → Option A → Result A
found_or_invalid none = invalid
found_or_invalid (some a) = ok a

abbrev fields_of : Option Fields → Fields
fields_of none = []
fields_of (some fields) = fields

-- `definition`
unfoldable pub definition : Text → Text → Result SpecificationDefinition
unfolding search_category specifications_of_categories
definition category name =
    found_or_invalid
      (lookup name (fields_of (lookup (search_category category) specifications_of_categories)))

-- `contract(category)['supported']`
unfoldable pub is_supported : Text → Bool
unfolding search_category specifications_of_categories
is_supported category =
    elim (fields_of (lookup (search_category category) specifications_of_categories)) [
      | [] ↦ false
      | f ∷ fs ↦ true
    ]

abbrev groups_of : Option (List (Text × Groups)) → Text → Groups
groups_of none name = []
groups_of (some fields) name = elim (lookup name fields) [ none ↦ [] | some groups ↦ groups ]

abbrev first_of : List Text → Text
first_of [] = []
first_of (name ∷ names) = name

-- The first name of each group of which no condition is stated
abbrev pub missing_of : Groups → Conditions → List Text
missing_of [] stated = []
missing_of (group ∷ groups) stated =
    let rest = missing_of groups stated in
    if any (λ name. has_key name stated) group then rest else first_of group ∷ rest

-- `missing_qualifiers`
unfoldable pub missing_qualifiers : Text → Text → Conditions → List Text
unfolding search_category minimum_source_conditions
missing_qualifiers category name stated =
    missing_of (groups_of (lookup (search_category category) minimum_source_conditions) name) stated

-- `not text.strip() or len(text) > limit`
abbrev pub is_unbounded : ℕ → Text → Bool
is_unbounded limit s = is_nothing (strip s) || ltb limit (length s)

abbrev pub bounded_conditions : Object → Result Conditions
bounded_conditions [] = ok []
bounded_conditions ((key, value) ∷ m) = do
  refuse_if (is_unbounded 80 key)
  s ← text_of value
  refuse_if (is_unbounded 200 s)
  rest ← bounded_conditions m
  ok ((key, s) ∷ rest)

abbrev pub max_conditions : ℕ
max_conditions = 12

-- `conditions`
unfoldable pub conditions : Json → Result Conditions
conditions raw = do
  entries ← object_of raw
  refuse_if (ltb max_conditions (length entries))
  bounded_conditions entries

-- What `_value` returns: a tuple of two texts, or the text of a choice
pub data Normal : Type 0 where
  range : Text → Text → Normal
  choice : Text → Normal

abbrev pub is_text : Json → Text → Bool
is_text (text s) t = same_text s t
is_text _ t = false

abbrev pub normal_interval : Option Interval → Result Normal
normal_interval none = invalid
normal_interval (some i) =
    refuse_if (below i.0 decimal_zero) >> ok (range (fixed_text i.0) (fixed_text i.1))

abbrev pub normal_choice : List Text → Text → Result Normal
normal_choice [] raw = ok (choice raw)
normal_choice (c ∷ cs) raw = refuse_if (not (among raw (c ∷ cs))) >> ok (choice raw)

-- A value in a unit, or one of the choices
abbrev pub normal_by : Option Text → List Text → Text → Result Normal
normal_by (some unit) choices s = normal_interval (interval s unit)
normal_by none choices s = normal_choice choices s

-- `_value`, once the field is known
unfoldable pub value_of : SpecificationDefinition → Json → Json → Result Normal
unfolding interval
value_of d raw basis = do
  refuse_if (not (is_text basis d.basis))
  s ← text_of raw
  refuse_if (is_unbounded 100 s)
  normal_by d.unit d.choices s

-- `_value`
unfoldable pub specification_value : Text → Text → Json → Json → Result Normal
unfolding definition value_of
specification_value category name raw basis = definition category name >>= λ d. value_of d raw basis

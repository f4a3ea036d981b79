-- ===== src/Electrical/Conditions/Stated.antt =====
-- What `comparable_conditions` of domain/specification_conditions.py makes of conditions as they are
-- stated.
use parts_bin.Prelude.{
  ◌≡◌, refl, sym, ◌∙◌, subst, Bool, true, false, not, ◌&&◌, List, [], ◌∷◌, Option, none, some,
  arith, Bool-cases, inl, inr,
}
use parts_bin.Storage.Parts.{Text, same_text}
use parts_bin.Texts.{codes, lower, among, same_text-eq}
use parts_bin.Electrical.Entries.{lookup, remove, has_key}
use parts_bin.Electrical.Conditions.{
  condition_units, ConditionValue, literal, Conditions, Comparable, literals, retyped, resistive,
  comparable_conditions,
}
use parts_bin.Electrical.Conditions.Covering.{both}
use parts_bin.Electrical.Conditions.Names.{
  lookup-assign_ne, lookup-remove_ne, tolerance, is_untouched, stands_once, reading,
  measure_keys-is_untouched, measure_keys-reading, measure_keys_absent,
}

-- A name that is not that of a type of current or of load, which are renamed or respelled
abbrev pub is_no_type : Text → Bool
is_no_type k =
    not (same_text (codes "current_type") k)
    && not (same_text (codes "voltage_type") k)
    && not (same_text (codes "load_type") k)

pub lookup-literals :
    (k : Text) (raw : Conditions) (s : Text)
    → lookup k raw ≡ some s
    → lookup k (literals raw) ≡ some (literal s)
lookup-literals k [] s h = absurd (ground arith)
lookup-literals k ((j, t) ∷ raw) s h = elim (Bool-cases (same_text j k)) [
  | inl e ↦ ground arith
  | inr e ↦ ground (arith, lookup-literals k raw s)
]

pub lookup-literals-none :
    (k : Text) (raw : Conditions) → lookup k raw ≡ none → lookup k (literals raw) ≡ none
lookup-literals-none k [] h = refl
lookup-literals-none k ((j, t) ∷ raw) h = elim (Bool-cases (same_text j k)) [
  | inl e ↦ absurd (ground arith)
  | inr e ↦ ground (arith, lookup-literals-none k raw)
]

false_of_not : (b : Bool) → not b ≡ true → b ≡ false
false_of_not true h = absurd (ground arith)
false_of_not false h = refl

no_type_names :
    (k : Text)
    → is_no_type k ≡ true
    → (same_text (codes "current_type") k ≡ false)
      × (same_text (codes "voltage_type") k ≡ false)
      × (same_text (codes "load_type") k ≡ false)
no_type_names k h =
    let current = not (same_text (codes "current_type") k) in
    let voltage = not (same_text (codes "voltage_type") k) in
    let (rest, third) = both (current && voltage) (not (same_text (codes "load_type") k)) h in
    let (first, second) = both current voltage rest in
    (false_of_not _ first, false_of_not _ second, false_of_not _ third)

retyped-is_no_type :
    (k : Text) (o : Option ConditionValue) (m : Comparable)
    → is_no_type k ≡ true
    → lookup k (retyped o m) ≡ lookup k m
retyped-is_no_type k none m h = refl
retyped-is_no_type k (some v) m h =
    let (current, voltage, load) = no_type_names k h in
    let without = remove (codes "voltage_type") m in
    elim (Bool-cases (has_key (codes "current_type") m)) [
      | inl present ↦ rw present refl
      | inr absent ↦ rw absent (
          lookup-assign_ne k (codes "current_type") v without current
          ∙ lookup-remove_ne k (codes "voltage_type") m voltage)
    ]

resistive-is_no_type :
    (k : Text) (o : Option Text) (m : Comparable)
    → is_no_type k ≡ true
    → lookup k (resistive o m) ≡ lookup k m
resistive-is_no_type k none m h = refl
resistive-is_no_type k (some given) m h =
    let (current, voltage, load) = no_type_names k h in
    elim (Bool-cases (among (lower given) (codes "resistive" ∷ codes "resistive load" ∷ []))) [
      | inl is_resistive ↦
          rw is_resistive
            (lookup-assign_ne k (codes "load_type") (literal (codes "resistive")) m load)
      | inr other ↦ rw other refl
    ]

-- The conditions before the loop over the measured names
abbrev prepared : Conditions → Comparable
prepared raw =
    let plain = literals raw in
    resistive (lookup (codes "load_type") raw) (retyped (lookup (codes "voltage_type") plain) plain)

lookup-prepared :
    (k : Text) (raw : Conditions)
    → is_no_type k ≡ true
    → lookup k (prepared raw) ≡ lookup k (literals raw)
lookup-prepared k raw h =
    let plain = literals raw in
    let v = lookup (codes "voltage_type") plain in
    resistive-is_no_type k (lookup (codes "load_type") raw) (retyped v plain) h
    ∙ retyped-is_no_type k v plain h

-- What the names of the table have in common
abbrev is_regular : Text → Bool
unfolding condition_units
is_regular k = stands_once k condition_units && is_no_type k && is_no_type (tolerance k)

abbrev every_name : (Text → Bool) → List (Text × Text) → Bool
every_name test [] = true
every_name test ((key, unit) ∷ units) = test key && every_name test units

all_regular : every_name is_regular condition_units ≡ true
unfolding condition_units
all_regular = refl

every_name-lookup :
    (test : Text → Bool) (k unit : Text) (units : List (Text × Text))
    → every_name test units ≡ true
    → lookup k units ≡ some unit
    → test k ≡ true
every_name-lookup test k unit [] h listed = absurd (ground arith)
every_name-lookup test k unit ((key, u) ∷ units) h listed =
    let (here, rest) = both (test key) (every_name test units) h in
    elim (Bool-cases (same_text key k)) [
      | inl e ↦ subst (λ t. test t ≡ true) (same_text-eq key k e) here
      | inr e ↦ every_name-lookup test k unit units rest (sym (rw e refl) ∙ listed)
    ]

listed_regular :
    (k unit : Text)
    → lookup k condition_units ≡ some unit
    → (stands_once k condition_units ≡ true)
      × (is_no_type k ≡ true)
      × (is_no_type (tolerance k) ≡ true)
unfolding condition_units is_regular
listed_regular k unit listed =
    let (rest, wide) =
      both (stands_once k condition_units && is_no_type k) (is_no_type (tolerance k))
        (every_name-lookup is_regular k unit condition_units all_regular listed) in
    let (once, own) = both (stands_once k condition_units) (is_no_type k) rest in (once, own, wide)

-- A measured name without a tolerance stands for the interval that its text reads as, or for the text.
pub comparable-reading :
    (raw : Conditions) (k unit s : Text)
    → lookup k condition_units ≡ some unit
    → lookup (tolerance k) raw ≡ none
    → lookup k raw ≡ some s
    → lookup k (comparable_conditions raw) ≡ some (reading unit s)
unfolding comparable_conditions
comparable-reading raw k unit s listed plain stated =
    let (once, own, wide) = listed_regular k unit listed in
    measure_keys-reading raw k unit s condition_units (prepared raw) listed once stated
      (lookup-prepared k raw own ∙ lookup-literals k raw s stated)
      (lookup-prepared (tolerance k) raw wide ∙ lookup-literals-none (tolerance k) raw plain)

pub comparable_absent :
    (raw : Conditions) (k unit : Text)
    → lookup k condition_units ≡ some unit
    → lookup k raw ≡ none
    → lookup k (comparable_conditions raw) ≡ none
unfolding comparable_conditions
comparable_absent raw k unit listed missing =
    let (once, own, wide) = listed_regular k unit listed in
    measure_keys_absent raw k condition_units (prepared raw)
      (lookup-prepared k raw own ∙ lookup-literals-none k raw missing)

-- A name that is neither measured, nor a tolerance, nor that of a type
abbrev pub is_plain : Text → Bool
is_plain k = is_untouched k condition_units && is_no_type k

pub comparable-is_plain :
    (raw : Conditions) (k : Text)
    → is_plain k ≡ true
    → lookup k (comparable_conditions raw) ≡ lookup k (literals raw)
unfolding comparable_conditions
comparable-is_plain raw k h =
    let (apart, own) = both (is_untouched k condition_units) (is_no_type k) h in
    measure_keys-is_untouched raw k condition_units (prepared raw) apart ∙ lookup-prepared k raw own

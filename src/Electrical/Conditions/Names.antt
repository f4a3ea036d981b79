-- ===== src/Electrical/Conditions/Names.antt =====
-- What `comparable_conditions` of domain/specification_conditions.py makes of single names.
use parts_bin.Prelude.{
  ◌≡◌, refl, sym, ap, ◌∙◌, subst, Bool, true, false, not, ◌&&◌, List, [], ◌∷◌, ◌++◌, Option, none,
  some, if◌then◌else◌, arith, Bool-cases, Option-cases, inl, inr, some-injective,
}
use parts_bin.Storage.Parts.{Text, same_text}
use parts_bin.Texts.{codes, same_text_refl, same_text-eq}
use parts_bin.Electrical.Entries.{lookup, assign, remove, has_key}
use parts_bin.Electrical.Quantities.{Interval, interval}
use parts_bin.Electrical.Conditions.{
  ConditionValue, literal, measured, Conditions, Comparable, combined, measure, with_tolerance,
  interval_of, measure_key, measure_keys,
}

-- A name is not two names.
same_text_apart :
    (i j k : Text) → same_text i k ≡ false → same_text i j ≡ true → same_text k j ≡ false
same_text_apart i j k apart e = elim (Bool-cases (same_text k j)) [
  | inl f ↦
      let same : i ≡ k = same_text-eq i j e ∙ sym (same_text-eq k j f) in
      absurd (ground (arith, same_text_refl i, ap (same_text i) same))
  | inr f ↦ f
]

module _ {A : Type 0} where
  lookup-assign :
      (j k : Text) (a : A) (m : List (Text × A))
      → lookup j (assign k a m) ≡ (if same_text k j then some a else lookup j m)
  lookup-assign j k a [] = refl
  lookup-assign j k a ((i, b) ∷ m) = elim (Bool-cases (same_text i k)) [
    | inl e ↦
        let same : same_text i j ≡ same_text k j = ap (λ t. same_text t j) (same_text-eq i k e) in
        ground (arith, e, same)
    | inr e ↦ elim (Bool-cases (same_text i j)) [
      | inl f ↦ ground (arith, e, f, same_text_apart i j k e f)
      | inr f ↦ ground (arith, e, f, lookup-assign j k a m)
    ]
  ]

  lookup-remove :
      (j k : Text) (m : List (Text × A))
      → lookup j (remove k m) ≡ (if same_text k j then none else lookup j m)
  lookup-remove j k [] = ground arith
  lookup-remove j k ((i, b) ∷ m) = elim (Bool-cases (same_text i k)) [
    | inl e ↦
        let same : same_text i j ≡ same_text k j = ap (λ t. same_text t j) (same_text-eq i k e) in
        ground (arith, e, same, lookup-remove j k m)
    | inr e ↦ elim (Bool-cases (same_text i j)) [
      | inl f ↦ ground (arith, e, f, same_text_apart i j k e f)
      | inr f ↦ ground (arith, e, f, lookup-remove j k m)
    ]
  ]

  pub lookup-assign_ne :
      (j k : Text) (a : A) (m : List (Text × A))
      → same_text k j ≡ false
      → lookup j (assign k a m) ≡ lookup j m
  lookup-assign_ne j k a m h = ground (arith, lookup-assign j k a m)

  pub lookup-remove_ne :
      (j k : Text) (m : List (Text × A))
      → same_text k j ≡ false
      → lookup j (remove k m) ≡ lookup j m
  lookup-remove_ne j k m h = ground (arith, lookup-remove j k m)

  -- What is not there is not put there under a name that is.
  lookup-assign_absent :
      (j k : Text) (a : A) (m : List (Text × A))
      → has_key k m ≡ true
      → lookup j m ≡ none
      → lookup j (assign k a m) ≡ none
  lookup-assign_absent j k a m here absent = elim (Bool-cases (same_text k j)) [
    | inl e ↦ absurd (ground (arith, ap (λ t. has_key t m) (same_text-eq k j e)))
    | inr e ↦ ground (arith, lookup-assign j k a m)
  ]

abbrev pub tolerance : Text → Text
tolerance k = k ++ codes "_tolerance"

measure_key-ne :
    (raw : Conditions) (key unit j : Text) (m : Comparable)
    → same_text key j ≡ false
    → same_text (tolerance key) j ≡ false
    → lookup j (measure_key raw (key, unit) m) ≡ lookup j m
measure_key-ne raw key unit j m e f = elim (Bool-cases (has_key key m)) [
  | inr absent ↦ rw absent refl
  | inl here ↦ elim (Bool-cases (has_key (tolerance key) m)) [
    | inr plain ↦ rw here (rw plain (by_value (interval_of unit (lookup key raw))))
    | inl wide ↦ rw here (
        rw wide (
          by_width (
            combined (interval_of unit (lookup key raw))
              (interval_of unit (lookup (tolerance key) raw)))))
  ]
]
  where
    by_value : (o : Option Interval) → lookup j (measure key unit o m) ≡ lookup j m
    by_value none = refl
    by_value (some i) = ground (arith, lookup-assign j key (measured unit i) m)

    by_width : (o : Option Interval) → lookup j (with_tolerance key unit o m) ≡ lookup j m
    by_width none = refl
    by_width (some i) = ground (
      arith,
      lookup-assign j key (measured unit i) (remove (tolerance key) m),
      lookup-remove j (tolerance key) m,
    )

measure_key_absent :
    (raw : Conditions) (key unit j : Text) (m : Comparable)
    → lookup j m ≡ none
    → lookup j (measure_key raw (key, unit) m) ≡ none
measure_key_absent raw key unit j m absent = elim (Bool-cases (has_key key m)) [
  | inr missing ↦ rw missing absent
  | inl here ↦ elim (Bool-cases (has_key (tolerance key) m)) [
    | inr plain ↦ rw here (rw plain (by_value here (interval_of unit (lookup key raw))))
    | inl wide ↦ rw here (
        rw wide (
          by_width here (
            combined (interval_of unit (lookup key raw))
              (interval_of unit (lookup (tolerance key) raw)))))
  ]
]
  where
    by_value : has_key key m ≡ true → (o : Option Interval) → lookup j (measure key unit o m) ≡ none
    by_value here none = absent
    by_value here (some i) = lookup-assign_absent j key (measured unit i) m here absent

    by_width :
        has_key key m ≡ true → (o : Option Interval) → lookup j (with_tolerance key unit o m) ≡ none
    by_width here none = absent
    by_width here (some i) = elim (Bool-cases (same_text key j)) [
      | inl e ↦ absurd (ground (arith, ap (λ t. has_key t m) (same_text-eq key j e)))
      | inr e ↦ ground (
        arith,
        lookup-assign j key (measured unit i) (remove (tolerance key) m),
        lookup-remove j (tolerance key) m,
      )
    ]

-- A name that is no measured name and no tolerance of one
abbrev pub is_untouched : Text → List (Text × Text) → Bool
is_untouched k [] = true
is_untouched k ((key, unit) ∷ units) =
    not (same_text key k) && not (same_text (tolerance key) k) && is_untouched k units

-- A name that stands once and is the tolerance of none
abbrev pub stands_once : Text → List (Text × Text) → Bool
stands_once k [] = true
stands_once k ((key, unit) ∷ units) =
    not (same_text (tolerance key) k)
    && (if same_text key k then is_untouched k units else stands_once k units)

pub measure_keys-is_untouched :
    (raw : Conditions) (k : Text) (units : List (Text × Text)) (m : Comparable)
    → is_untouched k units ≡ true
    → lookup k (measure_keys raw units m) ≡ lookup k m
measure_keys-is_untouched raw k [] m h = refl
measure_keys-is_untouched raw k ((key, unit) ∷ units) m h =
    measure_keys-is_untouched raw k units (measure_key raw (key, unit) m) (ground arith)
    ∙ measure_key-ne raw key unit k m (ground arith) (ground arith)

-- A text in a unit: the interval that it reads as, or the text
abbrev pub reading : Text → Text → ConditionValue
reading unit s = elim (interval s unit) [ none ↦ literal s | some i ↦ measured unit i ]

measure_key_own :
    (raw : Conditions) (k unit s : Text) (m : Comparable)
    → lookup k raw ≡ some s
    → lookup k m ≡ some (literal s)
    → lookup (tolerance k) m ≡ none
    → lookup k (measure_key raw (k, unit) m) ≡ some (reading unit s)
measure_key_own raw k unit s m stated here plain = elim (Option-cases (interval s unit)) [
  | inl unread ↦ ground (arith, stated, here, plain, unread)
  | inr (i, read) ↦
      ground
        (arith, stated, here, plain, read, lookup-assign k k (measured unit i) m, same_text_refl k)
]

pub measure_keys-reading :
    (raw : Conditions) (k unit s : Text) (units : List (Text × Text)) (m : Comparable)
    → lookup k units ≡ some unit
    → stands_once k units ≡ true
    → lookup k raw ≡ some s
    → lookup k m ≡ some (literal s)
    → lookup (tolerance k) m ≡ none
    → lookup k (measure_keys raw units m) ≡ some (reading unit s)
measure_keys-reading raw k unit s [] m listed once stated here plain = absurd (ground arith)
measure_keys-reading raw k unit s ((key, u) ∷ units) m listed once stated here plain =
    elim (Bool-cases (same_text key k)) [
      | inl e ↦
          let is_u : unit ≡ u = some-injective (sym listed ∙ ground arith) in
          let is_key : k ≡ key = sym (same_text-eq key k e) in
          measure_keys-is_untouched raw k units (measure_key raw (key, u) m) (ground arith)
          ∙ subst (λ (p : Text × Text). lookup k (measure_key raw p m) ≡ some (reading unit s))
              (ap (λ (t : Text). (t, unit)) is_key ∙ ap (λ (t : Text). (key, t)) is_u)
              (measure_key_own raw k unit s m stated here plain)
      | inr e ↦
          measure_keys-reading raw k unit s units (measure_key raw (key, u) m)
            (sym (rw e refl) ∙ listed) (ground arith) stated
            (measure_key-ne raw key u k m e (ground arith) ∙ here)
            (measure_key_absent raw key u (tolerance k) m plain)
    ]

pub measure_keys_absent :
    (raw : Conditions) (j : Text) (units : List (Text × Text)) (m : Comparable)
    → lookup j m ≡ none
    → lookup j (measure_keys raw units m) ≡ none
measure_keys_absent raw j [] m absent = absent
measure_keys_absent raw j ((key, unit) ∷ units) m absent =
    measure_keys_absent raw j units (measure_key raw (key, unit) m)
      (measure_key_absent raw key unit j m absent)

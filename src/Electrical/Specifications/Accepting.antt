-- ===== src/Electrical/Specifications/Accepting.antt =====
-- What `_value` of domain/specifications.py accepts, and what its normalized value stands for.
use parts_bin.Prelude.{
  ◌≡◌, refl, sym, ap, ◌∙◌, subst, List, [], ◌∷◌, Bool, true, false, not, Option, none, some, arith,
}
use parts_bin.Storage.Parts.{Text}
use parts_bin.Storage.Tx.{Result, ok}
use parts_bin.Electrical.Decimals.{decimal_zero, below, is_at_most}
use parts_bin.Electrical.Decimals.Texts.{decimal_of, fixed_text}
use parts_bin.Electrical.Decimals.Printed.{decimal_of-fixed_text}
use parts_bin.Electrical.Quantities.{Interval, interval}
use parts_bin.Electrical.Results.{◌>>◌, refuse_if, refuse_if-eq-ok, ok-injective}
use parts_bin.Texts.{among}
use parts_bin.Electrical.Json.{Json, text}
use parts_bin.Electrical.Catalogue.{SpecificationDefinition}
use parts_bin.Electrical.Specifications.{
  Normal, range, choice, definition, normal_interval, normal_by, normal_choice, is_text,
  is_unbounded, value_of, specification_value,
}

-- A normalized value is an interval, written as two texts.
abbrev pub Denotes : Normal → Interval → Type 0
Denotes (range a b) i = (decimal_of a ≡ i.0) × (decimal_of b ≡ i.1)
Denotes (choice s) i = ⊥

abbrev pub NotNegative : Interval → Type 0
NotNegative i = is_at_most decimal_zero i.0 ≡ true

pub true_of_not : (b : Bool) → not b ≡ false → b ≡ true
true_of_not true h = refl
true_of_not false h = ground arith

normal_interval-Denotes :
    (o : Option Interval) (n : Normal)
    → normal_interval o ≡ ok n
    → (i : Interval) × (o ≡ some i) × Denotes n i × NotNegative i
normal_interval-Denotes none n h = absurd (ground arith)
normal_interval-Denotes (some i) n h =
    let (positive, same) =
      refuse_if-eq-ok (below i.0 decimal_zero) (ok (range (fixed_text i.0) (fixed_text i.1))) h in
    (
      i,
      refl,
      subst (λ m. Denotes m i) (ok-injective same)
          (decimal_of-fixed_text i.0, decimal_of-fixed_text i.1),
      true_of_not _ positive,
    )

module _ (d : SpecificationDefinition) (unit : Text) (measured : d.unit ≡ some unit) where
  -- A value that is accepted for a field with a unit is an interval in that unit.
  value_of-Denotes :
      (s : Text) (basis : Json) (n : Normal)
      → value_of d (text s) basis ≡ ok n
      → (i : Interval) × (interval s unit ≡ some i) × Denotes n i × NotNegative i
  unfolding value_of
  value_of-Denotes s basis n h =
      let normal : Result Normal = normal_by d.unit d.choices s in
      let (same_basis, h1) =
        refuse_if-eq-ok (not (is_text basis d.basis)) (refuse_if (is_unbounded 100 s) >> normal)
          h in
      let (bounded, h2) = refuse_if-eq-ok (is_unbounded 100 s) normal h1 in
      normal_interval-Denotes (interval s unit) n
        (ap (λ (u : Option Text). normal_by u d.choices s) (sym measured) ∙ h2)

-- The same of the field of a category
pub specification_value-Denotes :
    (category name s : Text) (basis : Json) (n : Normal) (d : SpecificationDefinition) (unit : Text)
    → definition category name ≡ ok d
    → d.unit ≡ some unit
    → specification_value category name (text s) basis ≡ ok n
    → (i : Interval) × (interval s unit ≡ some i) × Denotes n i × NotNegative i
unfolding specification_value
specification_value-Denotes category name s basis n d unit defined measured h =
    value_of-Denotes d unit measured s basis n (rw defined at h)

normal_choice-eq :
    (choices : List Text) (s : Text) (n : Normal) → normal_choice choices s ≡ ok n → n ≡ choice s
normal_choice-eq [] s n h = sym (ok-injective h)
normal_choice-eq (c ∷ cs) s n h =
    let (listed, same) = refuse_if-eq-ok (not (among s (c ∷ cs))) (ok (choice s)) h in
    sym (ok-injective same)

-- A value of a field without a unit is kept as it is.
pub specification_value-choice :
    (category name s : Text) (basis : Json) (n : Normal) (d : SpecificationDefinition)
    → definition category name ≡ ok d
    → d.unit ≡ none
    → specification_value category name (text s) basis ≡ ok n
    → n ≡ choice s
unfolding specification_value value_of
specification_value-choice category name s basis n d defined unmeasured h =
    let normal : Result Normal = normal_by d.unit d.choices s in
    let here : value_of d (text s) basis ≡ ok n = rw defined at h in
    let (same_basis, h1) =
      refuse_if-eq-ok (not (is_text basis d.basis)) (refuse_if (is_unbounded 100 s) >> normal)
        here in
    let (bounded, h2) = refuse_if-eq-ok (is_unbounded 100 s) normal h1 in
    normal_choice-eq d.choices s n
      (ap (λ (u : Option Text). normal_by u d.choices s) (sym unmeasured) ∙ h2)

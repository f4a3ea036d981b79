-- ===== src/Normalization/Validation.antt =====
-- What fields that `validate_fields` of domain/normalization.py accepts have in common.
use parts_bin.Prelude.{
  ◌≡◌, refl, sym, ap, ◌∙◌, subst, Bool, true, false, ◌&&◌, Option, none, some, arith, Bool-cases,
  inl, inr, ℤ, pos, negsuc, is_negative, some-injective, if◌then◌else◌,
}
use parts_bin.Storage.Parts.{Text, Profile, passive, discrete_ic, PartFields}
use parts_bin.Storage.Tx.{ok}
use parts_bin.Texts.{strip}
use parts_bin.Prelude.{[], ◌∷◌}
use parts_bin.Inventory.{is_passive_category}
use parts_bin.Normalization.{
  FieldValue, null, text, number, boolean, Draft, Readers, nominal_for_category, with_nominal,
  normalize_value, normalize_part_payload, clean_text, ◌>>=◌, required_text, optional_text,
  profile_of, quantity_of_value, typed, is_url, is_unit_of, accept_fields, validate_fields,
}
use parts_bin.Normalization.Repair.{
  repair_fields, with_slots, Slots, slots_of, swap_slots, drop_part_number,
}

>>=-eq-some :
    {A B : Type 0} (o : Option A) (k : A → Option B) {b : B}
    → (o >>= k) ≡ some b
    → (a : A) × (o ≡ some a) × (k a ≡ some b)
>>=-eq-some none k h = absurd (ground arith)
>>=-eq-some (some a) k h = (a, refl, h)

-- A quantity that is accepted is the one that was given, and not negative.
quantity_of_value-eq-some :
    (v : FieldValue) (q : ℤ)
    → quantity_of_value (clean_text v) ≡ some q
    → (v ≡ number q) × (is_negative q ≡ false)
quantity_of_value-eq-some (number (pos n)) q h =
    let same : pos n ≡ q = ground arith in (ap number same, ap is_negative (sym same))
quantity_of_value-eq-some (number (negsuc n)) q h = absurd (ground arith)
quantity_of_value-eq-some (boolean b) q h = absurd (ground arith)
quantity_of_value-eq-some null q h = absurd (ground arith)
quantity_of_value-eq-some (text s) q h = by_strip (strip s) h
  where
    by_strip :
        (t : Text)
        → quantity_of_value (elim t [ [] ↦ null | c ∷ u ↦ text (c ∷ u) ]) ≡ some q
        → (text s ≡ number q) × (is_negative q ≡ false)
    by_strip [] h = absurd (ground arith)
    by_strip (c ∷ u) h = absurd (ground arith)

typed-eq-some :
    (d : Draft) (f : PartFields)
    → typed d ≡ some f
    → (d.quantity ≡ number f.quantity) × (is_negative f.quantity ≡ false)
unfolding typed
typed-eq-some d f h =
    let (category, e0, h0) = >>=-eq-some (required_text (clean_text d.part_category)) _ h in
    let (profile, e1, h1) = >>=-eq-some (profile_of (clean_text d.profile)) _ h0 in
    let (value, e2, h2) = >>=-eq-some (optional_text (clean_text d.value)) _ h1 in
    let (case, e3, h3) = >>=-eq-some (optional_text (clean_text d.«package»)) _ h2 in
    let (part, e4, h4) = >>=-eq-some (optional_text (clean_text d.part_number)) _ h3 in
    let (maker, e5, h5) = >>=-eq-some (optional_text (clean_text d.manufacturer)) _ h4 in
    let (description, e6, h6) = >>=-eq-some (optional_text (clean_text d.description)) _ h5 in
    let (url, e7, h7) = >>=-eq-some (optional_text (clean_text d.datasheet_url)) _ h6 in
    let (unit, e8, h8) = >>=-eq-some (optional_text (clean_text d.value_unit)) _ h7 in
    let (quantity, e9, h9) = >>=-eq-some (quantity_of_value (clean_text d.quantity)) _ h8 in
    let same : quantity ≡ f.quantity = ap (λ (g : PartFields). g.quantity) (some-injective h9) in
    subst (λ q. (d.quantity ≡ number q) × (is_negative q ≡ false)) same
      (quantity_of_value-eq-some d.quantity quantity e9)

-- The fields of a part that normalization leaves as they are.
abbrev SameKind : PartFields → PartFields → Type 0
SameKind f g =
    (f.quantity ≡ g.quantity) × (f.part_category ≡ g.part_category) × (f.profile ≡ g.profile)

with_nominal-SameKind :
    (readers : Readers) (v : Text) (o : Option (Text × Text)) (f : PartFields)
    → SameKind (with_nominal readers v o f) f
with_nominal-SameKind readers v (some w) f = (refl, refl, refl)
with_nominal-SameKind readers v none f = by_profile f.profile
  where
    by_profile :
        (p : Profile)
        → SameKind (elim p [ passive ↦ record f { value = some (strip v) } | discrete_ic ↦ f ]) f
    by_profile passive = (refl, refl, refl)
    by_profile discrete_ic = (refl, refl, refl)

normalize_value-SameKind :
    (readers : Readers) (o : Option Text) (f : PartFields)
    → SameKind (normalize_value readers o f) f
normalize_value-SameKind readers none f = (refl, refl, refl)
normalize_value-SameKind readers (some v) f =
    with_nominal-SameKind readers v (nominal_for_category readers v f.part_category f.value_unit) f

with_slots-keeps :
    (b : Bool) (s : Slots) (f : PartFields)
    → ((if b then with_slots s f else f).quantity ≡ f.quantity)
      × ((if b then with_slots s f else f).part_category ≡ f.part_category)
      × (b ≡ true → (if b then with_slots s f else f).profile ≡ passive)
with_slots-keeps true s f = (refl, refl, λ h. refl)
with_slots-keeps false s f = (refl, refl, λ h. absurd (ground arith))

-- Normalization keeps quantity and category, and makes the profile of a passive category passive.
pub normalize_part_payload-keeps :
    (readers : Readers) (f : PartFields)
    → ((normalize_part_payload readers f).quantity ≡ f.quantity)
      × ((normalize_part_payload readers f).part_category ≡ f.part_category)
      × (is_passive_category f.part_category ≡ true
          → (normalize_part_payload readers f).profile ≡ passive)
unfolding normalize_part_payload repair_fields
normalize_part_payload-keeps readers f =
    let repaired =
      with_slots-keeps (is_passive_category f.part_category)
        (drop_part_number (swap_slots (slots_of f))) f in
    let g = repair_fields f in
    let same = normalize_value-SameKind readers g.value g in
    (same.0 ∙ repaired.0, same.1 ∙ repaired.1, λ h. same.2 ∙ repaired.2 h)

accept_fields-eq-ok :
    (readers : Readers) (o : Option PartFields) (g : PartFields)
    → accept_fields readers o ≡ ok g
    → (f : PartFields) × (o ≡ some f) × (normalize_part_payload readers f ≡ g)
accept_fields-eq-ok readers none g h = absurd (ground arith)
accept_fields-eq-ok readers (some f) g h =
    elim (Bool-cases (is_url readers f.datasheet_url && is_unit_of readers f f.value_unit)) [
      | inl fits ↦ (f, refl, ground arith)
      | inr refused ↦ absurd (ground arith)
    ]

-- Fields that are accepted have the quantity of the request, which is not negative, and the passive
-- profile where their category is passive.
pub validate_fields_sound :
    (readers : Readers) (d : Draft) (g : PartFields)
    → validate_fields readers d ≡ ok g
    → (d.quantity ≡ number g.quantity)
      × (is_negative g.quantity ≡ false)
      × (is_passive_category g.part_category ≡ true → g.profile ≡ passive)
unfolding validate_fields
validate_fields_sound readers d g h =
    let (f, is_typed, normal) = accept_fields-eq-ok readers (typed d) g h in
    let (given, counted) = typed-eq-some d f is_typed in
    let (quantity, category, profile) = normalize_part_payload-keeps readers f in
    let kept : f.quantity ≡ g.quantity =
      sym quantity ∙ ap (λ (x : PartFields). x.quantity) normal in
    (
      given ∙ ap number kept,
      ap is_negative (sym kept) ∙ counted,
      λ is_passive.
          ap (λ (x : PartFields). x.profile) (sym normal)
          ∙ profile (
              ap is_passive_category
                (sym category ∙ ap (λ (x : PartFields). x.part_category) normal)
              ∙ is_passive),
    )

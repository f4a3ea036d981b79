-- ===== src/Electrical/Facts/Accepted.antt =====
-- What the facts have in common that `validate_facts` of domain/specifications.py accepts.
use parts_bin.Prelude.{
  suc, ◌≤◌, ◌≡◌, refl, ap, subst, Bool, true, false, not, ◌&&◌, ◌||◌, List, [], ◌∷◌, length, leb,
  leb→le, Option, some, arith,
}
use parts_bin.Storage.Parts.{Text, same_text}
use parts_bin.Storage.Tx.{ok}
use parts_bin.Texts.{codes, among}
use parts_bin.Electrical.Quantities.{Interval, interval}
use parts_bin.Electrical.Results.{>>=-eq-ok, refuse_if-eq-ok, ok-injective}
use parts_bin.Electrical.Json.{Json, text, text_of, array_of, object_of}
use parts_bin.Electrical.Catalogue.{SpecificationDefinition}
use parts_bin.Electrical.Specifications.{
  Normal, definition, specification_value, conditions, max_conditions,
}
use parts_bin.Electrical.Specifications.Accepting.{
  Denotes, NotNegative, specification_value-Denotes, true_of_not,
}
use parts_bin.Electrical.Facts.{
  SpecificationFact, is_range, passive_identities, check_evidence, fact_keys, validate_fact,
  validate_facts_each, is_list_size, validate_facts,
}
use parts_bin.Electrical.Facts.Checks.{Readers, member, has_only}
use parts_bin.Electrical.Evaluation.Validated.{Each, text_of-eq-ok}
use parts_bin.Electrical.Facts.Evidence.{
  conditions_bounded, NamesPart, is_source, check_evidence-NamesPart,
}

-- An accepted fact: its field is one of the category, on the field's basis, with at most twelve
-- conditions. In a field with a unit its value is an interval from zero up. If it claims a source,
-- that source names the ordering code of the part.
abbrev pub IsAccepted : Text → Option Text → SpecificationFact → Type 0
IsAccepted category part_number f =
    ((n : Normal) × (specification_value category f.name (text f.value) (text f.basis) ≡ ok n)
      × ((d : SpecificationDefinition) (unit : Text)
          → definition category f.name ≡ ok d
          → d.unit ≡ some unit
          → (i : Interval) × (interval f.value unit ≡ some i) × Denotes n i × NotNegative i))
    × (length f.conditions ≤ max_conditions)
    × (is_source f.evidence ≡ true → NamesPart part_number f.evidence)

both : (p q : Bool) → (p && q) ≡ true → (p ≡ true) × (q ≡ true)
both true q h = (refl, h)
both false q h = absurd (ground arith)

neither : (p q : Bool) → (p || q) ≡ false → (p ≡ false) × (q ≡ false)
neither true q h = absurd (ground arith)
neither false q h = (refl, h)

-- No two facts have the same name.
abbrev pub Distinct : List SpecificationFact → Type 0
Distinct [] = Unit {0}
Distinct (f ∷ fs) =
    Each (λ (g : SpecificationFact). same_text g.name f.name ≡ false) fs × Distinct fs

module _ (readers : Readers) (category : Text) (part_number : Option Text) where
  validate_fact-IsAccepted :
      (names : List Text) (raw : Json) (f : SpecificationFact)
      → validate_fact readers category part_number names raw ≡ ok f
      → IsAccepted category part_number f × (among f.name names ≡ false)
  unfolding validate_fact
  validate_fact-IsAccepted names raw f h =
      let (entries, e0, h0) = >>=-eq-ok (object_of raw) _ h in
      let (only, h1) = refuse_if-eq-ok (not (has_only fact_keys entries)) _ h0 in
      let value_json = member (codes "value") entries in
      let basis_json = member (codes "basis") entries in
      let (name, e2, h2) = >>=-eq-ok (text_of (member (codes "name") entries)) _ h1 in
      let (fresh, h3) = refuse_if-eq-ok (among name names) _ h2 in
      let (normal, e4, h4) =
        >>=-eq-ok (specification_value category name value_json basis_json) _ h3 in
      let (scalar, h5) = refuse_if-eq-ok (among name passive_identities && is_range normal) _ h4 in
      let (qualified, e6, h6) = >>=-eq-ok (conditions (member (codes "conditions") entries)) _ h5 in
      let (evidence, e7, h7) = >>=-eq-ok (object_of (member (codes "evidence") entries)) _ h6 in
      let (u8, e8, h8) = >>=-eq-ok (check_evidence readers part_number evidence) _ h7 in
      let (value, e9, h9) = >>=-eq-ok (text_of value_json) _ h8 in
      let (basis, e10, h10) = >>=-eq-ok (text_of basis_json) _ h9 in
      let accepted : specification_value category name (text value) (text basis) ≡ ok normal =
        subst (λ j. specification_value category name (text value) j ≡ ok normal)
          (text_of-eq-ok basis_json basis e10)
          (subst (λ j. specification_value category name j basis_json ≡ ok normal)
            (text_of-eq-ok value_json value e9) e4) in
      subst
        (λ (g : SpecificationFact).
          IsAccepted category part_number g × (among g.name names ≡ false))
        (ok-injective h10)
        (
          (
            (
              normal,
              accepted,
              λ d unit defined measured.
                  specification_value-Denotes category name value (text basis) normal d unit defined
                    measured accepted,
            ),
            conditions_bounded (member (codes "conditions") entries) qualified e6,
            check_evidence-NamesPart readers part_number evidence e8,
          ),
          fresh,
        )

  apart :
      (name : Text) (names : List Text) (fs : List SpecificationFact)
      → Each (λ (g : SpecificationFact). among g.name (name ∷ names) ≡ false) fs
      → Each (λ (g : SpecificationFact). same_text g.name name ≡ false) fs
        × Each (λ (g : SpecificationFact). among g.name names ≡ false) fs
  apart name names [] h = (tt, tt)
  apart name names (f ∷ fs) (h, hs) =
      let (others, older) = apart name names fs hs in
      let (this, old) = neither (same_text f.name name) (among f.name names) h in
      ((this, others), (old, older))

  validate_facts_each-IsAccepted :
      (names : List Text) (raws : List Json) (fs : List SpecificationFact)
      → validate_facts_each readers category part_number names raws ≡ ok fs
      → Each (IsAccepted category part_number) fs
        × Distinct fs
        × Each (λ (g : SpecificationFact). among g.name names ≡ false) fs
        × (length fs ≡ length raws)
  validate_facts_each-IsAccepted names [] fs h =
      subst
        (λ gs.
          Each (IsAccepted category part_number) gs
          × Distinct gs
          × Each (λ (g : SpecificationFact). among g.name names ≡ false) gs
          × (length gs ≡ 0))
        (ok-injective h) (tt, tt, tt, refl)
  validate_facts_each-IsAccepted names (raw ∷ raws) fs h =
      let (f, e0, h0) = >>=-eq-ok (validate_fact readers category part_number names raw) _ h in
      let (gs, e1, h1) =
        >>=-eq-ok (validate_facts_each readers category part_number (f.name ∷ names) raws) _ h0 in
      let (accepted, fresh) = validate_fact-IsAccepted names raw f e0 in
      let (rest, distinct, others, counted) =
        validate_facts_each-IsAccepted (f.name ∷ names) raws gs e1 in
      let (unlike, old) = apart f.name names gs others in
      subst
        (λ gs'.
          Each (IsAccepted category part_number) gs'
          × Distinct gs'
          × Each (λ (g : SpecificationFact). among g.name names ≡ false) gs'
          × (length gs' ≡ suc (length raws)))
        (ok-injective h1) ((accepted, rest), (unlike, distinct), (fresh, old), ap suc counted)

  -- Facts that are accepted are one to twenty, of distinct names. Each has a field of its category, on
  -- the field's basis, and at most twelve conditions; in a field with a unit its value is an interval
  -- from zero up, which the normalized value denotes; and one that claims a source carries the part's
  -- ordering code, which is not empty.
  pub validate_facts_sound :
      (raw : Json) (fs : List SpecificationFact)
      → validate_facts readers category part_number raw ≡ ok fs
      → (1 ≤ length fs) × (length fs ≤ 20) × Distinct fs × Each (IsAccepted category part_number) fs
  unfolding validate_facts
  validate_facts_sound raw fs h =
      let (records, e0, h0) = >>=-eq-ok (array_of raw) _ h in
      let (counted, h1) = refuse_if-eq-ok (not (is_list_size (length records))) _ h0 in
      let (accepted, distinct, fresh, same) = validate_facts_each-IsAccepted [] records fs h1 in
      let (some_, few) =
        both (leb 1 (length records)) (leb (length records) 20) (true_of_not _ counted) in
      (
        omega (arith, same, leb→le 1 (length records) some_),
        omega (arith, same, leb→le (length records) 20 few),
        distinct,
        accepted,
      )

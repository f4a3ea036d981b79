-- ===== src/Electrical/Conditions/Covering.antt =====
-- What `conditions_cover` of domain/specification_conditions.py says of the conditions on either side.
use parts_bin.Prelude.{
  ◌≡◌, refl, sym, subst, Bool, true, false, ◌&&◌, List, [], ◌∷◌, Option, some, arith, Bool-cases,
  inl, inr, some-injective,
}
use parts_bin.Storage.Parts.{Text, same_text}
use parts_bin.Texts.{among, same_text_refl, same_text-eq}
use parts_bin.Electrical.Entries.{lookup, keys, all_among}
use parts_bin.Electrical.Decimals.{Decimal}
use parts_bin.Electrical.Decimals.Order.{at_most_trans}
use parts_bin.Electrical.Quantities.Comparing.{contains_interval}
use parts_bin.Electrical.Quantities.Meaning.{Within}
use parts_bin.Electrical.Conditions.{
  Conditions, ConditionValue, literal, measured, Comparable, covers_value, passes, all_pass,
  comparable_conditions, conditions_cover,
}

pub both : (p q : Bool) → (p && q) ≡ true → (p ≡ true) × (q ≡ true)
both true q h = (refl, h)
both false q h = absurd (ground arith)

same_text_comm : (s t : Text) → same_text s t ≡ same_text t s
same_text_comm [] [] = refl
same_text_comm [] (d ∷ t) = refl
same_text_comm (c ∷ s) [] = refl
same_text_comm (c ∷ s) (d ∷ t) = ground (arith, same_text_comm s t)

module _ {A : Type 0} where
  among-lookup :
      (k : Text) (m : List (Text × A)) (a : A) → lookup k m ≡ some a → among k (keys m) ≡ true
  among-lookup k [] a h = absurd (ground arith)
  among-lookup k ((j, b) ∷ m) a h = elim (Bool-cases (same_text j k)) [
    | inl e ↦ let same : k ≡ j = sym (same_text-eq j k e) in rw same (rw (same_text_refl j) refl)
    | inr e ↦
        let rest = among-lookup k m a (rw e at h) in
        elim (Bool-cases (same_text k j)) [ inl f ↦ rw f refl | inr f ↦ rw f rest ]
  ]

  lookup-among :
      (k : Text) (m : List (Text × A)) → among k (keys m) ≡ true → (a : A) × (lookup k m ≡ some a)
  lookup-among k [] h = absurd (ground arith)
  lookup-among k ((j, b) ∷ m) h = elim (Bool-cases (same_text j k)) [
    | inl e ↦ (b, rw e refl)
    | inr e ↦ elim (Bool-cases (same_text k j)) [
      | inl f ↦ absurd (ground (arith, same_text_comm j k))
      | inr f ↦ let (a, found) = lookup-among k m (rw f at h) in (a, rw e found)
    ]
  ]

all_among-among :
    (k : Text) (ts us : List Text) → all_among ts us ≡ true → among k ts ≡ true → among k us ≡ true
all_among-among k [] us h e = absurd (ground arith)
all_among-among k (t ∷ ts) us h e =
    let (here, rest) = both _ _ h in
    elim (Bool-cases (same_text k t)) [
      | inl f ↦ subst (λ s. among s us ≡ true) (sym (same_text-eq k t f)) here
      | inr f ↦ all_among-among k ts us rest (rw f at e)
    ]

module _ (test : ConditionValue → ConditionValue → Bool) where
  all_pass-lookup :
      (left right : Comparable) (k : Text) (v : ConditionValue)
      → all_pass test left right ≡ true
      → lookup k left ≡ some v
      → passes test v (lookup k right) ≡ true
  all_pass-lookup [] right k v h e = absurd (ground arith)
  all_pass-lookup ((j, w) ∷ left) right k v h e =
      let (here, rest) = both _ _ h in
      elim (Bool-cases (same_text j k)) [
        | inl f ↦
            subst (λ x. passes test x (lookup k right) ≡ true) (some-injective (rw f at e))
              (subst (λ s. passes test w (lookup s right) ≡ true) (same_text-eq j k f) here)
        | inr f ↦ all_pass-lookup left right k v rest (rw f at e)
      ]

-- A requested text is the stored one, and a requested interval holds no value that the stored one does
-- not hold.
abbrev pub Covers : ConditionValue → ConditionValue → Type 0
Covers (literal s) (literal t) = s ≡ t
Covers (measured u i) (measured v j) = (u ≡ v) × ((x : Decimal) → Within x j → Within x i)
Covers _ _ = ⊥

covers_value-Covers : (v w : ConditionValue) → covers_value v w ≡ true → Covers v w
unfolding contains_interval
covers_value-Covers (literal s) (literal t) h = same_text-eq s t h
covers_value-Covers (literal s) (measured u j) h = absurd (ground arith)
covers_value-Covers (measured u i) (literal t) h = absurd (ground arith)
covers_value-Covers (measured u i) (measured v j) h =
    let (unit, ends) = both _ _ h in
    let (low, high) = both _ _ ends in
    (
      same_text-eq u v unit,
      λ x w. (at_most_trans i.0 j.0 x low w.0, at_most_trans x j.1 i.1 w.1 high),
    )

passes-Covers :
    (v t : ConditionValue) (o : Option ConditionValue)
    → passes covers_value v o ≡ true
    → o ≡ some t
    → Covers v t
passes-Covers v t o h e = covers_value-Covers v t (rw e at h)

-- Every requested condition is stated by the stored ones too and covered there, and the stored ones
-- state no condition that is not requested.
pub conditions_cover-Covers :
    (available requested : Conditions)
    → conditions_cover available requested ≡ true
    → (k : Text)
    → ((t : ConditionValue)
        → lookup k (comparable_conditions requested) ≡ some t
        → (v : ConditionValue) × (lookup k (comparable_conditions available) ≡ some v) × Covers v t)
      × ((v : ConditionValue)
          → lookup k (comparable_conditions available) ≡ some v
          → (t : ConditionValue) × (lookup k (comparable_conditions requested) ≡ some t))
unfolding conditions_cover
conditions_cover-Covers available requested h k =
    let left = comparable_conditions available in
    let right = comparable_conditions requested in
    let (same, pass) = both _ _ h in
    let (to, from) = both _ _ same in
    (
      λ t found.
          let (v, stated) =
            lookup-among k left
              (all_among-among k (keys right) (keys left) from (among-lookup k right t found)) in
          (
            v,
            stated,
            passes-Covers v t _ (all_pass-lookup covers_value left right k v pass stated) found,
          ),
      λ v found.
          lookup-among k right
            (all_among-among k (keys left) (keys right) to (among-lookup k left v found)),
    )

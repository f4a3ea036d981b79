-- ===== src/Electrical/Conditions/Raw.antt =====
-- What `conditions_cover` of domain/specification_conditions.py says of the conditions as they are
-- stated.
use parts_bin.Prelude.{
  ◌≡◌, refl, sym, ap, ◌∙◌, subst, true, Option, none, some, arith, Option-cases, inl, inr, ◌⊎◌,
  some-injective,
}
use parts_bin.Storage.Parts.{Text}
use parts_bin.Electrical.Entries.{lookup}
use parts_bin.Electrical.Decimals.{Decimal}
use parts_bin.Electrical.Quantities.{Interval, interval}
use parts_bin.Electrical.Quantities.Meaning.{Within}
use parts_bin.Electrical.Conditions.{
  condition_units, ConditionValue, literal, measured, Conditions, literals, conditions_cover,
}
use parts_bin.Electrical.Conditions.Covering.{Covers, conditions_cover-Covers}
use parts_bin.Electrical.Conditions.Stated.{
  is_plain, comparable-reading, comparable_absent, comparable-is_plain, lookup-literals,
  lookup-literals-none,
}
use parts_bin.Electrical.Conditions.Names.{tolerance, reading}

-- A text in a unit covers another: it is the same, or both read as intervals, and every value of the
-- other's is one of its own.
abbrev pub Spans : Text → Text → Text → Type 0
Spans unit r s =
    (r ≡ s)
    ⊎ ((i : Interval) × (j : Interval) × (interval r unit ≡ some i)
        × (interval s unit ≡ some j)
        × ((x : Decimal) → Within x j → Within x i))

reading-Spans :
    (unit r s : Text) (o p : Option Interval)
    → interval r unit ≡ o
    → interval s unit ≡ p
    → Covers
        (elim o [ none ↦ literal r | some i ↦ measured unit i ])
        (elim p [ none ↦ literal s | some j ↦ measured unit j ])
    → Spans unit r s
reading-Spans unit r s none none is_o is_p h = inl h
reading-Spans unit r s none (some j) is_o is_p h = absurd h
reading-Spans unit r s (some i) none is_o is_p h = absurd h
reading-Spans unit r s (some i) (some j) is_o is_p h = inr (i, j, is_o, is_p, h.1)

lookup-literals-some :
    (k : Text) (raw : Conditions) (v : ConditionValue)
    → lookup k (literals raw) ≡ some v
    → (s : Text) × (lookup k raw ≡ some s) × (v ≡ literal s)
lookup-literals-some k raw v h = elim (Option-cases (lookup k raw)) [
  | inl missing ↦ absurd (ground (arith, lookup-literals-none k raw missing))
  | inr (s, stated) ↦ (s, stated, some-injective (sym h ∙ lookup-literals k raw s stated))
]

-- Both sides state the name, and one text covers the other, or neither side states it.
abbrev pub SpansStated : Text → Option Text → Option Text → Type 0
SpansStated unit none none = Unit
SpansStated unit (some r) (some s) = Spans unit r s
SpansStated _ _ _ = ⊥

covers_plain :
    (available requested : Conditions) (k : Text)
    → conditions_cover available requested ≡ true
    → is_plain k ≡ true
    → lookup k available ≡ lookup k requested
covers_plain available requested k h plain =
    let (to, from) = conditions_cover-Covers available requested h k in
    let left = comparable-is_plain available k plain in
    let right = comparable-is_plain requested k plain in
    elim (Option-cases (lookup k requested)) [
      | inr (s, asked) ↦
          let (v, stated, covers) = to (literal s) (right ∙ lookup-literals k requested s asked) in
          let (r, is_r, is_v) = lookup-literals-some k available v (sym left ∙ stated) in
          let same : r ≡ s = subst (λ x. Covers x (literal s)) is_v covers in
          is_r ∙ ap some same ∙ sym asked
      | inl missing ↦ elim (Option-cases (lookup k available)) [
        | inl absent ↦ absent ∙ sym missing
        | inr (r, is_r) ↦
            let (t, found) = from (literal r) (left ∙ lookup-literals k available r is_r) in
            absurd (ground (arith, found, right ∙ lookup-literals-none k requested missing))
      ]
    ]

covers_measured :
    (available requested : Conditions) (k unit : Text)
    → conditions_cover available requested ≡ true
    → lookup k condition_units ≡ some unit
    → lookup (tolerance k) available ≡ none
    → lookup (tolerance k) requested ≡ none
    → SpansStated unit (lookup k available) (lookup k requested)
covers_measured available requested k unit h listed plain_left plain_right =
    by_stated (lookup k available) (lookup k requested) refl refl
  where
    by_stated :
        (o p : Option Text) → lookup k available ≡ o → lookup k requested ≡ p → SpansStated unit o p
    by_stated none none e f = tt
    by_stated (some r) (some s) e f =
        let (to, from) = conditions_cover-Covers available requested h k in
        let (v, stated, covers) =
          to (reading unit s) (comparable-reading requested k unit s listed plain_right f) in
        let is_v : v ≡ reading unit r =
          some-injective (sym stated ∙ comparable-reading available k unit r listed plain_left e) in
        reading-Spans unit r s (interval r unit) (interval s unit) refl refl
          (subst (λ x. Covers x (reading unit s)) is_v covers)
    by_stated (some r) none e f =
        let (to, from) = conditions_cover-Covers available requested h k in
        let (t, found) =
          from (reading unit r) (comparable-reading available k unit r listed plain_left e) in
        absurd (ground (arith, found, comparable_absent requested k unit listed f))
    by_stated none (some s) e f =
        let (to, from) = conditions_cover-Covers available requested h k in
        let (v, stated, covers) =
          to (reading unit s) (comparable-reading requested k unit s listed plain_right f) in
        absurd (ground (arith, stated, comparable_absent available k unit listed e))

-- Where conditions cover others, both state the same under every plain name: neither measured, nor a
-- tolerance, nor a type of current, voltage or load. A measured name beside which neither side states a
-- tolerance is stated by both or by none, and the stored text is the requested one or, both being
-- intervals in the name's unit, holds every value of the requested one.
pub conditions_cover_sound :
    (available requested : Conditions) (k m unit : Text)
    → conditions_cover available requested ≡ true
    → is_plain k ≡ true
    → lookup m condition_units ≡ some unit
    → lookup (tolerance m) available ≡ none
    → lookup (tolerance m) requested ≡ none
    → (lookup k available ≡ lookup k requested)
      × SpansStated unit (lookup m available) (lookup m requested)
conditions_cover_sound available requested k m unit h plain listed plain_left plain_right = (
  covers_plain available requested k h plain,
  covers_measured available requested m unit h listed plain_left plain_right,
)

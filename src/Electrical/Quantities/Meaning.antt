-- ===== src/Electrical/Quantities/Meaning.antt =====
-- What a comparison of intervals says of the values within them.
use parts_bin.Prelude.{
  ◌≡◌, ◌≢◌, ◌↔◌, inl, inr, refl, Bool, true, false, not, ◌&&◌, ◌||◌, some, arith, Bool-cases,
}
use parts_bin.Electrical.Decimals.{Decimal, is_at_most, below, same_number}
use parts_bin.Electrical.Decimals.Order.{at_most_refl, at_most_trans, at_most_total}
use parts_bin.Electrical.Quantities.{Interval}
use parts_bin.Electrical.Quantities.Comparing.{
  Comparison, eq, gte, lte, verdict, compare_intervals, contains_interval,
}

-- The endpoints stand in their order.
abbrev pub IsOrdered : Interval → Type 0
IsOrdered i = is_at_most i.0 i.1 ≡ true

-- A value within an interval
abbrev pub Within : Decimal → Interval → Type 0
Within x i = (is_at_most i.0 x ≡ true) × (is_at_most x i.1 ≡ true)

-- A value that satisfies a limit, whatever value of the requested interval the limit is.
abbrev pub Meets : Comparison → Decimal → Interval → Type 0
Meets eq x r = Within x r
Meets gte x r = (y : Decimal) → Within y r → is_at_most y x ≡ true
Meets lte x r = (y : Decimal) → Within y r → is_at_most x y ≡ true

-- Every stored value meets the request; for equality, the two hold the same values.
abbrev pub Confirmed : Comparison → Interval → Interval → Type 0
Confirmed eq l r = (x : Decimal) → Within x l ↔ Within x r
Confirmed gte l r = (x : Decimal) → Within x l → Meets gte x r
Confirmed lte l r = (x : Decimal) → Within x l → Meets lte x r

-- No stored value meets the request.
abbrev pub Refuted : Comparison → Interval → Interval → Type 0
Refuted c l r = (x : Decimal) → Within x l → ¬ Meets c x r

verdict-true : (p q : Bool) → (verdict p q ≡ some true) ↔ (p ≡ true)
verdict-true true q = (λ h. refl, λ h. refl)
verdict-true false true = (λ h. ground arith, λ h. ground arith)
verdict-true false false = (λ h. ground arith, λ h. ground arith)

verdict-false : (p q : Bool) → (verdict p q ≡ some false) ↔ ((p ≡ false) × (q ≡ true))
verdict-false true q = (λ h. ground arith, λ h. ground arith)
verdict-false false true = (λ h. (refl, refl), λ h. refl)
verdict-false false false = (λ h. ground arith, λ h. ground arith)

not_both : (b : Bool) → b ≡ false → b ≢ true
not_both b h k = ground arith

false_of_not : (b : Bool) → b ≢ true → b ≡ false
false_of_not true h = absurd (h refl)
false_of_not false h = refl

four :
    (p q r s : Bool)
    → ((p && q) && (r && s)) ≡ true
    → (p ≡ true) × (q ≡ true) × (r ≡ true) × (s ≡ true)
four true true true true h = (refl, refl, refl, refl)
four false q r s h = absurd (ground arith)
four true false r s h = absurd (ground arith)
four true true false s h = absurd (ground arith)
four true true true false h = absurd (ground arith)

all_four :
    (p q r s : Bool) → p ≡ true → q ≡ true → r ≡ true → s ≡ true → ((p && q) && (r && s)) ≡ true
all_four p q r s a b c d = rw (a, b, c, d)

both : (p q : Bool) → (p && q) ≡ true → (p ≡ true) × (q ≡ true)
both true q h = (refl, h)
both false q h = absurd (ground arith)

all_both : (p q : Bool) → p ≡ true → q ≡ true → (p && q) ≡ true
all_both p q a b = rw (a, b)

-- Of two tests one fails.
apart : (p q : Bool) → (not p || not q) ≡ true → p ≡ true → q ≡ true → ⊥
apart p q h a b = ground arith

not_meeting : (p q : Bool) → (p ≡ true → q ≡ true → ⊥) → (not p || not q) ≡ true
not_meeting true true h = absurd (h refl refl)
not_meeting true false h = refl
not_meeting false q h = refl

lower_end : (i : Interval) → IsOrdered i → Within i.0 i
lower_end i o = (at_most_refl i.0, o)

upper_end : (i : Interval) → IsOrdered i → Within i.1 i
upper_end i o = (o, at_most_refl i.1)

module _ (l r : Interval) (lo : IsOrdered l) (ro : IsOrdered r) where
  gte-Confirmed : (compare_intervals l r gte ≡ some true) ↔ Confirmed gte l r
  unfolding compare_intervals
  gte-Confirmed = (
    λ h x wx y wy.
        at_most_trans y r.1 x wy.1
          (at_most_trans r.1 l.0 x ((verdict-true _ (below l.1 r.1)).0 h) wx.0),
    λ h. (verdict-true _ (below l.1 r.1)).1 (h l.0 (lower_end l lo) r.1 (upper_end r ro)),
  )

  gte-Refuted : (compare_intervals l r gte ≡ some false) ↔ Refuted gte l r
  unfolding compare_intervals
  gte-Refuted = (
    λ h x wx m.
        let low : is_at_most r.1 l.1 ≡ false =
          ground (arith, (verdict-false (is_at_most r.1 l.0) (below l.1 r.1)).0 h) in
        not_both _ low (at_most_trans r.1 x l.1 (m r.1 (upper_end r ro)) wx.1),
    λ h.
        let low : is_at_most r.1 l.1 ≡ false =
          false_of_not _ (λ k. h l.1 (upper_end l lo) (λ y wy. at_most_trans y r.1 l.1 wy.1 k)) in
        let lower : is_at_most r.1 l.0 ≡ false =
          false_of_not _ (λ k. not_both _ low (at_most_trans r.1 l.0 l.1 k lo)) in
        (verdict-false _ _).1 (lower, ground arith),
  )

  lte-Confirmed : (compare_intervals l r lte ≡ some true) ↔ Confirmed lte l r
  unfolding compare_intervals
  lte-Confirmed = (
    λ h x wx y wy.
        at_most_trans x l.1 y wx.1
          (at_most_trans l.1 r.0 y ((verdict-true _ (below r.0 l.0)).0 h) wy.0),
    λ h. (verdict-true _ (below r.0 l.0)).1 (h l.1 (upper_end l lo) r.0 (lower_end r ro)),
  )

  lte-Refuted : (compare_intervals l r lte ≡ some false) ↔ Refuted lte l r
  unfolding compare_intervals
  lte-Refuted = (
    λ h x wx m.
        let high : is_at_most l.0 r.0 ≡ false =
          ground (arith, (verdict-false (is_at_most l.1 r.0) (below r.0 l.0)).0 h) in
        not_both _ high (at_most_trans l.0 x r.0 wx.0 (m r.0 (lower_end r ro))),
    λ h.
        let high : is_at_most l.0 r.0 ≡ false =
          false_of_not _ (λ k. h l.0 (lower_end l lo) (λ y wy. at_most_trans l.0 r.0 y k wy.0)) in
        let higher : is_at_most l.1 r.0 ≡ false =
          false_of_not _ (λ k. not_both _ high (at_most_trans l.0 l.1 r.0 lo k)) in
        (verdict-false _ _).1 (higher, ground arith),
  )

  eq-Confirmed : (compare_intervals l r eq ≡ some true) ↔ Confirmed eq l r
  unfolding compare_intervals
  eq-Confirmed = (
    λ h x.
        let (a, b, c, d) = four _ _ _ _ ((verdict-true _ (below l.1 r.0 || below r.1 l.0)).0 h) in
        (
          λ w. (at_most_trans r.0 l.0 x b w.0, at_most_trans x l.1 r.1 w.1 c),
          λ w. (at_most_trans l.0 r.0 x a w.0, at_most_trans x r.1 l.1 w.1 d),
        ),
    λ h.
        let below_l = (h r.0).1 (lower_end r ro) in
        let below_r = (h l.0).0 (lower_end l lo) in
        let above_l = (h r.1).1 (upper_end r ro) in
        let above_r = (h l.1).0 (upper_end l lo) in
        (verdict-true _ (below l.1 r.0 || below r.1 l.0)).1
          (all_four _ _ _ _ below_l.0 below_r.0 above_r.1 above_l.1),
  )

  -- Two intervals of which neither lies below the other share the larger of their lower ends.
  meeting :
      is_at_most r.0 l.1 ≡ true
      → is_at_most l.0 r.1 ≡ true
      → (x : Decimal) × Within x l × Within x r
  meeting a b = elim (Bool-cases (is_at_most l.0 r.0)) [
    | inl le ↦ (r.0, (le, a), lower_end r ro)
    | inr gt ↦ (l.0, lower_end l lo, (at_most_total l.0 r.0 gt, b))
  ]

  eq-Refuted : (compare_intervals l r eq ≡ some false) ↔ Refuted eq l r
  unfolding compare_intervals
  eq-Refuted = (
    λ h x wl wr.
        apart _ _ ((verdict-false _ (below l.1 r.0 || below r.1 l.0)).0 h).1
          (at_most_trans r.0 x l.1 wr.0 wl.1) (at_most_trans l.0 x r.1 wl.0 wr.1),
    λ h.
        let different : (same_number l.0 r.0 && same_number l.1 r.1) ≡ false = false_of_not _ (λ k.
          let (a, b, c, d) = four _ _ _ _ k in
          h l.0 (lower_end l lo) (b, at_most_trans l.0 l.1 r.1 lo c)) in
        (verdict-false _ _).1
          (different, not_meeting _ _ (λ a b. let (x, wl, wr) = meeting a b in h x wl wr)),
  )

  -- The three verdicts on intervals in order are exact: a comparison is confirmed when every stored
  -- value meets the request (for equality, when the two hold the same values), refuted when no stored
  -- value does, and left open otherwise.
  pub compare_intervals-decides :
      (c : Comparison)
      → ((compare_intervals l r c ≡ some true) ↔ Confirmed c l r)
        × ((compare_intervals l r c ≡ some false) ↔ Refuted c l r)
  compare_intervals-decides eq = (eq-Confirmed, eq-Refuted)
  compare_intervals-decides gte = (gte-Confirmed, gte-Refuted)
  compare_intervals-decides lte = (lte-Confirmed, lte-Refuted)

-- Containment is that of values.
pub contains_interval-Within :
    (available requested : Interval)
    → IsOrdered requested
    → (contains_interval available requested ≡ true)
      ↔ ((x : Decimal) → Within x requested → Within x available)
unfolding contains_interval
contains_interval-Within a r o = (
  λ h x w.
      let (low, high) = both _ _ h in
      (at_most_trans a.0 r.0 x low w.0, at_most_trans x r.1 a.1 w.1 high),
  λ h. all_both _ _ (h r.0 (lower_end r o)).0 (h r.1 (upper_end r o)).1,
)

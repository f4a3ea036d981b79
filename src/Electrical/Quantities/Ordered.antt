-- ===== src/Electrical/Quantities/Ordered.antt =====
-- The endpoints of an interval that domain/quantities.py reads stand in their order.
use parts_bin.Prelude.{
  ◌≡◌, subst, Bool, true, false, List, [], ◌∷◌, Option, none, some, arith, Bool-cases, inl, inr,
  some-injective, map, any, ◌==◌, if◌then◌else◌,
}
use parts_bin.Storage.Parts.{Text}
use parts_bin.Texts.{strip}
use parts_bin.Electrical.Quantities.Scanning.{minus_sign, plus_minus, split_on, split_range}
use parts_bin.Electrical.Decimals.{Decimal, decimal_zero, is_at_most}
use parts_bin.Electrical.Decimals.Order.{at_most_refl, plus_spread}
use parts_bin.Electrical.Quantities.{
  Interval, quantity, endpoints, from_first, two_pieces, point_or, interval,
}
use parts_bin.Electrical.Quantities.Meaning.{IsOrdered}

abbrev AllOrdered : Option Interval → Type 0
AllOrdered o = (i : Interval) → o ≡ some i → IsOrdered i

ordered_some : (i : Interval) → IsOrdered i → AllOrdered (some i)
ordered_some i h j e = subst IsOrdered (some-injective e) h

ordered_none : AllOrdered none
ordered_none j e = absurd (ground arith)

endpoints-IsOrdered : (t : Bool) (a b : Option Decimal) → AllOrdered (endpoints t a b)
endpoints-IsOrdered t none b = ordered_none
endpoints-IsOrdered t (some l) none = ordered_none
endpoints-IsOrdered true (some l) (some r) = elim (Bool-cases (is_at_most decimal_zero r)) [
  | inl positive ↦ rw positive (ordered_some _ (plus_spread l r positive))
  | inr negative ↦ rw negative ordered_none
]
endpoints-IsOrdered false (some l) (some r) = elim (Bool-cases (is_at_most l r)) [
  | inl sorted ↦ rw sorted (ordered_some _ sorted)
  | inr unsorted ↦ rw unsorted ordered_none
]

two_pieces-IsOrdered :
    (unit : Text) (t : Bool) (pieces : List Text) → AllOrdered (two_pieces unit t pieces)
two_pieces-IsOrdered unit t [] = ordered_none
two_pieces-IsOrdered unit t (a ∷ []) = ordered_none
two_pieces-IsOrdered unit t (a ∷ b ∷ []) = from_first-IsOrdered _ _
  where
    from_first-IsOrdered :
        (first : Option Text) (second : Text) → AllOrdered (from_first unit t first second)
    from_first-IsOrdered none second = ordered_none
    from_first-IsOrdered (some first) second =
        endpoints-IsOrdered t (quantity first unit) (quantity second unit)
two_pieces-IsOrdered unit t (a ∷ b ∷ c ∷ rest) = ordered_none

point_or-IsOrdered :
    (o : Option Interval) (point : Option Decimal) → AllOrdered o → AllOrdered (point_or o point)
point_or-IsOrdered o none h = h
point_or-IsOrdered o (some p) h = ordered_some (p, p) (at_most_refl p)

-- Whatever text is read as an interval, the first endpoint is at most the second.
pub interval-IsOrdered : (raw unit : Text) (i : Interval) → interval raw unit ≡ some i → IsOrdered i
unfolding interval
interval-IsOrdered raw unit =
    let text = map minus_sign raw in
    let tolerance = any (λ c. c == plus_minus) text in
    let pieces = if tolerance then split_on plus_minus text else split_range false (strip text) in
    point_or-IsOrdered (two_pieces unit tolerance pieces) (quantity text unit)
      (two_pieces-IsOrdered unit tolerance pieces)

-- ===== src/Electrical/Quantities/Comparing.antt =====
-- How domain/quantities.py compares intervals: `compare_intervals`, `contains_interval` and
-- `relative_interval_gap`.
use parts_bin.Prelude.{Bool, true, false, ◌&&◌, ◌||◌, Option, none, some, if◌then◌else◌, ◌==◌}
use parts_bin.Electrical.Decimals.{
  Decimal, decimal_zero, is_at_most, below, same_number, larger, negate, magnitude, add_decimals,
  rounded, quotient,
}
use parts_bin.Electrical.Quantities.{Interval}

-- The comparisons that `validate_requirements` lets through.
pub data Comparison : Type 0 where
  eq gte lte : Comparison

abbrev pub verdict : Bool → Bool → Option Bool
verdict confirmed refuted = if confirmed then some true else if refuted then some false else none

-- A stored interval against the whole of a requested one
unfoldable pub compare_intervals : Interval → Interval → Comparison → Option Bool
compare_intervals left right eq =
    verdict (same_number left.0 right.0 && same_number left.1 right.1)
      (below left.1 right.0 || below right.1 left.0)
compare_intervals left right gte = verdict (is_at_most right.1 left.0) (below left.1 right.1)
compare_intervals left right lte = verdict (is_at_most left.1 right.0) (below right.0 left.0)

unfoldable pub contains_interval : Interval → Interval → Bool
contains_interval available requested =
    is_at_most available.0 requested.0 && is_at_most requested.1 available.1

-- `a - b` under the context
abbrev pub minus_rounded : Decimal → Decimal → Decimal
minus_rounded a b = rounded (add_decimals a (negate b))

abbrev pub gap_of : Interval → Interval → Comparison → Decimal
gap_of left right eq =
    larger (larger decimal_zero (minus_rounded right.0 left.1)) (minus_rounded left.0 right.1)
gap_of left right gte = larger decimal_zero (minus_rounded right.1 left.1)
gap_of left right lte = larger decimal_zero (minus_rounded left.0 right.0)

unfoldable pub relative_interval_gap : Interval → Interval → Comparison → Decimal
unfolding is_at_most add_decimals rounded quotient
relative_interval_gap left right comparison =
    let gap = gap_of left right comparison in
    let scale =
      larger (larger (magnitude left.0) (magnitude left.1))
        (larger (magnitude right.0) (magnitude right.1)) in
    if scale.digits == 0 then decimal_zero else quotient gap scale

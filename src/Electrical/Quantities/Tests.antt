-- ===== src/Electrical/Quantities/Tests.antt =====
-- Intervals that domain/quantities.py reads.
use parts_bin.Prelude.{◌≡◌, ◌↔◌, refl, true, false, none, some}
use parts_bin.Texts.{codes}
use parts_bin.Electrical.Decimals.{
  add_decimals, negate, is_at_most, rounded, quotient, width_within,
}
use parts_bin.Electrical.Decimals.Texts.{decimal_of}
use parts_bin.Electrical.Quantities.{Interval, interval}
use parts_bin.Electrical.Quantities.Comparing.{gte, lte, compare_intervals, relative_interval_gap}
use parts_bin.Electrical.Quantities.Meaning.{Confirmed, Refuted, compare_intervals-decides}
use parts_bin.Electrical.Quantities.Ordered.{interval-IsOrdered}

scalar :
    interval (codes " 4.7 kΩ ") (codes "Ω")
    ≡ some (decimal_of (codes "4700"), decimal_of (codes "4700"))
unfolding interval decimal_of
scalar = refl

range :
    interval (codes "-40 to 85 °C") (codes "°C")
    ≡ some (decimal_of (codes "-40"), decimal_of (codes "85"))
unfolding interval decimal_of is_at_most
range = refl

tolerance :
    interval (codes "5V ± 0.5 V") (codes "V")
    ≡ some (decimal_of (codes "4.5"), decimal_of (codes "5.5"))
unfolding interval decimal_of is_at_most add_decimals
tolerance = refl

rate :
    interval (codes "2 V/µs") (codes "V/s")
    ≡ some (decimal_of (codes "2000000"), decimal_of (codes "2000000"))
unfolding interval decimal_of
rate = refl

wrong_order : interval (codes "5 V – 1 V") (codes "V") ≡ none
unfolding interval decimal_of is_at_most
wrong_order = refl

no_unit : interval (codes "12.5") (codes "V") ≡ none
unfolding interval decimal_of
no_unit = refl

inside_a_word : interval (codes "1 kto 2 V") (codes "V") ≡ none
unfolding interval decimal_of
inside_a_word = refl

-- What a regulator takes, and what it is asked to take.
abbrev stored_interval : Interval
stored_interval = (decimal_of (codes "4.5"), decimal_of (codes "5.5"))

abbrev requested_interval : Interval
requested_interval = (decimal_of (codes "3"), decimal_of (codes "4.5"))

confirmed_gte : compare_intervals stored_interval requested_interval gte ≡ some true
unfolding compare_intervals is_at_most decimal_of
confirmed_gte = refl

refuted : compare_intervals stored_interval requested_interval lte ≡ some false
unfolding compare_intervals is_at_most decimal_of
refuted = refl

left_open : compare_intervals requested_interval stored_interval gte ≡ some false
unfolding compare_intervals is_at_most decimal_of
left_open = refl

-- One volt short of a scale of five and a half
short_by :
    relative_interval_gap requested_interval stored_interval gte
    ≡ quotient (decimal_of (codes "1.0")) (decimal_of (codes "5.5"))
unfolding relative_interval_gap is_at_most decimal_of add_decimals rounded quotient width_within
short_by = refl

compare_intervals-decides_example :
    ((compare_intervals stored_interval requested_interval gte ≡ some true)
      ↔ Confirmed gte stored_interval requested_interval)
    × ((compare_intervals stored_interval requested_interval gte ≡ some false)
        ↔ Refuted gte stored_interval requested_interval)
unfolding is_at_most decimal_of
compare_intervals-decides_example =
    compare_intervals-decides stored_interval requested_interval refl refl gte

abbrev tolerant : Interval
tolerant = (
  add_decimals (decimal_of (codes "5")) (negate (decimal_of (codes "0.5"))),
  add_decimals (decimal_of (codes "5")) (decimal_of (codes "0.5")),
)

read_tolerance : interval (codes "5V ± 0.5 V") (codes "V") ≡ some tolerant
unfolding interval decimal_of is_at_most add_decimals
read_tolerance = refl

interval-IsOrdered_example : is_at_most tolerant.0 tolerant.1 ≡ true
interval-IsOrdered_example =
    interval-IsOrdered (codes "5V ± 0.5 V") (codes "V") tolerant read_tolerance

-- ===== src/Electrical/Decimals.antt =====
-- Python's `decimal.Decimal` as domain/quantities.py uses it: finite numbers, their texts, comparison,
-- sums and quotients. A number is kept with the digits that it has behind its point.
pub mod Texts
pub mod Order
pub mod Printed
mod Tests
use parts_bin.Prelude.{
  ℕ, zero, suc, ◌+◌, ◌-◌, ◌*◌, ◌/◌, ◌%◌, ◌^◌, max, Bool, true, false, not, ◌&&◌, ◌||◌, List, [],
  ◌∷◌, ◌++◌, length, ltb, leb, ◌==◌, if◌then◌else◌,
}
use parts_bin.Storage.Parts.{Text}

-- `digits` divided by ten as often as there are `places`, or its negative. Zero has two signs. A
-- positive exponent, which only a prefix gives, is folded into the digits: the number is the same, and so
-- are its comparisons, its sums and its fixed notation, which is all that the code takes of it.
pub record Decimal : Type 0 where
  pub negative : Bool
  pub digits : ℕ
  pub places : ℕ

abbrev pub decimal_zero : Decimal
decimal_zero = record { negative = false; digits = 0; places = 0 }

-- The digits of a number that is not negative, and of one that is.
abbrev pub up : Decimal → ℕ
up d = if d.negative then 0 else d.digits

abbrev pub down : Decimal → ℕ
down d = if d.negative then d.digits else 0

-- `a <= b`
unfoldable pub is_at_most : Decimal → Decimal → Bool
is_at_most a b =
    leb (up a * 10 ^ b.places + down b * 10 ^ a.places)
      (up b * 10 ^ a.places + down a * 10 ^ b.places)

-- `a < b`
abbrev pub below : Decimal → Decimal → Bool
below a b = not (is_at_most b a)

-- `a == b`
abbrev pub same_number : Decimal → Decimal → Bool
same_number a b = is_at_most a b && is_at_most b a

-- `max(a, b)`
abbrev pub larger : Decimal → Decimal → Decimal
larger a b = if below a b then b else a

-- `value.copy_negate()`
abbrev pub negate : Decimal → Decimal
negate d = record d { negative = not d.negative }

-- `abs(value)`
abbrev pub magnitude : Decimal → Decimal
magnitude d = record d { negative = false }

-- `a + b` with as many digits as it takes
unfoldable pub add_decimals : Decimal → Decimal → Decimal
add_decimals a b =
    let m = max a.places b.places in
    let u = up a * 10 ^ (m - a.places) + up b * 10 ^ (m - b.places) in
    let v = down a * 10 ^ (m - a.places) + down b * 10 ^ (m - b.places) in
    record {
      negative = (a.negative && b.negative) || ltb u v;
      digits = if ltb u v then v - u else u - v;
      places = m;
    }

-- How many digits a number is written with.
unfoldable pub width_within : ℕ → ℕ → ℕ
width_within zero n = 1
width_within (suc f) n = elim (ltb n 10) [ true ↦ 1 | false ↦ suc (width_within f (n / 10)) ]

abbrev pub width : ℕ → ℕ
width n = width_within n n

-- `context.prec = 220`
abbrev pub precision : ℕ
precision = 220

-- Half of the last place goes to the even neighbour.
abbrev pub half_even : ℕ → ℕ → ℕ
half_even n k =
    let q = n / 10 ^ k in
    let r = n % 10 ^ k in
    if ltb (10 ^ k) (2 * r) || ((2 * r == 10 ^ k) && (q % 2 == 1)) then q + 1 else q

-- A result under the context's precision
unfoldable pub rounded : Decimal → Decimal
unfolding width_within
rounded d =
    let k = width d.digits - precision in
    if k == 0
    then d
    else record d { digits = half_even d.digits k * 10 ^ (k - d.places); places = d.places - k }

-- `a / b`, where `b` is not zero, with all the places of its precision. The digit behind the quotient says whether the division goes on.
unfoldable pub quotient : Decimal → Decimal → Decimal
unfolding rounded width_within
quotient a b =
    let n = a.digits * 10 ^ b.places in
    let m = b.digits * 10 ^ a.places in
    let k = precision + 1 + width m in
    let q = n * 10 ^ k / m in
    rounded (record {
      negative = (a.negative && not b.negative) || (not a.negative && b.negative);
      digits = q * 10 + (if n * 10 ^ k % m == 0 then 0 else 1);
      places = k + 1;
    })

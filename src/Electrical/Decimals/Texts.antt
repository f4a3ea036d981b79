-- ===== src/Electrical/Decimals/Texts.antt =====
-- Decimals as texts: `Decimal(text)`, `format(value, 'f')`, and the pattern of a number in
-- domain/quantities.py. Digits are those of ASCII.
use parts_bin.Prelude.{
  ℕ, zero, suc, ◌+◌, ◌-◌, ◌*◌, ◌/◌, ◌%◌, ◌^◌, Bool, true, false, ◌&&◌, ◌||◌, not, [], ◌∷◌, ◌++◌,
  length, leb, ◌==◌, if◌then◌else◌, Option, none, some,
}
use parts_bin.Storage.Parts.{Text}
use parts_bin.Electrical.Decimals.{Decimal, width}

abbrev pub is_digit : ℕ → Bool
is_digit c = leb 48 c && leb c 57

-- The digits that a text begins with, and what follows them.
abbrev pub span_digits : Text → Text × Text
span_digits [] = ([], [])
span_digits (c ∷ s) =
    let rest = span_digits s in if is_digit c then (c ∷ rest.0, rest.1) else ([], c ∷ s)

-- The number that digits spell behind `acc`.
abbrev pub read : ℕ → Text → ℕ
read acc [] = acc
read acc (c ∷ s) = read (acc * 10 + (c - 48)) s

abbrev pub after_point : Text → Text
after_point [] = []
after_point (c ∷ s) = if c == 46 then s else []

abbrev pub unsigned : Bool → Text → Decimal
unsigned negative s =
    let whole = span_digits s in
    let fraction = after_point whole.1 in
    record { negative = negative; digits = read 0 (whole.0 ++ fraction); places = length fraction }

-- `Decimal(text)` of a text that is a number
unfoldable pub decimal_of : Text → Decimal
decimal_of [] = unsigned false []
decimal_of (c ∷ s) =
    if c == 45
    then unsigned true s
    else if c == 43
    then unsigned false s
    else unsigned false (c ∷ s)

-- The last digits of a number, as many as are asked for
unfoldable pub padded : ℕ → ℕ → Text
padded zero n = []
padded (suc k) n = padded k (n / 10) ++ (48 + n % 10) ∷ []

abbrev pub fraction_text : ℕ → ℕ → Text
fraction_text zero n = []
fraction_text (suc k) n = 46 ∷ padded (suc k) n

abbrev pub unsigned_text : ℕ → ℕ → Text
unsigned_text n places =
    let whole = n / 10 ^ places in
    padded (width whole) whole ++ fraction_text places (n % 10 ^ places)

-- `format(value, 'f')`
unfoldable pub fixed_text : Decimal → Text
unfolding padded
fixed_text d = let text = unsigned_text d.digits d.places in if d.negative then 45 ∷ text else text

abbrev pub is_nothing : Text → Bool
is_nothing [] = true
is_nothing (c ∷ s) = false

-- A point and the digits that follow it, if any do.
abbrev pub point_digits : Text → Option (Text × Text)
point_digits [] = none
point_digits (c ∷ s) =
    let digits = span_digits s in
    if (c == 46) && not (is_nothing digits.0) then some digits else none

abbrev pub with_sign : ℕ → Option (Text × Text) → Option (Text × Text)
with_sign c none = none
with_sign c (some n) = some (c ∷ n.0, n.1)

-- `\d+(?:\.\d+)?|\.\d+`: the longest number that a text begins with, and what follows it. What a
-- shorter one would leave begins with a digit or a point, and no unit does.
abbrev pub scan_number : Text → Option (Text × Text)
scan_number s =
    let whole = span_digits s in
    elim (point_digits whole.1) [
      | some fraction ↦ some (whole.0 ++ 46 ∷ fraction.0, fraction.1)
      | none ↦ if is_nothing whole.0 then none else some whole
    ]

-- `[+-]?` before it: `_NUMBER`
abbrev pub scan_signed : Text → Option (Text × Text)
scan_signed [] = none
scan_signed (c ∷ s) =
    if (c == 43) || (c == 45) then with_sign c (scan_number s) else scan_number (c ∷ s)

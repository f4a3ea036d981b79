-- ===== src/Electrical/Quantities.antt =====
-- domain/quantities.py: quantities and intervals with explicit units. Two numbers of one text have few
-- enough digits for their sum and their difference to be exact under the precision of the context.
pub mod Scanning
pub mod Comparing
pub mod Meaning
pub mod Ordered
mod Tests
use parts_bin.Prelude.{
  ℕ, zero, suc, ◌+◌, ◌-◌, ◌*◌, ◌^◌, Bool, true, false, ◌||◌, List, [], ◌∷◌, ◌++◌, length, any, map,
  Option, none, some, ltb, ◌==◌, if◌then◌else◌, ℤ, pos, negsuc, ◌+ℤ◌,
}
use parts_bin.Storage.Parts.{Text, same_text}
use parts_bin.Storage.Tx.{Result, ok, err, domain_error, invalid_input}
use parts_bin.Texts.{codes, is_space, strip, strip_left, among}
use parts_bin.Electrical.Entries.{lookup}
use parts_bin.Electrical.Decimals.{Decimal, decimal_zero, is_at_most, add_decimals, negate}
use parts_bin.Electrical.Decimals.Texts.{decimal_of, is_nothing, scan_number, scan_signed}
use parts_bin.Electrical.Quantities.Scanning.{
  without_suffix, without_prefix, split_on, split_range, minus_sign, plus_minus,
}

-- `invalid(message)`
abbrev pub invalid : {A : Type 0} → Result A
invalid = err (domain_error invalid_input)

-- `_PREFIXES`
abbrev pub prefixes : List (Text × ℤ)
prefixes =
    ([], pos 0)
    ∷ (codes "p", negsuc 11)
    ∷ (codes "n", negsuc 8)
    ∷ (codes "u", negsuc 5)
    ∷ (codes "µ", negsuc 5)
    ∷ (codes "μ", negsuc 5)
    ∷ (codes "m", negsuc 2)
    ∷ (codes "k", pos 3)
    ∷ (codes "M", pos 6)
    ∷ (codes "G", pos 9)
    ∷ []

-- What follows a number: `\s*([^\s]+)\s*`
abbrev pub symbol_of : Text → Option Text
symbol_of s = let t = strip s in if is_nothing t || any is_space t then none else some t

abbrev pub with_symbol : Option (Text × Text) → Option (Text × Text)
with_symbol none = none
with_symbol (some n) = elim (symbol_of n.1) [ none ↦ none | some symbol ↦ some (n.0, symbol) ]

-- `aliases`, and the labels that end a symbol
abbrev pub with_omega : Text → Text
with_omega symbol =
    if among symbol (codes "ohm" ∷ codes "ohms" ∷ (8486 ∷ []) ∷ [])
    then codes "Ω"
    else elim (without_suffix (codes "ohms") symbol) [
      | some prefix ↦ prefix ++ codes "Ω"
      | none ↦ elim (without_suffix (codes "ohm") symbol) [
        | some prefix ↦ prefix ++ codes "Ω"
        | none ↦ symbol
      ]
    ]

abbrev opposite : ℤ → ℤ
opposite (pos zero) = pos 0
opposite (pos (suc n)) = negsuc n
opposite (negsuc n) = pos (suc n)

abbrev difference : Option ℤ → Option ℤ → Option ℤ
difference (some a) (some b) = some (a +ℤ opposite b)
difference _ _ = none

-- `([pnuµμmkMG]?)` and what follows it
abbrev take_prefix : Text → Text × Text
take_prefix [] = ([], [])
take_prefix (c ∷ s) = if any (λ k. c == k) (codes "pnuµμmkMG") then (c ∷ [], s) else ([], c ∷ s)

-- Volts per second, with a prefix on either
abbrev pub rate_exponent : Text → Option ℤ
rate_exponent symbol =
    let volts = take_prefix symbol in
    elim (without_prefix (codes "V/") volts.1) [
      | none ↦ none
      | some time ↦
          let seconds = take_prefix time in
          if same_text seconds.1 (codes "s")
          then difference (lookup volts.0 prefixes) (lookup seconds.0 prefixes)
          else none
    ]

abbrev pub exponent_of : Text → Text → Option ℤ
exponent_of unit symbol =
    if same_text unit (codes "V/s")
    then rate_exponent symbol
    else if among unit (codes "%" ∷ codes "ratio" ∷ [])
    then if same_text symbol unit then some (pos 0) else none
    else elim (without_suffix unit symbol) [ none ↦ none | some prefix ↦ lookup prefix prefixes ]

-- `Decimal((value.sign, value.digits, value.exponent + exponent))`
abbrev pub shifted : Decimal → ℤ → Decimal
shifted d (pos n) = record d { digits = d.digits * 10 ^ (n - d.places); places = d.places - n }
shifted d (negsuc n) = record d { places = d.places + suc n }

abbrev numeric_parts : Text → Option (Text × Text) → Result Decimal
numeric_parts unit none = invalid
numeric_parts unit (some n) = elim (exponent_of unit (with_omega n.1)) [
  | none ↦ invalid
  | some exponent ↦ ok (shifted (decimal_of n.0) exponent)
]

unfoldable pub numeric_value : Text → Text → Result Decimal
unfolding decimal_of
numeric_value raw unit =
    if ltb 100 (length raw)
    then invalid
    else numeric_parts unit (with_symbol (scan_number (strip_left raw)))

-- `number.lstrip('+-')`, and whether the number starts with a minus
abbrev without_sign : Text → Text
without_sign [] = []
without_sign (c ∷ s) = let rest = without_sign s in if (c == 43) || (c == 45) then rest else c ∷ s

abbrev is_minus : Text → Bool
is_minus [] = false
is_minus (c ∷ s) = c == 45

abbrev pub signed_parts : Text → Option (Text × Text)
signed_parts raw = with_symbol (scan_signed (strip_left raw))

-- `_quantity`
unfoldable pub quantity : Text → Text → Option Decimal
unfolding numeric_value decimal_of
quantity raw unit = elim (signed_parts raw) [
  | none ↦ none
  | some n ↦
      if among unit (codes "°C" ∷ codes "%" ∷ [])
      then if same_text n.1 unit then some (decimal_of n.0) else none
      else elim (numeric_value (without_sign n.0 ++ 32 ∷ n.1) unit) [
        | err e ↦ none
        | ok value ↦ some (if is_minus n.0 then negate value else value)
      ]
]

abbrev pub Interval : Type 0
Interval = Decimal × Decimal

-- `re.fullmatch(_NUMBER, first)`
abbrev is_number : Text → Bool
is_number s = elim (scan_signed s) [ none ↦ false | some n ↦ is_nothing n.1 ]

-- A unit behind the second endpoint is that of the first too.
abbrev with_unit_of : Text → Text → Option Text
with_unit_of first second =
    if is_number first
    then elim (signed_parts second) [ none ↦ none | some n ↦ some (first ++ 32 ∷ n.1) ]
    else some first

abbrev pub endpoints : Bool → Option Decimal → Option Decimal → Option Interval
endpoints tolerance (some l) (some r) =
    if tolerance
    then if is_at_most decimal_zero r
      then some (add_decimals l (negate r), add_decimals l r)
      else none
    else if is_at_most l r
    then some (l, r)
    else none
endpoints tolerance _ _ = none

abbrev pub from_first : Text → Bool → Option Text → Text → Option Interval
from_first unit tolerance none second = none
from_first unit tolerance (some first) second =
    endpoints tolerance (quantity first unit) (quantity second unit)

abbrev pub two_pieces : Text → Bool → List Text → Option Interval
two_pieces unit tolerance (a ∷ b ∷ []) =
    from_first unit tolerance (with_unit_of (strip a) (strip b)) (strip b)
two_pieces unit tolerance _ = none

abbrev pub point_or : Option Interval → Option Decimal → Option Interval
point_or other none = other
point_or other (some point) = some (point, point)

-- `_interval`, which `interval` calls under its context
unfoldable pub interval : Text → Text → Option Interval
unfolding quantity numeric_value decimal_of
interval raw unit =
    let text = map minus_sign raw in
    let tolerance = any (λ c. c == plus_minus) text in
    let pieces = if tolerance then split_on plus_minus text else split_range false (strip text) in
    point_or (two_pieces unit tolerance pieces) (quantity text unit)

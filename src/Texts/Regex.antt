-- ===== src/Texts/Regex.antt =====
-- Regular expressions as the patterns of domain/ use them, and `re.fullmatch` by derivatives.
use parts_bin.Prelude.{
  ℕ, zero, suc, ◌+◌, ◌-◌, Bool, true, false, ◌&&◌, ◌||◌, List, [], ◌∷◌, ◌==◌, leb, if◌then◌else◌,
}
use parts_bin.Storage.Parts.{Text}

pub data Regex : Type 0 where
  never empty : Regex
  -- one character that a test accepts
  one : (ℕ → Bool) → Regex
  then_ or_ : Regex → Regex → Regex
  star : Regex → Regex

abbrev pub nullable : Regex → Bool
nullable never = false
nullable empty = true
nullable (one p) = false
nullable (then_ r s) = nullable r && nullable s
nullable (or_ r s) = nullable r || nullable s
nullable (star r) = true

-- What is left to match after a character
abbrev pub deriv : ℕ → Regex → Regex
deriv c never = never
deriv c empty = never
deriv c (one p) = if p c then empty else never
deriv c (then_ r s) =
    or_ (then_ (deriv c r) s) (let rest = deriv c s in if nullable r then rest else never)
deriv c (or_ r s) = or_ (deriv c r) (deriv c s)
deriv c (star r) = then_ (deriv c r) (star r)

unfoldable pub fullmatch : Regex → Text → Bool
fullmatch r [] = nullable r
fullmatch r (c ∷ s) = fullmatch (deriv c r) s

-- Pieces of the patterns: a letter in either case, a digit, and repetition.
abbrev pub letter : ℕ → Regex
letter c = one (λ d.
    (d == c) || (leb 97 c && leb c 122 && (d == c - 32)) || (leb 65 c && leb c 90 && (d == c + 32)))

abbrev pub word : Text → Regex
word [] = empty
word (c ∷ s) = then_ (letter c) (word s)

abbrev pub digit : Regex
digit = one (λ c. leb 48 c && leb c 57)

abbrev pub plus : Regex → Regex
plus r = then_ r (star r)

abbrev pub optional : Regex → Regex
optional r = or_ empty r

abbrev pub times : ℕ → Regex → Regex
times zero r = empty
times (suc n) r = then_ r (times n r)

abbrev pub any_of : List Regex → Regex
any_of [] = never
any_of (r ∷ rs) = or_ r (any_of rs)

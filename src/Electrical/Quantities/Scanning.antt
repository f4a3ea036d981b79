-- ===== src/Electrical/Quantities/Scanning.antt =====
-- How domain/quantities.py takes texts apart. A word holds the letters and digits of ASCII, the letters
-- of Latin-1 and Greek, the ohm sign and the underscore.
use parts_bin.Prelude.{
  ℕ, Bool, true, not, ◌&&◌, ◌||◌, List, [], ◌∷◌, Option, none, some, leb, ◌==◌, if◌then◌else◌,
}
use parts_bin.Storage.Parts.{Text, same_text}

abbrev push : ℕ → Option Text → Option Text
push c none = none
push c (some s) = some (c ∷ s)

-- `symbol[:-len(suffix)]` if `symbol.endswith(suffix)`
abbrev pub without_suffix : Text → Text → Option Text
without_suffix suffix [] = if same_text [] suffix then some [] else none
without_suffix suffix (c ∷ s) =
    let rest = push c (without_suffix suffix s) in
    if same_text (c ∷ s) suffix then some [] else rest

abbrev pub without_prefix : Text → Text → Option Text
without_prefix [] s = some s
without_prefix (c ∷ p) [] = none
without_prefix (c ∷ p) (d ∷ s) = if c == d then without_prefix p s else none

-- `raw.replace('−', '-')`, one character
abbrev pub minus_sign : ℕ → ℕ
minus_sign c = if c == 8722 then 45 else c

abbrev pub plus_minus : ℕ
plus_minus = 177

-- A character before the first piece
abbrev before_first : ℕ → List Text → List Text
before_first c [] = (c ∷ []) ∷ []
before_first c (p ∷ ps) = (c ∷ p) ∷ ps

-- `raw.split(separator)`
abbrev pub split_on : ℕ → Text → List Text
split_on k [] = [] ∷ []
split_on k (c ∷ s) = let rest = split_on k s in if c == k then [] ∷ rest else before_first c rest

-- `\w`
abbrev pub is_word : ℕ → Bool
is_word c =
    (leb 48 c && leb c 57)
    || (leb 65 c && leb c 90)
    || (leb 97 c && leb c 122)
    || (c == 95)
    || (c == 170)
    || (c == 181)
    || (c == 186)
    || (leb 192 c && leb c 255 && not (c == 215) && not (c == 247))
    || (leb 880 c && leb c 1023)
    || (c == 8486)

abbrev ends_word : Text → Bool
ends_word [] = true
ends_word (c ∷ s) = not (is_word c)

-- Between two pieces stands a dash, or `to` as a word.
abbrev is_dash : ℕ → Bool
is_dash c = (c == 8211) || (c == 8212)

-- `re.split(r'\s*(?:\bto\b|–|—)\s*', text)`, but for the space around the pieces, which is stripped.
-- The flag is whether a word goes on from the left.
abbrev pub split_range : Bool → Text → List Text
split_range inside [] = [] ∷ []
split_range inside (c ∷ []) = if is_dash c then [] ∷ [] ∷ [] else (c ∷ []) ∷ []
split_range inside (c ∷ d ∷ s) =
    let next = split_range (is_word c) (d ∷ s) in
    let after_to = split_range true s in
    if is_dash c
    then [] ∷ next
    else if not inside && (c == 116) && (d == 111) && ends_word s
    then [] ∷ after_to
    else before_first c next

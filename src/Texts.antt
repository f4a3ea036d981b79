-- ===== src/Texts.antt =====
-- Texts as the program's string functions see them: lists of code points, with the functions of Python
-- that domain/ calls. Letters outside ASCII keep their case in `lower`.
pub mod Regex
mod Tests
use Prim.Native.Char.{code}
use Prim.Native.String.{String}
use parts_bin.Prelude.{
  ℕ, ◌+◌, ◌≡◌, refl, ap, Bool, true, false, ◌&&◌, ◌||◌, not, List, [], ◌∷◌, ◌++◌, map, Option, none,
  some, leb, ◌==◌, if◌then◌else◌, arith, ==_refl,
}
use parts_bin.Storage.Parts.{Text, same_text, same_text?}

-- The code points of a literal.
abbrev pub codes : String → Text
codes String.[] = []
codes (String.◌∷◌ c s) = code c ∷ codes s

-- `str.isspace` of one character
abbrev pub is_space : ℕ → Bool
is_space c =
    (leb 9 c && leb c 13)
    || (leb 28 c && leb c 32)
    || (c == 133)
    || (c == 160)
    || (c == 5760)
    || (leb 8192 c && leb c 8202)
    || (c == 8232)
    || (c == 8233)
    || (c == 8239)
    || (c == 8287)
    || (c == 12288)

abbrev pub strip_left : Text → Text
strip_left [] = []
strip_left (c ∷ s) = let rest = strip_left s in if is_space c then rest else c ∷ s

abbrev pub keep_left : ℕ → Text → Text
keep_left c [] = if is_space c then [] else c ∷ []
keep_left c (d ∷ s) = c ∷ d ∷ s

abbrev pub strip_right : Text → Text
strip_right [] = []
strip_right (c ∷ s) = keep_left c (strip_right s)

-- `str.strip`
abbrev pub strip : Text → Text
strip s = strip_right (strip_left s)

abbrev pub lower_char : ℕ → ℕ
lower_char c = if leb 65 c && leb c 90 then c + 32 else c

-- `str.lower`
abbrev pub lower : Text → Text
lower s = map lower_char s

-- `text in {…}`
abbrev pub among : Text → List Text → Bool
among s [] = false
among s (t ∷ ts) = same_text s t || among s ts

pub same_text_refl : (s : Text) → same_text s s ≡ true
same_text_refl [] = refl
same_text_refl (c ∷ s) = rw (==_refl c) (same_text_refl s)

pub same_text-eq : (s t : Text) → same_text s t ≡ true → s ≡ t
same_text-eq [] [] h = refl
same_text-eq [] (c ∷ t) h = ground arith
same_text-eq (c ∷ s) [] h = ground arith
same_text-eq (c ∷ s) (d ∷ t) h = ground (arith, same_text-eq s t)

pub same_text?_refl : (o : Option Text) → same_text? o o ≡ true
same_text?_refl none = refl
same_text?_refl (some s) = same_text_refl s

pub same_text?-eq : (o p : Option Text) → same_text? o p ≡ true → o ≡ p
same_text?-eq none none h = refl
same_text?-eq none (some t) h = ground arith
same_text?-eq (some s) none h = ground arith
same_text?-eq (some s) (some t) h = ap some (same_text-eq s t h)

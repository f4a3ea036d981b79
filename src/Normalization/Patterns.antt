-- ===== src/Normalization/Patterns.antt =====
-- The patterns of domain/normalization.py: what reads as a package, and what as a value. Digits are
-- those of ASCII. `re.I` is modelled for the letters of ASCII and the micro sign.
use parts_bin.Prelude.{Bool, false, ◌||◌, Option, none, some, [], ◌∷◌, ◌==◌}
use parts_bin.Storage.Parts.{Text}
use parts_bin.Texts.{codes, is_space, strip}
use parts_bin.Texts.Regex.{
  Regex, one, then_, or_, star, fullmatch, letter, word, digit, plus, optional, times, any_of,
}

-- `\d+(?:\.\d+)?`
abbrev pub decimal : Regex
decimal = then_ (plus digit) (optional (then_ (letter 46) (plus digit)))

-- A package family with its number: `SOT-?\d+`
abbrev pub family : Text → Regex
family name = then_ (word name) (then_ (optional (letter 45)) (plus digit))

-- `_PACKAGE_TOKEN_RE`
abbrev pub package_token : Regex
package_token = any_of (
    times 4 digit
    ∷ times 5 digit
    ∷ then_ (family (codes "SOT")) (optional (then_ (letter 45) (plus digit)))
    ∷ family (codes "SOIC")
    ∷ family (codes "TSSOP")
    ∷ family (codes "MSOP")
    ∷ family (codes "SSOP")
    ∷ family (codes "QFN")
    ∷ family (codes "DFN")
    ∷ family (codes "LQFP")
    ∷ family (codes "TQFP")
    ∷ family (codes "QFP")
    ∷ family (codes "DIP")
    ∷ family (codes "SOP")
    ∷ family (codes "TO")
    ∷ word (codes "LED-SMD")
    ∷ word (codes "panel-mount")
    ∷ word (codes "through-hole")
    ∷ then_ decimal (word (codes "mm"))
    ∷ [])

-- `µ` under `re.I`: the micro sign, and mu in either case
abbrev pub micro : Regex
micro = one (λ c. (c == 181) || (c == 956) || (c == 924))

abbrev pub spaces : Regex
spaces = star (one is_space)

-- `_PASSIVE_VALUE_RE`
abbrev pub passive_value : Regex
passive_value = then_ spaces (
    then_ decimal (
      then_ spaces (
        then_
          (any_of (
            word (codes "R")
            ∷ word (codes "K")
            ∷ word (codes "M")
            ∷ word (codes "G")
            ∷ word (codes "OHM")
            ∷ word (codes "OHMS")
            ∷ word (codes "PF")
            ∷ word (codes "NF")
            ∷ word (codes "UF")
            ∷ then_ micro (word (codes "F"))
            ∷ word (codes "MH")
            ∷ word (codes "UH")
            ∷ then_ micro (word (codes "H"))
            ∷ word (codes "NH")
            ∷ word (codes "F")
            ∷ word (codes "H")
            ∷ []))
          spaces)))

-- `\d+[RrKkMmGg]\d+` and `\d+[PpNnUu]\d+`
abbrev pub coded_value : Regex
coded_value =
    or_
      (then_ (plus digit)
        (then_ (any_of (letter 82 ∷ letter 75 ∷ letter 77 ∷ letter 71 ∷ [])) (plus digit)))
      (then_ (plus digit) (then_ (any_of (letter 80 ∷ letter 78 ∷ letter 85 ∷ [])) (plus digit)))

-- `_looks_like_package`
abbrev pub looks_like_package : Option Text → Bool
looks_like_package none = false
looks_like_package (some s) = fullmatch package_token (strip s)

-- `_looks_like_value`
abbrev pub looks_like_value : Option Text → Bool
looks_like_value none = false
looks_like_value (some s) = fullmatch passive_value s || fullmatch coded_value (strip s)

-- ===== src/Electrical/Decimals/Printed.antt =====
-- The fixed notation of decimals, and how it is read.
use native.Mathlib.Nat.{div-add-mod', mod-lt, one-le-pow, pow-suc}
use parts_bin.Prelude.{
  ℕ, zero, suc, ◌+◌, ◌-◌, ◌*◌, ◌/◌, ◌%◌, ◌^◌, ◌<◌, ◌≤◌, ◌≡◌, refl, ap, ◌∙◌, Bool, true, false, [],
  ◌∷◌, ◌++◌, length, length-append, arith, ==_ne,
}
use parts_bin.Storage.Parts.{Text}
use parts_bin.Electrical.Decimals.{Decimal, width, width_within}
use parts_bin.Electrical.Decimals.Texts.{
  is_digit, span_digits, read, after_point, unsigned, decimal_of, padded, fraction_text,
  unsigned_text, fixed_text,
}

AllDigits : Text → Type 0
AllDigits [] = Unit {0}
AllDigits (c ∷ s) = (is_digit c ≡ true) × AllDigits s

AllDigits-append : (s t : Text) → AllDigits s → AllDigits t → AllDigits (s ++ t)
unfolding AllDigits
AllDigits-append [] t h k = k
AllDigits-append (c ∷ s) t h k = (h.0, AllDigits-append s t h.1 k)

padded-AllDigits : (k n : ℕ) → AllDigits (padded k n)
unfolding AllDigits padded
padded-AllDigits zero n = tt
padded-AllDigits (suc k) n =
    AllDigits-append (padded k (n / 10)) _ (padded-AllDigits k (n / 10)) (ground arith, tt)

length-padded : (k n : ℕ) → length (padded k n) ≡ k
unfolding padded
length-padded zero n = refl
length-padded (suc k) n =
    length-append (padded k (n / 10)) _ ∙ omega (arith, length-padded k (n / 10))

read-append : (s t : Text) (acc : ℕ) → read acc (s ++ t) ≡ read (read acc s) t
read-append [] t acc = refl
read-append (c ∷ s) t acc = read-append s t (acc * 10 + (c - 48))

read-padded : (k n acc : ℕ) → n < 10 ^ k → read acc (padded k n) ≡ acc * 10 ^ k + n
unfolding padded
read-padded zero n acc h = omega arith
read-padded (suc k) n acc h =
    let tens : acc * 10 ^ suc k ≡ acc * (10 ^ k * 10) = ap (λ (t : ℕ). acc * t) (pow-suc 10 k) in
    read-append (padded k (n / 10)) _ acc
    ∙ omega (arith, pow-suc 10 k, tens, read-padded k (n / 10) acc (omega (arith, pow-suc 10 k)))

lt-width_within : (f n : ℕ) → n ≤ f → n < 10 ^ width_within f n
unfolding width_within
lt-width_within zero n h = omega arith
lt-width_within (suc f) n h =
    ground (arith, lt-width_within f (n / 10), pow-suc 10 (width_within f (n / 10)))

-- What follows the digits of a number: nothing, or a point.
abbrev Stops : Text → Type 0
Stops [] = Unit {0}
Stops (c ∷ s) = is_digit c ≡ false

span-append : (s t : Text) → AllDigits s → Stops t → span_digits (s ++ t) ≡ (s, t)
unfolding AllDigits
span-append [] [] h k = refl
span-append [] (c ∷ t) h k = rw k
span-append (c ∷ s) t h k = rw (h.0, span-append s t h.1 k)

fraction-Stops : (k n : ℕ) → Stops (fraction_text k n)
fraction-Stops zero n = tt
fraction-Stops (suc k) n = refl

after_point-fraction : (k n : ℕ) → after_point (fraction_text k n) ≡ padded k n
unfolding padded
after_point-fraction zero n = refl
after_point-fraction (suc k) n = refl

-- The digits of both parts make up the number.
read-parts :
    (whole part k : ℕ)
    → part < 10 ^ k
    → read 0 (padded (width whole) whole ++ padded k part) ≡ whole * 10 ^ k + part
read-parts whole part k h =
    read-append (padded (width whole) whole) (padded k part) 0
    ∙ ap (λ (t : ℕ). read t (padded k part))
        (read-padded (width whole) whole 0 (lt-width_within whole whole (omega arith))
          ∙ omega arith)
    ∙ read-padded k part whole h

unsigned-unsigned_text :
    (b : Bool) (n k : ℕ)
    → unsigned b (unsigned_text n k) ≡ record { negative = b; digits = n; places = k }
unsigned-unsigned_text b n k = rw (
  span-append (padded (width whole) whole) (fraction_text k part)
      (padded-AllDigits (width whole) whole) (fraction-Stops k part),
  after_point-fraction k part,
  read-parts whole part k (mod-lt n (one-le-pow k 10 (omega arith))),
  length-padded k part,
  div-add-mod' n (10 ^ k),
)
  where
    whole : ℕ
    whole = n / 10 ^ k

    part : ℕ
    part = n % 10 ^ k

decimal_of-digits :
    (s r : Text) → AllDigits s → 0 < length s → decimal_of (s ++ r) ≡ unsigned false (s ++ r)
unfolding decimal_of AllDigits
decimal_of-digits [] r h k = absurd (omega arith)
decimal_of-digits (c ∷ s) r (h, hs) k =
    rw (==_ne c 45 (λ e. ground arith), ==_ne c 43 (λ e. ground arith))

width-pos : (f n : ℕ) → 0 < width_within f n
unfolding width_within
width-pos zero n = omega arith
width-pos (suc f) n = ground arith

-- The sign stands before the digits, and digits before the point.
reads_sign :
    (b : Bool) (n k : ℕ)
    → decimal_of (fixed_text (record { negative = b; digits = n; places = k }))
      ≡ unsigned b (unsigned_text n k)
unfolding fixed_text
reads_sign true n k = unfold decimal_of in refl
reads_sign false n k =
    let whole : ℕ = n / 10 ^ k in
    decimal_of-digits (padded (width whole) whole) (fraction_text k (n % 10 ^ k))
      (padded-AllDigits (width whole) whole)
      (omega (arith, length-padded (width whole) whole, width-pos whole whole))

-- Reading the fixed notation of a decimal gives the decimal: its sign, digits and places.
pub decimal_of-fixed_text : (d : Decimal) → decimal_of (fixed_text d) ≡ d
decimal_of-fixed_text d =
    reads_sign d.negative d.digits d.places ∙ unsigned-unsigned_text d.negative d.digits d.places

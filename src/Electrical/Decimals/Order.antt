-- ===== src/Electrical/Decimals/Order.antt =====
-- Decimals are ordered by their values, and sums move as far as what is added.
use native.Mathlib.Nat.{mul-le-mul_right, mul-lt-mul_of_pos_left, one-le-pow, le_refl}
use parts_bin.Prelude.{
  ℕ, ◌+◌, ◌-◌, ◌*◌, ◌^◌, ◌≤◌, ◌<◌, max, ◌≡◌, refl, sym, ap, ◌∙◌, Bool, true, false, arith, leb,
  leb→le, Bool-cases, inl, inr,
}
use parts_bin.Electrical.Decimals.{
  Decimal, decimal_zero, up, down, is_at_most, negate, add_decimals,
}

scale_pos : (n : ℕ) → 0 < 10 ^ n
scale_pos n = one-le-pow n 10 (omega arith)

le_cancel : (k a b : ℕ) → 0 < k → k * a ≤ k * b → a ≤ b
le_cancel k a b p h = elim (Bool-cases (leb a b)) [
  | inl le ↦ leb→le a b le
  | inr gt ↦ absurd (omega (arith, mul-lt-mul_of_pos_left {m = b} {n = a} {k = k} (ground arith) p))
]

-- `a` is at most `b`.
abbrev pub AtMost : Decimal → Decimal → Type 0
AtMost a b =
    up a * 10 ^ b.places + down b * 10 ^ a.places ≤ up b * 10 ^ a.places + down a * 10 ^ b.places

pub is_at_most_elim : (a b : Decimal) → is_at_most a b ≡ true → AtMost a b
unfolding is_at_most
is_at_most_elim a b h = leb→le _ _ h

pub is_at_most_intro : (a b : Decimal) → AtMost a b → is_at_most a b ≡ true
unfolding is_at_most
is_at_most_intro a b h = ground arith

pub at_most_refl : (a : Decimal) → is_at_most a a ≡ true
at_most_refl a = is_at_most_intro a a (le_refl _)

pub at_most_total : (a b : Decimal) → is_at_most a b ≡ false → is_at_most b a ≡ true
unfolding is_at_most
at_most_total a b h = ground arith

-- The same order of fractions, of which the numerators have two parts.
cross_trans :
    (u d A v e B w f C : ℕ)
    → 0 < B
    → u * B + e * A ≤ v * A + d * B
    → v * C + f * B ≤ w * B + e * C
    → u * C + f * A ≤ w * A + d * C
cross_trans u d A v e B w f C p h k =
    le_cancel B (u * C + f * A) (w * A + d * C) p
      (omega (arith, mul-le-mul_right C h, mul-le-mul_right A k))

pub at_most_trans :
    (a b c : Decimal) → is_at_most a b ≡ true → is_at_most b c ≡ true → is_at_most a c ≡ true
at_most_trans a b c h k = is_at_most_intro a c (
    cross_trans (up a) (down a) (10 ^ a.places) (up b) (down b) (10 ^ b.places) (up c) (down c)
      (10 ^ c.places) (scale_pos b.places) (is_at_most_elim a b h) (is_at_most_elim b c k))

-- What a sum is made of, at the places that it has.
ups : Decimal → Decimal → ℕ
ups a b = let m = max a.places b.places in up a * 10 ^ (m - a.places) + up b * 10 ^ (m - b.places)

downs : Decimal → Decimal → ℕ
downs a b =
    let m = max a.places b.places in down a * 10 ^ (m - a.places) + down b * 10 ^ (m - b.places)

plus_parts : (a b : Decimal) → up (add_decimals a b) + downs a b ≡ down (add_decimals a b) + ups a b
unfolding add_decimals ups downs
plus_parts a b = by_signs a.negative b.negative
  where
    m : ℕ
    m = max a.places b.places

    by_signs :
        (s t : Bool)
        → up (add_decimals (record a { negative = s }) (record b { negative = t }))
            + downs (record a { negative = s }) (record b { negative = t })
          ≡ down (add_decimals (record a { negative = s }) (record b { negative = t }))
            + ups (record a { negative = s }) (record b { negative = t })
    by_signs true true = ground arith
    by_signs true false = ground arith
    by_signs false true = ground arith
    by_signs false false = ground arith

up-negate : (b : Decimal) → (up (negate b) ≡ down b) × (down (negate b) ≡ up b)
up-negate b = by_sign b.negative
  where
    by_sign :
        (s : Bool)
        → (up (negate (record b { negative = s })) ≡ down (record b { negative = s }))
          × (down (negate (record b { negative = s })) ≡ up (record b { negative = s }))
    by_sign true = (refl, refl)
    by_sign false = (refl, refl)

spread :
    (a b : Decimal)
    → down b ≤ up b
    → up (add_decimals a (negate b)) + down (add_decimals a b)
      ≤ up (add_decimals a b) + down (add_decimals a (negate b))
unfolding ups downs
spread a b h =
    let m : ℕ = max a.places b.places in
    omega (
      arith,
      plus_parts a b,
      plus_parts a (negate b),
      up-negate b,
      mul-le-mul_right (10 ^ (m - b.places)) h,
      ap (λ (t : ℕ). t * 10 ^ (m - b.places)) (up-negate b).0,
      ap (λ (t : ℕ). t * 10 ^ (m - b.places)) (up-negate b).1,
    )

places-add_decimals : (a b : Decimal) → (add_decimals a b).places ≡ max a.places b.places
unfolding add_decimals
places-add_decimals a b = refl

same_places :
    (x y : Decimal) → x.places ≡ y.places → up x + down y ≤ up y + down x → is_at_most x y ≡ true
same_places x y e h =
    let here = mul-le-mul_right (10 ^ x.places) h in
    let e' : 10 ^ x.places ≡ 10 ^ y.places = ap (λ (p : ℕ). 10 ^ p) e in
    is_at_most_intro x y
      (omega (arith, here, ap (λ (t : ℕ). up x * t) e', ap (λ (t : ℕ). down x * t) e'))

-- Taking away what is not negative leaves at most what adding it makes.
pub plus_spread :
    (a b : Decimal)
    → is_at_most decimal_zero b ≡ true
    → is_at_most (add_decimals a (negate b)) (add_decimals a b) ≡ true
plus_spread a b h =
    let positive = is_at_most_elim decimal_zero b h in
    same_places _ _ (places-add_decimals a (negate b) ∙ sym (places-add_decimals a b))
      (spread a b (omega (arith, positive)))

-- ===== src/Electrical/Decimals/Tests.antt =====
-- Decimals on numbers whose results Python gives.
use parts_bin.Prelude.{◌≡◌, refl, ◌+◌, ◌*◌, ◌/◌, ◌^◌}
use parts_bin.Texts.{codes}
use parts_bin.Electrical.Decimals.{add_decimals, quotient, width_within, width}
use parts_bin.Electrical.Decimals.Texts.{decimal_of, fixed_text}

sum_text :
    fixed_text (add_decimals (decimal_of (codes "-1.50")) (decimal_of (codes "0.125")))
    ≡ codes "-1.375"
unfolding fixed_text add_decimals decimal_of width_within
sum_text = refl

wide : width (10 ^ 230) ≡ 231
unfolding width_within
wide = refl

quotient_places : (quotient (decimal_of (codes "2")) (decimal_of (codes "3"))).places ≡ 220
unfolding quotient decimal_of
quotient_places = refl

rounded_up :
    (quotient (decimal_of (codes "2")) (decimal_of (codes "3"))).digits ≡ (2 * 10 ^ 220 + 1) / 3
unfolding quotient decimal_of
rounded_up = refl

-- ===== src/Texts/Tests.antt =====
-- The string functions on small texts.
use parts_bin.Prelude.{◌≡◌, refl, true, false}
use parts_bin.Texts.{codes, strip, lower}
use parts_bin.Texts.Regex.{fullmatch, word, digit, plus, then_}

stripped : strip (codes " a b\n") ≡ codes "a b"
stripped = refl

lowered : lower (codes "LED-3") ≡ codes "led-3"
lowered = refl

matched : fullmatch (then_ (word (codes "DIP")) (plus digit)) (codes "dip16") ≡ true
unfolding fullmatch
matched = refl

not_matched : fullmatch (then_ (word (codes "DIP")) (plus digit)) (codes "dip") ≡ false
unfolding fullmatch
not_matched = refl

-- ===== src/Electrical/Results.antt =====
-- Steps of domain/specifications.py that may raise.
use parts_bin.Prelude.{◌≡◌, refl, Bool, true, false, arith}
use parts_bin.Storage.Tx.{Result, ok, err, domain_error, invalid_input}

-- `if test: invalid(message)`
abbrev pub refuse_if : Bool → Result (Unit {0})
refuse_if true = err (domain_error invalid_input)
refuse_if false = ok tt

-- What stands after a statement that may raise
infixl 5 ◌>>=◌ ◌>>◌
abbrev pub ◌>>=◌ : {X Y : Type 0} → Result X → (X → Result Y) → Result Y
err raised >>= next = err raised
ok x >>= next = next x

abbrev pub ◌>>◌ : {Y : Type 0} → Result (Unit {0}) → Result Y → Result Y
statement >> next = statement >>= λ done. next

pub ok-injective : {X : Type 0} {x y : X} → ok x ≡ ok y → x ≡ y
ok-injective same = ground arith

pub refuse_if-eq-ok :
    {Y : Type 0} (test : Bool) (next : Result Y) {y : Y}
    → (refuse_if test >> next) ≡ ok y
    → (test ≡ false) × (next ≡ ok y)
refuse_if-eq-ok false next went_well = (refl, went_well)
refuse_if-eq-ok true next went_well = absurd (ground arith)

-- Both parts of a sequence that went well went well.
pub >>=-eq-ok :
    {X Y : Type 0} (first : Result X) (next : X → Result Y) {y : Y}
    → (first >>= next) ≡ ok y
    → (x : X) × (first ≡ ok x) × (next x ≡ ok y)
>>=-eq-ok (err raised) next went_well = absurd (ground arith)
>>=-eq-ok (ok x) next went_well = (x, refl, went_well)

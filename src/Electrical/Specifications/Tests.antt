-- ===== src/Electrical/Specifications/Tests.antt =====
-- The tables of domain/specifications.py, read under the names that a request may use.
use parts_bin.Prelude.{◌≡◌, refl, false, some, [], ◌∷◌}
use parts_bin.Storage.Tx.{ok, err, domain_error, invalid_input}
use parts_bin.Texts.{codes}
use parts_bin.Electrical.Specifications.{definition, is_supported, missing_qualifiers}

ldo_field :
    definition (codes "LDO") (codes "dropout_voltage")
    ≡ ok (record { unit = some (codes "V"); basis = codes "maximum"; choices = [] })
unfolding definition
ldo_field = refl

unknown_field :
    definition (codes "led") (codes "dropout_voltage") ≡ err (domain_error invalid_input)
unfolding definition
unknown_field = refl

no_subtype : is_supported (codes "transistor") ≡ false
unfolding is_supported
no_subtype = refl

-- The first name of a group stands for it.
unqualified :
    missing_qualifiers (codes "capacitor") (codes "rated_voltage") []
    ≡ codes "current_type" ∷ codes "rating_temperature" ∷ []
unfolding missing_qualifiers
unqualified = refl

qualified :
    missing_qualifiers
      (codes "capacitor")
      (codes "rated_voltage")
      ((codes "voltage_type", codes "DC") ∷ (codes "rating_temperature", codes "85 °C") ∷ [])
    ≡ []
unfolding missing_qualifiers
qualified = refl

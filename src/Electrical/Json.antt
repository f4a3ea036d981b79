-- ===== src/Electrical/Json.antt =====
-- Decoded JSON, as the arguments of domain/specifications.py. The keys of an object are texts.
use parts_bin.Prelude.{ℕ, Bool, List, [], ◌∷◌, ℤ}
use parts_bin.Storage.Parts.{Text}
use parts_bin.Storage.Tx.{Result, ok, err, domain_error, invalid_input}

mutual
  pub data Json : Type 0 where
    null : Json
    boolean : Bool → Json
    integer : ℤ → Json
    -- a number with a fraction, of which nothing is read
    real : ℕ → Json
    text : Text → Json
    array : Items → Json
    object : Members → Json

  pub data Items : Type 0 where
    nil : Items
    item : Json → Items → Items

  pub data Members : Type 0 where
    end : Members
    member : Text → Json → Members → Members

abbrev pub Object : Type 0
Object = List (Text × Json)

abbrev pub items_of : Items → List Json
items_of nil = []
items_of (item j rest) = j ∷ items_of rest

abbrev pub members_of : Members → Object
members_of end = []
members_of (member k j rest) = (k, j) ∷ members_of rest

-- `if not isinstance(value, str): invalid(…)`, and so for a list and a dict
abbrev pub text_of : Json → Result Text
text_of (text s) = ok s
text_of _ = err (domain_error invalid_input)

abbrev pub array_of : Json → Result (List Json)
array_of (array items) = ok (items_of items)
array_of _ = err (domain_error invalid_input)

abbrev pub object_of : Json → Result Object
object_of (object members) = ok (members_of members)
object_of _ = err (domain_error invalid_input)

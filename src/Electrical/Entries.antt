-- ===== src/Electrical/Entries.antt =====
-- Python's `dict` under texts, as domain/specifications.py and its neighbours use it.
use parts_bin.Prelude.{Bool, List, [], ◌∷◌, Option, none, some, is_some, if◌then◌else◌, ◌&&◌, map}
use parts_bin.Storage.Parts.{Text, same_text}
use parts_bin.Texts.{among}

module _ {A : Type 0} where
  -- `m.get(key)`
  abbrev pub lookup : Text → List (Text × A) → Option A
  lookup k [] = none
  lookup k ((j, a) ∷ m) = if same_text j k then some a else lookup k m

  -- `m[key] = a`
  abbrev pub assign : Text → A → List (Text × A) → List (Text × A)
  assign k a [] = (k, a) ∷ []
  assign k a ((j, b) ∷ m) = if same_text j k then (j, a) ∷ m else (j, b) ∷ assign k a m

  -- `del m[key]`, or `m.pop(key)`
  abbrev pub remove : Text → List (Text × A) → List (Text × A)
  remove k [] = []
  remove k ((j, b) ∷ m) = let rest = remove k m in if same_text j k then rest else (j, b) ∷ rest

  -- `key in m`
  abbrev pub has_key : Text → List (Text × A) → Bool
  has_key k m = is_some (lookup k m)

  abbrev pub keys : List (Text × A) → List Text
  keys m = map (λ (e : Text × A). e.0) m

-- `all(text in others for text in texts)`
abbrev pub all_among : List Text → List Text → Bool
all_among [] others = Bool.true
all_among (t ∷ ts) others = among t others && all_among ts others

-- `set(texts) == set(others)`
abbrev pub same_set : List Text → List Text → Bool
same_set ts us = all_among ts us && all_among us ts

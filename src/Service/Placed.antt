-- ===== src/Service/Placed.antt =====
-- The rows of a request in their groups: `check_inventory` of domain/service.py.
use parts_bin.Prelude.{
  ℕ, zero, suc, ◌+◌, ◌≡◌, ◌≢◌, refl, sym, ap, ◌∙◌, subst, Bool, true, Option, none, some, List, [],
  ◌∷◌, ◌++◌, any, arith, Bool-cases, inl, inr, ◌==◌, ==_refl,
}
use parts_bin.Texts.{same_text?_refl, same_text?-eq}
use parts_bin.Service.Search.{Filters}
use parts_bin.Service.Expressions.{filters_of}
use parts_bin.Service.Checking.{
  CheckItem, Group, known_quantity, same_filters, add_item, group_items,
}

-- The row of a request under an index
abbrev pub item_at : ℕ → List CheckItem → Option CheckItem
item_at i [] = none
item_at zero (item ∷ items) = some item
item_at (suc i) (item ∷ items) = item_at i items

abbrev quantity_at : Option CheckItem → ℕ
quantity_at none = 0
quantity_at (some item) = known_quantity item.quantity

-- What the rows under these indices ask for
abbrev pub asked_by : List CheckItem → List ℕ → ℕ
asked_by all [] = 0
asked_by all (i ∷ indices) = quantity_at (item_at i all) + asked_by all indices

-- The indices are those of rows with these filters.
abbrev pub AreRowsOf : List CheckItem → Filters → List ℕ → Type 0
AreRowsOf all f [] = Unit
AreRowsOf all f (i ∷ indices) =
    ((item : CheckItem) × (item_at i all ≡ some item) × (filters_of item.filters ≡ f))
    × AreRowsOf all f indices

abbrev pub AreOwn : List CheckItem → List Group → Type 0
AreOwn all [] = Unit
AreOwn all (g ∷ groups) =
    AreRowsOf all g.filters g.input_indices
    × (g.quantity ≡ asked_by all g.input_indices)
    × AreOwn all groups

abbrev pub IsApart : Filters → List Group → Type 0
IsApart f [] = Unit
IsApart f (g ∷ groups) = (f ≢ g.filters) × IsApart f groups

-- No filters stand in two groups.
abbrev pub AreApart : List Group → Type 0
AreApart [] = Unit
AreApart (g ∷ groups) = IsApart g.filters groups × AreApart groups

abbrev pub is_grouped : ℕ → List Group → Bool
is_grouped i groups = any (λ (g : Group). any (λ j. j == i) g.input_indices) groups

same_filters_sound : (f g : Filters) → same_filters f g ≡ true → f ≡ g
same_filters_sound f g h =
    let category = same_text?-eq f.part_category g.part_category (ground arith) in
    let profile = same_text?-eq f.profile g.profile (ground arith) in
    let value = same_text?-eq f.value g.value (ground arith) in
    let case = same_text?-eq f.«package» g.«package» (ground arith) in
    let part = same_text?-eq f.part_number g.part_number (ground arith) in
    let unit = same_text?-eq f.value_unit g.value_unit (ground arith) in cc

same_filters_refl : (f : Filters) → same_filters f f ≡ true
same_filters_refl f = ground (
  arith,
  same_text?_refl f.part_category,
  same_text?_refl f.profile,
  same_text?_refl f.value,
  same_text?_refl f.«package»,
  same_text?_refl f.part_number,
  same_text?_refl f.value_unit,
)

AreRowsOf-append :
    (all : List CheckItem) (f : Filters) (indices : List ℕ) (i : ℕ) (item : CheckItem)
    → item_at i all ≡ some item
    → filters_of item.filters ≡ f
    → AreRowsOf all f indices
    → AreRowsOf all f (indices ++ i ∷ [])
AreRowsOf-append all f [] i item found same h = ((item, found, same), tt)
AreRowsOf-append all f (j ∷ indices) i item found same h =
    (h.0, AreRowsOf-append all f indices i item found same h.1)

asked_by-append :
    (all : List CheckItem) (indices : List ℕ) (i : ℕ)
    → asked_by all (indices ++ i ∷ []) ≡ asked_by all indices + quantity_at (item_at i all)
asked_by-append all [] i = omega arith
asked_by-append all (j ∷ indices) i = omega (arith, asked_by-append all indices i)

any-append : (i : ℕ) (indices : List ℕ) → any (λ j. j == i) (indices ++ i ∷ []) ≡ true
any-append i [] = ground (arith, ==_refl i)
any-append i (j ∷ indices) = ground (arith, any-append i indices)

any-append_left :
    (k i : ℕ) (indices : List ℕ)
    → any (λ j. j == k) indices ≡ true
    → any (λ j. j == k) (indices ++ i ∷ []) ≡ true
any-append_left k i [] h = absurd (ground arith)
any-append_left k i (j ∷ indices) h = ground (arith, any-append_left k i indices)

module _ (index : ℕ) (item : CheckItem) where
  add_item-AreOwn :
      (all : List CheckItem) (groups : List Group)
      → item_at index all ≡ some item
      → AreOwn all groups
      → AreOwn all (add_item index item groups)
  add_item-AreOwn all [] found h =
      (((item, found, refl), tt), ap quantity_at (sym found) ∙ omega arith, tt)
  add_item-AreOwn all (g ∷ groups) found (rows, quantity, h) =
      elim (Bool-cases (same_filters g.filters (filters_of item.filters))) [
        | inl joined ↦
            let same = sym (same_filters_sound g.filters (filters_of item.filters) joined) in
            rw joined (
              AreRowsOf-append all g.filters g.input_indices index item found same rows,
              ap (λ n. n + known_quantity item.quantity) quantity
                  ∙ ap (λ o. asked_by all g.input_indices + quantity_at o) (sym found)
                  ∙ sym (asked_by-append all g.input_indices index),
              h,
            )
        | inr other ↦ rw other (rows, quantity, add_item-AreOwn all groups found h)
      ]

  add_item-IsApart :
      (f : Filters) (groups : List Group)
      → f ≢ filters_of item.filters
      → IsApart f groups
      → IsApart f (add_item index item groups)
  add_item-IsApart f [] differ h = (differ, tt)
  add_item-IsApart f (g ∷ groups) differ h =
      elim (Bool-cases (same_filters g.filters (filters_of item.filters))) [
        | inl joined ↦ rw joined h
        | inr other ↦ rw other (h.0, add_item-IsApart f groups differ h.1)
      ]

  add_item-AreApart :
      (groups : List Group) → AreApart groups → AreApart (add_item index item groups)
  add_item-AreApart [] h = (tt, tt)
  add_item-AreApart (g ∷ groups) h =
      elim (Bool-cases (same_filters g.filters (filters_of item.filters))) [
        | inl joined ↦ rw joined h
        | inr other ↦
            let differ : g.filters ≢ filters_of item.filters = λ e.
              ground (arith, other, same_filters_refl g.filters, ap (same_filters g.filters) e) in
            rw other (add_item-IsApart g.filters groups differ h.0, add_item-AreApart groups h.1)
      ]

  add_item-is_grouped : (groups : List Group) → is_grouped index (add_item index item groups) ≡ true
  add_item-is_grouped [] = ground (arith, ==_refl index)
  add_item-is_grouped (g ∷ groups) =
      elim (Bool-cases (same_filters g.filters (filters_of item.filters))) [
        | inl joined ↦ ground (arith, joined, any-append index g.input_indices)
        | inr other ↦ ground (arith, other, add_item-is_grouped groups)
      ]

  add_item_keeps_grouped :
      (k : ℕ) (groups : List Group)
      → is_grouped k groups ≡ true
      → is_grouped k (add_item index item groups) ≡ true
  add_item_keeps_grouped k [] h = absurd (ground arith)
  add_item_keeps_grouped k (g ∷ groups) h =
      elim (Bool-cases (same_filters g.filters (filters_of item.filters))) [
        | inl joined ↦ ground (arith, joined, any-append_left k index g.input_indices)
        | inr other ↦ ground (arith, other, add_item_keeps_grouped k groups)
      ]

group_items_keeps_grouped :
    (k : ℕ) (items : List CheckItem) (index : ℕ) (groups : List Group)
    → is_grouped k groups ≡ true
    → is_grouped k (group_items items index groups) ≡ true
group_items_keeps_grouped k [] index groups h = h
group_items_keeps_grouped k (item ∷ items) index groups h =
    group_items_keeps_grouped k items (index + 1) (add_item index item groups)
      (add_item_keeps_grouped index item k groups h)

pub group_items_lists :
    (items : List CheckItem) (index : ℕ) (groups : List Group) (k : ℕ) (item : CheckItem)
    → item_at k items ≡ some item
    → is_grouped (index + k) (group_items items index groups) ≡ true
group_items_lists [] index groups k item h = absurd (ground arith)
group_items_lists (first ∷ items) index groups zero item h =
    let here : index ≡ index + 0 = omega arith in
    subst (λ i. is_grouped i (group_items items (index + 1) (add_item index first groups)) ≡ true)
      here
      (group_items_keeps_grouped index items (index + 1) (add_item index first groups)
        (add_item-is_grouped index first groups))
group_items_lists (first ∷ items) index groups (suc k) item h =
    let next : (index + 1) + k ≡ index + suc k = omega arith in
    subst (λ i. is_grouped i (group_items items (index + 1) (add_item index first groups)) ≡ true)
      next (group_items_lists items (index + 1) (add_item index first groups) k item h)

pub group_items-AreOwn :
    (all items : List CheckItem) (index : ℕ) (groups : List Group)
    → ((k : ℕ) → item_at (index + k) all ≡ item_at k items)
    → AreOwn all groups × AreApart groups
    → AreOwn all (group_items items index groups) × AreApart (group_items items index groups)
group_items-AreOwn all [] index groups stands h = h
group_items-AreOwn all (item ∷ items) index groups stands h =
    let first : index ≡ index + 0 = omega arith in
    let here : item_at index all ≡ some item = ap (λ i. item_at i all) first ∙ stands 0 in
    group_items-AreOwn all items (index + 1) (add_item index item groups)
      (λ k.
        let next : (index + 1) + k ≡ index + suc k = omega arith in
        ap (λ i. item_at i all) next ∙ stands (suc k))
      (add_item-AreOwn index item all groups here h.0, add_item-AreApart index item groups h.1)

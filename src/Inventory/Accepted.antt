-- ===== src/Inventory/Accepted.antt =====
-- Electrical facts by their names, and what the comparisons of db/postgres/inventory.py tell.
use parts_bin.Prelude.{
  ℕ, ◌≡◌, inl, inr, refl, ap, ◌∙◌, true, Option, none, some, List, [], ◌∷◌, arith, Option-cases,
  ◌==◌, if◌then◌else◌, ==_refl, ==_iff,
}
use parts_bin.Storage.Table.{Table, lookup, lookup-insert, lookup-update_self}
use parts_bin.Storage.Parts.{Fact, Metadata}
use parts_bin.Texts.{same_text-eq, same_text?-eq}
use parts_bin.Storage.Parts.{Profile, passive, discrete_ic}
use parts_bin.Inventory.Facts.{
  same_profile, same_metadata, same_fact, same_facts, put_fact, put_facts, store_facts,
}

-- The fact of a name, and the last one of it.
abbrev pub fact_named : ℕ → List Fact → Option Fact
fact_named name [] = none
fact_named name (f ∷ facts) = if f.name == name then some f else fact_named name facts

abbrev pub or_other {ℓ} : {A : Type ℓ} → Option A → Option A → Option A
or_other none other = other
or_other (some a) other = some a

abbrev pub last_named : ℕ → List Fact → Option Fact
last_named name [] = none
last_named name (f ∷ facts) =
    or_other (last_named name facts) (if f.name == name then some f else none)

pub fact_named-put_fact :
    (name : ℕ) (f : Fact) (facts : List Fact)
    → fact_named name (put_fact f facts)
      ≡ or_other (if f.name == name then some f else none) (fact_named name facts)
fact_named-put_fact name f [] = ground arith
fact_named-put_fact name f (g ∷ facts) = ground (arith, fact_named-put_fact name f facts)

pub fact_named-put_facts :
    (name : ℕ) (fs facts : List Fact)
    → fact_named name (put_facts fs facts) ≡ or_other (last_named name fs) (fact_named name facts)
fact_named-put_facts name [] facts = refl
fact_named-put_facts name (f ∷ fs) facts =
    fact_named-put_facts name fs (put_fact f facts)
    ∙ ap (or_other (last_named name fs)) (fact_named-put_fact name f facts)
    ∙ ground arith

pub or_other-none {ℓ} : {A : Type ℓ} (o : Option A) → or_other o none ≡ o
or_other-none none = refl
or_other-none (some a) = refl

pub lookup-store_facts :
    (k : ℕ) (facts : List Fact) (t : Table (List Fact))
    → lookup k (store_facts k facts t) ≡ some facts
lookup-store_facts k facts t = elim (Option-cases (lookup k t)) [
  | inl missing ↦ ground (arith, lookup-insert k k facts t, ==_refl k)
  | inr (old, found) ↦ ground (arith, lookup-update_self k (λ x. facts) t old found)
]

same_fact-eq : (a b : Fact) → same_fact a b ≡ true → a ≡ b
same_fact-eq a b h =
    let name : a.name ≡ b.name = (ground (arith, ==_iff a.name b.name)) in
    let rest : a.rest ≡ b.rest = (ground (arith, ==_iff a.rest b.rest)) in
    λ i. record { name = name i; rest = rest i }

pub same_facts-eq : (s t : List Fact) → same_facts s t ≡ true → s ≡ t
same_facts-eq [] [] h = refl
same_facts-eq [] (b ∷ t) h = absurd (ground arith)
same_facts-eq (a ∷ s) [] h = absurd (ground arith)
same_facts-eq (a ∷ s) (b ∷ t) h =
    let first = same_fact-eq a b (ground arith) in
    let rest = same_facts-eq s t (ground arith) in λ i. first i ∷ rest i

same_profile-eq : (a b : Profile) → same_profile a b ≡ true → a ≡ b
same_profile-eq passive passive h = refl
same_profile-eq passive discrete_ic h = absurd (ground arith)
same_profile-eq discrete_ic passive h = absurd (ground arith)
same_profile-eq discrete_ic discrete_ic h = refl

-- Metadata that the code finds the same is the same.
pub same_metadata-eq : (a b : Metadata) → same_metadata a b ≡ true → a ≡ b
same_metadata-eq a b h =
    let category = same_text-eq a.part_category b.part_category (ground arith) in
    let profile = same_profile-eq a.profile b.profile (ground arith) in
    let value = same_text?-eq a.value b.value (ground arith) in
    let case = same_text?-eq a.«package» b.«package» (ground arith) in
    let number = same_text?-eq a.part_number b.part_number (ground arith) in
    let maker = same_text?-eq a.manufacturer b.manufacturer (ground arith) in
    let unit = same_text?-eq a.value_unit b.value_unit (ground arith) in
    λ i. record {
      part_category = category i;
      profile = profile i;
      value = value i;
      «package» = case i;
      part_number = number i;
      manufacturer = maker i;
      value_unit = unit i;
    }

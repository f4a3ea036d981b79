-- ===== src/Electrical/Facts/Evidence.antt =====
-- What `validate_facts` of domain/specifications.py makes sure of in the conditions and the evidence of
-- one fact.
use parts_bin.Prelude.{
  ◌≤◌, ◌≡◌, ◌≢◌, refl, sym, ap, ◌∙◌, subst, Bool, true, false, not, ◌||◌, [], ◌∷◌, length, ltb,
  ltb→ge, Option, none, some, arith,
}
use parts_bin.Storage.Parts.{Text, same_text}
use parts_bin.Storage.Tx.{ok}
use parts_bin.Texts.{codes, among, same_text-eq}
use parts_bin.Electrical.Entries.{lookup}
use parts_bin.Electrical.Conditions.{Conditions}
use parts_bin.Electrical.Results.{refuse_if, >>=-eq-ok, refuse_if-eq-ok, ok-injective}
use parts_bin.Electrical.Json.{
  Json, null, boolean, integer, real, text, array, object, Object, text_of, object_of,
}
use parts_bin.Electrical.Specifications.{
  conditions, bounded_conditions, is_unbounded, max_conditions, is_text,
}
use parts_bin.Electrical.Facts.{check_evidence}
use parts_bin.Electrical.Facts.Checks.{
  Readers, member, has_only, kind_of, check_excerpt, check_passages, check_url, is_page, check_hash,
  check_time, is_exact, source_keys, passages_of, check_source,
}

bounded_length : (m : Object) (c : Conditions) → bounded_conditions m ≡ ok c → length c ≡ length m
bounded_length [] c h = ap length (sym (ok-injective h))
bounded_length ((key, value) ∷ m) c h =
    let (named, h1) = refuse_if-eq-ok (is_unbounded 80 key) _ h in
    let (s, e2, h2) = >>=-eq-ok (text_of value) _ h1 in
    let (short, h3) = refuse_if-eq-ok (is_unbounded 200 s) _ h2 in
    let (rest, e4, h4) = >>=-eq-ok (bounded_conditions m) _ h3 in
    ap length (sym (ok-injective h4)) ∙ omega (arith, bounded_length m rest e4)

pub conditions_bounded :
    (raw : Json) (c : Conditions) → conditions raw ≡ ok c → length c ≤ max_conditions
unfolding conditions
conditions_bounded raw c h =
    let (entries, e, h1) = >>=-eq-ok (object_of raw) _ h in
    let (few, h2) = refuse_if-eq-ok (ltb max_conditions (length entries)) _ h1 in
    omega (arith, ltb→ge max_conditions (length entries) few, bounded_length entries c h2)

-- The ordering code of the evidence is the part's.
abbrev pub NamesPart : Option Text → Object → Type 0
NamesPart part_number evidence =
    (s : Text) × (s ≢ [])
    × (part_number ≡ some s)
    × (member (codes "part_number") evidence ≡ text s)

is_exact-NamesPart :
    (part_number : Option Text) (j : Json)
    → is_exact part_number j ≡ true
    → (s : Text) × (s ≢ []) × (part_number ≡ some s) × (j ≡ text s)
is_exact-NamesPart none (text s) h = absurd (ground arith)
is_exact-NamesPart (some []) (text s) h = absurd (ground arith)
is_exact-NamesPart (some (c ∷ p)) (text s) h =
    let same : c ∷ p ≡ s = same_text-eq (c ∷ p) s h in
    (s, subst (λ t. t ≢ []) same (λ e. cc), ap some same, refl)
is_exact-NamesPart part_number null h = absurd (ground arith)
is_exact-NamesPart part_number (boolean b) h = absurd (ground arith)
is_exact-NamesPart part_number (integer n) h = absurd (ground arith)
is_exact-NamesPart part_number (real n) h = absurd (ground arith)
is_exact-NamesPart part_number (array items) h = absurd (ground arith)
is_exact-NamesPart part_number (object members) h = absurd (ground arith)

check_source-NamesPart :
    (readers : Readers) (part_number : Option Text) (evidence : Object)
    → check_source readers part_number evidence ≡ ok tt
    → NamesPart part_number evidence
unfolding check_source
check_source-NamesPart readers part_number evidence h =
    let (keys, h1) =
      refuse_if-eq-ok
        (not (
          has_only source_keys evidence
          || has_only (codes "supporting_passages" ∷ source_keys) evidence))
        _ h in
    let (passages, e2, h2) =
      >>=-eq-ok (passages_of (lookup (codes "supporting_passages") evidence)) _ h1 in
    let (few, h3) = refuse_if-eq-ok (ltb 3 (length passages)) _ h2 in
    let (u4, e4, h4) = >>=-eq-ok (check_passages passages) _ h3 in
    let (u5, e5, h5) = >>=-eq-ok (check_url readers (member (codes "url") evidence)) _ h4 in
    let (page, h6) = refuse_if-eq-ok (not (is_page (member (codes "page") evidence))) _ h5 in
    let (u7, e7, h7) = >>=-eq-ok (check_hash (member (codes "sha256") evidence)) _ h6 in
    let (u8, e8, h8) =
      >>=-eq-ok (check_time readers (member (codes "retrieved_at") evidence)) _ h7 in
    is_exact-NamesPart part_number _ (refuse_if-passes _ h8)
  where
    refuse_if-passes : (b : Bool) → refuse_if (not b) ≡ ok tt → b ≡ true
    refuse_if-passes true k = refl
    refuse_if-passes false k = absurd (ground arith)

kind_of-text : (j : Json) (k : Text) → kind_of j ≡ ok k → j ≡ text k
unfolding kind_of
kind_of-text (text s) k h = ap text (ok-injective h)
kind_of-text null k h = absurd (ground arith)
kind_of-text (boolean b) k h = absurd (ground arith)
kind_of-text (integer n) k h = absurd (ground arith)
kind_of-text (real n) k h = absurd (ground arith)
kind_of-text (array items) k h = absurd (ground arith)
kind_of-text (object members) k h = absurd (ground arith)

abbrev pub is_source : Object → Bool
is_source evidence = is_text (member (codes "kind") evidence) (codes "source")

pub check_evidence-NamesPart :
    (readers : Readers) (part_number : Option Text) (evidence : Object)
    → check_evidence readers part_number evidence ≡ ok tt
    → is_source evidence ≡ true
    → NamesPart part_number evidence
unfolding check_evidence
check_evidence-NamesPart readers part_number evidence h source =
    let (kind, e1, h1) = >>=-eq-ok (kind_of (member (codes "kind") evidence)) _ h in
    let (known, h2) =
      refuse_if-eq-ok (not (among kind (codes "source" ∷ codes "user_assertion" ∷ []))) _ h1 in
    let (u3, e3, h3) = >>=-eq-ok (check_excerpt 1200 (member (codes "excerpt") evidence)) _ h2 in
    let named : same_text kind (codes "source") ≡ true =
      ap (λ j. is_text j (codes "source")) (sym (kind_of-text _ kind e1)) ∙ source in
    check_source-NamesPart readers part_number evidence (rw named at h3)

-- ===== src/Service/Batch.antt =====
-- What a batch of new parts leaves: `create_parts` of domain/service.py.
use parts_bin.Prelude.{
  ℕ, zero, suc, ◌+◌, ◌≡◌, refl, sym, ap, ◌∙◌, subst, Bool, true, false, not, ◌&&◌, Option, none,
  some, List, [], ◌∷◌, map, arith, length, leb,
}
use parts_bin.Storage.Parts.{PartFields, PartRow}
use parts_bin.Storage.Rows.{Db}
use parts_bin.Storage.Tx.{
  Result, ok, err, domain_error, invalid_input, >>=-eq-ok, raise_if_then-eq-ok,
}
use parts_bin.Normalization.{Readers, Draft, validate_fields, part_identity, Identity}
use parts_bin.Service.{draft_of}
use parts_bin.Service.Identity.{duplicate_for_add}
use parts_bin.Service.Adding.{
  Reason, added, existing, duplicate_input, CreatePartOutcome, validate_each, validated_and,
  add_part, find_seen, existing_or_added, create_one, note_seen, create_each, create_parts,
}
use parts_bin.Service.Inversion.{lift_then-eq-ok}
use parts_bin.Service.Creation.{KeepsParts, IsNewPart, KeepsParts-absent, add_part_inserts}

-- The numbers that a batch of some length gets
abbrev pub numbered : ℕ → ℕ → List ℕ
numbered zero first = []
numbered (suc n) first = first ∷ numbered n (first + 1)

-- A part that is reported as added has a row that was not there before.
abbrev pub IsAccounted : Db → Db → CreatePartOutcome → Type 0
IsAccounted db db' o = o.reason ≡ added → IsNewPart db db' o.part_id o.part

abbrev pub AllAccounted : Db → Db → List CreatePartOutcome → Type 0
AllAccounted db db' [] = Unit
AllAccounted db db' (o ∷ os) = IsAccounted db db' o × AllAccounted db db' os

abbrev is_added : Reason → Bool
is_added added = true
is_added existing = false
is_added (duplicate_input i) = false

existing_or_added_creates :
    (readers : Readers) (index : ℕ) (f : PartFields) (now : ℕ) (found : Option (ℕ × PartRow))
    (db : Db) (o : CreatePartOutcome) (db' : Db)
    → existing_or_added readers index f now found db ≡ ok (o, db')
    → (o.index ≡ index) × KeepsParts db db' × IsAccounted db db' o
existing_or_added_creates readers index f now (some q) db o db' h =
    let same : db ≡ db' = ground arith in
    let is_o : record { index = index; part_id = q.0; part = q.1; reason = existing } ≡ o =
      ground arith in
    (
      sym (ap (λ (x : CreatePartOutcome). x.index) is_o),
      subst (KeepsParts db) same (λ j p e. e),
      λ e. absurd (ground (arith, ap (λ (x : CreatePartOutcome). is_added x.reason) is_o)),
    )
existing_or_added_creates readers index f now none db o db' h =
    let (r, mid, is_inserted, ended) = >>=-eq-ok (add_part readers (draft_of f) now) _ db h in
    let (g, valid, is_fresh, new, keeps) =
      add_part_inserts readers (draft_of f) now db r.0 r.1 mid is_inserted in
    let same : mid ≡ db' = ground arith in
    let is_o : record { index = index; part_id = r.0; part = r.1; reason = added } ≡ o =
      ground arith in
    (
      sym (ap (λ (x : CreatePartOutcome). x.index) is_o),
      subst (KeepsParts db) same keeps,
      λ e.
          subst (λ (x : CreatePartOutcome). IsNewPart db db' x.part_id x.part) is_o
            (subst (λ d. IsNewPart db d r.0 r.1) same new),
    )

create_one_creates :
    (readers : Readers) (index : ℕ) (f : PartFields) (now : ℕ) (seen : Option CreatePartOutcome)
    (db : Db) (o : CreatePartOutcome) (db' : Db)
    → create_one readers index f now seen db ≡ ok (o, db')
    → (o.index ≡ index) × KeepsParts db db' × IsAccounted db db' o
create_one_creates readers index f now (some previous) db o db' h =
    let same : db ≡ db' = ground arith in
    let is_o : record {
      index = index;
      part_id = previous.part_id;
      part = previous.part;
      reason = duplicate_input previous.index;
    }
        ≡ o =
      ground arith in
    (
      sym (ap (λ (x : CreatePartOutcome). x.index) is_o),
      subst (KeepsParts db) same (λ j p e. e),
      λ e. absurd (ground (arith, ap (λ (x : CreatePartOutcome). is_added x.reason) is_o)),
    )
create_one_creates readers index f now none db o db' h =
    let (found, is_found, rest) = lift_then-eq-ok (duplicate_for_add readers f db) _ db h in
    existing_or_added_creates readers index f now found db o db' rest

IsAccounted-later :
    (db mid db' : Db) (o : CreatePartOutcome)
    → KeepsParts mid db'
    → IsAccounted db mid o
    → IsAccounted db db' o
IsAccounted-later db mid db' o keeps accounted e =
    let new = accounted e in (new.0, keeps o.part_id o.part new.1)

AllAccounted-earlier :
    (db mid db' : Db) (os : List CreatePartOutcome)
    → KeepsParts db mid
    → AllAccounted mid db' os
    → AllAccounted db db' os
AllAccounted-earlier db mid db' [] keeps h = tt
AllAccounted-earlier db mid db' (o ∷ os) keeps h = (
  (λ e. let new = h.0 e in (KeepsParts-absent db mid o.part_id keeps new.0, new.1)),
  AllAccounted-earlier db mid db' os keeps h.1,
)

create_each_creates :
    (readers : Readers) (fs : List PartFields) (index now : ℕ)
    (seen : List (Identity × CreatePartOutcome)) (db : Db) (os : List CreatePartOutcome) (db' : Db)
    → create_each readers fs index now seen db ≡ ok (os, db')
    → (map (λ o. o.index) os ≡ numbered (length fs) index)
      × KeepsParts db db'
      × AllAccounted db db' os
create_each_creates readers [] index now seen db os db' h =
    let none_made : [] ≡ os = ground arith in
    let same : db ≡ db' = ground arith in
    (
      ap (map (λ (o : CreatePartOutcome). o.index)) (sym none_made),
      subst (KeepsParts db) same (λ j p e. e),
      subst (AllAccounted db db') none_made tt,
    )
create_each_creates readers (f ∷ fs) index now seen db os db' h =
    let identity = part_identity readers f in
    let found = find_seen readers identity seen in
    let (o, mid, is_one, rest) = >>=-eq-ok (create_one readers index f now found) _ db h in
    let (later, last, is_rest, ended) =
      >>=-eq-ok (create_each readers fs (index + 1) now (note_seen readers identity found o seen)) _
        mid rest in
    let same : last ≡ db' = ground arith in
    let all : o ∷ later ≡ os = ground arith in
    let (at_index, keeps, accounted) =
      create_one_creates readers index f now found db o mid is_one in
    let (at_rest, keeps_rest, accounted_rest) =
      create_each_creates readers fs (index + 1) now (note_seen readers identity found o seen) mid
        later last is_rest in
    let both : KeepsParts db last = λ j p e. keeps_rest j p (keeps j p e) in
    (
      ap (map (λ (x : CreatePartOutcome). x.index)) (sym all) ∙ (λ i. at_index i ∷ at_rest i),
      subst (KeepsParts db) same both,
      subst (λ (d : Db). AllAccounted db d os) same
          (subst (AllAccounted db last) all (
            IsAccounted-later db mid last o keeps_rest accounted,
            AllAccounted-earlier db mid last later keeps accounted_rest,
          )),
    )

validated_and-eq-ok :
    (r : Result PartFields) (rs : Result (List PartFields)) (fs : List PartFields)
    → validated_and r rs ≡ ok fs
    → (f : PartFields) × (gs : List PartFields) × (rs ≡ ok gs) × (f ∷ gs ≡ fs)
validated_and-eq-ok (ok f) (ok gs) fs h = (f, gs, refl, ground arith)
validated_and-eq-ok (ok f) (err e) fs h = absurd (ground arith)
validated_and-eq-ok (err e) rs fs h = absurd (ground arith)

length-validate_each :
    (readers : Readers) (items : List Draft) (fs : List PartFields)
    → validate_each readers items ≡ ok fs
    → length fs ≡ length items
length-validate_each readers [] fs h = ground arith
length-validate_each readers (d ∷ ds) fs h =
    let (f, gs, rest, all) =
      validated_and-eq-ok (validate_fields readers d) (validate_each readers ds) fs h in
    ap length (sym all) ∙ ap suc (length-validate_each readers ds gs rest)

-- A batch of new parts that is accepted leaves every row that was there as it was, answers its items one
-- by one in their order, and each part that it says was added has a row that is new.
pub create_parts_creates :
    (readers : Readers) (items : List Draft) (now : ℕ) (db : Db) (os : List CreatePartOutcome)
    (db' : Db)
    → create_parts readers items now db ≡ ok (os, db')
    → (map (λ o. o.index) os ≡ numbered (length items) 0)
      × KeepsParts db db'
      × AllAccounted db db' os
unfolding create_parts
create_parts_creates readers items now db os db' h =
    let (sized, valid) =
      raise_if_then-eq-ok (not (leb 1 (length items) && leb (length items) 100))
        (domain_error invalid_input) _ db h in
    let (fs, validated, rest) = lift_then-eq-ok (validate_each readers items) _ db valid in
    let (at, keeps, accounted) = create_each_creates readers fs 0 now [] db os db' rest in
    (
      at ∙ ap (λ n. numbered n 0) (length-validate_each readers items fs validated),
      keeps,
      accounted,
    )

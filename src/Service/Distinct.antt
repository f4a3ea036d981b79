-- ===== src/Service/Distinct.antt =====
-- Identities stay distinct, and evidence stays with what it was taken for: edits of parts in
-- domain/service.py.
use parts_bin.Prelude.{
  ℕ, ◌≡◌, ◌≢◌, sym, ap, ◌∙◌, subst, Bool, true, false, Option, none, some, arith, Bool-cases, inl,
  inr, length, ==_refl, ==_ne, ltb→ge, ℤ, pos, negsuc, is_negative, if◌then◌else◌,
}
use parts_bin.Storage.Table.{lookup, lookup-update_ne}
use parts_bin.Storage.Selection.{length-select_two, lookup-select}
use parts_bin.Storage.Parts.{PartFields, PartRow}
use parts_bin.Storage.Rows.{Db}
use parts_bin.Storage.Tx.{ok}
use parts_bin.Texts.{same_text_refl, same_text?_refl}
use parts_bin.Inventory.{replaced_row}
use parts_bin.Inventory.Counts.{IsCounted}
use parts_bin.Inventory.Facts.{metadata_of}
use parts_bin.Inventory.Accepted.{same_metadata-eq}
use parts_bin.Normalization.{
  Readers, part_identity, Identity, part_number, passive_part, same_identity,
}
use parts_bin.Service.Search.{list_parts, at_least}
use parts_bin.Service.Identity.{identities_meet, collides, collisions, has_evidence}
use parts_bin.Service.Updating.{Updates, update_part}
use parts_bin.Service.Editing.{update_part-eq-ok, is_taken}

same_identity_refl : (i : Identity) → same_identity i i ≡ true
same_identity_refl (part_number n) = same_text_refl n
same_identity_refl (passive_part c v p) =
    ground (arith, same_text_refl c, same_text?_refl v, same_text?_refl p)

-- Fields whose identity meets another's have one, which meets itself.
identities_meet_self :
    (i j : Option Identity) → identities_meet i j ≡ true → identities_meet j j ≡ true
identities_meet_self (some i) (some j) h = same_identity_refl j
identities_meet_self none j h = absurd (ground arith)
identities_meet_self (some i) none h = absurd (ground arith)

at_least_zero : (q : ℤ) → is_negative q ≡ false → at_least 0 q ≡ true
at_least_zero (pos n) h = ground arith
at_least_zero (negsuc n) h = absurd (ground arith)

listed :
    (db : Db) (j : ℕ) (q : PartRow)
    → IsCounted db
    → lookup j db.parts ≡ some q
    → lookup j (list_parts db) ≡ some q
listed db j q counted found =
    lookup-select (λ k p. at_least 0 p.fields.quantity) j q db.parts found
      (at_least_zero q.fields.quantity (ground (arith, counted j q found)))

-- Where the identity of new fields is not taken, no other part has it.
pub is_taken-false :
    (readers : Readers) (part_id : ℕ) (f : PartFields) (db : Db) (current : PartRow)
    → IsCounted db
    → lookup part_id db.parts ≡ some current
    → is_taken readers part_id f db ≡ false
    → (j : ℕ) (q : PartRow) → j ≢ part_id
    → lookup j db.parts ≡ some q
    → identities_meet (part_identity readers q.fields) (part_identity readers f) ≡ false
unfolding collisions
is_taken-false readers part_id f db current counted found free j q differ other =
    elim (Bool-cases (identities_meet (part_identity readers q.fields) (part_identity readers f))) [
      | inr apart ↦ apart
      | inl meet ↦
          let itself =
            identities_meet_self (part_identity readers q.fields) (part_identity readers f) meet in
          let two =
            length-select_two (collides readers part_id f) part_id j current q (list_parts db)
              differ (listed db part_id current counted found)
              (ap
                  (λ (b : Bool).
                    identities_meet (part_identity readers (if b then f else current.fields))
                      (part_identity readers f))
                  (==_refl part_id)
                ∙ itself)
              (listed db j q counted other)
              (ap
                  (λ (b : Bool).
                    identities_meet (part_identity readers (if b then f else q.fields))
                      (part_identity readers f))
                  (==_ne j part_id differ)
                ∙ meet) in
          absurd (omega (arith, two, ltb→ge 1 (length (collisions readers part_id f db)) free))
    ]

-- After an edit that is accepted no other part has the identity under which the edited part is counted,
-- if no quantity was negative.
pub update_part_distinct :
    (readers : Readers) (part_id : ℕ) (updates : Updates) (now : ℕ) (db : Db) (p : PartRow)
    (db' : Db)
    → IsCounted db
    → update_part readers part_id updates now db ≡ ok (p, db')
    → (j : ℕ) (q : PartRow) → j ≢ part_id
    → lookup j db'.parts ≡ some q
    → identities_meet (part_identity readers q.fields) (part_identity readers p.fields) ≡ false
update_part_distinct readers part_id updates now db p db' counted h j q differ other =
    let (current, f, found, cleaned, bound, free, after, same) =
      update_part-eq-ok readers part_id updates now db p db' h in
    let before =
      sym (lookup-update_ne part_id j (replaced_row f now) db.parts differ)
      ∙ ap (λ (d : Db). lookup j d.parts) after
      ∙ other in
    subst
      (λ (r : PartRow).
        identities_meet (part_identity readers q.fields) (part_identity readers r.fields) ≡ false)
      same (is_taken-false readers part_id f db current counted found free j q differ before)

-- An edit that is accepted leaves the metadata of a part as it was where electrical facts, or a review of
-- them, are bound to it.
pub update_part_evidence :
    (readers : Readers) (part_id : ℕ) (updates : Updates) (now : ℕ) (db : Db) (p : PartRow)
    (db' : Db)
    → has_evidence part_id db ≡ true
    → update_part readers part_id updates now db ≡ ok (p, db')
    → (old : PartRow) → lookup part_id db.parts ≡ some old
    → metadata_of p.fields ≡ metadata_of old.fields
update_part_evidence readers part_id updates now db p db' evidence h old is_old =
    let (current, f, found, cleaned, bound, free, after, same) =
      update_part-eq-ok readers part_id updates now db p db' h in
    let same_row : current ≡ old = ground arith in
    let kept = same_metadata-eq (metadata_of f) (metadata_of current.fields) (ground arith) in
    ap (λ (r : PartRow). metadata_of r.fields) (sym same)
    ∙ kept
    ∙ ap (λ (r : PartRow). metadata_of r.fields) same_row

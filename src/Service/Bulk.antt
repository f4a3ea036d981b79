-- ===== src/Service/Bulk.antt =====
-- What a bulk edit leaves and answers: `bulk_update` of domain/service.py.
use parts_bin.Prelude.{
  ℕ, ◌≡◌, refl, sym, ap, ◌∙◌, subst, true, false, not, ◌||◌, ◌==◌, some, List, [], ◌∷◌, ◌⊎◌, inl,
  inr, ==_refl, arith, any, ==_iff,
}
use parts_bin.Storage.Table.{lookup, lookup-update_self, lookup-update_ne}
use parts_bin.Storage.Parts.{PartFields, PartRow}
use parts_bin.Storage.Rows.{Db}
use parts_bin.Storage.Tx.{
  Result, ok, err, ErrorCode, domain_error, invalid_input, >>=-eq-ok, raise_if_then-eq-ok,
  ok-injective,
}
use parts_bin.Inventory.{replaced_row}
use parts_bin.Inventory.Stock.{is_batch_size, has_bad_target, has_repeated}
use parts_bin.Normalization.{Readers, validate_fields}
use parts_bin.Service.{draft_of, update_fields, has_unknown}
use parts_bin.Service.Updating.{
  Updates, is_empty, update_part, get_each, preview_each, preview_bulk_update, BulkResult,
  add_changed, add_error, commit_one, bulk_each, bulk_update,
}
use parts_bin.Service.Inversion.{lift_then-eq-ok, get_part_then-eq-ok}
use parts_bin.Service.Editing.{update_part-eq-ok}

get_each-keeps :
    (readers : Readers) (ids : List ℕ) (db : Db) (rows : List PartRow) (db' : Db)
    → get_each readers ids db ≡ ok (rows, db')
    → db ≡ db'
get_each-keeps readers [] db rows db' h = ground arith
get_each-keeps readers (part_id ∷ ids) db rows db' h =
    let (p, found, rest) = get_part_then-eq-ok part_id _ db h in
    let (later, mid, is_rest, ended) = >>=-eq-ok (get_each readers ids) _ db rest in
    get_each-keeps readers ids db later mid is_rest ∙ ground arith

preview_each-keeps :
    (readers : Readers) (updates : Updates) (rows : List PartRow) (db : Db)
    (out : List (PartRow × PartFields)) (db' : Db)
    → preview_each readers updates rows db ≡ ok (out, db')
    → db ≡ db'
preview_each-keeps readers updates [] db out db' h = ground arith
preview_each-keeps readers updates (p ∷ rows) db out db' h =
    let (f, valid, rest) =
      lift_then-eq-ok (validate_fields readers (update_fields updates (draft_of p.fields))) _ db
        h in
    let (later, mid, is_rest, ended) = >>=-eq-ok (preview_each readers updates rows) _ db rest in
    preview_each-keeps readers updates rows db later mid is_rest ∙ ground arith

-- A preview changes nothing, and no part stands twice in its selection.
pub preview_bulk_update-keeps :
    (readers : Readers) (ids : List ℕ) (updates : Updates) (db : Db)
    (out : List (PartRow × PartFields)) (db' : Db)
    → preview_bulk_update readers ids updates db ≡ ok (out, db')
    → (db ≡ db') × (has_repeated ids ≡ false)
unfolding preview_bulk_update
preview_bulk_update-keeps readers ids updates db out db' h =
    let (sized, h0) =
      raise_if_then-eq-ok (not (is_batch_size ids) || has_bad_target ids)
        (domain_error invalid_input) _ db h in
    let (given, h1) = raise_if_then-eq-ok (is_empty updates) (domain_error invalid_input) _ db h0 in
    let (known, h2) =
      raise_if_then-eq-ok (has_unknown updates) (domain_error invalid_input) _ db h1 in
    let (rows, mid, is_read, rest) = >>=-eq-ok (get_each readers ids) _ db h2 in
    (
      get_each-keeps readers ids db rows mid is_read
          ∙ preview_each-keeps readers updates rows mid out db' rest,
      ground arith,
    )

-- All parts but these have the rows that they had.
abbrev pub KeepsUnlisted : List ℕ → Db → Db → Type 0
KeepsUnlisted ids db db' =
    (j : ℕ) → any (λ i. i == j) ids ≡ false → lookup j db'.parts ≡ lookup j db.parts

module _ (readers : Readers) (updates : Updates) (now : ℕ) where
  -- The part was changed: the answer is its row now, with the fields that the edit validates.
  abbrev pub IsChanged : ℕ → PartRow → Db → Db → Type 0
  IsChanged i p db db' =
      (current : PartRow) × (lookup i db.parts ≡ some current)
      × (validate_fields readers (update_fields updates (draft_of current.fields)) ≡ ok p.fields)
      × (lookup i db'.parts ≡ some p)

  -- The part was left as it was, for its edit fails with the code.
  abbrev pub IsRefused : ℕ → ErrorCode → Db → Db → Type 0
  IsRefused i code db db' =
      (mid : Db) × (lookup i mid.parts ≡ lookup i db.parts)
      × (update_part readers i updates now mid ≡ err (domain_error code))
      × (lookup i db'.parts ≡ lookup i db.parts)

  -- Each id in turn stands behind the next of the parts or is named by the next of the errors.
  abbrev pub AreAnswered : List ℕ → List PartRow → List (ℕ × ErrorCode) → Db → Db → Type 0
  AreAnswered [] parts errors db db' = (parts ≡ []) × (errors ≡ [])
  AreAnswered (i ∷ ids) parts errors db db' =
      ((p : PartRow) × (rest : List PartRow) × (parts ≡ p ∷ rest)
        × IsChanged i p db db'
        × AreAnswered ids rest errors db db')
      ⊎ ((code : ErrorCode) × (rest : List (ℕ × ErrorCode)) × (errors ≡ (i, code) ∷ rest)
          × IsRefused i code db db'
          × AreAnswered ids parts rest db db')

  -- What becomes of parts speaks of their own rows alone.
  AreAnswered-from :
      (ids : List ℕ) (parts : List PartRow) (errors : List (ℕ × ErrorCode)) (db mid db' : Db)
      → ((j : ℕ) → any (λ i. i == j) ids ≡ true → lookup j mid.parts ≡ lookup j db.parts)
      → AreAnswered ids parts errors mid db'
      → AreAnswered ids parts errors db db'
  AreAnswered-from [] parts errors db mid db' same h = h
  AreAnswered-from (i ∷ ids) parts errors db mid db' same
        (inl (p, rest, is_parts, (current, found, valid, stands), later)) =
      let own = same i (ground (arith, ==_refl i)) in
      inl (
        p,
        rest,
        is_parts,
        (current, sym own ∙ found, valid, stands),
        AreAnswered-from ids rest errors db mid db' (λ j listed. same j (ground arith)) later,
      )
  AreAnswered-from (i ∷ ids) parts errors db mid db' same
        (inr (code, rest, is_errors, (d, is_d, refused, kept), later)) =
      let own = same i (ground (arith, ==_refl i)) in
      inr (
        code,
        rest,
        is_errors,
        (d, is_d ∙ own, refused, kept ∙ own),
        AreAnswered-from ids parts rest db mid db' (λ j listed. same j (ground arith)) later,
      )

  -- One round: what it adds to the answer, and the rows that it keeps
  commit_one-answers :
      (part_id : ℕ) (r : Result (PartRow × Db)) (db : Db) (add : BulkResult → BulkResult) (db' : Db)
      → update_part readers part_id updates now db ≡ r
      → commit_one readers part_id r db db ≡ ok (add, db')
      → KeepsUnlisted (part_id ∷ []) db db'
        × (((p : PartRow) × (add_changed p ≡ add) × IsChanged part_id p db db')
            ⊎ ((code : ErrorCode) × (add_error part_id code ≡ add) × IsRefused part_id code db db'))
  commit_one-answers part_id (ok (p, mid)) db add db' is_r h =
      let (is_add, same) = ok-injective h in
      let (current, f, found, cleaned, bound, free, after, is_p) =
        update_part-eq-ok readers part_id updates now db p mid is_r in
      let is_after = after ∙ same in
      let stands =
        ap (λ (d : Db). lookup part_id d.parts) (sym is_after)
        ∙ lookup-update_self part_id (replaced_row f now) db.parts current found
        ∙ ap some is_p in
      let valid = cleaned ∙ ap (λ (q : PartRow). ok q.fields) is_p in
      (
        λ j unlisted.
            ap (λ (d : Db). lookup j d.parts) (sym is_after)
            ∙ lookup-update_ne part_id j (replaced_row f now) db.parts
                (λ e. ground (arith, ==_iff part_id j)),
        inl (p, is_add, (current, found, valid, stands)),
      )
  commit_one-answers part_id (err (domain_error code)) db add db' is_r h =
      let (is_add, same) = ok-injective h in
      (
        λ j unlisted. ap (λ (d : Db). lookup j d.parts) (sym same),
        inr (code, is_add, (db, refl, is_r, ap (λ (d : Db). lookup part_id d.parts) (sym same))),
      )
  commit_one-answers part_id (err _) db add db' is_r h = absurd (ground arith)

  bulk_each_answers :
      (ids : List ℕ) (db : Db) (r : BulkResult) (db' : Db)
      → bulk_each readers ids updates now db ≡ ok (r, db')
      → has_repeated ids ≡ false
      → KeepsUnlisted ids db db' × AreAnswered ids r.parts r.errors db db'
  bulk_each_answers [] db r db' h distinct =
      let (is_r, same) = ok-injective h in
      (
        λ j unlisted. ap (λ (d : Db). lookup j d.parts) (sym same),
        (ap (λ (x : BulkResult). x.parts) (sym is_r), ap (λ (x : BulkResult). x.errors) (sym is_r)),
      )
  bulk_each_answers (part_id ∷ ids) db r db' h distinct =
      let one = update_part readers part_id updates now db in
      let (add, mid, is_one, rest) =
        >>=-eq-ok (λ d. commit_one readers part_id (update_part readers part_id updates now d) d d)
          _ db h in
      let (later, last, is_rest, ended) =
        >>=-eq-ok (bulk_each readers ids updates now) _ mid rest in
      let (is_r, same) = ok-injective ended in
      let (keeps, answer) = commit_one-answers part_id one db add mid refl is_one in
      let (keeps_rest, answered) =
        bulk_each_answers ids mid later db' (is_rest ∙ ap (λ d. ok (later, d)) same)
          (ground arith) in
      let own_row = keeps_rest part_id (ground arith) in
      let from_start =
        AreAnswered-from ids later.parts later.errors db mid db'
          (λ j listed. keeps j (ground (arith, ==_iff part_id j))) answered in
      (
        λ j unlisted. keeps_rest j (ground arith) ∙ keeps j (ground arith),
        elim answer [
          | inl (p, is_add, (current, found, valid, stands)) ↦
              let is_now : add_changed p later ≡ r = ap (λ g. g later) is_add ∙ is_r in
              subst (λ (x : BulkResult). AreAnswered (part_id ∷ ids) x.parts x.errors db db') is_now
                (inl (p, later.parts, refl, (current, found, valid, own_row ∙ stands), from_start))
          | inr (code, is_add, (d, is_d, refused, kept)) ↦
              let is_now : add_error part_id code later ≡ r = ap (λ g. g later) is_add ∙ is_r in
              subst (λ (x : BulkResult). AreAnswered (part_id ∷ ids) x.parts x.errors db db') is_now
                (inr (code, later.errors, refl, (d, is_d, refused, own_row ∙ kept), from_start))
        ],
      )

-- A bulk edit that is accepted answers each part of its selection, in their order: with the part's row
-- now, which has the edit's validated fields, or, the part's row being what it was, with its id and the
-- code with which its edit fails. Parts outside of the selection have the rows that they had.
pub bulk_update_answers :
    (readers : Readers) (ids : List ℕ) (updates : Updates) (now : ℕ) (db : Db) (r : BulkResult)
    (db' : Db)
    → bulk_update readers ids updates now db ≡ ok (r, db')
    → KeepsUnlisted ids db db' × AreAnswered readers updates now ids r.parts r.errors db db'
unfolding bulk_update
bulk_update_answers readers ids updates now db r db' h =
    let (out, mid, is_previewed, rest) =
      >>=-eq-ok (preview_bulk_update readers ids updates) _ db h in
    let (same, distinct) = preview_bulk_update-keeps readers ids updates db out mid is_previewed in
    subst
      (λ d. KeepsUnlisted ids d db' × AreAnswered readers updates now ids r.parts r.errors d db')
      (sym same) (bulk_each_answers readers updates now ids mid r db' rest distinct)

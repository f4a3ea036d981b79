-- ===== src/Intake/Acceptance.antt =====
-- An accepted message is stored and enrolled together, once.
use parts_bin.Prelude.{
  ℕ, ◌≡◌, refl, sym, ap, ◌∙◌, subst, Bool, true, Option, none, some, arith, is_some, ==_refl,
}
use parts_bin.Storage.Table.{Table, lookup, insert_if_absent, exists, lookup-insert_if_absent}
use parts_bin.Storage.Keys.{exists-insert, insert_if_absent-IsKeyed, insert_if_absent-AllRows}
use parts_bin.Storage.Rows.{Db, Context, StoredExecution, DispatchRow}
use parts_bin.Storage.Tx.{ok, >>=-eq-ok}
use parts_bin.Outbox.{new_row}
use parts_bin.Outbox.Stranding.{IsServed, is_live}
use parts_bin.Executions.{prepare}
use parts_bin.Executions.Ownership.{prepare_known, prepared_row}
use parts_bin.Intake.{accept, enroll, reserved_until, progress_state, is_active}

-- Intake leaves the outbox to `enroll`.
pub dispatch-prepare :
    (thread_id e : ℕ) (context : Context) (db : Db) {r : StoredExecution} {db' : Db}
    → prepare thread_id e context db ≡ ok (r, db')
    → db'.dispatch ≡ db.dispatch
unfolding prepare
dispatch-prepare thread_id e context db h = ground arith

pub accepted_mid :
    (thread_id e : ℕ) (context : Context) (reservation : Option ℕ) (now later : ℕ) (db : Db)
    {r : StoredExecution} {db' : Db}
    → accept thread_id e context reservation now later db ≡ ok (r, db')
    → (mid : Db) × (prepare thread_id e context db ≡ ok (r, mid))
      × (db' ≡ enroll e reservation now later mid)
unfolding accept
accepted_mid thread_id e context reservation now later db h =
    let (stored, mid, prepared, rest) =
      >>=-eq-ok (prepare thread_id e context) (λ s d. ok (s, enroll e reservation now later d)) db
        h in
    (mid, ground arith, ground arith)

-- Intake keeps every delivery served.
pub accept-IsServed :
    (thread_id e : ℕ) (context : Context) (reservation : Option ℕ) (now later : ℕ) (db : Db)
    {r : StoredExecution} {db' : Db}
    → IsServed db.dispatch
    → accept thread_id e context reservation now later db ≡ ok (r, db')
    → IsServed db'.dispatch
accept-IsServed thread_id e context reservation now later db h p =
    let (mid, prepared, enrolled) = accepted_mid thread_id e context reservation now later db p in
    let same = dispatch-prepare thread_id e context db prepared in
    let served = subst IsServed (sym same) h in
    subst (λ d. IsServed d.dispatch) (sym enrolled)
      (record {
        keyed = insert_if_absent-IsKeyed e _ mid.dispatch served.keyed;
        live = insert_if_absent-AllRows is_live e _ mid.dispatch served.live refl;
      })

enrolled_row :
    (e : ℕ) (d : DispatchRow) (t : Table DispatchRow)
    → is_some (lookup e (insert_if_absent e d t)) ≡ true
enrolled_row e d t = ground (arith, lookup-insert_if_absent e e d t, ==_refl e)

exists-enrolled :
    (test : ℕ → DispatchRow → Bool) (e : ℕ) (d : DispatchRow) (t : Table DispatchRow)
    → lookup e t ≡ none
    → test e d ≡ true
    → exists test (insert_if_absent e d t) ≡ true
exists-enrolled test e d t absent h = rw absent (exists-insert test e d t h)

-- A new message that is accepted is stored and enrolled: a reader of its conversation sees work in
-- progress and the execution as accepted.
pub accept_progress :
    (thread_id e : ℕ) (context : Context) (reservation : Option ℕ) (now later : ℕ) (db : Db)
    {r : StoredExecution} {db' : Db}
    → lookup e db.dispatch ≡ none
    → accept thread_id e context reservation now later db ≡ ok (r, db')
    → progress_state thread_id (some e) db' ≡ record { active = true; accepted = some true }
accept_progress thread_id e context reservation now later db {db' = db'} new p =
    let (mid, prepared, enrolled) = accepted_mid thread_id e context reservation now later db p in
    let (x, found, in_thread, digest, named, summed, result) =
      prepared_row thread_id e context db prepared in
    let row = new_row reservation (reserved_until reservation later) now in
    let absent : lookup e mid.dispatch ≡ none =
      ap (λ (t : Table DispatchRow). lookup e t) (dispatch-prepare thread_id e context db prepared)
      ∙ new in
    let test = λ (k : ℕ) (d : DispatchRow). is_active thread_id d (lookup k mid.executions) in
    let seen : test e row ≡ true = ground arith in
    let active = exists-enrolled test e row mid.dispatch absent seen in
    subst
      (λ d. progress_state thread_id (some e) d ≡ record { active = true; accepted = some true })
      (sym enrolled) (unfold progress_state in ground (arith, active))

-- A message that is delivered again, with the same input, is accepted again with the same answer,
-- and nothing changes: neither its progress nor its delivery is reset.
pub accept_again :
    (thread_id e : ℕ) (context : Context) (reservation reservation' : Option ℕ)
    (now later now' later' : ℕ) (db : Db) {r : StoredExecution} {db' : Db}
    → accept thread_id e context reservation now later db ≡ ok (r, db')
    → accept thread_id e context reservation' now' later' db' ≡ ok (r, db')
accept_again thread_id e context reservation reservation' now later now' later' db {r} {db'} p =
    let (mid, prepared, enrolled) = accepted_mid thread_id e context reservation now later db p in
    let (x, found, in_thread, digest, named, summed, result) =
      prepared_row thread_id e context db prepared in
    let row = new_row reservation (reserved_until reservation later) now in
    let found' : lookup e db'.executions ≡ some x =
      ap (λ (d : Db). lookup e d.executions) enrolled ∙ found in
    let present : is_some (lookup e db'.dispatch) ≡ true =
      ap (λ (d : Db). is_some (lookup e d.dispatch)) enrolled ∙ enrolled_row e row mid.dispatch in
    unfold accept in
    ground (arith, prepare_known thread_id e context db' x found' in_thread digest named summed)

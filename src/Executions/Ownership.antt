-- ===== src/Executions/Ownership.antt =====
-- Intake is idempotent, and a checkpoint by the owner is durable.
use parts_bin.Prelude.{
  ℕ, zero, suc, ◌+◌, ◌*◌, ◌≡◌, ◌≢◌, ◌⊎◌, refl, ap, ◌∙◌, true, false, Option, none, some, arith,
  is_some, truthy, Option-cases, inl, inr, ==_refl,
}
use parts_bin.Storage.Table.{Table, lookup, update, lookup-update, lookup-insert}
use parts_bin.Storage.Rows.{second, Db, Status, Context, ExecutionRow, StoredExecution}
use parts_bin.Storage.Tx.{ok, err, unavailable}
use parts_bin.Outbox.Checkpoints.{checkpoint}
use parts_bin.Executions.{
  prepare, save, get, owns, lease_seconds, stored, ready_row, same_text, saved_row, bind_approval,
  save_execution,
}

same_text_refl : (a : Option ℕ) → same_text a a ≡ true
same_text_refl none = refl
same_text_refl (some a) = ==_refl a

-- A duplicate delivery of an accepted message returns the stored execution and changes nothing.
pub prepare_again :
    (thread_id e : ℕ) (context : Context) (db : Db) {r : StoredExecution} {db' : Db}
    → prepare thread_id e context db ≡ ok (r, db')
    → prepare thread_id e context db' ≡ ok (r, db')
unfolding prepare
prepare_again thread_id e context db h = elim (Option-cases (lookup e db.executions)) [
  | inr (x, found) ↦ ground arith
  | inl absent ↦
      let row = ready_row thread_id context none 0 in
      ground (
        arith,
        lookup-insert e e row db.executions,
        ==_refl e,
        ==_refl thread_id,
        same_text_refl context.input_digest,
      )
]

same_text_eq : (a b : Option ℕ) → same_text a b ≡ true → a ≡ b
same_text_eq none none h = refl
same_text_eq none (some b) h = cc
same_text_eq (some a) none h = cc
same_text_eq (some a) (some b) h = ground arith

-- What an accepted message leaves behind: a row of its conversation, with its digest.
pub prepared_row :
    (thread_id e : ℕ) (context : Context) (db : Db) {r : StoredExecution} {db' : Db}
    → prepare thread_id e context db ≡ ok (r, db')
    → (x : ExecutionRow) × (lookup e db'.executions ≡ some x)
      × (x.thread_id ≡ thread_id)
      × (x.context.input_digest ≡ context.input_digest)
      × (truthy (some e) ≡ true)
      × (truthy context.input_digest ≡ true)
      × (r ≡ stored e x)
unfolding prepare
prepared_row thread_id e context db h = elim (Option-cases (lookup e db.executions)) [
  | inr (x, found) ↦ (
    x,
    ground arith,
    ground arith,
    ground (arith, same_text_eq x.context.input_digest context.input_digest),
    ground arith,
    ground arith,
    ground arith,
  )
  | inl absent ↦
      let row = ready_row thread_id context none 0 in
      (
        row,
        ground (arith, lookup-insert e e row db.executions, ==_refl e),
        refl,
        refl,
        ground arith,
        ground arith,
        ground arith,
      )
]

-- An execution that is stored for the message is returned, in any database that holds it.
pub prepare_known :
    (thread_id e : ℕ) (context : Context) (db : Db) (x : ExecutionRow)
    → lookup e db.executions ≡ some x
    → x.thread_id ≡ thread_id
    → x.context.input_digest ≡ context.input_digest
    → truthy (some e) ≡ true
    → truthy context.input_digest ≡ true
    → prepare thread_id e context db ≡ ok (stored e x, db)
unfolding prepare
prepare_known thread_id e context db x found in_thread digest named summed =
    ground (arith, same_text_refl x.context.input_digest)

-- The identity of an accepted message is refused for another conversation or another input.
pub prepare_reused :
    (thread_id e other : ℕ) (context later : Context) (db : Db) {r : StoredExecution} {db' : Db}
    → prepare thread_id e context db ≡ ok (r, db')
    → truthy later.input_digest ≡ true
    → (other ≢ thread_id) ⊎ (same_text context.input_digest later.input_digest ≡ false)
    → prepare other e later db' ≡ err unavailable
prepare_reused thread_id e other context later db h given differs =
    let (x, found, in_thread, digest, named, summed, result) =
      prepared_row thread_id e context db h in
    elim differs [
      | inl elsewhere ↦ unfold prepare in ground arith
      | inr changed ↦ unfold prepare in ground arith
    ]

executions-checkpoint :
    (e : ℕ) (context : Context) (status : Status) (now later : ℕ) (db : Db)
    → (checkpoint e context status now later db).executions ≡ db.executions
unfolding checkpoint
executions-checkpoint e context status now later db = ground arith

executions-bind_approval :
    (request : Option ℕ) (e : ℕ) (db : Db) → (bind_approval request e db).executions ≡ db.executions
executions-bind_approval none e db = refl
executions-bind_approval (some zero) e db = refl
executions-bind_approval (some (suc r)) e db = refl

executions-save :
    (e worker_id : ℕ) (context : Context) (status : Status) (leased now due later : ℕ) (db : Db)
    {db' : Db}
    → save e worker_id context status leased now due later db ≡ ok (tt, db')
    → db'.executions
      ≡ update e (saved_row context status (leased + lease_seconds * second)) db.executions
unfolding save
executions-save e worker_id context status leased now due later db h =
    let saved = save_execution e context status (leased + lease_seconds * second) db in
    ground (
      arith,
      executions-bind_approval context.approval_id e saved,
      executions-checkpoint e context status due later (bind_approval context.approval_id e saved),
    )

save_owned :
    (e worker_id : ℕ) (context : Context) (status : Status) (leased now due later : ℕ) (db : Db)
    {db' : Db}
    → save e worker_id context status leased now due later db ≡ ok (tt, db')
    → owns worker_id now (lookup e db.executions) ≡ true
unfolding save
save_owned e worker_id context status leased now due later db h = ground arith

-- What the owner saves is what every later reader gets, and the lease begins anew.
pub get-save :
    (thread_id e worker_id : ℕ) (context : Context) (status : Status) (leased now due later : ℕ)
    (db : Db) {db' : Db}
    → is_some (get thread_id e db) ≡ true
    → save e worker_id context status leased now due later db ≡ ok (tt, db')
    → (get thread_id e db'
        ≡ some (record {
          execution_id = e;
          thread_id = thread_id;
          context = context;
          status = status;
        }))
      × (owns worker_id leased (lookup e db'.executions) ≡ true)
get-save thread_id e worker_id context status leased now due later db known h =
    let f = saved_row context status (leased + lease_seconds * second) in
    let rows = executions-save e worker_id context status leased now due later db h in
    let held = save_owned e worker_id context status leased now due later db h in
    elim (Option-cases (lookup e db.executions)) [
      | inl missing ↦ absurd (unfold get in ground arith)
      | inr (x, found) ↦
          let after : lookup e (update e f db.executions) ≡ some (f x) =
            ground (arith, lookup-update e e f db.executions, ==_refl e) in
          let stored_after = ap (λ (t : Table ExecutionRow). lookup e t) rows ∙ after in
          (unfold get in ground arith, ground arith)
    ]

-- ===== src/Executions/Leases.antt =====
-- A worker that claims an execution is its only owner until its lease ends.
use parts_bin.Prelude.{
  ℕ, ◌+◌, ◌*◌, ◌≤◌, ◌≡◌, ◌≢◌, refl, false, Option, none, some, arith, Option-cases, inl, inr,
  ==_refl,
}
use parts_bin.Storage.Table.{lookup, update, lookup-update, lookup-insert}
use parts_bin.Storage.Rows.{second, Db, Status, Context, ExecutionRow, StoredExecution, is_terminal}
use parts_bin.Storage.Tx.{ok, err, unavailable, execution_busy}
use parts_bin.Outbox.{execution_in}
use parts_bin.Executions.{
  claim, save, begin_stage, lease_seconds, retry_after, stored, ready_row, lease_execution, release,
  release_row,
}

-- The row of an execution carries a worker and a lease that runs until the given time.
abbrev pub OwnedUntil : ℕ → ℕ → ℕ → Db → Type 0
OwnedUntil e worker_id until db =
    (x : ExecutionRow) × (lookup e db.executions ≡ some x)
    × (x.worker_id ≡ some worker_id)
    × (x.lease_until ≡ until)

-- A claim that returns an execution which is not over makes the worker its owner for the length of
-- a lease.
pub claim-OwnedUntil :
    (thread_id e worker_id : ℕ) (context : Option Context) (now : ℕ) (db : Db) {r : StoredExecution}
    {db' : Db}
    → claim thread_id e worker_id context now db ≡ ok (r, db')
    → is_terminal r.status ≡ false
    → OwnedUntil e worker_id (now + lease_seconds * second) db'
unfolding claim
claim-OwnedUntil thread_id e worker_id context now db {db' = db'} h going =
    elim (Option-cases (lookup e db.executions)) [
      | inl absent ↦ elim (Option-cases context) [
        | inl missing ↦ absurd (ground arith)
        | inr (c, given) ↦
            let row = ready_row thread_id c (some worker_id) (now + lease_seconds * second) in
            (row, ground (arith, lookup-insert e e row db.executions, ==_refl e), refl, refl)
      ]
      | inr (x, found) ↦
          let row : ExecutionRow = record x {
            worker_id = some worker_id;
            lease_until = now + lease_seconds * second;
          } in
          (
            row,
            ground (
              arith,
              lookup-update e e
                  (λ (y : ExecutionRow). record y {
                    worker_id = some worker_id;
                    lease_until = now + lease_seconds * second;
                  })
                  db.executions,
              ==_refl e,
            ),
            refl,
            refl,
          )
    ]

-- Whoever does not own an execution can neither save a checkpoint of it nor begin a stage.
not_owner :
    (e worker_id other until : ℕ) (context : Context) (status : Status) (leased now due later : ℕ)
    (db : Db)
    → OwnedUntil e worker_id until db
    → other ≢ worker_id
    → (save e other context status leased now due later db ≡ err unavailable)
      × (begin_stage e other now db ≡ err unavailable)
unfolding save begin_stage
not_owner e worker_id other until context status leased now due later db (x, found, owner, lease)
      ne =
    (ground arith, ground arith)

-- In the database right after a claim of an execution that is not over, every other worker is refused a
-- checkpoint and a stage as unavailable.
pub claim_fences :
    (thread_id e worker_id other : ℕ) (requested : Option Context) (claimed_at : ℕ) (db : Db)
    {r : StoredExecution} {db' : Db} (context : Context) (status : Status)
    (leased now due later : ℕ)
    → claim thread_id e worker_id requested claimed_at db ≡ ok (r, db')
    → is_terminal r.status ≡ false
    → other ≢ worker_id
    → (save e other context status leased now due later db' ≡ err unavailable)
      × (begin_stage e other now db' ≡ err unavailable)
claim_fences thread_id e worker_id other requested claimed_at db {db' = db'} context status leased
      now due later h going ne =
    not_owner e worker_id other (claimed_at + lease_seconds * second) context status leased now due
      later db' (claim-OwnedUntil thread_id e worker_id requested claimed_at db h going) ne

-- The waiting time covers the rest of the lease.
retry_after_covers : (until now : ℕ) → until ≤ now + retry_after until now * second
retry_after_covers until now = omega arith

-- A claim that is refused because the execution is leased succeeds after the seconds that the
-- refusal names, which are one or more, if nothing else has happened.
pub claim_busy_retry :
    (thread_id e worker_id : ℕ) (context : Option Context) (now later seconds : ℕ) (db : Db)
    → claim thread_id e worker_id context now db ≡ err (execution_busy seconds)
    → now + seconds * second ≤ later
    → (1 ≤ seconds)
      × ((r : StoredExecution) × (db' : Db) × (claim thread_id e worker_id context later db
            ≡ ok (r, db')))
unfolding claim
claim_busy_retry thread_id e worker_id context now later seconds db busy waited =
    elim (Option-cases (execution_in thread_id e db)) [
      | inl absent ↦ elim (Option-cases context) [
        | inl missing ↦ absurd (ground arith)
        | inr (c, given) ↦ absurd (ground arith)
      ]
      | inr (x, found) ↦ (
        ground arith,
        (
          stored e x,
          lease_execution e worker_id (later + lease_seconds * second) db,
          ground (arith, retry_after_covers x.lease_until now),
        ),
      )
    ]

-- A worker that releases an execution leaves it to the next one at once.
pub release_frees :
    (thread_id e worker_id other : ℕ) (now : ℕ) (db : Db) (x : ExecutionRow)
    → execution_in thread_id e db ≡ some x
    → is_terminal x.status ≡ false
    → x.worker_id ≡ some worker_id
    → (r : StoredExecution) × (db' : Db) × (claim thread_id e other none now
          (release e worker_id db)
        ≡ ok (r, db'))
      × (r ≡ stored e x)
unfolding claim release
release_frees thread_id e worker_id other now db x found going owner = (
  stored e x,
  lease_execution e other (now + lease_seconds * second)
      (record db { executions = update e (release_row worker_id) db.executions }),
  ground (arith, lookup-update e e (release_row worker_id) db.executions, ==_refl e),
  refl,
)

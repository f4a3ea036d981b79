-- ===== src/Executions/Tests.antt =====
-- Tests of executions, and their theorems at concrete inputs.
use parts_bin.Prelude.{◌+◌, ◌*◌, ◌≤◌, ◌≡◌, refl, none, some, [], ◌∷◌, arith, inl}
use parts_bin.Storage.Rows.{Db, StoredExecution, completed, awaiting_approval, second}
use parts_bin.Storage.Tx.{ok, err, unavailable, execution_busy}
use parts_bin.Outbox.{cancellation_requested}
use parts_bin.Outbox.Checkpoints.{checkpoint}
use parts_bin.Executions.{
  claim, save, begin_stage, prepare, stored, lease_execution, lease_seconds, insert_execution,
  ready_row, save_execution,
}
use parts_bin.Executions.Leases.{claim_fences, claim_busy_retry}
use parts_bin.Executions.Unfinished.{one_unfinished, unfinished_count}
use parts_bin.Samples.{running, empty, execution, context, now}

abbrev reclaimed : Db
reclaimed = lease_execution 2 4 (now + lease_seconds * second) running

reclaim : claim 1 2 4 none now running ≡ ok (stored 2 execution, reclaimed)
unfolding claim
reclaim = refl

claim_fences_example :
    (save 2 3 context completed now now now now reclaimed ≡ err unavailable)
    × (begin_stage 2 3 now reclaimed ≡ err unavailable)
claim_fences_example =
    claim_fences 1 2 4 3 none now running context completed now now now now reclaim refl
      (omega arith)

busy_claim : claim 1 2 4 none 350_000_001 running ≡ err (execution_busy 50)
unfolding claim
busy_claim = refl

claim_busy_retry_example :
    (1 ≤ 50)
    × ((r : StoredExecution) × (db' : Db) × (claim 1 2 4 none 400_000_001 running ≡ ok (r, db')))
claim_busy_retry_example =
    claim_busy_retry 1 2 4 none 350_000_001 400_000_001 50 running busy_claim (omega arith)

abbrev prepared_db : Db
prepared_db = insert_execution 6 (ready_row 1 context none 0) empty

prepared : prepare 1 6 context empty ≡ ok (stored 6 (ready_row 1 context none 0), prepared_db)
unfolding prepare
prepared = refl

abbrev saved_db : Db
saved_db =
    record (save_execution 2 context awaiting_approval (350_000_000 + lease_seconds * second)
      running) {
        dispatch = (2, record parts_bin.Samples.row { available_at = some 350_000_000 }) ∷ [];
      }

saved :
    save 2 3 context awaiting_approval 350_000_000 350_000_000 350_000_000 350_000_000 running
    ≡ ok (tt, saved_db)
unfolding save checkpoint cancellation_requested
saved = refl

one_unfinished_example : unfinished_count 1 prepared_db.executions ≤ 1
one_unfinished_example = one_unfinished 1 6 3 1 context none now empty (omega arith) (inl prepared)

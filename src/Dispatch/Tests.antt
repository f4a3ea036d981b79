-- ===== src/Dispatch/Tests.antt =====
-- A delivery that fails for the eighth time, and a decision on an approval.
use parts_bin.Prelude.{◌≡◌, refl, true, false, none, some, [], ◌∷◌}
use parts_bin.Storage.Rows.{
  Db, own, StoredApproval, StoredExecution, update_part, awaiting_approval,
}
use parts_bin.Storage.Tx.{ok}
use parts_bin.Samples.{running, leased, delivery, execution, context, now}
use parts_bin.Outbox.{wake, wake_update, cancellation_requested}
use parts_bin.Conversations.{runtime_for}
use parts_bin.Executions.{for_approval}
use parts_bin.Approvals.{decide, set_decision, decided}
use parts_bin.Dispatch.{raised, Gateway, run_delivery, decide_and_wake, awaiting}
use parts_bin.Dispatch.Settled.{IsSettled, run_delivery_settles}
use parts_bin.Dispatch.Decided.{IsDecided, IsWoken, decide_and_wake_wakes}

-- A gateway that fails with exception 5 and writes nothing.
abbrev failing : Gateway
failing = record {
  prepare = λ thread_id execution_id message image reservation db. ok (tt, db);
  advance = λ d image db. (raised 5, db);
}

abbrev after_failure : Db
after_failure = (run_delivery failing delivery none now now leased).1.1

run_delivery_settles_example : IsSettled delivery now after_failure
run_delivery_settles_example = run_delivery_settles failing delivery none now now leased

-- An execution that awaits approval 8 of an edit.
abbrev held : StoredApproval
held = record {
  request_id = own 8;
  thread_id = 1;
  tool_name = update_part;
  arguments = record { part_id = 1; part_ids = []; item_ids = []; fields = 0; rest = 0 };
  snapshot = [];
  decision = none;
  result = none;
}

abbrev awaiting_db : Db
awaiting_db = record running {
  executions =
      (2, record execution { status = awaiting_approval; worker_id = none; lease_until = 0 }) ∷ [];
  execution_approvals = (8, 2) ∷ [];
  approvals = held ∷ [];
}

abbrev decided_db : Db
decided_db = wake_update 2 now now (record awaiting_db { approvals = decided true held ∷ [] })

decision : decide_and_wake 1 (own 8) true now now awaiting_db ≡ ok (2, decided_db)
unfolding decide_and_wake decide set_decision for_approval cancellation_requested wake runtime_for
decision = refl

abbrev awaiting_execution : StoredExecution
awaiting_execution = record {
  execution_id = 2;
  thread_id = 1;
  context = context;
  status = awaiting_approval;
}

decide_and_wake_wakes_example :
    (x : StoredExecution) × (awaiting 1 (own 8) awaiting_db ≡ some x)
    × (x.execution_id ≡ 2)
    × (cancellation_requested 2 awaiting_db ≡ false)
    × IsDecided 1 (own 8) true decided_db
    × IsWoken 2 now decided_db
decide_and_wake_wakes_example =
    decide_and_wake_wakes 1 (own 8) true now now awaiting_db 2 decided_db decision

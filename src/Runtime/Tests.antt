-- ===== src/Runtime/Tests.antt =====
-- The theorems about all reachable states at concrete runs.
use parts_bin.Prelude.{◌≡◌, ◌≢◌, refl, true, none}
use parts_bin.Storage.Rows.{Db, cancel_request}
use parts_bin.Storage.Tx.{ok}
use parts_bin.Conversations.{
  append_once, append_keyed, create_thread, append_row, append_key, next_row,
}
use parts_bin.Outbox
use parts_bin.Outbox.{wake_update, wake, first_due}
use parts_bin.Executions.{
  prepare, stored, ready_row, insert_execution, request_cancellation, cancel_active, cancelling,
  record_cancellation, cancellation_event, begin_stage,
}
use parts_bin.Intake.{accept, enroll}
use parts_bin.Runtime.{accepts, claims_delivery, Reach, here, next}
use parts_bin.Runtime.Safety.{IsConsistent, Reach-IsConsistent}
use parts_bin.Runtime.Cancellation.{cancelled_forever}
use parts_bin.Samples.{empty, running, context, now}

abbrev accepted_db : Db
accepted_db = enroll 6 none now now (insert_execution 6 (ready_row 1 context none 0) empty)

accepted :
    accept 1 6 context none now now empty ≡ ok (stored 6 (ready_row 1 context none 0), accepted_db)
unfolding accept prepare
accepted = refl

IsConsistent-empty : IsConsistent empty
IsConsistent-empty = record {
  served = record { keyed = tt; live = λ j r p. cc };
  sequenced = λ t. refl;
}

-- A message is accepted, and a worker claims its delivery.
run : Reach empty (Outbox.claim none none 9 now accepted_db).1
run =
    next
      (next here
        (accepts 1 6 context none now now (stored 6 (ready_row 1 context none 0)) accepted))
      (claims_delivery none none 9 now (Outbox.claim none none 9 now accepted_db).0 refl)

Reach-IsConsistent_example : IsConsistent (Outbox.claim none none 9 now accepted_db).1
Reach-IsConsistent_example = Reach-IsConsistent run IsConsistent-empty

abbrev asked : Db
asked = record_cancellation 2 now running

abbrev announced : Db
announced =
    let e = cancellation_event 1 2 in
    append_key (cancel_request 2) (next_row e asked) (append_row e asked)

abbrev cancelled_db : Db
cancelled_db = wake_update 2 now now announced

cancel-sample : request_cancellation 1 2 now now now running ≡ ok (cancelling, cancelled_db)
unfolding request_cancellation cancel_active append_once append_keyed create_thread wake
cancel-sample = refl

cancelled_forever_example : begin_stage 2 3 300_000_000 cancelled_db ≢ ok (true, cancelled_db)
cancelled_forever_example =
    cancelled_forever 1 2 now now now running cancel-sample here 3 300_000_000

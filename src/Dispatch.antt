-- ===== src/Dispatch.antt =====
-- agent_runtime/dispatch.py, `DurableDispatch`: what hosts and workers do with executions and their
-- deliveries. Every repository call is a unit of its own, so that what came before an exception stays.
pub mod Settled
pub mod Decided
mod Tests
use parts_bin.Prelude.{
  ℕ, Bool, true, false, Option, none, some, List, [], ◌∷◌, if◌then◌else◌, is_some, not,
}
use parts_bin.Storage.Rows.{
  Db, Delivery, DeliveryFailure, execution_busy, worker_interrupted, exception, Runtime, openai,
  local, codex, StoredExecution, ConversationEvent, EventKind, error, completed, EventId,
  blocked_error, blocked_completed, RequestId, own, part_of,
}
use parts_bin.Storage.Tx.{
  Tx, Result, ok, err, Failure, key_error, unsupported_runtime, value_error, pure, raise, gets,
  ◌>>=◌, ◌>>◌, raise_if,
}
use parts_bin.Conversations.{runtime_for, append_once}
use parts_bin.Outbox.{claim, has_due, wake, cancellation_requested}
use parts_bin.Outbox.Finishing.{finish}
use parts_bin.Webhooks.{reconcile}
use parts_bin.Executions.{for_approval, request_cancellation, Answer}
use parts_bin.Intake.{blocked_deliveries}
use parts_bin.Approvals.{decide}

-- How an advance of the gateway ends: with the stage saved, with `ExecutionBusy` and its delay, with the
-- cancellation of the task, or with another exception, of this name.
pub data Advanced : Type 0 where
  saved : Advanced
  deferred : ℕ → Advanced
  interrupted : Advanced
  raised : ℕ → Advanced

-- The gateway: `prepare` of a new execution, and `advance` or `advance_background` of a delivery, with a
-- photo or without one. It reads and writes the same database.
pub record Gateway : Type 0 where
  pub prepare : ℕ → ℕ → ℕ → Option ℕ → Option ℕ → Tx Unit
  pub advance : Delivery → Option ℕ → Db → Advanced × Db

-- `AgentGateway._runtime_name`
abbrev pub runtime_name : ℕ → Tx Unit
runtime_name thread_id db = elim (runtime_for thread_id db) [
  | none ↦ raise key_error db
  | some openai ↦ pure tt db
  | some local ↦ raise unsupported_runtime db
  | some codex ↦ raise unsupported_runtime db
]

-- `resume`
abbrev pub resume : ℕ → ℕ → ℕ → ℕ → Tx Unit
resume thread_id execution_id now later = do
  runtime_name thread_id
  wake thread_id execution_id false now later

-- `cancel`
abbrev pub cancel : ℕ → ℕ → ℕ → ℕ → ℕ → Tx Answer
cancel thread_id execution_id now woken due = do
  runtime_name thread_id
  request_cancellation thread_id execution_id now woken due

abbrev pub decide_bound : ℕ → RequestId → Bool → ℕ → ℕ → Option StoredExecution → Tx ℕ
decide_bound thread_id id approved now later none = raise value_error
decide_bound thread_id id approved now later (some x) = do
  raise_if (← gets (cancellation_requested x.execution_id)) value_error
  request ← decide thread_id id approved
  wake thread_id x.execution_id false now later
  pure x.execution_id

-- `executions.for_approval`. No execution awaits the approval of a batch's part.
abbrev pub awaiting : ℕ → RequestId → Db → Option StoredExecution
awaiting thread_id (own id) db = for_approval thread_id id db
awaiting thread_id (part_of r p) db = none

-- `decide`, with the delivery that it wakes in the same unit
unfoldable pub decide_and_wake : ℕ → RequestId → Bool → ℕ → ℕ → Tx ℕ
decide_and_wake thread_id id approved now later = do
  runtime_name thread_id
  x ← gets (awaiting thread_id id)
  decide_bound thread_id id approved now later x

-- The texts of the events, as numbers.
abbrev dispatch_blocked : ℕ
dispatch_blocked = 1

abbrev busy_status : ℕ
busy_status = 2

-- The message names the way to recover: to cancel again, or to resume.
abbrev recovery : Bool → ℕ
recovery true = 3
recovery false = 4

abbrev pub blocked_events : Delivery → Bool → ConversationEvent × ConversationEvent
blocked_events delivery cancelled = (
  record {
    kind = error;
    thread_id = delivery.thread_id;
    runtime = openai;
    fields = record {
      execution_id = some delivery.execution_id;
      status = none;
      code = some dispatch_blocked;
      rest = recovery cancelled;
    };
    sequence = none;
  },
  record {
    kind = completed;
    thread_id = delivery.thread_id;
    runtime = openai;
    fields = record {
      execution_id = some delivery.execution_id;
      status = some busy_status;
      code = some dispatch_blocked;
      rest = 0;
    };
    sequence = none;
  },
)

-- How a call ends, with the database after it.
abbrev pub Ended : Type 0
Ended = Result {0} Unit × Db

-- One unit that ends well or rolls back, and what follows it.
abbrev pub committed_unit : {A : Type 0} → Db → Result (A × Db) → Ended
committed_unit db (ok r) = (ok tt, r.1)
committed_unit db (err e) = (err e, db)

abbrev pub and_then : Ended → (Db → Ended) → Ended
and_then (ok u, db) k = k db
and_then (err e, db) k = (err e, db)

abbrev pub publish_event : ConversationEvent → EventId → Db → Ended
publish_event event id db = committed_unit db (append_once event id db)

abbrev pub publish_one : Delivery → Db → Ended
publish_one delivery db =
    let events = blocked_events delivery (cancellation_requested delivery.execution_id db) in
    and_then (publish_event events.0 (blocked_error delivery.execution_id delivery.wake_version) db)
      (λ d.
        publish_event events.1 (blocked_completed delivery.execution_id delivery.wake_version) d)

abbrev pub publish_each : List Delivery → Db → Ended
publish_each [] db = (ok tt, db)
publish_each (delivery ∷ deliveries) db =
    and_then (publish_one delivery db) (λ d. publish_each deliveries d)

-- `publish_blocked`
unfoldable pub publish_blocked : Db → Ended
publish_blocked db = publish_each (blocked_deliveries db) db

abbrev pub publish_if : Bool × Db → Ended
publish_if (true, db) = publish_blocked db
publish_if (false, db) = (ok tt, db)

-- What follows the advance. A task that was cancelled is finished, and then the cancellation goes on,
-- which the result shows as true.
abbrev pub settle : Delivery → Advanced → ℕ → ℕ → Db → Bool × Ended
settle delivery saved now later db = (false, (ok tt, (finish delivery none 0 now later db).1))
settle delivery (deferred seconds) now later db =
    (false, (ok tt, (finish delivery (some execution_busy) seconds now later db).1))
settle delivery interrupted now later db =
    (true, (ok tt, (finish delivery (some worker_interrupted) 1 now later db).1))
settle delivery (raised name) now later db =
    (false, publish_if (finish delivery (some (exception name)) 0 now later db))

module _ (gateway : Gateway) where
  -- `run_delivery`
  unfoldable pub run_delivery : Delivery → Option ℕ → ℕ → ℕ → Db → Bool × Ended
  run_delivery delivery image now later db =
      let r = gateway.advance delivery image db in settle delivery r.0 now later r.1

  abbrev pub run_claimed : Option ℕ → ℕ → ℕ → Option Delivery × Db → Bool × Ended
  run_claimed image now later (none, db) = (false, (ok tt, db))
  run_claimed image now later (some delivery, db) = run_delivery delivery image now later db

  -- `run_once`, and whether it ran a delivery
  unfoldable pub run_once : ℕ → ℕ → ℕ → ℕ → ℕ → ℕ → Db → Bool × (Bool × Ended)
  run_once due_now free_now token claimed_at now later db =
      if has_due due_now free_now db
      then (let c = claim none none token claimed_at db in
          (is_some c.0, run_claimed none now later c))
      else (false, (false, (ok tt, db)))

  abbrev pub submit_reserved : ℕ → Option ℕ → Option ℕ → ℕ → ℕ → ℕ → Db → Bool × Ended
  submit_reserved execution_id image none claimed_at now later db = (false, (ok tt, db))
  submit_reserved execution_id image (some reservation) claimed_at now later db =
      run_claimed image now later
        (claim (some execution_id) (some reservation) reservation claimed_at db)

  abbrev pub submit_prepared :
      ℕ → Option ℕ → Option ℕ → ℕ → ℕ → ℕ → Db → Result (Unit {0} × Db) → Bool × Ended
  submit_prepared execution_id image reservation claimed_at now later db (err e) =
      (false, (err e, db))
  submit_prepared execution_id image reservation claimed_at now later db (ok r) =
      submit_reserved execution_id image reservation claimed_at now later r.1

  -- `submit`: a photo reserves the first stage for this host.
  unfoldable pub submit : ℕ → ℕ → ℕ → Option ℕ → ℕ → ℕ → ℕ → ℕ → Db → Bool × Ended
  submit thread_id execution_id message image fresh claimed_at now later db =
      let reservation = if is_some image then some fresh else none in
      submit_prepared execution_id image reservation claimed_at now later db
        (gateway.prepare thread_id execution_id message image reservation db)

-- `reconcile`
abbrev pub publish_repaired : ℕ × Db → ℕ × Ended
publish_repaired (repaired, db) = (repaired, publish_blocked db)

unfoldable pub reconcile_and_publish : (ℕ → ℕ) → ℕ → ℕ → ℕ → Db → ℕ × Ended
reconcile_and_publish clock repaired purged seen db =
    publish_repaired (reconcile clock repaired purged seen db)

-- ===== src/Runtime.antt =====
-- The durable runtime as a state machine: any number of workers, HTTP hosts and webhooks call the
-- methods of db/postgres/, each call one unit of work, in any order and at any times. A call that
-- raises changes nothing and is no step.
pub mod Frames
pub mod Safety
pub mod Cancellation
mod Tests
use parts_bin.Prelude.{ℕ, ◌≡◌, Bool, Option}
use parts_bin.Storage.Rows.{
  Db, Status, Context, StoredExecution, Delivery, DeliveryFailure, ConversationEvent, EventId,
  Runtime,
}
use parts_bin.Storage.Tx.{ok}
use parts_bin.Conversations.{create_thread, append, append_once}
use parts_bin.Outbox
use parts_bin.Outbox.Finishing
use parts_bin.Webhooks.{notify, reconcile}
use parts_bin.Executions
use parts_bin.Executions.{Answer}
use parts_bin.Intake.{accept}

pub data Step (db db' : Db) : Type 0 where
  accepts :
      (thread_id e : ℕ) (context : Context) (reservation : Option ℕ) (now later : ℕ)
      (r : StoredExecution)
      → accept thread_id e context reservation now later db ≡ ok (r, db')
      → Step db db'
  claims_execution :
      (thread_id e worker_id : ℕ) (context : Option Context) (now : ℕ) (r : StoredExecution)
      → Executions.claim thread_id e worker_id context now db ≡ ok (r, db')
      → Step db db'
  saves :
      (e worker_id : ℕ) (context : Context) (status : Status) (leased now due later : ℕ)
      → Executions.save e worker_id context status leased now due later db ≡ ok (tt, db')
      → Step db db'
  cancels :
      (thread_id e now woken due : ℕ) (answer : Answer)
      → Executions.request_cancellation thread_id e now woken due db ≡ ok (answer, db')
      → Step db db'
  releases : (e worker_id : ℕ) → Executions.release e worker_id db ≡ db' → Step db db'
  claims_delivery :
      (execution_id token : Option ℕ) (fresh now : ℕ) (d : Option Delivery)
      → Outbox.claim execution_id token fresh now db ≡ (d, db')
      → Step db db'
  finishes :
      (delivery : Delivery) (failure : Option DeliveryFailure) (retry now later : ℕ) (b : Bool)
      → Finishing.finish delivery failure retry now later db ≡ (b, db')
      → Step db db'
  wakes :
      (thread_id e : ℕ) (cancellation : Bool) (now later : ℕ)
      → Outbox.wake thread_id e cancellation now later db ≡ ok (tt, db')
      → Step db db'
  notifies :
      (event_id response_id event_type now later : ℕ) (b : Bool)
      → notify event_id response_id event_type now later db ≡ (b, db')
      → Step db db'
  reconciles :
      (clock : ℕ → ℕ) (repaired purged seen n : ℕ)
      → reconcile clock repaired purged seen db ≡ (n, db')
      → Step db db'
  creates :
      (thread_id : ℕ) (runtime : Runtime)
      → create_thread thread_id runtime db ≡ ok (tt, db')
      → Step db db'
  appends : (event r : ConversationEvent) → append event db ≡ ok (r, db') → Step db db'
  publishes :
      (event r : ConversationEvent) (i : EventId)
      → append_once event i db ≡ ok (r, db')
      → Step db db'

pub data Reach (db : Db) : Db → Type 0 where
  here : Reach db db
  next : {mid db' : Db} → Reach db mid → Step mid db' → Reach db db'

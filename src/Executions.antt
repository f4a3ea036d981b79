-- ===== src/Executions.antt =====
-- db/postgres/execution.py: execution leases, checkpoints and cancellation. A method takes each
-- reading of `time.time()` that it makes as an argument.
pub mod Leases
pub mod Ownership
pub mod Unfinished
mod Tests
use parts_bin.Prelude.{
  ℕ, zero, suc, ◌+◌, ◌-◌, ◌*◌, ◌/◌, max, Bool, true, false, not, ◌&&◌, ◌||◌, Option, none, some,
  List, ◌==◌, ltb, leb, if◌then◌else◌, is_some, holds, truthy,
}
use parts_bin.Storage.Table.{Table, lookup, update, insert, insert_if_absent, exists}
use parts_bin.Storage.Rows.{
  second, Db, Status, ready, cancelled, Context, ExecutionRow, StoredExecution, ConversationEvent,
  EventData, EventId, cancel_request, cancellation_requested as cancellation_kind, openai,
  is_unfinished, is_terminal,
}
use parts_bin.Storage.Tx.{
  Tx, pure, raise, raise_if, when, gets, modify, ◌>>=◌, ◌>>◌, unavailable, value_error, key_error,
  conflict, execution_busy,
}
use parts_bin.Conversations.{append_once}
use parts_bin.Outbox.{execution_in, cancellation_requested, wake}
use parts_bin.Outbox.Checkpoints.{checkpoint}

abbrev pub lease_seconds : ℕ
lease_seconds = 300

-- `record`
abbrev pub stored : ℕ → ExecutionRow → StoredExecution
stored execution_id row = record {
  execution_id = execution_id;
  thread_id = row.thread_id;
  context = row.context;
  status = row.status;
}

-- `SELECT 1 … WHERE thread_id = %s AND status IN ('ready', 'waiting_model')`
abbrev pub has_unfinished : ℕ → Db → Bool
has_unfinished thread_id db =
    exists (λ e x. x.thread_id == thread_id && is_unfinished x.status) db.executions

-- The row of a new execution, with the lease that it begins under.
abbrev pub ready_row : ℕ → Context → Option ℕ → ℕ → ExecutionRow
ready_row thread_id context worker_id lease_until = record {
  thread_id = thread_id;
  context = context;
  status = ready;
  worker_id = worker_id;
  lease_until = lease_until;
}

abbrev pub insert_execution : ℕ → ExecutionRow → Db → Db
insert_execution e row db = record db { executions = insert e row db.executions }

-- Both inserts: refused while the conversation has an unfinished execution, and by the primary key.
abbrev pub begin_execution : ℕ → ExecutionRow → Tx StoredExecution
begin_execution e row db =
    if has_unfinished row.thread_id db
    then raise unavailable db
    else if is_some (lookup e db.executions)
    then raise conflict db
    else pure (stored e row) (insert_execution e row db)

-- `a == b` for optional texts
abbrev pub same_text : Option ℕ → Option ℕ → Bool
same_text none none = true
same_text (some a) (some b) = a == b
same_text _ _ = false

unfoldable pub prepare : ℕ → ℕ → Context → Tx StoredExecution
prepare thread_id e context db =
    if not (truthy (some e)) || not (truthy context.input_digest)
    then raise value_error db
    else elim (lookup e db.executions) [
      | none ↦ begin_execution e (ready_row thread_id context none 0) db
      | some row ↦
          if not (row.thread_id == thread_id)
            || not (same_text row.context.input_digest context.input_digest)
          then raise unavailable db
          else pure (stored e row) db
    ]

-- `max(1, math.ceil(lease_until - now))`
abbrev pub retry_after : ℕ → ℕ → ℕ
retry_after lease_until now = max 1 ((lease_until - now + (second - 1)) / second)

abbrev pub lease_execution : ℕ → ℕ → ℕ → Db → Db
lease_execution e worker_id until db = record db {
  executions =
      update e (λ x. record x { worker_id = some worker_id; lease_until = until }) db.executions;
}

abbrev pub claim_new : ℕ → ℕ → ℕ → Option Context → ℕ → Tx StoredExecution
claim_new thread_id e worker_id none now db = raise unavailable db
claim_new thread_id e worker_id (some context) now db =
    begin_execution e (ready_row thread_id context (some worker_id) (now + lease_seconds * second))
      db

abbrev pub claim_row : ℕ → ℕ → ExecutionRow → ℕ → Tx StoredExecution
claim_row e worker_id row now db =
    if is_terminal row.status
    then pure (stored e row) db
    else if is_some row.worker_id && ltb now row.lease_until
    then raise (execution_busy (retry_after row.lease_until now)) db
    else pure (stored e row) (lease_execution e worker_id (now + lease_seconds * second) db)

abbrev pub claim_found : ℕ → ℕ → ℕ → Option Context → ℕ → Option ExecutionRow → Tx StoredExecution
claim_found thread_id e worker_id context now none db =
    claim_new thread_id e worker_id context now db
claim_found thread_id e worker_id context now (some row) db = claim_row e worker_id row now db

unfoldable pub claim : ℕ → ℕ → ℕ → Option Context → ℕ → Tx StoredExecution
claim thread_id e worker_id context now db =
    claim_found thread_id e worker_id context now (execution_in thread_id e db) db

abbrev stored_of : ℕ → Option ExecutionRow → Option StoredExecution
stored_of e none = none
stored_of e (some row) = some (stored e row)

unfoldable pub get : ℕ → ℕ → Db → Option StoredExecution
get thread_id e db = stored_of e (execution_in thread_id e db)

abbrev approved_execution : ℕ → Option ℕ → Db → Option StoredExecution
approved_execution thread_id none db = none
approved_execution thread_id (some e) db = stored_of e (execution_in thread_id e db)

unfoldable pub for_approval : ℕ → ℕ → Db → Option StoredExecution
for_approval thread_id request_id db =
    approved_execution thread_id (lookup request_id db.execution_approvals) db

-- `worker_id = %s AND lease_until > %s`
abbrev pub owns : ℕ → ℕ → Option ExecutionRow → Bool
owns worker_id now none = false
owns worker_id now (some x) = holds worker_id x.worker_id && ltb now x.lease_until

unfoldable pub assert_owned : ℕ → ℕ → ℕ → Tx Unit
assert_owned e worker_id now = do
  raise_if (not (← gets (λ db. owns worker_id now (lookup e db.executions)))) unavailable

abbrev pub saved_row : Context → Status → ℕ → ExecutionRow → ExecutionRow
saved_row context status until x = record x {
  context = context;
  status = status;
  lease_until = until;
}

abbrev pub save_execution : ℕ → Context → Status → ℕ → Db → Db
save_execution e context status until db = record db {
  executions = update e (saved_row context status until) db.executions;
}

-- `if context.get("approval_id"): INSERT … ON CONFLICT(request_id) DO NOTHING`
abbrev pub bind_approval : Option ℕ → ℕ → Db → Db
bind_approval none e db = db
bind_approval (some zero) e db = db
bind_approval (some (suc r)) e db = record db {
  execution_approvals = insert_if_absent (suc r) e db.execution_approvals;
}

-- `leased` and `now` are the two readings of the clock in the `UPDATE`; the others are those of
-- `checkpoint`.
unfoldable pub save : ℕ → ℕ → Context → Status → ℕ → ℕ → ℕ → ℕ → Tx Unit
save e worker_id context status leased now due later = do
  raise_if (not (← gets (λ db. owns worker_id now (lookup e db.executions)))) unavailable
  modify (save_execution e context status (leased + lease_seconds * second))
  modify (bind_approval context.approval_id e)
  modify (checkpoint e context status due later)

unfoldable pub begin_stage : ℕ → ℕ → ℕ → Tx Bool
unfolding assert_owned
begin_stage e worker_id now = do
  assert_owned e worker_id now
  gets (λ db. not (cancellation_requested e db))

-- What `request_cancellation` answers: the status of an execution that is over, or "cancelling".
pub data Answer : Type 0 where
  over : Status → Answer
  cancelling : Answer

abbrev pub record_cancellation : ℕ → ℕ → Db → Db
record_cancellation e now db = record db { cancellations = insert_if_absent e now db.cancellations }

abbrev pub cancellation_event : ℕ → ℕ → ConversationEvent
cancellation_event thread_id e = record {
  kind = cancellation_kind;
  thread_id = thread_id;
  runtime = openai;
  fields = record { execution_id = some e; status = none; code = none; rest = 0 };
  sequence = none;
}

unfoldable pub cancel_active : ℕ → ℕ → ℕ → ℕ → ℕ → Tx Answer
cancel_active thread_id e now woken due = do
  modify (record_cancellation e now)
  _ ← append_once (cancellation_event thread_id e) (cancel_request e)
  wake thread_id e true woken due
  pure cancelling

unfoldable pub request_cancellation : ℕ → ℕ → ℕ → ℕ → ℕ → Tx Answer
request_cancellation thread_id e now woken due db = elim (execution_in thread_id e db) [
  | none ↦ raise key_error db
  | some row ↦
      if is_terminal row.status
      then pure (over row.status) db
      else cancel_active thread_id e now woken due db
]

-- `UPDATE … WHERE execution_id = %s AND worker_id = %s`
abbrev pub release_row : ℕ → ExecutionRow → ExecutionRow
release_row worker_id x =
    if holds worker_id x.worker_id then record x { worker_id = none; lease_until = 0 } else x

unfoldable pub release : ℕ → ℕ → Db → Db
release e worker_id db = record db { executions = update e (release_row worker_id) db.executions }

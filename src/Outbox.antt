-- ===== src/Outbox.antt =====
-- db/postgres/dispatch.py: the outbox of stage deliveries, one row for each enrolled execution.
-- A method takes each reading of `time.time()` that it makes as an argument, and a fresh `uuid4` as
-- another. The foreign key of `agent_dispatch` makes the joins with `agent_executions` total.
pub mod Checkpoints
pub mod Finishing
pub mod Stranding
pub mod Leases
pub mod Wakeups
pub mod Backoff
mod Tests
use parts_bin.Prelude.{
  ℕ, zero, suc, ◌+◌, ◌*◌, ◌^◌, min, Bool, true, false, not, ◌&&◌, ◌||◌, Option, none, some, List,
  [], ◌∷◌, ◌==◌, ltb, leb, if◌then◌else◌, is_some, holds, truthy, take,
}
use parts_bin.Storage.Table.{Table, lookup, update, update_where, insert_if_absent, exists, select}
use parts_bin.Storage.Rows.{
  second, Db, Status, waiting_model, awaiting_approval, Context, ExecutionRow, DeliveryFailure,
  execution_busy, DispatchRow, InboxRow, Delivery, is_terminal,
}
use parts_bin.Storage.Tx.{Tx, raise_if, modify, gets, ◌>>=◌, ◌>>◌, unavailable}

-- agent_runtime/dispatch.py
abbrev pub poll_seconds : ℕ
poll_seconds = 30

abbrev pub lease_seconds : ℕ
lease_seconds = 300

abbrev pub max_failures : ℕ
max_failures = 8

-- `SELECT * FROM agent_executions WHERE execution_id = %s AND thread_id = %s`
abbrev in_thread : ℕ → Option ExecutionRow → Option ExecutionRow
in_thread thread_id none = none
in_thread thread_id (some row) = if row.thread_id == thread_id then some row else none

abbrev pub execution_in : ℕ → ℕ → Db → Option ExecutionRow
execution_in thread_id execution_id db = in_thread thread_id (lookup execution_id db.executions)

-- `PostgresExecutionRepository.cancellation_requested`
unfoldable pub cancellation_requested : ℕ → Db → Bool
cancellation_requested execution_id db = is_some (lookup execution_id db.cancellations)

abbrev at_most : ℕ → Option ℕ → Bool
at_most now none = false
at_most now (some due) = leb due now

-- `blocked = 0 AND available_at <= now AND lease_until <= now`
abbrev pub is_due : ℕ → DispatchRow → Bool
is_due now d = not d.blocked && at_most now d.available_at && leb d.lease_until now

-- `due_now` and `free_now` are the two readings of the clock.
pub has_due : ℕ → ℕ → Db → Bool
has_due due_now free_now db =
    exists (λ e d. not d.blocked && at_most due_now d.available_at && leb d.lease_until free_now)
      db.dispatch

abbrev due_time : Option ℕ → ℕ
due_time none = 0
due_time (some due) = due

-- `ORDER BY available_at, execution_id`
abbrev precedes : ℕ → DispatchRow → ℕ × DispatchRow → Bool
precedes e d (e', d') =
    ltb (due_time d.available_at) (due_time d'.available_at)
    || (due_time d.available_at == due_time d'.available_at && leb e e')

abbrev keep_least : ℕ → DispatchRow → Option (ℕ × DispatchRow) → Option (ℕ × DispatchRow)
keep_least e d none = some (e, d)
keep_least e d (some best) = if precedes e d best then some (e, d) else some best

-- `SELECT … WHERE test ORDER BY … LIMIT 1`
unfoldable pub first_due : (ℕ → DispatchRow → Bool) → Table DispatchRow → Option (ℕ × DispatchRow)
first_due test [] = none
first_due test ((e, d) ∷ t) =
    let best = first_due test t in if test e d then keep_least e d best else best

abbrev pub wanted : Option ℕ → ℕ → Bool
wanted none e = true
wanted (some k) e = k == e

-- The query of `claim` without a token, and the one with a reservation.
abbrev pub due_row : Option ℕ → ℕ → Db → Option (ℕ × DispatchRow)
due_row execution_id now db =
    first_due (λ e d. is_due now d && wanted execution_id e && is_some (lookup e db.executions))
      db.dispatch

abbrev reserved : ℕ → ℕ → ℕ → Option DispatchRow → Option (ℕ × DispatchRow)
reserved e token now none = none
reserved e token now (some d) =
    if holds token d.token && ltb now d.lease_until then some (e, d) else none

abbrev pub reserved_row : Option ℕ → ℕ → ℕ → Db → Option (ℕ × DispatchRow)
reserved_row none token now db = none
reserved_row (some e) token now db = reserved e token now (lookup e db.dispatch)

abbrev pub claimable : Option ℕ → Option ℕ → ℕ → Db → Option (ℕ × DispatchRow)
claimable execution_id none now db = due_row execution_id now db
claimable execution_id (some token) now db = reserved_row execution_id token now db

-- `token or uuid4().hex`
abbrev pub or_fresh : Option ℕ → ℕ → ℕ
or_fresh none fresh = fresh
or_fresh (some zero) fresh = fresh
or_fresh (some (suc k)) fresh = suc k

abbrev pub lease_row : ℕ → ℕ → DispatchRow → DispatchRow
lease_row token now d = record d { token = some token; lease_until = now + lease_seconds * second }

abbrev pub deliver :
    ℕ → ℕ → Db → Option (ℕ × DispatchRow) → Option ExecutionRow → Option Delivery × Db
deliver token now db none x = (none, db)
deliver token now db (some (e, d)) none = (none, db)
deliver token now db (some (e, d)) (some x) = (
  some (record {
    execution_id = e;
    thread_id = x.thread_id;
    token = token;
    wake_version = d.wake_version;
    failures = d.failures;
  }),
  record db { dispatch = update e (lease_row token now) db.dispatch },
)

abbrev pub execution_of : Option (ℕ × DispatchRow) → Db → Option ExecutionRow
execution_of none db = none
execution_of (some (e, d)) db = lookup e db.executions

unfoldable pub claim : Option ℕ → Option ℕ → ℕ → ℕ → Db → Option Delivery × Db
claim execution_id token fresh now db =
    let row = claimable execution_id token now db in
    deliver (or_fresh token fresh) now db row (execution_of row db)

-- The row that `accept` inserts for a new execution, and `wake` for an old one.
abbrev pub new_row : Option ℕ → ℕ → ℕ → DispatchRow
new_row token lease_until now = record {
  available_at = some now;
  token = token;
  lease_until = lease_until;
  wake_version = 0;
  failures = 0;
  blocked = false;
  settled = false;
  response_id = none;
  last_error = none;
}

abbrev pub wake_row : ℕ → DispatchRow → DispatchRow
wake_row now d = record d {
  available_at = some now;
  wake_version = d.wake_version + 1;
  failures = 0;
  blocked = false;
  settled = false;
}

abbrev pub wake_update : ℕ → ℕ → ℕ → Db → Db
wake_update e now later db = record db {
  dispatch = update e (wake_row later) (insert_if_absent e (new_row none 0 now) db.dispatch);
}

unfoldable pub wake : ℕ → ℕ → Bool → ℕ → ℕ → Tx Unit
unfolding cancellation_requested
wake thread_id execution_id cancellation now later = do
  raise_if (not (is_some (← gets (execution_in thread_id execution_id)))) unavailable
  raise_if (not cancellation && (← gets (cancellation_requested execution_id))) unavailable
  modify (wake_update execution_id now later)

-- ===== src/Intake.antt =====
-- db/postgres/dispatch.py: the intake of a message with its delivery, and the progress that a reader
-- of a conversation sees.
pub mod Acceptance
mod Tests
use parts_bin.Prelude.{
  ℕ, zero, suc, ◌+◌, ◌*◌, Bool, true, false, not, ◌&&◌, ◌||◌, Option, none, some, List, [], ◌∷◌,
  map, take, ◌==◌, leb, if◌then◌else◌, is_some, truthy,
}
use parts_bin.Storage.Table.{Table, lookup, insert_if_absent, exists, select}
use parts_bin.Storage.Rows.{
  second, Db, Context, ExecutionRow, StoredExecution, DispatchRow, Delivery, ConversationEvent,
  is_unfinished,
}
use parts_bin.Storage.Tx.{Tx, Result, ok, err, pure, raise, modify, ◌>>=◌, ◌>>◌, key_error}
use parts_bin.Conversations.{runtime_for, events}
use parts_bin.Outbox.{lease_seconds, new_row, execution_in}
use parts_bin.Executions.{prepare}

-- `time.time() + LEASE_SECONDS if reservation else 0`
abbrev pub reserved_until : Option ℕ → ℕ → ℕ
reserved_until none now = 0
reserved_until (some zero) now = 0
reserved_until (some (suc k)) now = now + lease_seconds * second

abbrev pub enroll : ℕ → Option ℕ → ℕ → ℕ → Db → Db
enroll e reservation now later db = record db {
  dispatch =
      insert_if_absent e (new_row reservation (reserved_until reservation later) now) db.dispatch;
}

-- `now` and `later` are the two readings of the clock.
unfoldable pub accept : ℕ → ℕ → Context → Option ℕ → ℕ → ℕ → Tx StoredExecution
accept thread_id e context reservation now later = do
  stored ← prepare thread_id e context
  modify (enroll e reservation now later)
  pure stored

pub record ProgressState : Type 0 where
  pub active : Bool
  pub accepted : Option Bool

pub record ProgressSnapshot : Type 0 where
  pub events : List ConversationEvent
  pub state : ProgressState

-- `e.thread_id = %s AND d.blocked = 0 AND (d.settled = 0 OR e.status IN ('ready', 'waiting_model'))`
abbrev pub is_active : ℕ → DispatchRow → Option ExecutionRow → Bool
is_active thread_id d none = false
is_active thread_id d (some x) =
    x.thread_id == thread_id && (not d.blocked && (not d.settled || is_unfinished x.status))

unfoldable pub progress_state : ℕ → Option ℕ → Db → ProgressState
progress_state thread_id execution_id db = record {
  active = exists (λ e d. is_active thread_id d (lookup e db.executions)) db.dispatch;
  accepted = elim execution_id [
    | none ↦ none
    | some e ↦ some (is_some (execution_in thread_id e db))
  ];
}

-- One reading of the database: the events and the state belong together.
unfoldable pub progress_snapshot : ℕ → ℕ → Option ℕ → Db → Result ProgressSnapshot
progress_snapshot thread_id after execution_id db =
    if is_some (runtime_for thread_id db)
    then ok (record {
      events = events thread_id after db;
      state = progress_state thread_id execution_id db;
    })
    else err key_error

-- `ORDER BY d.execution_id`
abbrev insert_by_id : Delivery → List Delivery → List Delivery
insert_by_id d [] = d ∷ []
insert_by_id d (f ∷ ds) =
    if leb d.execution_id f.execution_id then d ∷ f ∷ ds else f ∷ insert_by_id d ds

abbrev blocked_delivery : ℕ → DispatchRow → ExecutionRow → Delivery
blocked_delivery e d x = record {
  execution_id = e;
  thread_id = x.thread_id;
  token = 0;
  wake_version = d.wake_version;
  failures = d.failures;
}

abbrev add_blocked : ℕ → DispatchRow → Option ExecutionRow → List Delivery → List Delivery
add_blocked e d none rest = rest
add_blocked e d (some x) rest =
    if d.blocked then insert_by_id (blocked_delivery e d x) rest else rest

unfoldable pub all_blocked : Table DispatchRow → Db → List Delivery
all_blocked [] db = []
all_blocked ((e, d) ∷ t) db = add_blocked e d (lookup e db.executions) (all_blocked t db)

pub blocked_deliveries : Db → List Delivery
blocked_deliveries db = take 100 (all_blocked db.dispatch db)

-- ===== src/Conversations.antt =====
-- db/postgres/conversations.py: conversation identity, ordered events and publication once.
pub mod Sequence
pub mod Publication
mod Tests
use parts_bin.Prelude.{
  ℕ, ◌+◌, ◌≡◌, refl, Bool, true, false, ◌&&◌, Option, none, some, List, [], ◌∷◌, ◌++◌, arith, ◌==◌,
  ltb, leb, max, map, if◌then◌else◌,
}
use parts_bin.Storage.Table.{lookup, insert}
use parts_bin.Storage.Rows.{
  Db, Runtime, openai, local, codex, ConversationEvent, EventId, cancel_request, blocked_error,
  blocked_completed, named, EventRow, EventKeyRow, Revision,
}
use parts_bin.Storage.Tx.{
  Tx, pure, raise, gets, modify, ◌>>=◌, ◌>>◌, conflict, value_error, runtime_selection,
  unsupported_runtime, not_initialized,
}

abbrev pub same_runtime : Runtime → Runtime → Bool
same_runtime openai openai = true
same_runtime local local = true
same_runtime codex codex = true
same_runtime _ _ = false

abbrev pub same_id : EventId → EventId → Bool
same_id (cancel_request e) (cancel_request f) = e == f
same_id (blocked_error e v) (blocked_error f w) = e == f && v == w
same_id (blocked_completed e v) (blocked_completed f w) = e == f && v == w
same_id (named a) (named b) = a == b
same_id _ _ = false

-- `SELECT … FROM agent_event_keys WHERE event_id = %s`
abbrev pub find_key : EventId → List EventKeyRow → Option EventKeyRow
find_key i [] = none
find_key i (k ∷ keys) = if same_id i k.event_id then some k else find_key i keys

-- The event with a primary key `(thread_id, sequence)`.
abbrev pub find_event : ℕ → ℕ → List EventRow → Option EventRow
find_event thread_id sequence [] = none
find_event thread_id sequence (e ∷ es) =
    if e.thread_id == thread_id && e.sequence == sequence
    then some e
    else find_event thread_id sequence es

-- `COALESCE(MAX(sequence), 0)` over the events of a conversation
abbrev pub last_sequence : ℕ → List EventRow → ℕ
last_sequence thread_id [] = 0
last_sequence thread_id (e ∷ es) =
    if e.thread_id == thread_id
    then max e.sequence (last_sequence thread_id es)
    else last_sequence thread_id es

-- `_event`
abbrev pub event_of_row : EventRow → ConversationEvent
event_of_row r = record {
  kind = r.kind;
  thread_id = r.thread_id;
  runtime = r.runtime;
  fields = r.fields;
  sequence = some r.sequence;
}

-- The branch of `create_thread` where the conversation is new.
abbrev pub new_thread : ℕ → Runtime → Revision → Db → Db
new_thread thread_id runtime r db = record db {
  pb_revision = some (record r { next_thread_order = r.next_thread_order + 1 });
  threads =
      insert thread_id (record { runtime = runtime; thread_order = r.next_thread_order })
        db.threads;
}

unfoldable pub create_thread : ℕ → Runtime → Tx Unit
create_thread thread_id runtime db = elim (lookup thread_id db.threads) [
  | some row ↦ if same_runtime row.runtime runtime then pure tt db else raise runtime_selection db
  | none ↦
      if same_runtime runtime openai
      then elim db.pb_revision [
        | none ↦ raise not_initialized db
        | some r ↦ pure tt (new_thread thread_id runtime r db)
      ]
      else raise unsupported_runtime db
]

unfoldable pub runtime_for : ℕ → Db → Option Runtime
runtime_for thread_id db = elim (lookup thread_id db.threads) [
  | none ↦ none
  | some r ↦ some r.runtime
]

-- The event that was published under an identity: the join of its key and its row.
abbrev pub published : EventId → Db → Option EventRow
published i db = elim (find_key i db.event_keys) [
  | none ↦ none
  | some k ↦ find_event k.thread_id k.sequence db.events
]

abbrev pub next_row : ConversationEvent → Db → EventRow
next_row event db = record {
  thread_id = event.thread_id;
  sequence = last_sequence event.thread_id db.events + 1;
  kind = event.kind;
  runtime = event.runtime;
  fields = event.fields;
}

-- The insertion that ends `_append`.
abbrev pub append_row : ConversationEvent → Db → Db
append_row event db = record db { events = db.events ++ next_row event db ∷ [] }

abbrev pub append_key : EventId → EventRow → Db → Db
append_key i row db = record db {
  event_keys =
      db.event_keys
      ++ record { event_id = i; thread_id = row.thread_id; sequence = row.sequence } ∷ [];
}

-- The part of `_append` behind `create_thread`, without an identity and with one.
unfoldable pub append_plain : ConversationEvent → Tx ConversationEvent
append_plain event db = pure (event_of_row (next_row event db)) (append_row event db)

unfoldable pub append_keyed : ConversationEvent → EventId → Tx ConversationEvent
append_keyed event i db = elim (published i db) [
  | some previous ↦
      if previous.thread_id == event.thread_id
      then pure (event_of_row previous) db
      else raise value_error db
  | none ↦ elim (find_key i db.event_keys) [
    | some k ↦ raise conflict db
    | none ↦
        pure (event_of_row (next_row event db))
          (append_key i (next_row event db) (append_row event db))
  ]
]

-- `append`
unfoldable pub append : ConversationEvent → Tx ConversationEvent
append event = do create_thread event.thread_id event.runtime; append_plain event

-- `append_once`
unfoldable pub append_once : ConversationEvent → EventId → Tx ConversationEvent
append_once event i = do create_thread event.thread_id event.runtime; append_keyed event i

-- `ORDER BY sequence`
abbrev pub insert_sorted : EventRow → List EventRow → List EventRow
insert_sorted e [] = e ∷ []
insert_sorted e (f ∷ es) = if leb e.sequence f.sequence then e ∷ f ∷ es else f ∷ insert_sorted e es

-- The rows of a conversation past a sequence number, in order.
abbrev pub rows_after : ℕ → ℕ → List EventRow → List EventRow
rows_after thread_id after [] = []
rows_after thread_id after (e ∷ es) =
    let rest = rows_after thread_id after es in
    if e.thread_id == thread_id && ltb after e.sequence then insert_sorted e rest else rest

pub events : ℕ → ℕ → Db → List ConversationEvent
events thread_id after db = map event_of_row (rows_after thread_id after db.events)

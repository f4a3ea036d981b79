-- ===== src/Storage/Rows.antt =====
-- The rows of db/postgres/schema.sql for executions, their dispatch, the webhook inbox and the
-- conversations, and the records of agent_runtime/models.py, agent_runtime/dispatch.py and
-- domain/repositories.py. Texts that the code only compares are numbers, 0 the empty text. Times are
-- in microseconds. JSON columns hold the value that they encode.
use parts_bin.Prelude.{ℕ, Bool, true, false, Option, List}
use parts_bin.Storage.Table.{Table}
use parts_bin.Storage.Parts.{PartRow, PendingRow, ProvenanceRow, Fact, SpecificationReview}

abbrev pub second : ℕ
second = 1_000_000

-- `StoredExecution.status`
pub data Status : Type 0 where
  ready waiting_model completed awaiting_approval failed cancelled : Status

-- An execution's context: the entries that the adapters read, and all others.
pub record Context : Type 0 where
  pub input_digest : Option ℕ
  pub model_response_id : Option ℕ
  pub approval_id : Option ℕ
  pub rest : ℕ

pub record ExecutionRow : Type 0 where
  pub thread_id : ℕ
  pub context : Context
  pub status : Status
  pub worker_id : Option ℕ
  pub lease_until : ℕ

pub record StoredExecution : Type 0 where
  pub execution_id : ℕ
  pub thread_id : ℕ
  pub context : Context
  pub status : Status

-- `last_error`: the failure that `finish` was told of.
pub data DeliveryFailure : Type 0 where
  execution_busy worker_interrupted : DeliveryFailure
  exception : ℕ → DeliveryFailure

pub record DispatchRow : Type 0 where
  pub available_at : Option ℕ
  pub token : Option ℕ
  pub lease_until : ℕ
  pub wake_version : ℕ
  pub failures : ℕ
  pub blocked : Bool
  pub settled : Bool
  pub response_id : Option ℕ
  pub last_error : Option DeliveryFailure

pub record InboxRow : Type 0 where
  pub response_id : ℕ
  pub event_type : ℕ
  pub received_at : ℕ
  pub consumed : Bool

pub record Delivery : Type 0 where
  pub execution_id : ℕ
  pub thread_id : ℕ
  pub token : ℕ
  pub wake_version : ℕ
  pub failures : ℕ

-- The `CHECK` on `agent_threads.runtime`.
pub data Runtime : Type 0 where
  openai local codex : Runtime

pub data EventKind : Type 0 where
  user_message assistant_text tool_call tool_result approval_request : EventKind
  approval_decision cancellation_requested error completed : EventKind

-- An event's data: the entries that the runtime reads, and all others.
pub record EventData : Type 0 where
  pub execution_id : Option ℕ
  pub status : Option ℕ
  pub code : Option ℕ
  pub rest : ℕ

pub record ConversationEvent : Type 0 where
  pub kind : EventKind
  pub thread_id : ℕ
  pub runtime : Runtime
  pub fields : EventData
  pub sequence : Option ℕ

-- The identity under which an event is published once. The code formats these texts.
pub data EventId : Type 0 where
  cancel_request : ℕ → EventId
  blocked_error blocked_completed : ℕ → ℕ → EventId
  named : ℕ → EventId

pub record ThreadRow : Type 0 where
  pub runtime : Runtime
  pub thread_order : ℕ

pub record EventRow : Type 0 where
  pub thread_id : ℕ
  pub sequence : ℕ
  pub kind : EventKind
  pub runtime : Runtime
  pub fields : EventData

pub record EventKeyRow : Type 0 where
  pub event_id : EventId
  pub thread_id : ℕ
  pub sequence : ℕ

-- An approval's identity: a fresh one, or `f"{request_id}:part:{part_id}"` of a batch.
pub data RequestId : Type 0 where
  own : ℕ → RequestId
  part_of : RequestId → ℕ → RequestId

pub data ToolName : Type 0 where
  update_part update_parts bulk_update_parts delete_part apply_review reject_review : ToolName
  apply_specification_review reject_specification_review : ToolName
  other_tool : ℕ → ToolName

-- The arguments of a tool call: the entries that the approval engine reads, and all others.
pub record Arguments : Type 0 where
  pub part_id : ℕ
  pub part_ids : List ℕ
  pub item_ids : List ℕ
  pub fields : ℕ
  pub rest : ℕ

-- What a tool answers: `{"ok": True, "result": …}`, `{"ok": False, "error": …}`, or the results and
-- errors of a batch, with "ok".
pub data ToolResult : Type 0 where
  success failure : ℕ → ToolResult
  batch : List ℕ → List (ℕ × ℕ) → ToolResult

-- `StoredApproval`, as its row of `agent_approvals`. The snapshot holds what was stored of each part.
pub record StoredApproval : Type 0 where
  pub request_id : RequestId
  pub thread_id : ℕ
  pub tool_name : ToolName
  pub arguments : Arguments
  pub snapshot : Table ℕ
  pub decision : Option Bool
  pub result : Option ToolResult

-- `StoredOperation`
pub record OperationRow : Type 0 where
  pub tool_name : ToolName
  pub arguments : Arguments
  pub result : ToolResult

-- The one row of `pb_revision`.
pub record Revision : Type 0 where
  pub revision : ℕ
  pub next_part_id : ℕ
  pub next_thread_order : ℕ

pub record Db : Type 0 where
  pub pb_revision : Option Revision
  pub executions : Table ExecutionRow
  pub execution_approvals : Table ℕ
  pub cancellations : Table ℕ
  pub dispatch : Table DispatchRow
  pub inbox : Table InboxRow
  pub heartbeat : Option ℕ
  pub threads : Table ThreadRow
  pub events : List EventRow
  pub event_keys : List EventKeyRow
  pub parts : Table PartRow
  pub pending_reviews : List PendingRow
  pub provenance : List ProvenanceRow
  pub specifications : Table (List Fact)
  pub specification_reviews : Table SpecificationReview
  pub approvals : List StoredApproval
  pub operations : Table OperationRow

-- `status in {'ready', 'waiting_model'}`
abbrev pub is_unfinished : Status → Bool
is_unfinished ready = true
is_unfinished waiting_model = true
is_unfinished _ = false

-- `status in {'completed', 'failed', 'cancelled'}`
abbrev pub is_terminal : Status → Bool
is_terminal completed = true
is_terminal failed = true
is_terminal cancelled = true
is_terminal _ = false

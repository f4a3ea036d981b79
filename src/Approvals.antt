-- ===== src/Approvals.antt =====
-- db/postgres/records.py: approvals stored beside their inventory effects, and the operations of
-- agent_runtime/approval.py that only read and decide them.
pub mod Execution
pub mod Batch
pub mod BatchOnce
pub mod Decisions
pub mod Receipts
pub mod Equality
pub mod Rejections
mod Tests
use parts_bin.Prelude.{
  ℕ, ◌≡◌, refl, Bool, true, false, not, ◌&&◌, ◌||◌, Option, none, some, List, [], ◌∷◌, ◌++◌, ◌==◌,
  if◌then◌else◌, is_some,
}
use parts_bin.Storage.Table.{Table}
use parts_bin.Storage.Rows.{
  Db, RequestId, own, part_of, ToolName, Arguments, ToolResult, StoredApproval,
}
use parts_bin.Storage.Tx.{
  Tx, ok, err, conflict, value_error, pure, raise, gets, modify, ◌>>=◌, ◌>>◌, raise_if,
}
use parts_bin.Executions.{for_approval}
use parts_bin.Outbox.{cancellation_requested}

abbrev pub same_request_id : RequestId → RequestId → Bool
same_request_id (own a) (own b) = a == b
same_request_id (part_of r p) (part_of s q) = same_request_id r s && (p == q)
same_request_id _ _ = false

-- `SELECT * FROM agent_approvals WHERE request_id = %s`
abbrev pub find : RequestId → List StoredApproval → Option StoredApproval
find id [] = none
find id (a ∷ rows) = if same_request_id a.request_id id then some a else find id rows

-- `UPDATE agent_approvals SET … WHERE request_id = %s`
abbrev pub update_row :
    RequestId → (StoredApproval → StoredApproval) → List StoredApproval → List StoredApproval
update_row id f [] = []
update_row id f (a ∷ rows) =
    (if same_request_id a.request_id id then f a else a) ∷ update_row id f rows

abbrev pub add_row : StoredApproval → Db → Db
add_row a db = record db { approvals = db.approvals ++ a ∷ [] }

-- `PostgresApprovalRepository.insert`
unfoldable pub insert : StoredApproval → Tx Unit
insert a = do
  raise_if (← gets (λ db. is_some (find a.request_id db.approvals))) conflict
  modify (add_row a)

abbrev pub of_thread : ℕ → Option StoredApproval → Option StoredApproval
of_thread thread_id none = none
of_thread thread_id (some a) = if a.thread_id == thread_id then some a else none

-- `PostgresApprovalRepository.get`
abbrev pub get : ℕ → RequestId → Db → Option StoredApproval
get thread_id id db = of_thread thread_id (find id db.approvals)

abbrev pub decided : Bool → StoredApproval → StoredApproval
decided approved a = record a { decision = some approved }

-- `PostgresApprovalRepository.set_decision`
unfoldable pub set_decision : RequestId → Bool → Tx Unit
set_decision id approved =
    modify (λ db. record db { approvals = update_row id (decided approved) db.approvals })

abbrev pub receipted : ToolResult → StoredApproval → StoredApproval
receipted r a = record a { result = some r }

abbrev pub with_result : RequestId → ToolResult → Db → Db
with_result id r db = record db { approvals = update_row id (receipted r) db.approvals }

-- `PostgresApprovalRepository.save_result`
unfoldable pub save_result : RequestId → ToolResult → Tx Unit
save_result id r = modify (with_result id r)

-- `ApprovalRequest`
pub record ApprovalRequest : Type 0 where
  pub request_id : RequestId
  pub thread_id : ℕ
  pub tool_name : ToolName
  pub arguments : Arguments

-- `ApprovalEngine._request`
abbrev pub request_of : StoredApproval → ApprovalRequest
request_of a = record {
  request_id = a.request_id;
  thread_id = a.thread_id;
  tool_name = a.tool_name;
  arguments = a.arguments;
}

-- The execution that an approval belongs to. No execution awaits the approval of a batch's part.
abbrev pub bound_cancelled : ℕ → RequestId → Db → Bool
bound_cancelled thread_id (part_of r p) db = false
bound_cancelled thread_id (own id) db = elim (for_approval thread_id id db) [
  | none ↦ false
  | some x ↦ cancellation_requested x.execution_id db
]

-- `record.decision is not None and record.decision != approved`
abbrev pub is_other : Bool → Option Bool → Bool
is_other approved none = false
is_other true (some d) = not d
is_other false (some d) = d

-- `ApprovalEngine.decide`
unfoldable pub decide : ℕ → RequestId → Bool → Tx ApprovalRequest
decide thread_id id approved db = elim (get thread_id id db) [
  | none ↦ raise value_error db
  | some a ↦
      if is_other approved a.decision
      then raise value_error db
      else if bound_cancelled thread_id id db
      then raise value_error db
      else (do set_decision id approved; pure (request_of a)) db
]

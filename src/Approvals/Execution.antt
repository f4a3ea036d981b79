-- ===== src/Approvals/Execution.antt =====
-- `ApprovalEngine.request` and `_execute_one` of agent_runtime/approval.py. The inventory and its
-- tools are an interface here: what an approval is bound to, and what a tool does.
use parts_bin.Prelude.{
  ℕ, ◌≡◌, Bool, true, false, ◌&&◌, Option, none, some, List, [], ◌∷◌, ◌==◌, if◌then◌else◌, truthy,
}
use parts_bin.Storage.Table.{Table, lookup}
use parts_bin.Storage.Rows.{
  Db, RequestId, own, ToolName, update_part, update_parts, bulk_update_parts, delete_part,
  apply_review, reject_review, apply_specification_review, reject_specification_review, other_tool,
  Arguments, ToolResult, success, failure, batch, StoredApproval,
}
use parts_bin.Storage.Tx.{Tx, Result, ok, err, value_error, pure, raise, ◌>>=◌, ◌>>◌, when}
use parts_bin.Executions.{assert_owned}
use parts_bin.Units.{Outcome}
use parts_bin.Approvals.{ApprovalRequest, get, insert, save_result, request_of, same_request_id}

-- `PartsBinService.approval_snapshot`, and `PartsBinToolRegistry.execute` with a receipt for the call.
-- A tool touches neither approvals nor executions.
pub record Tools : Type 0 where
  pub snapshot : List ℕ → Db → Table ℕ
  pub execute : ToolName → Arguments → Tx ToolResult
  pub keeps :
      (name : ToolName) (args : Arguments) (db : Db) (r : ToolResult) (db' : Db)
      → execute name args db ≡ ok (r, db')
      → (db'.approvals ≡ db.approvals) × (db'.executions ≡ db.executions)

-- `PartsBinToolRegistry.approval_targets`
abbrev pub approval_targets : ToolName → Arguments → Option (List ℕ)
approval_targets bulk_update_parts args = some args.part_ids
approval_targets update_parts args = some args.item_ids
approval_targets (other_tool name) args = none
approval_targets _ args = some (args.part_id ∷ [])

abbrev pub same_tool : ToolName → ToolName → Bool
same_tool update_part update_part = true
same_tool update_parts update_parts = true
same_tool bulk_update_parts bulk_update_parts = true
same_tool delete_part delete_part = true
same_tool apply_review apply_review = true
same_tool reject_review reject_review = true
same_tool apply_specification_review apply_specification_review = true
same_tool reject_specification_review reject_specification_review = true
same_tool (other_tool a) (other_tool b) = a == b
same_tool _ _ = false

abbrev pub same_ids : List ℕ → List ℕ → Bool
same_ids [] [] = true
same_ids (a ∷ s) (b ∷ t) = (a == b) && same_ids s t
same_ids _ _ = false

abbrev pub same_arguments : Arguments → Arguments → Bool
same_arguments a b =
    (a.part_id == b.part_id)
    && same_ids a.part_ids b.part_ids
    && same_ids a.item_ids b.item_ids
    && (a.fields == b.fields)
    && (a.rest == b.rest)

-- Equality of two `ApprovalRequest`s
abbrev pub same_request : ApprovalRequest → ApprovalRequest → Bool
same_request r s =
    same_request_id r.request_id s.request_id
    && (r.thread_id == s.thread_id)
    && same_tool r.tool_name s.tool_name
    && same_arguments r.arguments s.arguments

abbrev pub stored_as : Option ℕ → Option ℕ → Bool
stored_as none none = true
stored_as (some a) (some b) = a == b
stored_as _ _ = false

abbrev pub covers : Table ℕ → Table ℕ → Table ℕ → Bool
covers s t [] = true
covers s t ((k, v) ∷ rows) = stored_as (lookup k s) (lookup k t) && covers s t rows

-- `service.approval_snapshot(targets) == record.snapshot`, on dictionaries
abbrev pub same_snapshot : Table ℕ → Table ℕ → Bool
same_snapshot s t = covers s t s && covers s t t

-- `record.decision is True`
abbrev pub is_approved : Option Bool → Bool
is_approved (some true) = true
is_approved _ = false

abbrev pub matches : ApprovalRequest → StoredApproval → Bool
matches request a = is_approved a.decision && same_request (request_of a) request

-- `ApprovalEngine._approved_record`
unfoldable pub approved_record : ApprovalRequest → Tx StoredApproval
approved_record request db = elim (get request.thread_id request.request_id db) [
  | none ↦ raise value_error db
  | some a ↦ if matches request a then pure a db else raise value_error db
]

-- The execution and the worker that a call runs for.
pub record Caller : Type 0 where
  pub execution_id : Option ℕ
  pub worker_id : Option ℕ

-- `if execution_id and worker_id: repository.executions.assert_owned(execution_id, worker_id)`
abbrev pub assert_caller : Option ℕ → Option ℕ → ℕ → Tx Unit
assert_caller (some e) (some w) now =
    when (truthy (some e) && truthy (some w)) (assert_owned e w now)
assert_caller _ _ now = pure tt

-- `result["ok"]`
abbrev pub is_ok : ToolResult → Bool
is_ok (success r) = true
is_ok (failure e) = false
is_ok (batch parts errors) = true

-- "Inventory or pending review changed; request a fresh approval"
abbrev pub stale : ToolResult
stale = failure 0

-- How the first unit ends: with a result to return, or by raising `_RejectedMutation`.
pub data Attempted : Type 0 where
  committed rejected : ToolResult → Attempted

-- The end of the first unit: `if not result["ok"]: raise`, or the receipt.
abbrev pub conclude : RequestId → ToolResult → Tx Attempted
conclude id r = if is_ok r then save_result id r >> pure (committed r) else pure (rejected r)

module _ (tools : Tools) where
  -- `ApprovalEngine.request`, with the identity that `uuid4` gives
  unfoldable pub request : ℕ → ℕ → ToolName → Arguments → Tx ApprovalRequest
  request fresh thread_id name args db = elim (approval_targets name args) [
    | none ↦ raise value_error db
    | some targets ↦
        let a : StoredApproval = record {
          request_id = own fresh;
          thread_id = thread_id;
          tool_name = name;
          arguments = args;
          snapshot = tools.snapshot targets db;
          decision = none;
          result = none;
        } in
        (do insert a; pure (request_of a)) db
  ]

  abbrev pub apply_effect : List ℕ → ApprovalRequest → StoredApproval → Tx Attempted
  apply_effect targets request a db =
      if same_snapshot (tools.snapshot targets db) a.snapshot
      then (tools.execute request.tool_name request.arguments >>= conclude request.request_id) db
      else conclude request.request_id stale db

  abbrev pub effect_once : List ℕ → ApprovalRequest → StoredApproval → Tx Attempted
  effect_once targets request a = elim a.result [
    | some r ↦ pure (committed r)
    | none ↦ apply_effect targets request a
  ]

  -- The first unit of `_execute_one`
  unfoldable pub first_unit : List ℕ → ApprovalRequest → Caller → ℕ → Tx Attempted
  first_unit targets request caller now = do
    assert_caller caller.execution_id caller.worker_id now
    approved_record request >>= effect_once targets request

-- The second unit of `_execute_one`, after a rejection
unfoldable pub record_rejection : ApprovalRequest → Caller → ℕ → ToolResult → Tx ToolResult
record_rejection request caller now r = do
  assert_caller caller.execution_id caller.worker_id now
  a ← approved_record request
  elim a.result [ some s ↦ pure s | none ↦ save_result request.request_id r >> pure r ]

abbrev pub committed_or : Db → Result (ToolResult × Db) → Outcome ToolResult
committed_or db (err e) = (err e, db)
committed_or db (ok r) = (ok r.0, r.1)

module _ (tools : Tools) where
  -- `_execute_one`; `others` is what other sessions commit between its two units
  unfoldable pub execute_one :
      (Db → Db) → ApprovalRequest → Caller → ℕ → ℕ → Db → Outcome ToolResult
  execute_one others request caller now later db =
      elim (approval_targets request.tool_name request.arguments) [
        | none ↦ (err value_error, db)
        | some targets ↦ elim (first_unit tools targets request caller now db) [
          | err e ↦ (err e, db)
          | ok ended ↦ elim ended.0 [
            | committed r ↦ (ok r, ended.1)
            | rejected r ↦
                committed_or (others db) (record_rejection request caller later r (others db))
          ]
        ]
      ]

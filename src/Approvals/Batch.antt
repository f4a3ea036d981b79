-- ===== src/Approvals/Batch.antt =====
-- `_execute_batch` and `execute` of agent_runtime/approval.py: an approved bulk edit is a sequence of
-- edits of one part, each under an approval of its own that the batch's approval implies.
use parts_bin.Prelude.{ℕ, true, Option, none, some, List, [], ◌∷◌, ◌++◌}
use parts_bin.Storage.Table.{lookup}
use parts_bin.Storage.Rows.{
  Db, part_of, update_part, bulk_update_parts, ToolName, StoredApproval, ToolResult, success,
  failure, batch,
}
use parts_bin.Storage.Tx.{Tx, ok, err, key_error, pure, raise, ◌>>=◌, ◌>>◌}
use parts_bin.Units.{Outcome}
use parts_bin.Approvals.{ApprovalRequest, get, insert, set_decision}
use parts_bin.Approvals.Execution.{
  Tools, Caller, approved_record, execute_one, record_rejection, committed_or,
}

-- The request for one part of a batch
abbrev pub child : ApprovalRequest → ℕ → ApprovalRequest
child request p = record {
  request_id = part_of request.request_id p;
  thread_id = request.thread_id;
  tool_name = update_part;
  arguments = record {
    part_id = p;
    part_ids = [];
    item_ids = [];
    fields = request.arguments.fields;
    rest = 0;
  };
}

abbrev pub child_approval : ApprovalRequest → ℕ → ℕ → StoredApproval
child_approval request p seen = record {
  request_id = part_of request.request_id p;
  thread_id = request.thread_id;
  tool_name = update_part;
  arguments = (child request p).arguments;
  snapshot = (p, seen) ∷ [];
  decision = some true;
  result = none;
}

-- `record.snapshot[str(part_id)]`
abbrev pub approve_child : ApprovalRequest → ℕ → Option ℕ → Tx Unit
approve_child request p none = raise key_error
approve_child request p (some seen) = do
  insert (child_approval request p seen)
  set_decision (part_of request.request_id p) true

abbrev pub prepare_child : ApprovalRequest → StoredApproval → ℕ → Tx Unit
prepare_child request a p db = elim (get request.thread_id (part_of request.request_id p) db) [
  | some c ↦ pure tt db
  | none ↦ approve_child request p (lookup p a.snapshot) db
]

abbrev pub prepare_children : ApprovalRequest → StoredApproval → List ℕ → Tx Unit
prepare_children request a [] = pure tt
prepare_children request a (p ∷ ids) = prepare_child request a p >> prepare_children request a ids

-- The first unit of `_execute_batch`: the result of an earlier execution, or approvals for the parts
unfoldable pub open_batch : ApprovalRequest → Tx (Option ToolResult)
open_batch request = do
  a ← approved_record request
  elim a.result [
    | some r ↦ pure (some r)
    | none ↦ prepare_children request a request.arguments.part_ids >> pure none
  ]

abbrev pub add_result : ℕ → ToolResult → List ℕ × List (ℕ × ℕ) → List ℕ × List (ℕ × ℕ)
add_result p (success r) (parts, errors) = (parts ++ r ∷ [], errors)
add_result p (failure e) (parts, errors) = (parts, errors ++ (p, e) ∷ [])
add_result p (batch ps es) (parts, errors) = (parts, errors)

module _ (tools : Tools) where
  -- The loop over the parts; `others` is what other sessions commit during the execution for a part
  unfoldable pub run_children :
      (ℕ → Db → Db)
      → ApprovalRequest
      → Caller
      → ℕ
      → ℕ
      → List ℕ
      → List ℕ × List (ℕ × ℕ)
      → Db
      → Outcome ToolResult
  run_children others request caller now later [] (parts, errors) db = (ok (batch parts errors), db)
  run_children others request caller now later (p ∷ ids) results db =
      let outcome = execute_one tools (others p) (child request p) caller now later db in
      elim outcome.0 [
        | err e ↦ (err e, outcome.1)
        | ok r ↦ run_children others request caller now later ids (add_result p r results) outcome.1
      ]

  abbrev pub close_batch : ApprovalRequest → Caller → ℕ → Outcome ToolResult → Outcome ToolResult
  close_batch request caller later (err e, db) = (err e, db)
  close_batch request caller later (ok r, db) =
      committed_or db (record_rejection request caller later r db)

  -- `_execute_batch`. Its last unit is the statements of `record_rejection` with the results.
  unfoldable pub execute_batch :
      (ℕ → Db → Db) → ApprovalRequest → Caller → ℕ → ℕ → Db → Outcome ToolResult
  execute_batch others request caller now later db = elim (open_batch request db) [
    | err e ↦ (err e, db)
    | ok opened ↦ elim opened.0 [
      | some r ↦ (ok r, opened.1)
      | none ↦ close_batch request caller later (
          run_children others request caller now later request.arguments.part_ids ([], []) opened.1)
    ]
  ]

  abbrev pub execute_by :
      ToolName → (ℕ → Db → Db) → ApprovalRequest → Caller → ℕ → ℕ → Db → Outcome ToolResult
  execute_by bulk_update_parts others request caller now later db =
      execute_batch others request caller now later db
  execute_by _ others request caller now later db =
      execute_one tools (others 0) request caller now later db

  -- `execute`, one attempt
  abbrev pub execute : (ℕ → Db → Db) → ApprovalRequest → Caller → ℕ → ℕ → Db → Outcome ToolResult
  execute others request caller now later db =
      execute_by request.tool_name others request caller now later db

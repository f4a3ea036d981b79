-- ===== src/Additions.antt =====
-- Additions of parts and stock under an operation's identity: `_execute_addition` of tools/registry.py
-- up to its commit, and PostgresOperationRepository of db/postgres/execution.py.
pub mod Once
mod Tests
use parts_bin.Prelude.{ℕ, ◌≡◌, Bool, true, false, ◌&&◌, Option, none, some, is_some, if◌then◌else◌}
use parts_bin.Storage.Table.{Table, lookup, insert}
use parts_bin.Storage.Rows.{Db, ToolName, Arguments, ToolResult, OperationRow}
use parts_bin.Storage.Tx.{
  Tx, ok, err, conflict, domain_error, domain_conflict, pure, raise, gets, modify, ◌>>=◌, ◌>>◌,
  raise_if,
}
use parts_bin.Approvals.Execution.{Caller, assert_caller, same_tool, same_arguments}

-- `_dispatch` of an addition without enrichment, and the mark of a result whose enrichment has not run.
-- A tool touches neither the operations nor the executions.
pub record Adder : Type 0 where
  pub dispatch : ToolName → Arguments → Tx ToolResult
  pub mark : ToolName → Arguments → ToolResult → ToolResult
  pub keeps :
      (name : ToolName) (args : Arguments) (db : Db) (r : ToolResult) (db' : Db)
      → dispatch name args db ≡ ok (r, db')
      → (db'.operations ≡ db.operations) × (db'.executions ≡ db.executions)

abbrev pub add_operation : ℕ → OperationRow → Db → Db
add_operation id row db = record db { operations = insert id row db.operations }

-- `PostgresOperationRepository.insert`
unfoldable pub insert_operation : ℕ → OperationRow → Tx Unit
insert_operation id row = do
  raise_if (← gets (λ db. is_some (lookup id db.operations))) conflict
  modify (add_operation id row)

abbrev pub is_same_operation : ToolName → Arguments → OperationRow → Bool
is_same_operation name args row = same_tool row.tool_name name && same_arguments row.arguments args

module _ (adder : Adder) where
  abbrev pub add_fresh : ℕ → ToolName → Arguments → Tx ToolResult
  add_fresh id name args = do
    r ← adder.dispatch name args
    insert_operation id
        (record { tool_name = name; arguments = args; result = adder.mark name args r })
    pure (adder.mark name args r)

  abbrev pub add_unless : ℕ → ToolName → Arguments → Option OperationRow → Tx ToolResult
  add_unless id name args none = add_fresh id name args
  add_unless id name args (some row) =
      if is_same_operation name args row
      then pure row.result
      else raise (domain_error domain_conflict)

  -- The unit of `_execute_addition`
  unfoldable pub execute_addition : Caller → ℕ → ℕ → ToolName → Arguments → Tx ToolResult
  execute_addition caller now id name args = do
    assert_caller caller.execution_id caller.worker_id now
    previous ← gets (λ db. lookup id db.operations)
    add_unless id name args previous

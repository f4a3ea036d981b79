-- ===== src/Additions/Tests.antt =====
-- Stock that is added under the identity of an operation, twice.
use parts_bin.Prelude.{◌≡◌, refl, ap, sym, ◌∙◌, arith, none, [], pos}
use parts_bin.Storage.Rows.{Db, ToolName, other_tool, Arguments, ToolResult, success, OperationRow}
use parts_bin.Storage.Tx.{Tx, ok, err, domain_error, domain_conflict, pure, ◌>>=◌, >>=-eq-ok}
use parts_bin.Samples.{stocked}
use parts_bin.Inventory.{increment_stock}
use parts_bin.Inventory.Stock.{add_stock, get_part}
use parts_bin.Inventory.Quantities.{restocked, add_stock-eq-ok}
use parts_bin.Approvals.Execution.{Caller}
use parts_bin.Additions.{Adder, execute_addition, insert_operation, add_operation}
use parts_bin.Additions.Once.{execute_addition_again}

abbrev adds_stock : ToolName → Arguments → Tx ToolResult
adds_stock name args = do
  p ← add_stock args.part_id (pos args.fields) 9
  pure (success p.updated_at)

adds_stock-keeps :
    (name : ToolName) (args : Arguments) (db : Db) (r : ToolResult) (db' : Db)
    → adds_stock name args db ≡ ok (r, db')
    → (db'.operations ≡ db.operations) × (db'.executions ≡ db.executions)
adds_stock-keeps name args db r db' h =
    let (p, mid, is_added, rest) = >>=-eq-ok (add_stock args.part_id (pos args.fields) 9) _ db h in
    let added = (add_stock-eq-ok args.part_id (pos args.fields) 9 db p mid is_added).1 in
    let same : mid ≡ db' = ground arith in
    (ap (λ d. d.operations) (sym (added ∙ same)), ap (λ d. d.executions) (sym (added ∙ same)))

abbrev adder : Adder
adder = record { dispatch = adds_stock; mark = λ name args r. r; keeps = adds_stock-keeps }

abbrev args : Arguments
args = record { part_id = 1; part_ids = []; item_ids = []; fields = 10; rest = 0 }

abbrev nobody : Caller
nobody = record { execution_id = none; worker_id = none }

abbrev done : OperationRow
done = record { tool_name = other_tool 3; arguments = args; result = success 9 }

abbrev added_db : Db
added_db = add_operation 7 done (restocked 1 (pos 10) 9 stocked)

added : execute_addition adder nobody 9 7 (other_tool 3) args stocked ≡ ok (success 9, added_db)
unfolding execute_addition insert_operation add_stock get_part increment_stock
added = refl

other_arguments :
    execute_addition adder nobody 9 7 (other_tool 3) (record args { fields = 11 }) added_db
    ≡ err (domain_error domain_conflict)
unfolding execute_addition
other_arguments = refl

execute_addition_again_example :
    execute_addition adder nobody 12 7 (other_tool 3) args added_db ≡ ok (success 9, added_db)
execute_addition_again_example =
    execute_addition_again adder nobody 9 7 (other_tool 3) args (success 9) stocked added_db added
      nobody 12 refl

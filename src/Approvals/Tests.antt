-- ===== src/Approvals/Tests.antt =====
-- An approved edit of one part, its repetition, and requests that are refused.
use parts_bin.Prelude.{ℕ, ◌≡◌, ◌⊎◌, refl, true, Option, none, some, List, [], ◌∷◌, arith}
use parts_bin.Storage.Table.{Table, lookup, update}
use parts_bin.Storage.Parts.{PartRow}
use parts_bin.Storage.Rows.{
  Db, own, ToolName, update_part, bulk_update_parts, batch, Arguments, StoredApproval, ToolResult,
  success,
}
use parts_bin.Storage.Tx.{Tx, Failure, ok, err}
use parts_bin.Samples.{opamp, stocked, now}
use parts_bin.Executions.{for_approval}
use parts_bin.Units.{Outcome}
use parts_bin.Approvals.{
  ApprovalRequest, insert, save_result, set_decision, decide, decided, with_result,
}
use parts_bin.Approvals.Execution.{
  Tools, Caller, execute_one, first_unit, approved_record, record_rejection, request, stale,
}
use parts_bin.Approvals.Batch.{execute, execute_batch, open_batch, run_children}
use parts_bin.Approvals.BatchOnce.{execute_batch_again}
use parts_bin.Approvals.Receipts.{execute_again}
use parts_bin.Approvals.Rejections.{unapproved_untouched, rejected_untouched, IsUnapproved}

-- The time of a part's last change stands for what is stored of it.
abbrev seen_part : Option PartRow → ℕ
seen_part none = 0
seen_part (some p) = p.updated_at

abbrev seen_parts : List ℕ → Db → Table ℕ
seen_parts [] db = []
seen_parts (i ∷ ids) db = (i, seen_part (lookup i db.parts)) ∷ seen_parts ids db

abbrev touch : ToolName → Arguments → Tx ToolResult
touch name args db = ok (
  success args.fields,
  record db { parts = update args.part_id (λ p. record p { updated_at = args.fields }) db.parts },
)

abbrev tools : Tools
tools = record {
  snapshot = seen_parts;
  execute = touch;
  keeps = λ name args db r db' h. (ground arith, ground arith);
}

abbrev arguments : Arguments
arguments = record { part_id = 1; part_ids = []; item_ids = []; fields = 77; rest = 0 }

abbrev asked : ApprovalRequest
asked = record { request_id = own 8; thread_id = 1; tool_name = update_part; arguments = arguments }

abbrev waiting : StoredApproval
waiting = record {
  request_id = own 8;
  thread_id = 1;
  tool_name = update_part;
  arguments = arguments;
  snapshot = (1, 10) ∷ [];
  decision = none;
  result = none;
}

abbrev waiting_db : Db
waiting_db = record stocked { approvals = waiting ∷ [] }

abbrev approved_db : Db
approved_db = record stocked { approvals = decided true waiting ∷ [] }

abbrev edited_db : Db
edited_db =
    with_result (own 8) (success 77)
      (record approved_db { parts = (1, record opamp { updated_at = 77 }) ∷ [] })

abbrev nobody : Caller
nobody = record { execution_id = none; worker_id = none }

abbrev alone : Db → Db
alone db = db

requested : request tools 8 1 update_part arguments stocked ≡ ok (asked, waiting_db)
unfolding request insert
requested = refl

approved : decide 1 (own 8) true waiting_db ≡ ok (asked, approved_db)
unfolding decide set_decision for_approval
approved = refl

edited : execute_one tools alone asked nobody now now approved_db ≡ (ok (success 77), edited_db)
unfolding execute_one first_unit approved_record save_result
edited = refl

-- The part changed after the approval.
abbrev changed_db : Db
changed_db = record approved_db { parts = (1, record opamp { updated_at = 11 }) ∷ [] }

refused :
    execute_one tools alone asked nobody now now changed_db
    ≡ (ok stale, with_result (own 8) stale changed_db)
unfolding execute_one first_unit approved_record save_result record_rejection
refused = refl

execute_again_example :
    execute_one tools alone asked nobody 5 6 edited_db ≡ (ok (success 77), edited_db)
execute_again_example =
    execute_again tools alone asked nobody now now (success 77) approved_db edited_db edited alone
      nobody 5 6 refl

waiting-IsUnapproved : IsUnapproved asked waiting_db
waiting-IsUnapproved a is_row given same = ground arith

unapproved_untouched_example :
    (e : Failure) × (execute tools (λ p. alone) asked nobody now now waiting_db
      ≡ (err e, waiting_db))
unapproved_untouched_example =
    unapproved_untouched tools (λ p. alone) asked nobody now now waiting_db waiting-IsUnapproved

rejected_untouched_example :
    (with_result (own 8) stale changed_db ≡ changed_db)
    ⊎ ((with_result (own 8) stale changed_db ≡ alone changed_db)
        ⊎ ((s : ToolResult) × (with_result (own 8) stale changed_db
              ≡ with_result (own 8) s (alone changed_db))))
rejected_untouched_example =
    rejected_untouched tools alone asked nobody now now stale changed_db
      (with_result (own 8) stale changed_db) refused refl

-- A bulk edit of part 1, which exists, and of part 2, whose snapshot is out of date.
abbrev bulk_arguments : Arguments
bulk_arguments = record { part_id = 0; part_ids = 1 ∷ 2 ∷ []; item_ids = []; fields = 77; rest = 0 }

abbrev bulk : ApprovalRequest
bulk = record {
  request_id = own 9;
  thread_id = 1;
  tool_name = bulk_update_parts;
  arguments = bulk_arguments;
}

abbrev bulk_db : Db
bulk_db = record stocked {
  approvals =
      record {
        request_id = own 9;
        thread_id = 1;
        tool_name = bulk_update_parts;
        arguments = bulk_arguments;
        snapshot = (1, 10) ∷ (2, 5) ∷ [];
        decision = some true;
        result = none;
      }
      ∷ [];
}

abbrev bulk_outcome : Outcome ToolResult
bulk_outcome = execute_batch tools (λ p db. db) bulk nobody now now bulk_db

bulk_edited : bulk_outcome.0 ≡ ok (batch (77 ∷ []) ((2, 0) ∷ []))
unfolding execute_batch open_batch run_children execute_one first_unit approved_record insert
    set_decision save_result record_rejection
bulk_edited = refl

bulk_done : bulk_outcome ≡ (ok (batch (77 ∷ []) ((2, 0) ∷ [])), bulk_outcome.1)
bulk_done = λ i. (bulk_edited i, bulk_outcome.1)

execute_batch_again_example :
    execute_batch tools (λ p db. db) bulk nobody 5 6 bulk_outcome.1
    ≡ (ok (batch (77 ∷ []) ((2, 0) ∷ [])), bulk_outcome.1)
execute_batch_again_example =
    execute_batch_again tools (λ p db. db) bulk nobody now now (batch (77 ∷ []) ((2, 0) ∷ []))
      bulk_db bulk_outcome.1 bulk_done (λ p db. db) nobody 5 6

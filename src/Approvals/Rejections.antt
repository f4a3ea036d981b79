-- ===== src/Approvals/Rejections.antt =====
-- Operations that are not approved, out of date or fail: `execute`, `_execute_batch` and `_execute_one`
-- of agent_runtime/approval.py.
use parts_bin.Prelude.{
  ℕ, ◌≡◌, ◌≢◌, ap, sym, ◌∙◌, true, false, some, List, [], ◌∷◌, arith, ◌⊎◌, inl, inr, Option-cases,
  Bool-cases,
}
use parts_bin.Storage.Rows.{Db, RequestId, StoredApproval, ToolResult, ToolName, bulk_update_parts}
use parts_bin.Storage.Tx.{Failure, ok, err, value_error, >>=-eq-ok, ◌>>=◌}
use parts_bin.Approvals.{
  ApprovalRequest, find, get, request_of, same_request_id, with_result, save_result,
}
use parts_bin.Approvals.Batch.{open_batch, execute_batch, execute_by, execute}
use parts_bin.Approvals.Execution.{
  Tools, Caller, assert_caller, approved_record, matches, first_unit, effect_once, conclude,
  committed, rejected, record_rejection, execute_one, approval_targets, same_snapshot, is_ok,
}
use parts_bin.Approvals.Equality.{same_request_sound, is_approved_sound}
use parts_bin.Approvals.Receipts.{assert_caller-keeps, approved_record-eq-ok, Result-cases}

-- A row stands in the table.
abbrev pub IsRow : StoredApproval → List StoredApproval → Type 0
IsRow a [] = ⊥
IsRow a (b ∷ rows) = (a ≡ b) ⊎ IsRow a rows

-- The rows of approvals hold none that was given for this very request: its identity, its thread, its
-- tool and its arguments.
abbrev pub IsUnapproved : ApprovalRequest → Db → Type 0
IsUnapproved request db =
    (a : StoredApproval) → IsRow a db.approvals → a.decision ≡ some true → request_of a ≢ request

find-IsRow :
    (id : RequestId) (rows : List StoredApproval) (a : StoredApproval)
    → find id rows ≡ some a
    → IsRow a rows
find-IsRow id [] a h = absurd (ground arith)
find-IsRow id (b ∷ rows) a h = elim (Bool-cases (same_request_id b.request_id id)) [
  | inl first ↦ inl (ground arith)
  | inr later ↦ inr (find-IsRow id rows a (ground arith))
]

get-IsRow :
    (thread_id : ℕ) (id : RequestId) (db : Db) (a : StoredApproval)
    → get thread_id id db ≡ some a
    → IsRow a db.approvals
get-IsRow thread_id id db a h = elim (Option-cases (find id db.approvals)) [
  | inl missing ↦ absurd (ground arith)
  | inr (b, found) ↦ find-IsRow id db.approvals a (ground arith)
]

approved_record-unapproved :
    (request : ApprovalRequest) (db : Db)
    → IsUnapproved request db
    → approved_record request db ≡ err value_error
unfolding approved_record
approved_record-unapproved request db h =
    elim (Option-cases (get request.thread_id request.request_id db)) [
      | inl missing ↦ ground arith
      | inr (a, found) ↦ elim (Bool-cases (matches request a)) [
        | inl approved ↦ absurd (
            h a (get-IsRow request.thread_id request.request_id db a found)
              (is_approved_sound a.decision (ground arith))
              (same_request_sound (request_of a) request (ground arith)))
        | inr other ↦ ground arith
      ]
    ]

first_unit-unapproved :
    (tools : Tools) (targets : List ℕ) (request : ApprovalRequest) (caller : Caller) (now : ℕ)
    (db : Db)
    → IsUnapproved request db
    → (e : Failure) × (first_unit tools targets request caller now db ≡ err e)
unfolding first_unit
first_unit-unapproved tools targets request caller now db h =
    elim (Result-cases (assert_caller caller.execution_id caller.worker_id now db)) [
      | inl (e, raised) ↦ (e, ground arith)
      | inr ((u, mid), owned) ↦
          let same = assert_caller-keeps caller.execution_id caller.worker_id now db u mid owned in
          (value_error, ground (arith, approved_record-unapproved request db h))
    ]

execute_one-unapproved :
    (tools : Tools) (others : Db → Db) (request : ApprovalRequest) (caller : Caller) (now later : ℕ)
    (db : Db)
    → IsUnapproved request db
    → (e : Failure) × (execute_one tools others request caller now later db ≡ (err e, db))
unfolding execute_one
execute_one-unapproved tools others request caller now later db h =
    elim (Option-cases (approval_targets request.tool_name request.arguments)) [
      | inl missing ↦ (value_error, ground arith)
      | inr (targets, is_targets) ↦
          let (e, raised) = first_unit-unapproved tools targets request caller now db h in
          (e, ground arith)
    ]

execute_batch-unapproved :
    (tools : Tools) (others : ℕ → Db → Db) (request : ApprovalRequest) (caller : Caller)
    (now later : ℕ) (db : Db)
    → IsUnapproved request db
    → execute_batch tools others request caller now later db ≡ (err value_error, db)
unfolding execute_batch open_batch
execute_batch-unapproved tools others request caller now later db h =
    ground (arith, approved_record-unapproved request db h)

-- A request for which no approval was given, with its identity, its thread, its tool and its arguments,
-- is refused by `execute`, be it a single operation or a bulk edit, and the database stays as it was.
pub unapproved_untouched :
    (tools : Tools) (others : ℕ → Db → Db) (request : ApprovalRequest) (caller : Caller)
    (now later : ℕ) (db : Db)
    → IsUnapproved request db
    → (e : Failure) × (execute tools others request caller now later db ≡ (err e, db))
unapproved_untouched tools others request caller now later db h = by_name request.tool_name
  where
    by_name :
        (name : ToolName)
        → (e : Failure) × (execute_by tools name others request caller now later db ≡ (err e, db))
    by_name bulk_update_parts =
        (value_error, execute_batch-unapproved tools others request caller now later db h)
    by_name _ = execute_one-unapproved tools (others 0) request caller now later db h

effect_once-failed :
    (tools : Tools) (targets : List ℕ) (request : ApprovalRequest) (a : StoredApproval)
    (r : ToolResult) (db db' : Db)
    → is_ok r ≡ false
    → effect_once tools targets request a db ≡ ok (committed r, db')
    → db ≡ db'
unfolding save_result
effect_once-failed tools targets request a r db db' failed h = elim (Option-cases a.result) [
  | inr (s, kept) ↦ ground arith
  | inl fresh ↦ elim (Bool-cases (same_snapshot (tools.snapshot targets db) a.snapshot)) [
    | inr changed ↦ absurd (ground arith)
    | inl same ↦
        let ran : (tools.execute request.tool_name request.arguments
                >>= conclude request.request_id)
              db
            ≡ ok (committed r, db') =
          ground arith in
        let (s, mid, is_run, ended) =
          >>=-eq-ok (tools.execute request.tool_name request.arguments)
            (conclude request.request_id) db ran in
        elim (Bool-cases (is_ok s)) [
          | inl succeeded ↦ absurd (ground arith)
          | inr not_ok ↦ absurd (ground arith)
        ]
  ]
]

first_unit-failed :
    (tools : Tools) (targets : List ℕ) (request : ApprovalRequest) (caller : Caller) (now : ℕ)
    (r : ToolResult) (db db' : Db)
    → is_ok r ≡ false
    → first_unit tools targets request caller now db ≡ ok (committed r, db')
    → db ≡ db'
unfolding first_unit
first_unit-failed tools targets request caller now r db db' failed h =
    let (u, checked, is_checked, rest) =
      >>=-eq-ok (assert_caller caller.execution_id caller.worker_id now)
        (λ _. approved_record request >>= effect_once tools targets request) db h in
    let (a, mid, is_found, ended) =
      >>=-eq-ok (approved_record request) (effect_once tools targets request) checked rest in
    assert_caller-keeps caller.execution_id caller.worker_id now db u checked is_checked
    ∙ (approved_record-eq-ok request checked a mid is_found).1
    ∙ effect_once-failed tools targets request a r mid db' failed ended

record_rejection-untouched :
    (request : ApprovalRequest) (caller : Caller) (now : ℕ) (s r : ToolResult) (db db' : Db)
    → record_rejection request caller now s db ≡ ok (r, db')
    → (db' ≡ db) ⊎ (db' ≡ with_result request.request_id s db)
unfolding record_rejection save_result
record_rejection-untouched request caller now s r db db' h =
    let (u, checked, is_checked, rest) =
      >>=-eq-ok (assert_caller caller.execution_id caller.worker_id now) _ db h in
    let (a, mid, is_found, ended) = >>=-eq-ok (approved_record request) _ checked rest in
    let same =
      assert_caller-keeps caller.execution_id caller.worker_id now db u checked is_checked
      ∙ (approved_record-eq-ok request checked a mid is_found).1 in
    elim (Option-cases a.result) [
      | inr (t, kept) ↦ inl (sym (same ∙ ground arith))
      | inl fresh ↦ inr (sym (ap (with_result request.request_id s) same ∙ ground arith))
    ]

-- An operation that answers a failure has left no effect: the database is the one before the call, or
-- the one that other sessions committed meanwhile, or that one with the failure kept as a receipt.
pub rejected_untouched :
    (tools : Tools) (others : Db → Db) (request : ApprovalRequest) (caller : Caller) (now later : ℕ)
    (r : ToolResult) (db db' : Db)
    → execute_one tools others request caller now later db ≡ (ok r, db')
    → is_ok r ≡ false
    → (db' ≡ db)
      ⊎ ((db' ≡ others db)
          ⊎ ((s : ToolResult) × (db' ≡ with_result request.request_id s (others db))))
unfolding execute_one
rejected_untouched tools others request caller now later r db db' h failed =
    elim (Option-cases (approval_targets request.tool_name request.arguments)) [
      | inl missing ↦ absurd (ground arith)
      | inr (targets, is_targets) ↦
          elim (Result-cases (first_unit tools targets request caller now db)) [
            | inl (e, raised) ↦ absurd (ground arith)
            | inr ((committed s, mid), ended) ↦
                let is_r : s ≡ r = ground arith in
                let is_after : mid ≡ db' = ground arith in
                inl (
                  sym (
                    first_unit-failed tools targets request caller now s db mid
                      (ap is_ok is_r ∙ failed) ended
                    ∙ is_after))
            | inr ((rejected s, mid), ended) ↦
                elim (Result-cases (record_rejection request caller later s (others db))) [
                  | inl (e, raised) ↦ absurd (ground arith)
                  | inr (p, recorded) ↦
                      let is_after : p.1 ≡ db' = ground arith in
                      elim (record_rejection-untouched request caller later s p.0 (others db) p.1
                        recorded) [
                          | inl same ↦ inr (inl (sym is_after ∙ same))
                          | inr kept ↦ inr (inr (s, sym is_after ∙ kept))
                        ]
                ]
          ]
    ]

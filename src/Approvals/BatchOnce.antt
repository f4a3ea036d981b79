-- ===== src/Approvals/BatchOnce.antt =====
-- A bulk edit is carried out once: `_execute_batch` of agent_runtime/approval.py.
use parts_bin.Prelude.{ℕ, ◌≡◌, ap, ◌∙◌, subst, none, some, [], arith, Option-cases, inl, inr}
use parts_bin.Storage.Rows.{Db, ToolResult}
use parts_bin.Storage.Tx.{ok, pure, ◌>>◌, >>=-eq-ok}
use parts_bin.Approvals.{ApprovalRequest}
use parts_bin.Approvals.Execution.{Tools, Caller, approved_record, record_rejection}
use parts_bin.Approvals.Batch.{execute_batch, open_batch, prepare_children, run_children}
use parts_bin.Approvals.Receipts.{
  HasReceipt, Approved, Result-cases, approved_record-eq-ok, approved_record-found,
  record_rejection-HasReceipt,
}

open_batch-HasReceipt :
    (request : ApprovalRequest) (r : ToolResult) (db db' : Db)
    → open_batch request db ≡ ok (some r, db')
    → HasReceipt request r db'
unfolding open_batch
open_batch-HasReceipt request r db db' h =
    let (a, mid, is_found, rest) = >>=-eq-ok (approved_record request) _ db h in
    let (approved, same) = approved_record-eq-ok request db a mid is_found in
    let here : Approved request a mid = subst (λ x. Approved request a x) same approved in
    elim (Option-cases a.result) [
      | inr (s, kept) ↦
          let is_r : s ≡ r = ground arith in
          let is_after : mid ≡ db' = ground arith in
          (a, subst (λ x. Approved request a x) is_after here, kept ∙ ap some is_r)
      | inl fresh ↦
          let ran : (prepare_children request a request.arguments.part_ids >> pure none) mid
              ≡ ok (some r, db') =
            ground arith in
          let (u, d, is_ready, ended) =
            >>=-eq-ok (prepare_children request a request.arguments.part_ids) (λ _. pure none) mid
              ran in
          absurd (ground arith)
    ]

execute_batch-HasReceipt :
    (tools : Tools) (others : ℕ → Db → Db) (request : ApprovalRequest) (caller : Caller)
    (now later : ℕ) (r : ToolResult) (db db' : Db)
    → execute_batch tools others request caller now later db ≡ (ok r, db')
    → HasReceipt request r db'
unfolding execute_batch
execute_batch-HasReceipt tools others request caller now later r db db' h =
    elim (Result-cases (open_batch request db)) [
      | inl (e, raised) ↦ absurd (ground arith)
      | inr ((some s, mid), opened) ↦
          let is_r : s ≡ r = ground arith in
          let is_after : mid ≡ db' = ground arith in
          subst (λ x. HasReceipt request x db') is_r
            (subst (λ x. HasReceipt request s x) is_after
              (open_batch-HasReceipt request s db mid opened))
      | inr ((none, mid), opened) ↦
          let run =
            run_children tools others request caller now later request.arguments.part_ids ([], [])
              mid in
          elim (Result-cases run.0) [
            | inl (e, raised) ↦ absurd (ground arith)
            | inr (s, done) ↦ elim (Result-cases (record_rejection request caller later s run.1)) [
              | inl (e, raised) ↦ absurd (ground arith)
              | inr (p, recorded) ↦
                  let is_r : p.0 ≡ r = ground arith in
                  let is_after : p.1 ≡ db' = ground arith in
                  subst (λ x. HasReceipt request x db') is_r
                    (subst (λ x. HasReceipt request p.0 x) is_after
                      (record_rejection-HasReceipt request caller later s p.0 run.1 p.1 recorded))
            ]
          ]
    ]

-- A bulk edit whose execution returned its results is not carried out again: a later execution, by
-- anyone, returns the same results and changes nothing.
pub execute_batch_again :
    (tools : Tools) (others : ℕ → Db → Db) (request : ApprovalRequest) (caller : Caller)
    (now later : ℕ) (r : ToolResult) (db db' : Db)
    → execute_batch tools others request caller now later db ≡ (ok r, db')
    → (others' : ℕ → Db → Db) (caller' : Caller) (now' later' : ℕ)
    → execute_batch tools others' request caller' now' later' db' ≡ (ok r, db')
unfolding execute_batch open_batch
execute_batch_again tools others request caller now later r db db' h others' caller' now' later' =
    let (a, approved, kept) =
      execute_batch-HasReceipt tools others request caller now later r db db' h in
    ground (arith, approved_record-found request a db' approved)

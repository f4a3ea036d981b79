-- ===== src/Approvals/Receipts.antt =====
-- An approved operation takes effect once, and its result is kept: `_execute_one` of
-- agent_runtime/approval.py.
use parts_bin.Prelude.{
  ℕ, ◌≡◌, refl, subst, ap, ◌∙◌, ◌==◌, true, Option, none, some, List, arith, ◌⊎◌, Option-cases,
  Bool-cases, inl, inr,
}
use parts_bin.Storage.Rows.{Db, StoredApproval, ToolResult}
use parts_bin.Storage.Tx.{Failure, Result, ok, err, >>=-eq-ok, ◌>>=◌}
use parts_bin.Executions.{assert_owned}
use parts_bin.Approvals.{ApprovalRequest, find, receipted, with_result, save_result}
use parts_bin.Approvals.Decisions.{find-update_row}
use parts_bin.Approvals.Execution.{
  Tools, Caller, assert_caller, approved_record, matches, first_unit, effect_once, conclude,
  committed, rejected, record_rejection, execute_one, approval_targets, same_snapshot, is_ok, stale,
}

-- What `approved_record` found.
pub record Approved (request : ApprovalRequest) (a : StoredApproval) (db : Db) : Type 0 where
  pub found : find request.request_id db.approvals ≡ some a
  pub same_thread : (a.thread_id == request.thread_id) ≡ true
  pub approved : matches request a ≡ true

-- The request is approved, and its result kept.
abbrev pub HasReceipt : ApprovalRequest → ToolResult → Db → Type 0
HasReceipt request r db = (a : StoredApproval) × Approved request a db × (a.result ≡ some r)

pub assert_caller-keeps :
    (e w : Option ℕ) (now : ℕ) (db : Db) (u : Unit) (db' : Db)
    → assert_caller e w now db ≡ ok (u, db')
    → db ≡ db'
unfolding assert_owned
assert_caller-keeps none w now db u db' h = ground arith
assert_caller-keeps (some e) none now db u db' h = ground arith
assert_caller-keeps (some e) (some w) now db u db' h = ground arith

pub approved_record-eq-ok :
    (request : ApprovalRequest) (db : Db) (a : StoredApproval) (db' : Db)
    → approved_record request db ≡ ok (a, db')
    → Approved request a db × (db ≡ db')
unfolding approved_record
approved_record-eq-ok request db a db' h =
    elim (Option-cases (find request.request_id db.approvals)) [
      | inl missing ↦ absurd (ground arith)
      | inr (b, found) ↦ elim (Bool-cases (b.thread_id == request.thread_id)) [
        | inr other ↦ absurd (ground arith)
        | inl same ↦ elim (Bool-cases (matches request b)) [
          | inr unlike ↦ absurd (ground arith)
          | inl like ↦
              let is_a : b ≡ a = ground arith in
              (
                record {
                  found = found ∙ ap some is_a;
                  same_thread = subst (λ x. (x.thread_id == request.thread_id) ≡ true) is_a same;
                  approved = subst (λ x. matches request x ≡ true) is_a like;
                },
                ground arith,
              )
        ]
      ]
    ]

-- Saving the result of an approved request leaves its receipt.
save-HasReceipt :
    (request : ApprovalRequest) (a : StoredApproval) (r : ToolResult) (db : Db)
    → Approved request a db
    → HasReceipt request r (with_result request.request_id r db)
save-HasReceipt request a r db h = (
  receipted r a,
  record {
    found = find-update_row request.request_id (receipted r) (λ b. refl) db.approvals a h.found;
    same_thread = h.same_thread;
    approved = h.approved;
  },
  refl,
)

Approved-keeps :
    (request : ApprovalRequest) (a : StoredApproval) (db db' : Db)
    → db'.approvals ≡ db.approvals
    → Approved request a db
    → Approved request a db'
Approved-keeps request a db db' e h = record {
  found = ap (find request.request_id) e ∙ h.found;
  same_thread = h.same_thread;
  approved = h.approved;
}

conclude-HasReceipt :
    (request : ApprovalRequest) (a : StoredApproval) (r s : ToolResult) (db db' : Db)
    → Approved request a db
    → conclude request.request_id s db ≡ ok (committed r, db')
    → HasReceipt request r db'
unfolding save_result
conclude-HasReceipt request a r s db db' h e = elim (Bool-cases (is_ok s)) [
  | inr failed ↦ absurd (ground arith)
  | inl succeeded ↦
      let kept = save-HasReceipt request a s db h in
      let is_r : s ≡ r = ground arith in
      let is_after : with_result request.request_id s db ≡ db' = ground arith in
      subst (λ x. HasReceipt request r x) is_after
        (subst (λ x. HasReceipt request x (with_result request.request_id s db)) is_r kept)
]

effect_once-HasReceipt :
    (tools : Tools) (targets : List ℕ) (request : ApprovalRequest) (a : StoredApproval)
    (r : ToolResult) (db db' : Db)
    → Approved request a db
    → effect_once tools targets request a db ≡ ok (committed r, db')
    → HasReceipt request r db'
effect_once-HasReceipt tools targets request a r db db' h e = elim (Option-cases a.result) [
  | inr (s, kept) ↦
      let is_r : s ≡ r = ground arith in
      let is_after : db ≡ db' = ground arith in
      (a, subst (λ x. Approved request a x) is_after h, kept ∙ ap some is_r)
  | inl fresh ↦ elim (Bool-cases (same_snapshot (tools.snapshot targets db) a.snapshot)) [
    | inr changed ↦ conclude-HasReceipt request a r stale db db' h (ground arith)
    | inl same ↦
        let ran : (tools.execute request.tool_name request.arguments
                >>= conclude request.request_id)
              db
            ≡ ok (committed r, db') =
          ground arith in
        let (s, mid, is_run, ended) =
          >>=-eq-ok (tools.execute request.tool_name request.arguments)
            (conclude request.request_id) db ran in
        let kept = tools.keeps request.tool_name request.arguments db s mid is_run in
        conclude-HasReceipt request a r s mid db' (Approved-keeps request a db mid kept.0 h) ended
  ]
]

first_unit-HasReceipt :
    (tools : Tools) (targets : List ℕ) (request : ApprovalRequest) (caller : Caller) (now : ℕ)
    (r : ToolResult) (db db' : Db)
    → first_unit tools targets request caller now db ≡ ok (committed r, db')
    → HasReceipt request r db'
unfolding first_unit
first_unit-HasReceipt tools targets request caller now r db db' h =
    let (u, checked, is_checked, rest) =
      >>=-eq-ok (assert_caller caller.execution_id caller.worker_id now)
        (λ _. approved_record request >>= effect_once tools targets request) db h in
    let (a, mid, is_found, ended) =
      >>=-eq-ok (approved_record request) (effect_once tools targets request) checked rest in
    let (approved, same) = approved_record-eq-ok request checked a mid is_found in
    effect_once-HasReceipt tools targets request a r mid db'
      (subst (λ x. Approved request a x) same approved) ended

pub record_rejection-HasReceipt :
    (request : ApprovalRequest) (caller : Caller) (now : ℕ) (s r : ToolResult) (db db' : Db)
    → record_rejection request caller now s db ≡ ok (r, db')
    → HasReceipt request r db'
unfolding record_rejection save_result
record_rejection-HasReceipt request caller now s r db db' h =
    let (u, checked, is_checked, rest) =
      >>=-eq-ok (assert_caller caller.execution_id caller.worker_id now) _ db h in
    let (a, mid, is_found, ended) = >>=-eq-ok (approved_record request) _ checked rest in
    let (approved, same) = approved_record-eq-ok request checked a mid is_found in
    let here : Approved request a mid = subst (λ x. Approved request a x) same approved in
    elim (Option-cases a.result) [
      | inr (t, kept) ↦
          let is_r : t ≡ r = ground arith in
          let is_after : mid ≡ db' = ground arith in
          (a, subst (λ x. Approved request a x) is_after here, kept ∙ ap some is_r)
      | inl fresh ↦
          let is_r : s ≡ r = ground arith in
          let is_after : with_result request.request_id s mid ≡ db' = ground arith in
          subst (λ x. HasReceipt request x db') is_r
            (subst (λ x. HasReceipt request s x) is_after (save-HasReceipt request a s mid here))
    ]

pub Result-cases {ℓ} :
    {A : Type ℓ} (r : Result A) → ((e : Failure) × (r ≡ err e)) ⊎ ((a : A) × (r ≡ ok a))
Result-cases (ok a) = inr (a, refl)
Result-cases (err e) = inl (e, refl)

execute_one-HasReceipt :
    (tools : Tools) (others : Db → Db) (request : ApprovalRequest) (caller : Caller) (now later : ℕ)
    (r : ToolResult) (db db' : Db)
    → execute_one tools others request caller now later db ≡ (ok r, db')
    → HasReceipt request r db'
unfolding execute_one
execute_one-HasReceipt tools others request caller now later r db db' h =
    elim (Option-cases (approval_targets request.tool_name request.arguments)) [
      | inl missing ↦ absurd (ground arith)
      | inr (targets, is_targets) ↦
          elim (Result-cases (first_unit tools targets request caller now db)) [
            | inl (e, raised) ↦ absurd (ground arith)
            | inr ((committed s, mid), ended) ↦
                let is_r : s ≡ r = ground arith in
                let is_after : mid ≡ db' = ground arith in
                subst (λ x. HasReceipt request r x) is_after
                  (first_unit-HasReceipt tools targets request caller now r db mid
                    (ended ∙ ap (λ x. ok (committed x, mid)) is_r))
            | inr ((rejected s, mid), ended) ↦
                elim (Result-cases (record_rejection request caller later s (others db))) [
                  | inl (e, raised) ↦ absurd (ground arith)
                  | inr (p, recorded) ↦
                      let is_r : p.0 ≡ r = ground arith in
                      let is_after : p.1 ≡ db' = ground arith in
                      subst (λ x. HasReceipt request r x) is_after
                        (subst (λ x. HasReceipt request x p.1) is_r
                          (record_rejection-HasReceipt request caller later s p.0 (others db) p.1
                            recorded))
                ]
          ]
    ]

pub approved_record-found :
    (request : ApprovalRequest) (a : StoredApproval) (db : Db)
    → Approved request a db
    → approved_record request db ≡ ok (a, db)
unfolding approved_record
approved_record-found request a db h = ground (arith, h.found, h.same_thread, h.approved)

first_unit-receipt :
    (tools : Tools) (targets : List ℕ) (request : ApprovalRequest) (caller : Caller) (now : ℕ)
    (r : ToolResult) (db : Db)
    → HasReceipt request r db
    → assert_caller caller.execution_id caller.worker_id now db ≡ ok (tt, db)
    → first_unit tools targets request caller now db ≡ ok (committed r, db)
unfolding first_unit
first_unit-receipt tools targets request caller now r db (a, approved, kept) owned =
    ground (arith, approved_record-found request a db approved)

-- An operation whose execution returned a result is not carried out again: whoever executes it later,
-- as a worker whose lease holds, gets the same result and changes nothing.
pub execute_again :
    (tools : Tools) (others : Db → Db) (request : ApprovalRequest) (caller : Caller) (now later : ℕ)
    (r : ToolResult) (db db' : Db)
    → execute_one tools others request caller now later db ≡ (ok r, db')
    → (others' : Db → Db) (caller' : Caller) (now' later' : ℕ)
    → assert_caller caller'.execution_id caller'.worker_id now' db' ≡ ok (tt, db')
    → execute_one tools others' request caller' now' later' db' ≡ (ok r, db')
unfolding execute_one
execute_again tools others request caller now later r db db' h others' caller' now' later' owned =
    let receipt = execute_one-HasReceipt tools others request caller now later r db db' h in
    elim (Option-cases (approval_targets request.tool_name request.arguments)) [
      | inl missing ↦ absurd (ground arith)
      | inr (targets, is_targets) ↦
          ground (arith, first_unit-receipt tools targets request caller' now' r db' receipt owned)
    ]

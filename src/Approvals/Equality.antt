-- ===== src/Approvals/Equality.antt =====
-- Equality of requests as the approval engine tests it: agent_runtime/approval.py.
use parts_bin.Prelude.{
  ℕ, ◌≡◌, refl, ap, Bool, true, false, Option, none, some, List, [], ◌∷◌, arith, ==_iff,
}
use parts_bin.Storage.Rows.{
  RequestId, own, part_of, ToolName, update_part, update_parts, bulk_update_parts, delete_part,
  apply_review, reject_review, apply_specification_review, reject_specification_review, other_tool,
}
use parts_bin.Approvals.{ApprovalRequest, same_request_id}
use parts_bin.Approvals.Execution.{is_approved, same_tool, same_ids, same_request}

same_request_id_sound : (a b : RequestId) → same_request_id a b ≡ true → a ≡ b
same_request_id_sound (own a) (own b) h = ap own ((==_iff a b).0 h)
same_request_id_sound (own a) (part_of s q) h = absurd (ground arith)
same_request_id_sound (part_of r p) (own b) h = absurd (ground arith)
same_request_id_sound (part_of r p) (part_of s q) h =
    let same : r ≡ s = same_request_id_sound r s (ground arith) in
    let same_part : p ≡ q = (==_iff p q).0 (ground arith) in cc

same_tool_sound : (a b : ToolName) → same_tool a b ≡ true → a ≡ b
same_tool_sound update_part update_part h = refl
same_tool_sound update_parts update_parts h = refl
same_tool_sound bulk_update_parts bulk_update_parts h = refl
same_tool_sound delete_part delete_part h = refl
same_tool_sound apply_review apply_review h = refl
same_tool_sound reject_review reject_review h = refl
same_tool_sound apply_specification_review apply_specification_review h = refl
same_tool_sound reject_specification_review reject_specification_review h = refl
same_tool_sound (other_tool a) (other_tool b) h = ap other_tool ((==_iff a b).0 h)
same_tool_sound _ _ h = absurd (ground arith)

same_ids_sound : (s t : List ℕ) → same_ids s t ≡ true → s ≡ t
same_ids_sound [] [] h = refl
same_ids_sound [] (b ∷ t) h = absurd (ground arith)
same_ids_sound (a ∷ s) [] h = absurd (ground arith)
same_ids_sound (a ∷ s) (b ∷ t) h =
    let same : s ≡ t = same_ids_sound s t (ground arith) in
    let same_head : a ≡ b = (==_iff a b).0 (ground arith) in cc

pub same_request_sound : (r s : ApprovalRequest) → same_request r s ≡ true → r ≡ s
same_request_sound r s h =
    let id : r.request_id ≡ s.request_id =
      same_request_id_sound r.request_id s.request_id (ground arith) in
    let thread : r.thread_id ≡ s.thread_id = (==_iff r.thread_id s.thread_id).0 (ground arith) in
    let tool : r.tool_name ≡ s.tool_name = same_tool_sound r.tool_name s.tool_name (ground arith) in
    let a = r.arguments in
    let b = s.arguments in
    let part : a.part_id ≡ b.part_id = (==_iff a.part_id b.part_id).0 (ground arith) in
    let parts : a.part_ids ≡ b.part_ids = same_ids_sound a.part_ids b.part_ids (ground arith) in
    let items : a.item_ids ≡ b.item_ids = same_ids_sound a.item_ids b.item_ids (ground arith) in
    let fields : a.fields ≡ b.fields = (==_iff a.fields b.fields).0 (ground arith) in
    let rest : a.rest ≡ b.rest = (==_iff a.rest b.rest).0 (ground arith) in cc

pub is_approved_sound : (d : Option Bool) → is_approved d ≡ true → d ≡ some true
is_approved_sound none h = absurd (ground arith)
is_approved_sound (some true) h = refl
is_approved_sound (some false) h = absurd (ground arith)

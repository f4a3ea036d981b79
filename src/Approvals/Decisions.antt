-- ===== src/Approvals/Decisions.antt =====
-- A decision on an approval is final: agent_runtime/approval.py `decide`.
use parts_bin.Prelude.{
  ℕ, ◌≡◌, refl, ◌==◌, Bool, true, false, not, some, List, [], ◌∷◌, arith, Option-cases, Bool-cases,
  inl, inr, ==_refl,
}
use parts_bin.Storage.Rows.{Db, RequestId, own, part_of, StoredApproval}
use parts_bin.Storage.Tx.{ok, err, value_error}
use parts_bin.Approvals.{
  ApprovalRequest, get, find, update_row, decide, set_decision, same_request_id, decided, is_other,
  bound_cancelled, request_of,
}

pub same_request_id_refl : (id : RequestId) → same_request_id id id ≡ true
same_request_id_refl (own a) = ground arith
same_request_id_refl (part_of r p) = rw (same_request_id_refl r, ==_refl p) refl

-- An update that keeps the identity is seen by the next reader.
pub find-update_row :
    (id : RequestId) (f : StoredApproval → StoredApproval)
    → ((a : StoredApproval) → (f a).request_id ≡ a.request_id)
    → (rows : List StoredApproval) (a : StoredApproval) → find id rows ≡ some a
    → find id (update_row id f rows) ≡ some (f a)
find-update_row id f keeps [] a h = cc
find-update_row id f keeps (b ∷ rows) a h = elim (Bool-cases (same_request_id b.request_id id)) [
  | inl same ↦ ground (arith, keeps b)
  | inr other ↦ rw (other, other) (find-update_row id f keeps rows a (rw other at h))
]

abbrev decided_db : RequestId → Bool → Db → Db
decided_db id approved db = record db { approvals = update_row id (decided approved) db.approvals }

decide-eq-ok :
    (thread_id : ℕ) (id : RequestId) (approved : Bool) (db : Db) (r : ApprovalRequest) (db' : Db)
    → decide thread_id id approved db ≡ ok (r, db')
    → (a : StoredApproval) × (find id db.approvals ≡ some a)
      × ((a.thread_id == thread_id) ≡ true)
      × (request_of a ≡ r)
      × (decided_db id approved db ≡ db')
unfolding decide set_decision
decide-eq-ok thread_id id approved db r db' h = elim (Option-cases (find id db.approvals)) [
  | inl missing ↦ absurd (ground arith)
  | inr (a, found) ↦ elim (Bool-cases (a.thread_id == thread_id)) [
    | inr other ↦ absurd (ground arith)
    | inl same ↦ elim (Bool-cases (is_other approved a.decision)) [
      | inl refused ↦ absurd (ground arith)
      | inr allowed ↦ elim (Bool-cases (bound_cancelled thread_id id db)) [
        | inl cancelled ↦ absurd (ground arith)
        | inr running ↦ (a, found, same, ground arith, ground arith)
      ]
    ]
  ]
]

is_other-not : (b : Bool) → is_other (not b) (some b) ≡ true
is_other-not true = refl
is_other-not false = refl

-- A decision that was accepted is what readers find, and every later decision against it is refused.
pub decide_final :
    (thread_id : ℕ) (id : RequestId) (approved : Bool) (db : Db) (r : ApprovalRequest) (db' : Db)
    → decide thread_id id approved db ≡ ok (r, db')
    → ((a : StoredApproval) × (get thread_id id db' ≡ some a)
        × (a.decision ≡ some approved)
        × (request_of a ≡ r))
      × (decide thread_id id (not approved) db' ≡ err value_error)
unfolding decide
decide_final thread_id id approved db r db' h =
    let (a, found, same, is_r, is_after) = decide-eq-ok thread_id id approved db r db' h in
    let kept = find-update_row id (decided approved) (λ b. refl) db.approvals a found in
    let seen : get thread_id id db' ≡ some (decided approved a) = ground arith in
    ((decided approved a, seen, refl, is_r), ground (arith, is_other-not approved))

-- ===== src/Dispatch/Decided.antt =====
-- A decision on an approval and the delivery that it wakes: `decide` of agent_runtime/dispatch.py.
use parts_bin.Prelude.{
  ℕ, ◌≡◌, refl, sym, ◌∙◌, subst, Bool, false, Option, none, some, arith, Option-cases, inl, inr,
  ==_refl,
}
use parts_bin.Storage.Table.{lookup, insert_if_absent, lookup-update, lookup-insert_if_absent}
use parts_bin.Storage.Rows.{
  Db, DispatchRow, Runtime, openai, local, codex, RequestId, StoredApproval, StoredExecution,
}
use parts_bin.Storage.Tx.{ok, value_error, >>=-eq-ok, raise_if_then-eq-ok, ok-injective}
use parts_bin.Conversations.{runtime_for}
use parts_bin.Outbox.{cancellation_requested, wake, wake_update, wake_row, new_row}
use parts_bin.Outbox.Stranding.{wake-eq-update}
use parts_bin.Approvals.{decide, get}
use parts_bin.Approvals.Decisions.{decide_final}
use parts_bin.Dispatch.{runtime_name, awaiting, decide_bound, decide_and_wake}

-- The execution has an unblocked delivery that is due at a time.
abbrev pub IsWoken : ℕ → ℕ → Db → Type 0
IsWoken e later db =
    (row : DispatchRow) × (lookup e db.dispatch ≡ some row)
    × (row.blocked ≡ false)
    × (row.available_at ≡ some later)

wake_update-IsWoken : (e now later : ℕ) (db : Db) → IsWoken e later (wake_update e now later db)
wake_update-IsWoken e now later db =
    let row = new_row none 0 now in
    let added = insert_if_absent e row db.dispatch in
    elim (Option-cases (lookup e db.dispatch)) [
      | inl missing ↦ (
        wake_row later row,
        ground (
          arith,
          missing,
          lookup-update e e (wake_row later) added,
          lookup-insert_if_absent e e row db.dispatch,
          ==_refl e,
        ),
        refl,
        refl,
      )
      | inr (d, found) ↦ (
        wake_row later d,
        ground (
          arith,
          found,
          lookup-update e e (wake_row later) added,
          lookup-insert_if_absent e e row db.dispatch,
          ==_refl e,
        ),
        refl,
        refl,
      )
    ]

-- The approval is stored with the decision.
abbrev pub IsDecided : ℕ → RequestId → Bool → Db → Type 0
IsDecided thread_id id approved db =
    (a : StoredApproval) × (get thread_id id db ≡ some a) × (a.decision ≡ some approved)

runtime_name-keeps :
    (thread_id : ℕ) (db : Db) (u : Unit) (db' : Db)
    → runtime_name thread_id db ≡ ok (u, db')
    → db ≡ db'
runtime_name-keeps thread_id db u db' h = elim (Option-cases (runtime_for thread_id db)) [
  | inl missing ↦ absurd (ground arith)
  | inr (r, found) ↦ by_runtime r found
]
  where
    by_runtime : (r : Runtime) → runtime_for thread_id db ≡ some r → db ≡ db'
    by_runtime openai found = ground arith
    by_runtime local found = absurd (ground arith)
    by_runtime codex found = absurd (ground arith)

decide_bound_wakes :
    (thread_id : ℕ) (id : RequestId) (approved : Bool) (now later : ℕ) (o : Option StoredExecution)
    (db : Db) (e : ℕ) (db' : Db)
    → decide_bound thread_id id approved now later o db ≡ ok (e, db')
    → (x : StoredExecution) × (o ≡ some x)
      × (x.execution_id ≡ e)
      × (cancellation_requested e db ≡ false)
      × IsDecided thread_id id approved db'
      × IsWoken e later db'
decide_bound_wakes thread_id id approved now later none db e db' h = absurd (ground arith)
decide_bound_wakes thread_id id approved now later (some x) db e db' h =
    let (running, h0) =
      raise_if_then-eq-ok (cancellation_requested x.execution_id db) value_error _ db h in
    let (r, mid, is_decided, h1) = >>=-eq-ok (decide thread_id id approved) _ db h0 in
    let (u, last, is_woken, h2) =
      >>=-eq-ok (wake thread_id x.execution_id false now later) _ mid h1 in
    let (is_e, same) = ok-injective h2 in
    let after : wake_update x.execution_id now later mid ≡ db' =
      sym (wake-eq-update thread_id x.execution_id false now later mid is_woken) ∙ same in
    let (a, seen, decision, is_r) = (decide_final thread_id id approved db r mid is_decided).0 in
    (
      x,
      refl,
      is_e,
      subst (λ i. cancellation_requested i db ≡ false) is_e running,
      subst (IsDecided thread_id id approved) after (a, seen, decision),
      subst (λ i. IsWoken i later db') is_e
          (subst (IsWoken x.execution_id later) after
            (wake_update-IsWoken x.execution_id now later mid)),
    )

-- A decision that a host accepts is stored together with a wake: the execution that awaits the approval,
-- which nobody has cancelled, has an unblocked delivery that is due at the time of the decision.
pub decide_and_wake_wakes :
    (thread_id : ℕ) (id : RequestId) (approved : Bool) (now later : ℕ) (db : Db) (e : ℕ) (db' : Db)
    → decide_and_wake thread_id id approved now later db ≡ ok (e, db')
    → (x : StoredExecution) × (awaiting thread_id id db ≡ some x)
      × (x.execution_id ≡ e)
      × (cancellation_requested e db ≡ false)
      × IsDecided thread_id id approved db'
      × IsWoken e later db'
unfolding decide_and_wake
decide_and_wake_wakes thread_id id approved now later db e db' h =
    let (u, mid, is_named, rest) = >>=-eq-ok (runtime_name thread_id) _ db h in
    let same = runtime_name-keeps thread_id db u mid is_named in
    let start =
      subst
        (λ (d : Db).
          decide_bound thread_id id approved now later (awaiting thread_id id d) d ≡ ok (e, db'))
        (sym same) rest in
    decide_bound_wakes thread_id id approved now later (awaiting thread_id id db) db e db' start

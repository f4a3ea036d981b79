-- ===== src/Outbox/Stranding.antt =====
-- No delivery is stranded: an enrolled execution that is neither blocked nor settled has a due time,
-- and a blocked one has no token.
use parts_bin.Prelude.{
  ℕ, ◌≡◌, refl, sym, subst, Bool, true, false, not, ◌&&◌, ◌||◌, Option, none, some, arith, ◌==◌,
  is_some, Option-cases, Bool-cases, inl, inr, [], ◌∷◌,
}
use parts_bin.Storage.Table.{Table, lookup, update, insert_if_absent}
use parts_bin.Storage.Keys.{
  IsKeyed, AllRows, update-IsKeyed, insert_if_absent-IsKeyed, update-AllRows,
  insert_if_absent-AllRows,
}
use parts_bin.Storage.Rows.{Db, Context, Status, DispatchRow, Delivery, DeliveryFailure}
use parts_bin.Storage.Tx.{ok}
use parts_bin.Outbox.{
  first_due, claim, is_due, lease_row, wake, wake_row, new_row, claimable, or_fresh, wanted,
  wake_update,
}
use parts_bin.Outbox.Checkpoints.{checkpoint, checkpoint_row, has_webhook}
use parts_bin.Outbox.Finishing.{finish, finish_row, is_held}

abbrev pub is_live : DispatchRow → Bool
is_live d =
    (d.blocked || (d.settled || is_some d.available_at)) && not (d.blocked && is_some d.token)

pub record IsServed (t : Table DispatchRow) : Type 0 where
  pub keyed : IsKeyed t
  pub live : AllRows is_live t

-- What `ORDER BY … LIMIT 1` finds is a row of the table that passes the test.
pub first_due_sound :
    (test : ℕ → DispatchRow → Bool) (t : Table DispatchRow) (e : ℕ) (d : DispatchRow)
    → IsKeyed t
    → first_due test t ≡ some (e, d)
    → (lookup e t ≡ some d) × (test e d ≡ true)
unfolding first_due
first_due_sound test [] e d h p = cc
first_due_sound test ((k, r) ∷ t) e d h p = ground (arith, first_due_sound test t e d h.1, h.0)

lease_row-live :
    (token now : ℕ) (d : DispatchRow)
    → d.blocked ≡ false
    → is_live d ≡ true
    → is_live (lease_row token now d) ≡ true
lease_row-live token now d h p = ground arith

finish_row-live :
    (current over : Bool) (f : Option DeliveryFailure) (retry now : ℕ) (d : DispatchRow)
    → d.blocked ≡ false
    → is_live d ≡ true
    → is_live (finish_row current over f retry now d) ≡ true
finish_row-live true over none retry now d h p = ground arith
finish_row-live true over (some f) retry now d h p = ground arith
finish_row-live false over f retry now d h p = ground arith

-- The row that `claim` leases is a row of the table, and it is not blocked.
pub claimable_sound :
    (execution_id token : Option ℕ) (now : ℕ) (db : Db) (e : ℕ) (d : DispatchRow)
    → IsServed db.dispatch
    → claimable execution_id token now db ≡ some (e, d)
    → (lookup e db.dispatch ≡ some d) × (d.blocked ≡ false)
claimable_sound execution_id none now db e d h p =
    let test = λ (k : ℕ) (r : DispatchRow).
      is_due now r && wanted execution_id k && is_some (lookup k db.executions) in
    let (found, passes) = first_due_sound test db.dispatch e d h.keyed p in (found, ground arith)
claimable_sound none (some token) now db e d h p = cc
claimable_sound (some k) (some token) now db e d h p = elim (Option-cases (lookup k db.dispatch)) [
  | inl missing ↦ absurd (ground arith)
  | inr (r, found) ↦ (ground arith, ground (arith, h.live k r found))
]

lease-IsServed :
    (e token now : ℕ) (t : Table DispatchRow) (d : DispatchRow)
    → IsServed t
    → lookup e t ≡ some d
    → d.blocked ≡ false
    → IsServed (update e (lease_row token now) t)
lease-IsServed e token now t d h found open_row = record {
  keyed = update-IsKeyed e (lease_row token now) t h.keyed;
  live =
      update-AllRows is_live e (lease_row token now) t h.live λ r p. ground (arith, h.live e r p);
}

-- `claim` keeps every delivery served.
pub claim-IsServed :
    (execution_id token : Option ℕ) (fresh now : ℕ) (db : Db)
    → IsServed db.dispatch
    → IsServed (claim execution_id token fresh now db).1.dispatch
unfolding claim
claim-IsServed execution_id token fresh now db h =
    elim (Option-cases (claimable execution_id token now db)) [
      | inl nothing ↦ rw nothing h
      | inr ((e, d), chosen) ↦ elim (Option-cases (lookup e db.executions)) [
        | inl missing ↦ rw (chosen, missing) h
        | inr (x, joined) ↦
            let (found, open_row) = claimable_sound execution_id token now db e d h chosen in
            rw (chosen, joined)
              (lease-IsServed e (or_fresh token fresh) now db.dispatch d h found open_row)
      ]
    ]

set-IsServed :
    (e : ℕ) (row : DispatchRow) (t : Table DispatchRow)
    → IsServed t
    → is_live row ≡ true
    → IsServed (update e (λ _. row) t)
set-IsServed e row t h p = record {
  keyed = update-IsKeyed e (λ _. row) t h.keyed;
  live = update-AllRows is_live e (λ _. row) t h.live (λ r found. p);
}

-- `finish` keeps every delivery served.
pub finish-IsServed :
    (delivery : Delivery) (failure : Option DeliveryFailure) (retry now later : ℕ) (db : Db)
    → IsServed db.dispatch
    → IsServed (finish delivery failure retry now later db).1.dispatch
unfolding finish
finish-IsServed delivery failure retry now later db h =
    elim (Option-cases (lookup delivery.execution_id db.dispatch)) [
      | inl missing ↦ rw missing h
      | inr (d, found) ↦ elim (Bool-cases (is_held delivery.token now d)) [
        | inr lost ↦ rw (found, lost) h
        | inl held ↦
            rw (found, held)
              (set-IsServed delivery.execution_id _ db.dispatch h (
                finish_row-live (d.wake_version == delivery.wake_version) _ failure retry later d
                  (ground (arith, h.live delivery.execution_id d found))
                  (h.live delivery.execution_id d found)))
      ]
    ]

checkpoint_row-IsServed :
    (e : ℕ) (response_id : Option ℕ) (due : ℕ) (t : Table DispatchRow)
    → IsServed t
    → IsServed (update e (checkpoint_row response_id due) t)
checkpoint_row-IsServed e response_id due t h = record {
  keyed = update-IsKeyed e (checkpoint_row response_id due) t h.keyed;
  live =
      update-AllRows is_live e (checkpoint_row response_id due) t h.live
        λ r p. ground (arith, h.live e r p);
}

-- `checkpoint` keeps every delivery served.
pub checkpoint-IsServed :
    (e : ℕ) (context : Context) (status : Status) (now later : ℕ) (db : Db)
    → IsServed db.dispatch
    → IsServed (checkpoint e context status now later db).dispatch
unfolding checkpoint
checkpoint-IsServed e context status now later db h = elim (Option-cases (lookup e db.dispatch)) [
  | inl missing ↦ rw missing h
  | inr (d, found) ↦ elim (Bool-cases (has_webhook context.model_response_id db)) [
    | inl early ↦
        rw (found, early) (checkpoint_row-IsServed e context.model_response_id later db.dispatch h)
    | inr quiet ↦
        rw (found, quiet) (checkpoint_row-IsServed e context.model_response_id _ db.dispatch h)
  ]
]

wake_update-IsServed :
    (e now later : ℕ) (db : Db)
    → IsServed db.dispatch
    → IsServed (wake_update e now later db).dispatch
wake_update-IsServed e now later db h =
    let t = insert_if_absent e (new_row none 0 now) db.dispatch in
    record {
      keyed =
          update-IsKeyed e (wake_row later) t
            (insert_if_absent-IsKeyed e (new_row none 0 now) db.dispatch h.keyed);
      live =
          update-AllRows is_live e (wake_row later) t
            (insert_if_absent-AllRows is_live e (new_row none 0 now) db.dispatch h.live refl)
            (λ r p. ground arith);
    }

-- A successful `wake` writes that update and nothing else.
pub wake-eq-update :
    (thread_id e : ℕ) (cancellation : Bool) (now later : ℕ) (db : Db) {db' : Db}
    → wake thread_id e cancellation now later db ≡ ok (tt, db')
    → db' ≡ wake_update e now later db
unfolding wake
wake-eq-update thread_id e cancellation now later db p = ground arith

-- `wake` keeps every delivery served.
pub wake-IsServed :
    (thread_id e : ℕ) (cancellation : Bool) (now later : ℕ) (db : Db) {db' : Db}
    → IsServed db.dispatch
    → wake thread_id e cancellation now later db ≡ ok (tt, db')
    → IsServed db'.dispatch
wake-IsServed thread_id e cancellation now later db h p =
    subst (λ d. IsServed d.dispatch) (sym (wake-eq-update thread_id e cancellation now later db p))
      (wake_update-IsServed e now later db h)

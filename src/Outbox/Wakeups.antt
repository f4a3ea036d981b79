-- ===== src/Outbox/Wakeups.antt =====
-- A wake is never lost, whatever the worker that holds the delivery reports.
use parts_bin.Prelude.{
  ℕ, ◌≤◌, ◌≡◌, ◌≢◌, refl, ap, ◌∙◌, Bool, true, false, Option, none, some, arith, Bool-cases, inl,
  inr, ==_refl,
}
use parts_bin.Storage.Table.{lookup, insert_if_absent, lookup-update, lookup-insert_if_absent}
use parts_bin.Storage.Rows.{Db, DispatchRow, Delivery, DeliveryFailure}
use parts_bin.Storage.Tx.{ok}
use parts_bin.Outbox.{is_due, wake, wake_row, wake_update, new_row}
use parts_bin.Outbox.Finishing.{finish, finish_row, is_held, status_rests}
use parts_bin.Outbox.Leases.{HeldUntil}
use parts_bin.Outbox.Stranding.{wake-eq-update}

woken :
    (e now later : ℕ) (db : Db) (d : DispatchRow)
    → lookup e db.dispatch ≡ some d
    → lookup e (wake_update e now later db).dispatch ≡ some (wake_row later d)
woken e now later db d found =
    let row = new_row none 0 now in
    ground (
      arith,
      lookup-insert_if_absent e e row db.dispatch,
      lookup-update e e (wake_row later) (insert_if_absent e row db.dispatch),
      ==_refl e,
    )

-- An acknowledgement under an older wake version leaves the due time alone and blocks nothing.
finish_older :
    (delivery : Delivery) (failure : Option DeliveryFailure) (retry now later : ℕ) (db : Db)
    (d : DispatchRow) (due : ℕ)
    → lookup delivery.execution_id db.dispatch ≡ some d
    → d.wake_version ≢ delivery.wake_version
    → d.available_at ≡ some due
    → d.blocked ≡ false
    → (r : DispatchRow) × (lookup delivery.execution_id
          (finish delivery failure retry now later db).1.dispatch
        ≡ some r)
      × (r.available_at ≡ some due)
      × (r.blocked ≡ false)
      × (r.lease_until ≤ d.lease_until)
unfolding finish
finish_older delivery failure retry now later db d due found older at_due open_row =
    elim (Bool-cases (is_held delivery.token now d)) [
      | inr lost ↦ (d, ground arith, at_due, open_row, omega arith)
      | inl held ↦
          let over = status_rests (lookup delivery.execution_id db.executions) in
          (
            finish_row false over failure retry later d,
            ground (
              arith,
              lookup-update delivery.execution_id delivery.execution_id
                  (λ _. finish_row false over failure retry later d) db.dispatch,
              ==_refl delivery.execution_id,
            ),
            at_due,
            refl,
            omega arith,
          )
    ]

-- While a worker holds a delivery a successful wake is not lost: whatever the worker then reports,
-- in time or late, success or failure, the delivery is due from the wake on, once the lease is
-- over.
pub wake_survives :
    (delivery : Delivery) (until thread_id : ℕ) (cancellation : Bool) (woken_at due : ℕ)
    (failure : Option DeliveryFailure) (retry now later : ℕ) (db : Db) {db' : Db}
    → HeldUntil delivery until db
    → wake thread_id delivery.execution_id cancellation woken_at due db ≡ ok (tt, db')
    → (r : DispatchRow) × (lookup delivery.execution_id
          (finish delivery failure retry now later db').1.dispatch
        ≡ some r)
      × ((t : ℕ) → due ≤ t → until ≤ t → is_due t r ≡ true)
wake_survives delivery until thread_id cancellation woken_at due failure retry now later db {db'}
      (d, at_row, tok, lease, version) woke =
    let e = delivery.execution_id in
    let found : lookup e db'.dispatch ≡ some (wake_row due d) =
      ap (λ (x : Db). lookup e x.dispatch)
        (wake-eq-update thread_id e cancellation woken_at due db woke)
      ∙ woken e woken_at due db d at_row in
    let (r, at_r, at_due, open_row, shorter) =
      finish_older delivery failure retry now later db' (wake_row due d) due found (omega arith)
        refl refl in
    (r, at_r, λ t after_due after_lease. ground arith)

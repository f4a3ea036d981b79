-- ===== src/Dispatch/Settled.antt =====
-- What a worker leaves of a delivery: `run_delivery` of agent_runtime/dispatch.py.
use parts_bin.Prelude.{
  ℕ, ◌≡◌, refl, sym, ap, ◌∙◌, subst, Bool, true, false, ◌&&◌, Option, none, some, List, [], ◌∷◌,
  arith, Bool-cases, inl, inr, holds, ltb, ◌==◌, some-injective,
}
use parts_bin.Storage.Table.{Table, lookup, update, lookup-update_self}
use parts_bin.Storage.Rows.{
  Db, Delivery, DeliveryFailure, execution_busy, worker_interrupted, exception, DispatchRow,
  ConversationEvent, EventId, blocked_error, blocked_completed,
}
use parts_bin.Intake.{blocked_deliveries}
use parts_bin.Storage.Tx.{Result, ok, err}
use parts_bin.Conversations.{append_once}
use parts_bin.Outbox.{cancellation_requested}
use parts_bin.Outbox.Finishing.{finish, finish_found, finish_row, is_held, status_rests}
use parts_bin.Runtime.Frames.{dispatch-append_once}
use parts_bin.Dispatch.{
  Advanced, saved, deferred, interrupted, raised, Gateway, Ended, committed_unit, and_then,
  publish_event, publish_one, publish_each, publish_blocked, publish_if, settle, run_delivery,
  blocked_events,
}

-- Nobody holds the row under this token.
abbrev pub IsSettled : Delivery → ℕ → Db → Type 0
IsSettled delivery now db =
    (row : DispatchRow)
    → lookup delivery.execution_id db.dispatch ≡ some row
    → is_held delivery.token now row ≡ false

finish_row-token :
    (current over : Bool) (failure : Option DeliveryFailure) (retry later : ℕ) (d : DispatchRow)
    → (finish_row current over failure retry later d).token ≡ none
finish_row-token true over none retry later d = refl
finish_row-token true over (some f) retry later d = refl
finish_row-token false over failure retry later d = refl

not_held : (token now : ℕ) (d : DispatchRow) → d.token ≡ none → is_held token now d ≡ false
not_held token now d h = ap (λ (o : Option ℕ). holds token o && ltb now d.lease_until) h

finish_found-IsSettled :
    (delivery : Delivery) (failure : Option DeliveryFailure) (retry now later : ℕ) (db : Db)
    (o : Option DispatchRow)
    → lookup delivery.execution_id db.dispatch ≡ o
    → IsSettled delivery now (finish_found delivery failure retry now later o db).1
finish_found-IsSettled delivery failure retry now later db none absent row found =
    absurd (ground arith)
finish_found-IsSettled delivery failure retry now later db (some d) is_d row found =
    let e = delivery.execution_id in
    let written =
      finish_row (d.wake_version == delivery.wake_version) (status_rests (lookup e db.executions))
        failure retry later d in
    elim (Bool-cases (is_held delivery.token now d)) [
      | inr free ↦
          let same : d ≡ row = ground (arith, is_d, found, free) in
          subst (λ (r : DispatchRow). is_held delivery.token now r ≡ false) same free
      | inl held ↦
          let after : lookup e (update e (λ (x : DispatchRow). written) db.dispatch) ≡ some row =
            ground (arith, found, held) in
          let same = some-injective (
            sym (lookup-update_self e (λ (x : DispatchRow). written) db.dispatch d is_d) ∙ after) in
          subst (λ (r : DispatchRow). is_held delivery.token now r ≡ false) same
            (not_held delivery.token now written (
              finish_row-token (d.wake_version == delivery.wake_version)
                (status_rests (lookup e db.executions)) failure retry later d))
    ]

finish-IsSettled :
    (delivery : Delivery) (failure : Option DeliveryFailure) (retry now later : ℕ) (db : Db)
    → IsSettled delivery now (finish delivery failure retry now later db).1
unfolding finish
finish-IsSettled delivery failure retry now later db =
    finish_found-IsSettled delivery failure retry now later db
      (lookup delivery.execution_id db.dispatch) refl

committed_unit-dispatch :
    (event : ConversationEvent) (id : EventId) (db : Db)
    → (publish_event event id db).1.dispatch ≡ db.dispatch
committed_unit-dispatch event id db = by_result (append_once event id db) refl
  where
    by_result :
        (r : Result (ConversationEvent × Db))
        → append_once event id db ≡ r
        → (committed_unit db r).1.dispatch ≡ db.dispatch
    by_result (ok r) is_r = (dispatch-append_once event id db is_r).0
    by_result (err e) is_r = refl

and_then-dispatch :
    (r : Ended) (k : Db → Ended) (t : Table DispatchRow)
    → r.1.dispatch ≡ t
    → ((db : Db) → db.dispatch ≡ t → (k db).1.dispatch ≡ t)
    → (and_then r k).1.dispatch ≡ t
and_then-dispatch (ok u, db) k t h keeps = keeps db h
and_then-dispatch (err e, db) k t h keeps = h

publish_one-dispatch :
    (delivery : Delivery) (db : Db) (t : Table DispatchRow)
    → db.dispatch ≡ t
    → (publish_one delivery db).1.dispatch ≡ t
publish_one-dispatch delivery db t h =
    let events = blocked_events delivery (cancellation_requested delivery.execution_id db) in
    let first = blocked_error delivery.execution_id delivery.wake_version in
    let last = blocked_completed delivery.execution_id delivery.wake_version in
    and_then-dispatch (publish_event events.0 first db) (λ d. publish_event events.1 last d) t
      (committed_unit-dispatch events.0 first db ∙ h)
      (λ d e. committed_unit-dispatch events.1 last d ∙ e)

publish_each-dispatch :
    (deliveries : List Delivery) (db : Db) (t : Table DispatchRow)
    → db.dispatch ≡ t
    → (publish_each deliveries db).1.dispatch ≡ t
publish_each-dispatch [] db t h = h
publish_each-dispatch (delivery ∷ deliveries) db t h =
    and_then-dispatch (publish_one delivery db) (λ d. publish_each deliveries d) t
      (publish_one-dispatch delivery db t h) (λ d e. publish_each-dispatch deliveries d t e)

publish_if-IsSettled :
    (delivery : Delivery) (now : ℕ) (r : Bool × Db)
    → IsSettled delivery now r.1
    → IsSettled delivery now (publish_if r).1
unfolding publish_blocked
publish_if-IsSettled delivery now (false, db) h row found = h row found
publish_if-IsSettled delivery now (true, db) h row found =
    let kept = publish_each-dispatch (blocked_deliveries db) db db.dispatch refl in
    h row (ap (lookup delivery.execution_id) (sym kept) ∙ found)

settle-IsSettled :
    (delivery : Delivery) (a : Advanced) (now later : ℕ) (db : Db)
    → IsSettled delivery now (settle delivery a now later db).1.1
settle-IsSettled delivery saved now later db = finish-IsSettled delivery none 0 now later db
settle-IsSettled delivery (deferred seconds) now later db =
    finish-IsSettled delivery (some execution_busy) seconds now later db
settle-IsSettled delivery interrupted now later db =
    finish-IsSettled delivery (some worker_interrupted) 1 now later db
settle-IsSettled delivery (raised name) now later db =
    publish_if-IsSettled delivery now (finish delivery (some (exception name)) 0 now later db)
      (finish-IsSettled delivery (some (exception name)) 0 now later db)

-- However the advance of a delivery ends, and whatever it did to the database, nobody holds the delivery
-- under its token once the worker is done with it.
pub run_delivery_settles :
    (gateway : Gateway) (delivery : Delivery) (image : Option ℕ) (now later : ℕ) (db : Db)
    → IsSettled delivery now (run_delivery gateway delivery image now later db).1.1
unfolding run_delivery
run_delivery_settles gateway delivery image now later db =
    let r = gateway.advance delivery image db in settle-IsSettled delivery r.0 now later r.1

-- ===== src/Outbox/Finishing.antt =====
-- `finish` of db/postgres/dispatch.py: a worker is done with a delivery, which settles, waits or backs off.
use parts_bin.Prelude.{
  ℕ, zero, suc, ◌+◌, ◌*◌, ◌^◌, min, Bool, true, false, ◌&&◌, Option, none, some, ◌==◌, ltb, leb,
  if◌then◌else◌, holds,
}
use parts_bin.Storage.Table.{lookup, update}
use parts_bin.Storage.Rows.{
  second, Db, Status, awaiting_approval, ExecutionRow, DeliveryFailure, execution_busy, DispatchRow,
  Delivery, is_terminal,
}
use parts_bin.Outbox.{max_failures}

-- `failures` after a delivery
abbrev pub counted : Option DeliveryFailure → ℕ → ℕ
counted none n = 0
counted (some execution_busy) n = n
counted (some _) n = n + 1

-- `retry_after or min(60, 2 ** failures)`, in seconds
abbrev pub retry_seconds : ℕ → ℕ → ℕ
retry_seconds zero failures = min 60 (2 ^ failures)
retry_seconds (suc n) failures = suc n

-- `status in {'completed', 'failed', 'cancelled', 'awaiting_approval'}`
abbrev pub rests : Status → Bool
rests awaiting_approval = true
rests status = is_terminal status

abbrev pub status_rests : Option ExecutionRow → Bool
status_rests none = false
status_rests (some x) = rests x.status

-- The row that `finish` writes. `current` says that no wake came after the claim, and `over` that
-- the execution rests.
abbrev pub finish_row : Bool → Bool → Option DeliveryFailure → ℕ → ℕ → DispatchRow → DispatchRow
finish_row true over none retry_after now d = record d {
  available_at = if over then none else d.available_at;
  token = none;
  lease_until = 0;
  failures = 0;
  blocked = false;
  settled = if over then true else d.settled;
  last_error = none;
}
finish_row true over (some f) retry_after now d =
    let failures = counted (some f) d.failures in
    let blocked = leb max_failures failures in
    record d {
      available_at =
          if blocked then none else some (now + retry_seconds retry_after failures * second);
      token = none;
      lease_until = 0;
      failures = failures;
      blocked = blocked;
      last_error = some f;
    }
finish_row false over failure retry_after now d = record d {
  token = none;
  lease_until = 0;
  failures = counted failure d.failures;
  blocked = false;
  last_error = failure;
}

-- `token = %s AND lease_until > %s`
abbrev pub is_held : ℕ → ℕ → DispatchRow → Bool
is_held token now d = holds token d.token && ltb now d.lease_until

abbrev pub finish_found :
    Delivery → Option DeliveryFailure → ℕ → ℕ → ℕ → Option DispatchRow → Db → Bool × Db
finish_found delivery failure retry_after now later none db = (false, db)
finish_found delivery failure retry_after now later (some d) db =
    if is_held delivery.token now d
    then (let row =
          finish_row (d.wake_version == delivery.wake_version)
            (status_rests (lookup delivery.execution_id db.executions)) failure retry_after later
            d in
        (row.blocked, record db { dispatch = update delivery.execution_id (λ _. row) db.dispatch }))
    else (false, db)

-- `now` and `later` are the two readings of the clock.
unfoldable pub finish : Delivery → Option DeliveryFailure → ℕ → ℕ → ℕ → Db → Bool × Db
finish delivery failure retry_after now later db =
    finish_found delivery failure retry_after now later (lookup delivery.execution_id db.dispatch)
      db

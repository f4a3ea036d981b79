-- ===== src/Outbox/Checkpoints.antt =====
-- `checkpoint` of db/postgres/dispatch.py: a stage is saved and the delivery of its execution moved on.
use parts_bin.Prelude.{
  ℕ, zero, suc, ◌+◌, ◌*◌, Bool, true, false, not, ◌&&◌, Option, none, some, ◌==◌,
}
use parts_bin.Storage.Table.{Table, lookup, update, update_where, exists}
use parts_bin.Storage.Rows.{second, Db, Status, waiting_model, Context, DispatchRow, InboxRow}
use parts_bin.Outbox.{poll_seconds, cancellation_requested}

-- `SELECT 1 FROM agent_webhook_inbox WHERE response_id = %s AND consumed = 0`
abbrev pub is_waiting : ℕ → InboxRow → Bool
is_waiting response_id w = response_id == w.response_id && not w.consumed

abbrev pub has_webhook : Option ℕ → Db → Bool
has_webhook none db = false
has_webhook (some zero) db = false
has_webhook (some (suc r)) db = exists (λ i w. is_waiting (suc r) w) db.inbox

-- `UPDATE agent_webhook_inbox SET consumed = 1 WHERE response_id = %s`
abbrev pub consume : Option ℕ → Table InboxRow → Table InboxRow
consume none t = t
consume (some r) t = update_where (λ w. r == w.response_id) (λ w. record w { consumed = true }) t

abbrev pub poll_delay : Status → Bool → ℕ
poll_delay waiting_model false = poll_seconds * second
poll_delay _ _ = 0

abbrev pub checkpoint_row : Option ℕ → ℕ → DispatchRow → DispatchRow
checkpoint_row response_id due d = record d {
  available_at = some due;
  settled = false;
  response_id = response_id;
}

abbrev pub checkpoint_found : ℕ → Context → Status → ℕ → ℕ → Bool → Option DispatchRow → Db → Db
checkpoint_found e context status now later early none db = db
checkpoint_found e context status now later true (some d) db = record db {
  dispatch = update e (checkpoint_row context.model_response_id later) db.dispatch;
  inbox = consume context.model_response_id db.inbox;
}
checkpoint_found e context status now later false (some d) db = record db {
  dispatch =
      update e
        (checkpoint_row context.model_response_id
          (now + poll_delay status (cancellation_requested e db)))
        db.dispatch;
}

-- `now` and `later` are the two readings of the clock.
unfoldable pub checkpoint : ℕ → Context → Status → ℕ → ℕ → Db → Db
checkpoint e context status now later db =
    checkpoint_found e context status now later (has_webhook context.model_response_id db)
      (lookup e db.dispatch) db

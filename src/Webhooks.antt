-- ===== src/Webhooks.antt =====
-- db/postgres/dispatch.py: the inbox of provider webhooks, and the reconciliation that repairs what a
-- lost process left. Each reading of `time.time()` is an argument.
pub mod Inbox
pub mod Arrival
mod Tests
use parts_bin.Prelude.{
  ℕ, suc, ◌+◌, ◌-◌, ◌*◌, Bool, true, false, not, ◌&&◌, Option, none, some, List, [], ◌∷◌, ◌==◌, ltb,
  leb, if◌then◌else◌, is_some, holds, take, length,
}
use parts_bin.Storage.Table.{Table, lookup, update, update_where, insert, exists, select}
use parts_bin.Storage.Rows.{second, Db, DispatchRow, InboxRow, Delivery, ExecutionRow}
use parts_bin.Outbox.{lease_seconds}
use parts_bin.Outbox.Checkpoints.{consume}

-- `SELECT execution_id FROM agent_dispatch WHERE response_id = %s AND blocked = 0`
abbrev pub awaits : ℕ → DispatchRow → Bool
awaits response_id d = holds response_id d.response_id && not d.blocked

abbrev pub find_awaiting : ℕ → Table DispatchRow → Option ℕ
find_awaiting response_id [] = none
find_awaiting response_id ((e, d) ∷ t) =
    if awaits response_id d then some e else find_awaiting response_id t

abbrev pub match_row : ℕ → DispatchRow → DispatchRow
match_row now d = record d { available_at = some now; wake_version = d.wake_version + 1 }

abbrev match_found : ℕ → ℕ → Option ℕ → Db → Db
match_found response_id now none db = db
match_found response_id now (some e) db = record db {
  dispatch = update e (match_row now) db.dispatch;
  inbox = consume (some response_id) db.inbox;
}

-- `_match`
unfoldable pub match_response : ℕ → ℕ → Db → Db
match_response response_id now db =
    match_found response_id now (find_awaiting response_id db.dispatch) db

abbrev pub receive : ℕ → ℕ → ℕ → ℕ → Db → Db
receive event_id response_id event_type now db = record db {
  inbox =
      insert event_id
        (record {
          response_id = response_id;
          event_type = event_type;
          received_at = now;
          consumed = false;
        })
        db.inbox;
}

unfoldable pub notify : ℕ → ℕ → ℕ → ℕ → ℕ → Db → Bool × Db
notify event_id response_id event_type now later db =
    if is_some (lookup event_id db.inbox)
    then (false, db)
    else (true, match_response response_id later (receive event_id response_id event_type now db))

-- `WHERE consumed = 0 ORDER BY received_at`
abbrev insert_by_time : InboxRow → List InboxRow → List InboxRow
insert_by_time w [] = w ∷ []
insert_by_time w (v ∷ ws) =
    if leb w.received_at v.received_at then w ∷ v ∷ ws else v ∷ insert_by_time w ws

unfoldable pub unconsumed : Table InboxRow → List InboxRow
unconsumed [] = []
unconsumed ((i, w) ∷ t) =
    let rest = unconsumed t in if w.consumed then rest else insert_by_time w rest

-- Each match reads the clock: `clock i` is the reading for the i-th response.
unfoldable pub match_all : List InboxRow → (ℕ → ℕ) → Db → Db
match_all [] clock db = db
match_all (w ∷ ws) clock db =
    match_all ws (λ i. clock (suc i)) (match_response w.response_id (clock 0) db)

-- `blocked = 0 AND settled = 0 AND available_at IS NULL`
abbrev pub is_stranded : DispatchRow → Bool
is_stranded d = not d.blocked && not d.settled && not (is_some d.available_at)

abbrev pub repair : ℕ → Table DispatchRow → Table DispatchRow
repair now = update_where is_stranded (λ d. record d { available_at = some now })

-- `DELETE FROM agent_webhook_inbox WHERE received_at < %s`
unfoldable pub purge : ℕ → Table InboxRow → Table InboxRow
purge limit [] = []
purge limit ((i, w) ∷ t) =
    let rest = purge limit t in if ltb w.received_at limit then rest else (i, w) ∷ rest

abbrev reconciled : ℕ → ℕ → ℕ → Db → ℕ × Db
reconciled repaired week_ago seen db = (
  length (select (λ e d. is_stranded d) db.dispatch),
  record db {
    dispatch = repair repaired db.dispatch;
    inbox = purge week_ago db.inbox;
    heartbeat = some seen;
  },
)

-- The readings of the clock: those of the matches, and one for each statement behind them.
unfoldable pub reconcile : (ℕ → ℕ) → ℕ → ℕ → ℕ → Db → ℕ × Db
reconcile clock repaired purged seen db =
    reconciled repaired (purged - 7 * 86400 * second) seen
      (match_all (take 100 (unconsumed db.inbox)) clock db)

pub healthy : ℕ → Db → Bool
healthy now db = elim db.heartbeat [ none ↦ false | some seen ↦ ltb now (seen + 360 * second) ]

-- ===== src/Webhooks/Arrival.antt =====
-- A webhook and the checkpoint that names its response meet in either order.
use parts_bin.Prelude.{
  ℕ, suc, ◌+◌, ◌≤◌, ◌≡◌, refl, true, false, none, some, [], ◌∷◌, arith, Bool-cases, inl, inr,
  ==_refl,
}
use parts_bin.Storage.Table.{Table, lookup, lookup-update}
use parts_bin.Storage.Keys.{exists-insert, IsKeyed}
use parts_bin.Storage.Rows.{Db, Context, Status, DispatchRow, InboxRow}
use parts_bin.Outbox.{is_due}
use parts_bin.Outbox.Checkpoints.{checkpoint, checkpoint_row, is_waiting}
use parts_bin.Webhooks.{notify, match_response, find_awaiting, awaits, match_row}

-- The checkpoint comes second. A webhook for a response that no enrolled execution waits for yet is
-- kept: the checkpoint that then names the response makes the execution due at once, whatever its
-- status and however long it would have waited to poll.
pub webhook_first :
    (event_id r event_type received_at matched_at e : ℕ) (context : Context) (status : Status)
    (now later : ℕ) (db : Db) (d : DispatchRow)
    → lookup event_id db.inbox ≡ none
    → find_awaiting (suc r) db.dispatch ≡ none
    → lookup e db.dispatch ≡ some d
    → context.model_response_id ≡ some (suc r)
    → let db' = (notify event_id (suc r) event_type received_at matched_at db).1 in
      lookup e (checkpoint e context status now later db').dispatch
      ≡ some (checkpoint_row (some (suc r)) later d)
unfolding notify match_response checkpoint
webhook_first event_id r event_type received_at matched_at e context status now later db d new
      nobody found named =
    let w : InboxRow = record {
      response_id = suc r;
      event_type = event_type;
      received_at = received_at;
      consumed = false;
    } in
    ground (
      arith,
      exists-insert (λ i (v : InboxRow). is_waiting (suc r) v) event_id w db.inbox (ground arith),
      lookup-update e e (checkpoint_row (some (suc r)) later) db.dispatch,
      ==_refl e,
    )

-- The execution that a webhook finds has a row that waits for its response.
find_awaiting_sound :
    (r e : ℕ) (t : Table DispatchRow)
    → IsKeyed t
    → find_awaiting r t ≡ some e
    → (d : DispatchRow) × (lookup e t ≡ some d) × (awaits r d ≡ true)
find_awaiting_sound r e [] h p = absurd (ground arith)
find_awaiting_sound r e ((k, s) ∷ t) h p = elim (Bool-cases (awaits r s)) [
  | inl here ↦ (s, ground arith, here)
  | inr later ↦
      let (d, found, waits) = find_awaiting_sound r e t h.1 (ground arith) in
      (d, ground (arith, h.0), waits)
]

-- The webhook comes second. Where an execution waits for the response and its delivery is not
-- blocked, the webhook makes it due as soon as no worker holds it, under a new wake version.
pub webhook_second :
    (event_id r event_type received_at matched_at e : ℕ) (db : Db)
    → IsKeyed db.dispatch
    → lookup event_id db.inbox ≡ none
    → find_awaiting r db.dispatch ≡ some e
    → let db' = (notify event_id r event_type received_at matched_at db).1 in
      (d d' : DispatchRow) × (lookup e db.dispatch ≡ some d)
      × (lookup e db'.dispatch ≡ some d')
      × (d'.wake_version ≡ d.wake_version + 1)
      × ((t : ℕ) → matched_at ≤ t → d.lease_until ≤ t → is_due t d' ≡ true)
unfolding notify match_response
webhook_second event_id r event_type received_at matched_at e db h new waiting =
    let (d, found, waits) = find_awaiting_sound r e db.dispatch h waiting in
    (
      d,
      match_row matched_at d,
      found,
      ground (arith, lookup-update e e (match_row matched_at) db.dispatch, ==_refl e),
      refl,
      λ t after_match after_lease. ground arith,
    )

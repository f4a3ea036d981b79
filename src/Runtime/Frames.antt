-- ===== src/Runtime/Frames.antt =====
-- What each method leaves alone.
use parts_bin.Prelude.{
  ℕ, zero, suc, ◌+◌, ◌*◌, ◌≡◌, refl, ◌∙◌, Option, none, some, List, [], ◌∷◌, arith, take,
  Option-cases, inl, inr,
}
use parts_bin.Storage.Table.{lookup}
use parts_bin.Storage.Rows.{
  second, Db, Status, Context, StoredExecution, Delivery, DeliveryFailure, ConversationEvent,
  EventId, Runtime, InboxRow,
}
use parts_bin.Storage.Tx.{ok}
use parts_bin.Conversations.{create_thread, append, append_once, append_keyed, append_plain}
use parts_bin.Outbox
use parts_bin.Outbox.{wake}
use parts_bin.Outbox.Checkpoints.{checkpoint}
use parts_bin.Outbox.Finishing.{finish}
use parts_bin.Webhooks.{receive, notify, reconcile, match_response, match_all, unconsumed}
use parts_bin.Executions.{
  claim, save, release, prepare, bind_approval, save_execution, lease_seconds,
}

-- The tables of which the invariants speak.
pub record SameTables (a b : Db) : Type 0 where
  pub dispatch : b.dispatch ≡ a.dispatch
  pub events : b.events ≡ a.events
  pub cancellations : b.cancellations ≡ a.cancellations

pub claim-SameTables :
    (thread_id e worker_id : ℕ) (context : Option Context) (now : ℕ) (db : Db) {r : StoredExecution}
    {db' : Db}
    → claim thread_id e worker_id context now db ≡ ok (r, db')
    → SameTables db db'
unfolding claim
claim-SameTables thread_id e worker_id none now db h = ground arith
claim-SameTables thread_id e worker_id (some c) now db h = ground arith

pub prepare-SameTables :
    (thread_id e : ℕ) (context : Context) (db : Db) {r : StoredExecution} {db' : Db}
    → prepare thread_id e context db ≡ ok (r, db')
    → SameTables db db'
unfolding prepare
prepare-SameTables thread_id e context db h = ground arith

pub release-SameTables : (e worker_id : ℕ) (db : Db) → SameTables db (release e worker_id db)
unfolding release
release-SameTables e worker_id db = ground arith

pub events-checkpoint :
    (e : ℕ) (context : Context) (status : Status) (now later : ℕ) (db : Db)
    → (checkpoint e context status now later db).events ≡ db.events
unfolding checkpoint
events-checkpoint e context status now later db = ground arith

pub cancellations-checkpoint :
    (e : ℕ) (context : Context) (status : Status) (now later : ℕ) (db : Db)
    → (checkpoint e context status now later db).cancellations ≡ db.cancellations
unfolding checkpoint
cancellations-checkpoint e context status now later db = ground arith

bind_approval-SameTables :
    (request : Option ℕ) (e : ℕ) (db : Db) → SameTables db (bind_approval request e db)
bind_approval-SameTables none e db = ground arith
bind_approval-SameTables (some zero) e db = ground arith
bind_approval-SameTables (some (suc r)) e db = ground arith

-- `save` is a checkpoint of a database in which only the execution and its approval changed.
pub save-checkpoint :
    (e worker_id : ℕ) (context : Context) (status : Status) (leased now due later : ℕ) (db : Db)
    {db' : Db}
    → save e worker_id context status leased now due later db ≡ ok (tt, db')
    → (mid : Db) × SameTables db mid × (db' ≡ checkpoint e context status due later mid)
unfolding save
save-checkpoint e worker_id context status leased now due later db h =
    let saved = save_execution e context status (leased + lease_seconds * second) db in
    let bound = bind_approval-SameTables context.approval_id e saved in
    (
      bind_approval context.approval_id e saved,
      record {
        dispatch = bound.dispatch;
        events = bound.events;
        cancellations = bound.cancellations;
      },
      ground arith,
    )

pub dispatch-append_once :
    (event : ConversationEvent) (i : EventId) (db : Db) {r : ConversationEvent} {db' : Db}
    → append_once event i db ≡ ok (r, db')
    → (db'.dispatch ≡ db.dispatch) × (db'.cancellations ≡ db.cancellations)
unfolding append_once append_keyed create_thread
dispatch-append_once event i db h = ground arith

pub dispatch-append :
    (event : ConversationEvent) (db : Db) {r : ConversationEvent} {db' : Db}
    → append event db ≡ ok (r, db')
    → (db'.dispatch ≡ db.dispatch) × (db'.cancellations ≡ db.cancellations)
unfolding append append_plain create_thread
dispatch-append event db h = ground arith

pub create_thread-SameTables :
    (thread_id : ℕ) (runtime : Runtime) (db : Db) {db' : Db}
    → create_thread thread_id runtime db ≡ ok (tt, db')
    → SameTables db db'
unfolding create_thread
create_thread-SameTables thread_id runtime db h = ground arith

pub events-claim :
    (execution_id token : Option ℕ) (fresh now : ℕ) (db : Db)
    → let db' = (Outbox.claim execution_id token fresh now db).1 in
      (db'.events ≡ db.events) × (db'.cancellations ≡ db.cancellations)
unfolding Outbox.claim
events-claim execution_id token fresh now db =
    elim (Option-cases (Outbox.claimable execution_id token now db)) [
      | inl nothing ↦ rw nothing (refl, refl)
      | inr ((e, d), chosen) ↦ elim (Option-cases (lookup e db.executions)) [
        | inl missing ↦ rw (chosen, missing) (refl, refl)
        | inr (x, joined) ↦ rw (chosen, joined) (refl, refl)
      ]
    ]

pub events-finish :
    (delivery : Delivery) (failure : Option DeliveryFailure) (retry now later : ℕ) (db : Db)
    → let db' = (finish delivery failure retry now later db).1 in
      (db'.events ≡ db.events) × (db'.cancellations ≡ db.cancellations)
unfolding finish
events-finish delivery failure retry now later db = ground arith

events-match_response :
    (response_id now : ℕ) (db : Db)
    → let db' = match_response response_id now db in
      (db'.events ≡ db.events) × (db'.cancellations ≡ db.cancellations)
unfolding match_response
events-match_response response_id now db = ground arith

events-match_all :
    (ws : List InboxRow) (clock : ℕ → ℕ) (db : Db)
    → let db' = match_all ws clock db in
      (db'.events ≡ db.events) × (db'.cancellations ≡ db.cancellations)
unfolding match_all
events-match_all [] clock db = (refl, refl)
events-match_all (w ∷ ws) clock db =
    let (a, b) =
      events-match_all ws (λ i. clock (suc i)) (match_response w.response_id (clock 0) db) in
    let (c, d) = events-match_response w.response_id (clock 0) db in (a ∙ c, b ∙ d)

pub events-notify :
    (event_id response_id event_type now later : ℕ) (db : Db)
    → let db' = (notify event_id response_id event_type now later db).1 in
      (db'.events ≡ db.events) × (db'.cancellations ≡ db.cancellations)
unfolding notify
events-notify event_id response_id event_type now later db = ground (
  arith,
  events-match_response response_id later (receive event_id response_id event_type now db),
)

pub events-reconcile :
    (clock : ℕ → ℕ) (repaired purged seen : ℕ) (db : Db)
    → let db' = (reconcile clock repaired purged seen db).1 in
      (db'.events ≡ db.events) × (db'.cancellations ≡ db.cancellations)
unfolding reconcile
events-reconcile clock repaired purged seen db =
    events-match_all (take 100 (unconsumed db.inbox)) clock db

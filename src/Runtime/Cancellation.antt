-- ===== src/Runtime/Cancellation.antt =====
-- A cancellation is irreversible: no stage of the execution begins after it.
use parts_bin.Prelude.{
  ℕ, ◌≡◌, ◌≢◌, refl, sym, ap, ◌∙◌, subst, Bool, true, Option, arith, is_some, inl, inr, ==_refl,
}
use parts_bin.Storage.Table.{Table, lookup, insert_if_absent, lookup-insert_if_absent}
use parts_bin.Storage.Rows.{Db, ConversationEvent, Delivery, cancel_request}
use parts_bin.Storage.Tx.{ok}
use parts_bin.Conversations.{append_once}
use parts_bin.Outbox.{cancellation_requested, wake}
use parts_bin.Outbox.Stranding.{wake-eq-update}
use parts_bin.Executions.{
  cancelling, request_cancellation, record_cancellation, cancellation_event, begin_stage,
}
use parts_bin.Runtime.{
  Step, accepts, claims_execution, saves, cancels, releases, claims_delivery, finishes, wakes,
  notifies, reconciles, creates, appends, publishes, Reach, here, next,
}
use parts_bin.Runtime.Frames
use parts_bin.Runtime.Safety.{request_cancellation-cases, events-accept}

abbrev IsCancelled : ℕ → Table ℕ → Type 0
IsCancelled e t = is_some (lookup e t) ≡ true

kept : (e : ℕ) {a b : Table ℕ} → b ≡ a → IsCancelled e a → IsCancelled e b
kept e same h = subst (IsCancelled e) (sym same) h

recorded : (e k now : ℕ) (t : Table ℕ) → IsCancelled e t → IsCancelled e (insert_if_absent k now t)
recorded e k now t h = ground (arith, lookup-insert_if_absent k e now t)

recorded_self : (e now : ℕ) (t : Table ℕ) → IsCancelled e (insert_if_absent e now t)
recorded_self e now t = ground (arith, lookup-insert_if_absent e e now t, ==_refl e)

-- The cancellations after a request that records one.
cancellations-cancel :
    (thread_id e now woken due : ℕ) (db mid : Db) {r : ConversationEvent} {db' : Db}
    → append_once (cancellation_event thread_id e) (cancel_request e) (record_cancellation e now db)
      ≡ ok (r, mid)
    → wake thread_id e true woken due mid ≡ ok (tt, db')
    → db'.cancellations ≡ insert_if_absent e now db.cancellations
cancellations-cancel thread_id e now woken due db mid published woke =
    ap (λ (d : Db). d.cancellations) (wake-eq-update thread_id e true woken due mid woke)
    ∙ (Frames.dispatch-append_once (cancellation_event thread_id e) (cancel_request e)
        (record_cancellation e now db) published).1

Step-IsCancelled :
    (e : ℕ) {db db' : Db}
    → Step db db'
    → IsCancelled e db.cancellations
    → IsCancelled e db'.cancellations
Step-IsCancelled e {db} (accepts thread_id k context reservation now later r p) h =
    kept e (events-accept thread_id k context reservation now later db p).1 h
Step-IsCancelled e {db} (claims_execution thread_id k worker_id context now r p) h =
    kept e (Frames.claim-SameTables thread_id k worker_id context now db p).cancellations h
Step-IsCancelled e {db} {db'} (saves k worker_id context status leased now due later p) h =
    let (mid, same, is_checkpoint) =
      Frames.save-checkpoint k worker_id context status leased now due later db p in
    kept e
      (ap (λ (d : Db). d.cancellations) is_checkpoint
        ∙ Frames.cancellations-checkpoint k context status due later mid
        ∙ same.cancellations)
      h
Step-IsCancelled e {db} (cancels thread_id k now woken due answer p) h =
    elim (request_cancellation-cases thread_id k now woken due db p) [
      | inl (same, ended) ↦ kept e (ap (λ (d : Db). d.cancellations) same) h
      | inr (r, mid, published, woke) ↦
          kept e (cancellations-cancel thread_id k now woken due db mid published woke)
            (recorded e k now db.cancellations h)
    ]
Step-IsCancelled e {db} (releases k worker_id p) h =
    kept e
      (ap (λ (d : Db). d.cancellations) (sym p)
        ∙ (Frames.release-SameTables k worker_id db).cancellations)
      h
Step-IsCancelled e {db} (claims_delivery execution_id token fresh now d p) h =
    kept e
      (ap (λ (q : Option Delivery × Db). q.1.cancellations) (sym p)
        ∙ (Frames.events-claim execution_id token fresh now db).1)
      h
Step-IsCancelled e {db} (finishes delivery failure retry now later b p) h =
    kept e
      (ap (λ (q : Bool × Db). q.1.cancellations) (sym p)
        ∙ (Frames.events-finish delivery failure retry now later db).1)
      h
Step-IsCancelled e {db} (wakes thread_id k cancellation now later p) h =
    kept e
      (ap (λ (d : Db). d.cancellations) (wake-eq-update thread_id k cancellation now later db p)) h
Step-IsCancelled e {db} (notifies event_id response_id event_type now later b p) h =
    kept e
      (ap (λ (q : Bool × Db). q.1.cancellations) (sym p)
        ∙ (Frames.events-notify event_id response_id event_type now later db).1)
      h
Step-IsCancelled e {db} (reconciles clock repaired purged seen n p) h =
    kept e
      (ap (λ (q : ℕ × Db). q.1.cancellations) (sym p)
        ∙ (Frames.events-reconcile clock repaired purged seen db).1)
      h
Step-IsCancelled e {db} (creates thread_id runtime p) h =
    kept e (Frames.create_thread-SameTables thread_id runtime db p).cancellations h
Step-IsCancelled e {db} (appends event r p) h = kept e (Frames.dispatch-append event db p).1 h
Step-IsCancelled e {db} (publishes event r i p) h =
    kept e (Frames.dispatch-append_once event i db p).1 h

Reach-IsCancelled :
    (e : ℕ) {db db' : Db}
    → Reach db db'
    → IsCancelled e db.cancellations
    → IsCancelled e db'.cancellations
Reach-IsCancelled e here h = h
Reach-IsCancelled e (next r s) h = Step-IsCancelled e s (Reach-IsCancelled e r h)

not_begun :
    (e worker_id later : ℕ) (db : Db) {db' : Db}
    → IsCancelled e db.cancellations
    → begin_stage e worker_id later db ≢ ok (true, db')
unfolding begin_stage cancellation_requested
not_begun e worker_id later db h begun = ground arith

-- Once a cancellation request was answered by "cancelling", then whatever workers, hosts and
-- webhooks do afterwards, no worker at any time is told to begin a stage of the execution.
pub cancelled_forever :
    (thread_id e now woken due : ℕ) (db : Db) {db' last last' : Db}
    → request_cancellation thread_id e now woken due db ≡ ok (cancelling, db')
    → Reach db' last
    → (worker_id later : ℕ) → begin_stage e worker_id later last ≢ ok (true, last')
cancelled_forever thread_id e now woken due db {db'} {last} {last'} asked reached worker_id later
      begun =
    elim (request_cancellation-cases thread_id e now woken due db asked) [
      | inl (same, ended) ↦ ended refl
      | inr (r, mid, published, woke) ↦
          let recorded_here : IsCancelled e db'.cancellations =
            kept e (cancellations-cancel thread_id e now woken due db mid published woke)
              (recorded_self e now db.cancellations) in
          not_begun e worker_id later last (Reach-IsCancelled e reached recorded_here) begun
    ]

-- ===== src/Runtime/Safety.antt =====
-- What holds in every state that the runtime can reach.
use parts_bin.Prelude.{
  ℕ, ◌≡◌, ◌≢◌, ◌⊎◌, sym, ap, ◌∙◌, subst, Bool, true, Option, arith, Option-cases, Bool-cases, inl,
  inr,
}
use parts_bin.Storage.Rows.{
  Db, Status, Context, StoredExecution, Delivery, ConversationEvent, cancel_request, is_terminal,
}
use parts_bin.Storage.Tx.{ok, ◌>>=◌, ◌>>◌, >>=-eq-ok, pure}
use parts_bin.Conversations.{append_once}
use parts_bin.Conversations.Sequence.{IsSequenced, append-IsSequenced, append_once-IsSequenced}
use parts_bin.Outbox.{wake, execution_in}
use parts_bin.Outbox.Stranding.{
  IsServed, claim-IsServed, finish-IsServed, checkpoint-IsServed, wake-IsServed, wake-eq-update,
}
use parts_bin.Webhooks.Inbox.{notify-IsServed, reconcile-IsServed}
use parts_bin.Executions.{
  Answer, cancelling, request_cancellation, cancel_active, record_cancellation, cancellation_event,
  save,
}
use parts_bin.Intake.{accept}
use parts_bin.Intake.Acceptance.{accept-IsServed, accepted_mid}
use parts_bin.Runtime.{
  Step, accepts, claims_execution, saves, cancels, releases, claims_delivery, finishes, wakes,
  notifies, reconciles, creates, appends, publishes, Reach, here, next,
}
use parts_bin.Runtime.Frames

-- Every delivery is served, and every conversation's events are numbered without a gap.
pub record IsConsistent (db : Db) : Type 0 where
  pub served : IsServed db.dispatch
  pub sequenced : IsSequenced db.events

-- A cancellation that is recorded does three things, or finds the execution over and does none.
pub request_cancellation-cases :
    (thread_id e now woken due : ℕ) (db : Db) {answer : Answer} {db' : Db}
    → request_cancellation thread_id e now woken due db ≡ ok (answer, db')
    → ((db' ≡ db) × (answer ≢ cancelling))
      ⊎ ((r : ConversationEvent) × (mid : Db) × (append_once
              (cancellation_event thread_id e)
              (cancel_request e)
              (record_cancellation e now db)
            ≡ ok (r, mid))
          × (wake thread_id e true woken due mid ≡ ok (tt, db')))
unfolding request_cancellation cancel_active
request_cancellation-cases thread_id e now woken due db {answer} {db'} h =
    elim (Option-cases (execution_in thread_id e db)) [
      | inl missing ↦ absurd (ground arith)
      | inr (x, found) ↦ elim (Bool-cases (is_terminal x.status)) [
        | inl ended ↦ inl (ground arith, ground arith)
        | inr going ↦
            let rest : ((append_once (cancellation_event thread_id e) (cancel_request e) >>= λ _.
            wake thread_id e true woken due >> pure cancelling)
                  (record_cancellation e now db))
                ≡ ok (answer, db') =
              ground arith in
            let (r, mid, published, more) =
              >>=-eq-ok (append_once (cancellation_event thread_id e) (cancel_request e))
                (λ _. wake thread_id e true woken due >> pure cancelling)
                (record_cancellation e now db) rest in
            let (u, last, woke, final) =
              >>=-eq-ok (wake thread_id e true woken due) (λ _. pure cancelling) mid more in
            inr (r, mid, published, ground arith)
      ]
    ]

pub events-accept :
    (thread_id e : ℕ) (context : Context) (reservation : Option ℕ) (now later : ℕ) (db : Db)
    {r : StoredExecution} {db' : Db}
    → accept thread_id e context reservation now later db ≡ ok (r, db')
    → (db'.events ≡ db.events) × (db'.cancellations ≡ db.cancellations)
events-accept thread_id e context reservation now later db p =
    let (mid, prepared, enrolled) = accepted_mid thread_id e context reservation now later db p in
    let same = Frames.prepare-SameTables thread_id e context db prepared in
    (
      ap (λ (d : Db). d.events) enrolled ∙ same.events,
      ap (λ (d : Db). d.cancellations) enrolled ∙ same.cancellations,
    )

moved :
    {db db' : Db}
    → IsConsistent db
    → IsServed db'.dispatch
    → db'.events ≡ db.events
    → IsConsistent db'
moved c served same = record {
  served = served;
  sequenced = subst IsSequenced (sym same) c.sequenced;
}

same-IsConsistent : {db db' : Db} → Frames.SameTables db db' → IsConsistent db → IsConsistent db'
same-IsConsistent same c = moved c (subst IsServed (sym same.dispatch) c.served) same.events

save-IsConsistent :
    (e worker_id : ℕ) (context : Context) (status : Status) (leased now due later : ℕ) {db db' : Db}
    → IsConsistent db
    → save e worker_id context status leased now due later db ≡ ok (tt, db')
    → IsConsistent db'
save-IsConsistent e worker_id context status leased now due later {db} c p =
    let (mid, same, is_checkpoint) =
      Frames.save-checkpoint e worker_id context status leased now due later db p in
    let before = same-IsConsistent same c in
    subst IsConsistent (sym is_checkpoint) (
      moved before (checkpoint-IsServed e context status due later mid before.served)
        (Frames.events-checkpoint e context status due later mid))

cancel-IsConsistent :
    (thread_id e now woken due : ℕ) {db : Db} {answer : Answer} {db' : Db}
    → IsConsistent db
    → request_cancellation thread_id e now woken due db ≡ ok (answer, db')
    → IsConsistent db'
cancel-IsConsistent thread_id e now woken due {db} c p =
    elim (request_cancellation-cases thread_id e now woken due db p) [
      | inl (same, ended) ↦ subst IsConsistent (sym same) c
      | inr (r, mid, published, woke) ↦
          let start = record_cancellation e now db in
          let event = cancellation_event thread_id e in
          let kept = (Frames.dispatch-append_once event (cancel_request e) start published).0 in
          let served = subst IsServed (sym kept) c.served in
          record {
            served = wake-IsServed thread_id e true woken due mid served woke;
            sequenced =
                subst IsSequenced
                  (sym (
                    ap (λ (d : Db). d.events) (wake-eq-update thread_id e true woken due mid woke)))
                  (append_once-IsSequenced event (cancel_request e) start c.sequenced published);
          }
    ]

-- Every step keeps the state consistent.
Step-IsConsistent : {db db' : Db} → Step db db' → IsConsistent db → IsConsistent db'
Step-IsConsistent {db} (accepts thread_id e context reservation now later r p) c =
    moved c (accept-IsServed thread_id e context reservation now later db c.served p)
      (events-accept thread_id e context reservation now later db p).0
Step-IsConsistent {db} (claims_execution thread_id e worker_id context now r p) c =
    same-IsConsistent (Frames.claim-SameTables thread_id e worker_id context now db p) c
Step-IsConsistent (saves e worker_id context status leased now due later p) c =
    save-IsConsistent e worker_id context status leased now due later c p
Step-IsConsistent (cancels thread_id e now woken due answer p) c =
    cancel-IsConsistent thread_id e now woken due c p
Step-IsConsistent {db} (releases e worker_id p) c =
    subst IsConsistent p (same-IsConsistent (Frames.release-SameTables e worker_id db) c)
Step-IsConsistent {db} (claims_delivery execution_id token fresh now d p) c =
    subst IsConsistent (ap (λ (q : Option Delivery × Db). q.1) p) (
      moved c (claim-IsServed execution_id token fresh now db c.served)
        (Frames.events-claim execution_id token fresh now db).0)
Step-IsConsistent {db} (finishes delivery failure retry now later b p) c =
    subst IsConsistent (ap (λ (q : Bool × Db). q.1) p) (
      moved c (finish-IsServed delivery failure retry now later db c.served)
        (Frames.events-finish delivery failure retry now later db).0)
Step-IsConsistent {db} (wakes thread_id e cancellation now later p) c =
    moved c (wake-IsServed thread_id e cancellation now later db c.served p)
      (ap (λ (d : Db). d.events) (wake-eq-update thread_id e cancellation now later db p))
Step-IsConsistent {db} (notifies event_id response_id event_type now later b p) c =
    subst IsConsistent (ap (λ (q : Bool × Db). q.1) p) (
      moved c (notify-IsServed event_id response_id event_type now later db c.served)
        (Frames.events-notify event_id response_id event_type now later db).0)
Step-IsConsistent {db} (reconciles clock repaired purged seen n p) c =
    subst IsConsistent (ap (λ (q : ℕ × Db). q.1) p) (
      moved c (reconcile-IsServed clock repaired purged seen db c.served)
        (Frames.events-reconcile clock repaired purged seen db).0)
Step-IsConsistent {db} (creates thread_id runtime p) c =
    same-IsConsistent (Frames.create_thread-SameTables thread_id runtime db p) c
Step-IsConsistent {db} (appends event r p) c = record {
  served = subst IsServed (sym (Frames.dispatch-append event db p).0) c.served;
  sequenced = append-IsSequenced event db c.sequenced p;
}
Step-IsConsistent {db} (publishes event r i p) c = record {
  served = subst IsServed (sym (Frames.dispatch-append_once event i db p).0) c.served;
  sequenced = append_once-IsSequenced event i db c.sequenced p;
}

-- In every state that the runtime reaches from a consistent one, such as the empty database: an
-- enrolled execution that is neither blocked nor settled has a due time, a blocked one is held by
-- nobody, no execution is enrolled twice, and every conversation's events are numbered 1, …, n in
-- order of publication.
pub Reach-IsConsistent : {db db' : Db} → Reach db db' → IsConsistent db → IsConsistent db'
Reach-IsConsistent here c = c
Reach-IsConsistent (next r s) c = Step-IsConsistent s (Reach-IsConsistent r c)

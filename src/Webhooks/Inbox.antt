-- ===== src/Webhooks/Inbox.antt =====
-- Webhooks are delivered once, matched to the execution that waits for them, and repaired.
use parts_bin.Prelude.{
  ℕ, suc, ◌≡◌, ◌∙◌, ◌⊎◌, true, false, some, List, [], ◌∷◌, arith, ◌==◌, is_some, Option-cases,
  Bool-cases, inl, inr, ==_refl, take,
}
use parts_bin.Storage.Table.{Table, lookup, update, lookup-insert, lookup-update_where}
use parts_bin.Storage.Keys.{IsKeyed, update-IsKeyed, update-AllRows, update_where-AllRows}
use parts_bin.Storage.Rows.{Db, DispatchRow, InboxRow}
use parts_bin.Outbox.Stranding.{IsServed, is_live}
use parts_bin.Webhooks.{
  notify, receive, match_response, find_awaiting, match_row, match_all, repair, reconcile,
  is_stranded, unconsumed,
}

match_row-IsServed :
    (e now : ℕ) (t : Table DispatchRow) → IsServed t → IsServed (update e (match_row now) t)
match_row-IsServed e now t h = record {
  keyed = update-IsKeyed e (match_row now) t h.keyed;
  live = update-AllRows is_live e (match_row now) t h.live (λ r p. ground (arith, h.live e r p));
}

match_response-IsServed :
    (response_id now : ℕ) (db : Db)
    → IsServed db.dispatch
    → IsServed (match_response response_id now db).dispatch
unfolding match_response
match_response-IsServed response_id now db h =
    elim (Option-cases (find_awaiting response_id db.dispatch)) [
      | inl nobody ↦ rw nobody h
      | inr (e, found) ↦ rw found (match_row-IsServed e now db.dispatch h)
    ]

-- The inbox keeps every delivery served.
pub notify-IsServed :
    (event_id response_id event_type now later : ℕ) (db : Db)
    → IsServed db.dispatch
    → IsServed (notify event_id response_id event_type now later db).1.dispatch
unfolding notify
notify-IsServed event_id response_id event_type now later db h =
    elim (Bool-cases (is_some (lookup event_id db.inbox))) [
      | inl seen ↦ rw seen h
      | inr new ↦ rw new (
          match_response-IsServed response_id later (receive event_id response_id event_type now db)
            h)
    ]

match_all-IsServed :
    (ws : List InboxRow) (clock : ℕ → ℕ) (db : Db)
    → IsServed db.dispatch
    → IsServed (match_all ws clock db).dispatch
unfolding match_all
match_all-IsServed [] clock db h = h
match_all-IsServed (w ∷ ws) clock db h =
    match_all-IsServed ws (λ i. clock (suc i)) (match_response w.response_id (clock 0) db)
      (match_response-IsServed w.response_id (clock 0) db h)

-- Where every delivery is served, the repair finds nothing to do: it is a second line of defence.
no_stranded :
    (t : Table DispatchRow) (e : ℕ) (d : DispatchRow)
    → IsServed t
    → lookup e t ≡ some d
    → is_stranded d ≡ false
no_stranded t e d h found = ground (arith, h.live e d found)

repair-IsKeyed : (now : ℕ) (t : Table DispatchRow) → IsKeyed t → IsKeyed (repair now t)
repair-IsKeyed now [] h = tt
repair-IsKeyed now ((e, d) ∷ t) h = (
  ground (
    arith,
    lookup-update_where e is_stranded (λ (r : DispatchRow). record r { available_at = some now }) t,
    h.0,
  ),
  repair-IsKeyed now t h.1,
)

-- Reconciliation keeps every delivery served.
pub reconcile-IsServed :
    (clock : ℕ → ℕ) (now purged seen : ℕ) (db : Db)
    → IsServed db.dispatch
    → IsServed (reconcile clock now purged seen db).1.dispatch
unfolding reconcile
reconcile-IsServed clock now purged seen db h =
    let mid = match_all (take 100 (unconsumed db.inbox)) clock db in
    let served = match_all-IsServed (take 100 (unconsumed db.inbox)) clock db h in
    record {
      keyed = repair-IsKeyed now mid.dispatch served.keyed;
      live =
          update_where-AllRows is_live is_stranded
            (λ (d : DispatchRow). record d { available_at = some now }) mid.dispatch served.live
            (λ r p. ground arith);
    }

-- Whatever the database held, after reconciliation every delivery that is neither blocked nor
-- settled has a due time.
pub reconcile_repairs :
    (clock : ℕ → ℕ) (now purged seen : ℕ) (db : Db) (e : ℕ) (d : DispatchRow)
    → lookup e (reconcile clock now purged seen db).1.dispatch ≡ some d
    → (d.blocked ≡ true) ⊎ ((d.settled ≡ true) ⊎ (is_some d.available_at ≡ true))
unfolding reconcile
reconcile_repairs clock now purged seen db e d h =
    let t = (match_all (take 100 (unconsumed db.inbox)) clock db).dispatch in
    elim (Option-cases (lookup e t)) [
      | inl missing ↦ absurd (
          ground (
            arith,
            lookup-update_where e is_stranded
                (λ (r : DispatchRow). record r { available_at = some now }) t,
          ))
      | inr (r, found) ↦ ground (
        arith,
        lookup-update_where e is_stranded
            (λ (r : DispatchRow). record r { available_at = some now }) t,
      )
    ]

inbox-match_response :
    (event_id response_id now : ℕ) (db : Db)
    → is_some (lookup event_id (match_response response_id now db).inbox)
      ≡ is_some (lookup event_id db.inbox)
unfolding match_response
inbox-match_response event_id response_id now db = ground (
  arith,
  lookup-update_where event_id (λ (w : InboxRow). response_id == w.response_id)
      (λ (w : InboxRow). record w { consumed = true }) db.inbox,
)

received :
    (event_id response_id event_type now : ℕ) (db : Db)
    → is_some (lookup event_id (receive event_id response_id event_type now db).inbox) ≡ true
received event_id response_id event_type now db =
    let w : InboxRow = record {
      response_id = response_id;
      event_type = event_type;
      received_at = now;
      consumed = false;
    } in
    ground (arith, lookup-insert event_id event_id w db.inbox, ==_refl event_id)

notify_records :
    (event_id response_id event_type now later : ℕ) (db : Db)
    → is_some (lookup event_id (notify event_id response_id event_type now later db).1.inbox) ≡ true
unfolding notify
notify_records event_id response_id event_type now later db =
    elim (Bool-cases (is_some (lookup event_id db.inbox))) [
      | inl seen ↦ rw seen seen
      | inr new ↦ rw new (
          inbox-match_response event_id response_id later
            (receive event_id response_id event_type now db)
          ∙ received event_id response_id event_type now db)
    ]

-- A webhook that is delivered again, whatever else it says, is refused and changes nothing.
pub notify_again :
    (event_id response_id event_type now later : ℕ) (response_id' event_type' now' later' : ℕ)
    (db : Db)
    → let db' = (notify event_id response_id event_type now later db).1 in
      notify event_id response_id' event_type' now' later' db' ≡ (false, db')
unfolding notify
notify_again event_id response_id event_type now later response_id' event_type' now' later' db =
    rw (notify_records event_id response_id event_type now later db, notify)

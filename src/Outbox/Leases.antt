-- ===== src/Outbox/Leases.antt =====
-- A delivery is leased to one worker at a time, and an acknowledgement needs the lease.
use parts_bin.Prelude.{
  ℕ, ◌+◌, ◌*◌, ◌<◌, ◌≡◌, ◌≢◌, sym, ap, ◌∙◌, false, ◌&&◌, Option, none, some, arith, is_some,
  Option-cases, inl, inr, ==_refl,
}
use parts_bin.Storage.Table.{lookup, lookup-update}
use parts_bin.Storage.Rows.{second, Db, DispatchRow, Delivery, DeliveryFailure}
use parts_bin.Outbox.{claim, is_due, lease_row, lease_seconds, claimable, or_fresh, wanted}
use parts_bin.Outbox.Finishing.{finish}
use parts_bin.Outbox.Stranding.{IsServed, first_due_sound, claimable_sound, claim-IsServed}

-- A worker holds a delivery: the row of its execution carries its token, under a lease that runs
-- until the given time.
abbrev pub HeldUntil : Delivery → ℕ → Db → Type 0
HeldUntil delivery until db =
    (d : DispatchRow) × (lookup delivery.execution_id db.dispatch ≡ some d)
    × (d.token ≡ some delivery.token)
    × (d.lease_until ≡ until)
    × (d.wake_version ≡ delivery.wake_version)

-- The delivery that `claim` returns is held for the length of a lease.
pub claim-HeldUntil :
    (execution_id token : Option ℕ) (fresh now : ℕ) (db : Db) {delivery : Delivery}
    → IsServed db.dispatch
    → (claim execution_id token fresh now db).0 ≡ some delivery
    → HeldUntil delivery (now + lease_seconds * second) (claim execution_id token fresh now db).1
unfolding claim
claim-HeldUntil execution_id token fresh now db h p =
    elim (Option-cases (claimable execution_id token now db)) [
      | inl nothing ↦ absurd (ground arith)
      | inr ((e, d), chosen) ↦ elim (Option-cases (lookup e db.executions)) [
        | inl missing ↦ absurd (ground arith)
        | inr (x, joined) ↦
            let (found, open_row) = claimable_sound execution_id token now db e d h chosen in
            let k = or_fresh token fresh in
            (
              lease_row k now d,
              ground (arith, lookup-update e e (lease_row k now) db.dispatch, ==_refl e),
              ground arith,
              ground arith,
              ground arith,
            )
      ]
    ]

-- The queue hands out no delivery that a worker holds.
claim_held_lem :
    (execution_id : Option ℕ) (fresh now : ℕ) (db : Db) (held : Delivery) (until : ℕ)
    {delivery : Delivery}
    → IsServed db.dispatch
    → HeldUntil held until db
    → now < until
    → (claim execution_id none fresh now db).0 ≡ some delivery
    → delivery.execution_id ≢ held.execution_id
unfolding claim
claim_held_lem execution_id fresh now db held until h (r, at_row, tok, lease, version) early p
      same =
    elim (Option-cases (claimable execution_id none now db)) [
      | inl nothing ↦ absurd (ground arith)
      | inr ((e, d), chosen) ↦ elim (Option-cases (lookup e db.executions)) [
        | inl missing ↦ absurd (ground arith)
        | inr (x, joined) ↦
            let test = λ (k : ℕ) (q : DispatchRow).
              is_due now q && wanted execution_id k && is_some (lookup k db.executions) in
            let (found, due) = first_due_sound test db.dispatch e d h.keyed chosen in
            let is_e : e ≡ held.execution_id = ground arith in
            let is_r : some d ≡ some r =
              sym found ∙ ap (λ (k : ℕ). lookup k db.dispatch) is_e ∙ at_row in
            absurd (ground arith)
      ]
    ]

-- While the lease of a claimed delivery runs, the queue hands out no delivery of its execution.
pub claim_exclusive :
    (execution_id token other : Option ℕ) (fresh now fresh' now' : ℕ) (db : Db) {a b : Delivery}
    → IsServed db.dispatch
    → (claim execution_id token fresh now db).0 ≡ some a
    → now' < now + lease_seconds * second
    → (claim other none fresh' now' (claim execution_id token fresh now db).1).0 ≡ some b
    → b.execution_id ≢ a.execution_id
claim_exclusive execution_id token other fresh now fresh' now' db {a} h first early second_one =
    claim_held_lem other fresh' now' (claim execution_id token fresh now db).1 a
      (now + lease_seconds * second) (claim-IsServed execution_id token fresh now db h)
      (claim-HeldUntil execution_id token fresh now db h first) early second_one

not_held :
    (a : Delivery) (failure : Option DeliveryFailure) (retry now later : ℕ) (db : Db) (b : Delivery)
    (until : ℕ)
    → HeldUntil b until db
    → a.execution_id ≡ b.execution_id
    → a.token ≢ b.token
    → finish a failure retry now later db ≡ (false, db)
unfolding finish
not_held a failure retry now later db b until (d, at_row, tok, lease, version) same stale =
    let found : lookup a.execution_id db.dispatch ≡ some d =
      ap (λ (k : ℕ). lookup k db.dispatch) same ∙ at_row in
    ground arith

-- Once another worker has claimed an execution, an acknowledgement under the earlier token returns
-- `False` and changes nothing.
pub finish_stale :
    (execution_id token : Option ℕ) (fresh now : ℕ) (db : Db) {b : Delivery} (a : Delivery)
    (failure : Option DeliveryFailure) (retry now' later : ℕ)
    → IsServed db.dispatch
    → (claim execution_id token fresh now db).0 ≡ some b
    → a.execution_id ≡ b.execution_id
    → a.token ≢ b.token
    → let db' = (claim execution_id token fresh now db).1 in
      finish a failure retry now' later db' ≡ (false, db')
finish_stale execution_id token fresh now db {b} a failure retry now' later h claimed same stale =
    not_held a failure retry now' later (claim execution_id token fresh now db).1 b
      (now + lease_seconds * second) (claim-HeldUntil execution_id token fresh now db h claimed)
      same stale

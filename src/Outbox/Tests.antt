-- ===== src/Outbox/Tests.antt =====
-- Tests of the outbox, and its theorems at concrete inputs.
use parts_bin.Prelude.{ℕ, ◌≤◌, ◌≡◌, ◌≢◌, refl, true, false, none, some, [], ◌∷◌, arith}
use parts_bin.Storage.Table.{lookup}
use parts_bin.Storage.Rows.{Db, DispatchRow, exception, execution_busy}
use parts_bin.Storage.Tx.{ok}
use parts_bin.Outbox.{claim, wake, wake_update, is_due, first_due, cancellation_requested, has_due}
use parts_bin.Outbox.Finishing.{finish}
use parts_bin.Outbox.Stranding.{IsServed}
use parts_bin.Outbox.Leases.{HeldUntil, claim_exclusive}
use parts_bin.Outbox.Wakeups.{wake_survives}
use parts_bin.Outbox.Backoff.{Report, after_failures}
use parts_bin.Samples.{running, leased, leased_row, row, delivery, now, context}

IsServed-running : IsServed running.dispatch
IsServed-running = record { keyed = (refl, tt); live = λ j r p. ground arith }

claim-sample : claim none none 9 now running ≡ (some delivery, leased)
unfolding claim first_due
claim-sample = refl

due-sample : has_due now now running ≡ true
unfolding has_due
due-sample = refl

-- Two deliveries are due; the queue has them in the order of their due times.
abbrev two : Db
two = record running {
  executions = (6, parts_bin.Samples.execution) ∷ running.executions;
  dispatch = (2, row) ∷ (6, record row { available_at = some 1 }) ∷ [];
}

claim-two : (claim none none 9 now two).0 ≡ some (record delivery { execution_id = 6 })
unfolding claim first_due
claim-two = refl

IsServed-two : IsServed two.dispatch
IsServed-two = record { keyed = (refl, (refl, tt)); live = λ j r p. ground arith }

claim_exclusive_example : ◌≢◌ {A = ℕ} 2 6
unfolding claim first_due
claim_exclusive_example =
    claim_exclusive none none none 9 now 10 now two {a = record delivery { execution_id = 6 }}
      {b = record delivery { token = 10 }} IsServed-two refl (omega arith) refl

leased-HeldUntil : HeldUntil delivery 800_000_000 leased
leased-HeldUntil = (leased_row, refl, refl, refl, refl)

woken : wake 1 2 false now now leased ≡ ok (tt, wake_update 2 now now leased)
unfolding wake cancellation_requested
woken = refl

-- The worker reports a failure after the wake.
wake_survives_example :
    (r : DispatchRow) × (lookup 2
        (finish delivery
          (some (exception 1))
          0
          600_000_000
          600_000_000
          (wake_update 2 now now leased)).1.dispatch
      ≡ some r)
    × ((t : ℕ) → now ≤ t → 800_000_000 ≤ t → is_due t r ≡ true)
wake_survives_example =
    wake_survives delivery 800_000_000 1 false now now (some (exception 1)) 0 600_000_000
      600_000_000 leased leased-HeldUntil woken

abbrev report : Report
report = record { failure = exception 1; retry_after = 0; at = now }

abbrev busy_report : Report
busy_report = record { failure = execution_busy; retry_after = 40; at = now }

-- Eight failures block a delivery.
blocked_after_eight :
    (after_failures
      (report ∷ report ∷ report ∷ report ∷ report ∷ report ∷ report ∷ report ∷ [])
      row).blocked
    ≡ true
blocked_after_eight = refl

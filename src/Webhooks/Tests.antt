-- ===== src/Webhooks/Tests.antt =====
-- Tests of the webhook inbox, and its theorems at concrete inputs.
use parts_bin.Prelude.{ℕ, ◌+◌, ◌≤◌, ◌≡◌, ◌⊎◌, refl, Bool, true, false, none, some, [], ◌∷◌, is_some}
use parts_bin.Storage.Table.{lookup}
use parts_bin.Storage.Rows.{Db, DispatchRow, waiting_model}
use parts_bin.Outbox.{is_due}
use parts_bin.Outbox.Checkpoints.{checkpoint, checkpoint_row}
use parts_bin.Webhooks.{notify, reconcile, match_response, match_all, unconsumed}
use parts_bin.Webhooks.Inbox.{reconcile_repairs}
use parts_bin.Webhooks.Arrival.{webhook_first, webhook_second}
use parts_bin.Samples.{running, row, context, now}

-- An execution whose delivery lost its due time.
abbrev stranded : Db
stranded = record running { dispatch = (2, record row { available_at = none }) ∷ [] }

repaired :
    lookup 2 (reconcile (λ i. now) now now now stranded).1.dispatch
    ≡ some (record row { available_at = some now })
unfolding reconcile match_all match_response unconsumed
repaired = refl

reconcile_repairs_example :
    ◌≡◌ {A = Bool} false true ⊎ (◌≡◌ {A = Bool} false true ⊎ (is_some (some now) ≡ true))
reconcile_repairs_example =
    reconcile_repairs (λ i. now) now now now stranded 2 (record row { available_at = some now })
      repaired

-- The execution has not saved the name of its response yet.
abbrev unnamed : Db
unnamed = record running { dispatch = (2, record row { response_id = none }) ∷ [] }

webhook_first_example :
    lookup 2 (checkpoint 2 context waiting_model now now (notify 20 5 1 now now unnamed).1).dispatch
    ≡ some (checkpoint_row (some 5) now (record row { response_id = none }))
webhook_first_example =
    webhook_first 20 4 1 now now 2 context waiting_model now now unnamed
      (record row { response_id = none }) refl refl refl refl

webhook_second_example :
    (d d' : DispatchRow) × (lookup 2 running.dispatch ≡ some d)
    × (lookup 2 (notify 20 5 1 now now running).1.dispatch ≡ some d')
    × (d'.wake_version ≡ d.wake_version + 1)
    × ((t : ℕ) → now ≤ t → d.lease_until ≤ t → is_due t d' ≡ true)
webhook_second_example = webhook_second 20 5 1 now now 2 running (refl, tt) refl refl

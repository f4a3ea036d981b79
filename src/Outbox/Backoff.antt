-- ===== src/Outbox/Backoff.antt =====
-- Failed deliveries back off, and stop after `max_failures`.
use parts_bin.Prelude.{ℕ, true, false, some, List, [], ◌∷◌}
use parts_bin.Storage.Rows.{DispatchRow, DeliveryFailure}
use parts_bin.Outbox.Finishing.{finish_row, counted}

-- One failed delivery: the failure, the seconds that the reporter asks for, and the time.
pub record Report : Type 0 where
  pub failure : DeliveryFailure
  pub retry_after : ℕ
  pub at : ℕ

-- The row after a series of failed deliveries between which no wake came.
abbrev pub after_failures : List Report → DispatchRow → DispatchRow
after_failures [] d = d
after_failures (r ∷ rs) d =
    finish_row true false (some r.failure) r.retry_after r.at (after_failures rs d)

-- How many of them count: a busy execution does not.
abbrev pub count_failures : List Report → ℕ
count_failures [] = 0
count_failures (r ∷ rs) = counted (some r.failure) (count_failures rs)

-- ===== src/Units/Tests.antt =====
-- Units of work on concrete databases: db/postgres/connection.py.
use parts_bin.Prelude.{ℕ, zero, suc, ◌≤◌, ◌≡◌, refl, true}
use parts_bin.Samples.{running, now}
use parts_bin.Storage.Tx.{Tx}
use parts_bin.Executions.{request_cancellation, cancel_active, Answer}
use parts_bin.Outbox.{wake}
use parts_bin.Conversations.{append_once, append_keyed, create_thread}
use parts_bin.Units.{
  Attempt, Race, wins, loses_statement, loses_commit, unit, access, retry, is_busy,
}
use parts_bin.Units.Once.{access_once, others_only}

-- The first attempt loses its commit, the second a statement, and the third wins.
abbrev race_of : ℕ → Race
race_of zero = loses_commit
race_of (suc zero) = loses_statement
race_of (suc (suc _)) = wins

abbrev env : ℕ → Attempt
env n = record { others = λ db. db; race = race_of n }

abbrev cancel : Tx Answer
cancel = request_cancellation 1 2 now now now

third_wins : access true env cancel running ≡ unit true wins cancel running
unfolding access retry unit request_cancellation cancel_active wake append_once append_keyed
    create_thread
third_wins = refl

access_once_example :
    (m : ℕ) × (m ≤ 5)
    × (access true env cancel running
        ≡ unit true (env m).race cancel (others_only (suc m) env running))
    × (is_busy (access true env cancel running).0 ≡ true → m ≡ 5)
access_once_example = access_once true env cancel running

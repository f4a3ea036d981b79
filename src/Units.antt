-- ===== src/Units.antt =====
-- db/postgres/connection.py: units of work and their retries, and the two other retry loops, of
-- domain/service.py and agent_runtime/approval.py. The database server is outside the program: what
-- other sessions commit and whether a unit loses against one of them are arguments.
pub mod Once
mod Tests
use parts_bin.Prelude.{ℕ, zero, suc, ◌+◌, Bool, true, false, Option, none, some, if◌then◌else◌}
use parts_bin.Storage.Rows.{Db, Revision}
use parts_bin.Storage.Tx.{Tx, Failure, Result, ok, err, busy, not_initialized}

-- What a caller gets, and the database that is left.
abbrev pub Outcome : Type 0 → Type 0
Outcome A = Result A × Db

-- `UPDATE pb_revision SET revision = revision + 1 WHERE id = 1`
abbrev pub bump : Revision → Db → Db
bump r db = record db { pb_revision = some (record r { revision = r.revision + 1 }) }

-- What the server makes of a unit beside others: it wins, a statement inside it meets a concurrent
-- write (SQLSTATE 40001), or its `COMMIT` does.
pub data Race : Type 0 where
  wins loses_statement loses_commit : Race

module _ {A : Type 0} where
  -- `COMMIT`, or `ROLLBACK` where the body raised or the commit lost against another session.
  abbrev pub finish_unit : Race → Db → Result (A × Db) → Outcome A
  finish_unit loses_statement db r = (err busy, db)
  finish_unit wins db (err e) = (err e, db)
  finish_unit wins db (ok r) = (ok r.0, r.1)
  finish_unit loses_commit db (err e) = (err e, db)
  finish_unit loses_commit db (ok r) = (err busy, db)

  abbrev pub write_unit : Race → Tx A → Db → Option Revision → Outcome A
  write_unit race body db none = (err not_initialized, db)
  write_unit race body db (some r) = finish_unit race db (body (bump r db))

  -- `unit`: one attempt.
  unfoldable pub unit : Bool → Race → Tx A → Db → Outcome A
  unit true race body db = write_unit race body db db.pb_revision
  unit false race body db = finish_unit race db (body db)

-- What happens around one attempt: the commits of other sessions before it, and its race.
pub record Attempt : Type 0 where
  pub others : Db → Db
  pub race : Race

module _ {A : Type 0} where
  abbrev pub is_busy : Result A → Bool
  is_busy (err busy) = true
  is_busy _ = false

  -- `for attempt in range(n): try … except RepositoryBusy: if attempt == n - 1: raise`
  unfoldable pub retry : ℕ → (ℕ → Attempt) → (Race → Db → Outcome A) → Db → Outcome A
  retry zero env step db = (err busy, db)
  retry (suc zero) env step db = step (env 0).race ((env 0).others db)
  retry (suc (suc n)) env step db =
      let outcome = step (env 0).race ((env 0).others db) in
      let again = retry (suc n) (λ i. env (suc i)) step outcome.1 in
      if is_busy outcome.0 then again else outcome

  -- A method that `access` wraps, outside any unit and inside one.
  unfoldable pub access : Bool → (ℕ → Attempt) → Tx A → Db → Outcome A
  access write env body db = retry 6 env (λ race d. unit write race body d) db

  pub access_within : Tx A → Tx A
  access_within body = body

  -- `_mutation` of domain/service.py
  unfoldable pub mutation : (ℕ → Attempt) → Tx A → Db → Outcome A
  mutation env body db = retry 6 env (λ race d. unit true race body d) db

  -- `_database_only` and the loop of `execute` in agent_runtime/approval.py
  unfoldable pub database_only : (ℕ → Attempt) → Tx A → Db → Outcome A
  database_only env body db = retry 4 env (λ race d. unit true race body d) db

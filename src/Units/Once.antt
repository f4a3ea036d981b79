-- ===== src/Units/Once.antt =====
-- A method takes effect once and whole, or not at all.
use parts_bin.Prelude.{
  ℕ, zero, suc, ◌≤◌, ◌≡◌, refl, ap, Bool, true, false, arith, Bool-cases, inl, inr,
}
use parts_bin.Storage.Rows.{Db}
use parts_bin.Storage.Tx.{Tx, Failure, Result, ok, err, busy}
use parts_bin.Units.{
  Outcome, Attempt, Race, wins, loses_statement, loses_commit, unit, retry, access, database_only,
  is_busy,
}

-- The database after the commits of the other sessions alone.
abbrev pub others_only : ℕ → (ℕ → Attempt) → Db → Db
others_only zero env db = db
others_only (suc n) env db = others_only n (λ i. env (suc i)) ((env 0).others db)

module _ {A : Type 0} where
  -- An attempt that raises leaves the database as it was.
  abbrev RollsBack : (Race → Db → Outcome A) → Type 0
  RollsBack step =
      (race : Race) (db : Db) (e : Failure) → (step race db).0 ≡ err e → (step race db).1 ≡ db

  unit-RollsBack : (write : Bool) (body : Tx A) → RollsBack (λ race db. unit write race body db)
  unfolding unit
  unit-RollsBack true body wins db e h = ground arith
  unit-RollsBack true body loses_statement db e h = ground arith
  unit-RollsBack true body loses_commit db e h = ground arith
  unit-RollsBack false body wins db e h = ground arith
  unit-RollsBack false body loses_statement db e h = ground arith
  unit-RollsBack false body loses_commit db e h = ground arith

  busy_err : (r : Result A) → is_busy r ≡ true → r ≡ err busy
  busy_err (ok a) h = cc
  busy_err (err e) h = ground arith

  -- The outcome of the loop is that of one attempt, made on a database that only other sessions have
  -- changed since the call, and it is busy only if that attempt was the last.
  retry_once :
      (n : ℕ) (env : ℕ → Attempt) (step : Race → Db → Outcome A) (db : Db)
      → RollsBack step
      → (m : ℕ) × (m ≤ n)
        × (retry (suc n) env step db ≡ step (env m).race (others_only (suc m) env db))
        × (is_busy (retry (suc n) env step db).0 ≡ true → m ≡ n)
  unfolding retry
  retry_once zero env step db h = (0, omega arith, refl, λ b. refl)
  retry_once (suc n) env step db h =
      let first = step (env 0).race ((env 0).others db) in
      elim (Bool-cases (is_busy first.0)) [
        | inr done ↦ (0, omega arith, rw done, λ b. absurd (ground arith))
        | inl again ↦
            let undone : first.1 ≡ (env 0).others db =
              h (env 0).race ((env 0).others db) busy (busy_err first.0 again) in
            let (m, bound, is_step, last) =
              retry_once n (λ i. env (suc i)) step ((env 0).others db) h in
            (
              suc m,
              omega arith,
              rw (again, undone) is_step,
              λ b. ap suc (last (rw (again, undone) at b)),
            )
      ]

  -- A method of an adapter that is called outside a unit ends as one attempt, the m-th of at most six,
  -- in a unit of its own on a database that only other sessions have changed since the call. It
  -- raises `RepositoryBusy` only when the attempt was the sixth.
  pub access_once :
      (write : Bool) (env : ℕ → Attempt) (body : Tx A) (db : Db)
      → (m : ℕ) × (m ≤ 5)
        × (access write env body db ≡ unit write (env m).race body (others_only (suc m) env db))
        × (is_busy (access write env body db).0 ≡ true → m ≡ 5)
  unfolding access
  access_once write env body db =
      retry_once 5 env (λ race d. unit write race body d) db (unit-RollsBack write body)

  -- A database-only operation of the approval engine ends as one attempt of at most four, in the
  -- same sense.
  pub database_only_once :
      (env : ℕ → Attempt) (body : Tx A) (db : Db)
      → (m : ℕ) × (m ≤ 3)
        × (database_only env body db ≡ unit true (env m).race body (others_only (suc m) env db))
        × (is_busy (database_only env body db).0 ≡ true → m ≡ 3)
  unfolding database_only
  database_only_once env body db =
      retry_once 3 env (λ race d. unit true race body d) db (unit-RollsBack true body)

-- ===== src/Storage/Selection.antt =====
-- What a `SELECT` of a table holds, seen through its rows by key.
use parts_bin.Prelude.{ℕ, ◌≡◌, ◌≢◌, ◌≤◌, Bool, true, some, [], ◌∷◌, arith, length, ==_iff}
use parts_bin.Storage.Table.{Table, lookup, select}

module _ {ℓ} {R : Type ℓ} where
  -- A row that passes is selected.
  pub length-select_one :
      (test : ℕ → R → Bool) (k : ℕ) (r : R) (t : Table R)
      → lookup k t ≡ some r
      → test k r ≡ true
      → 1 ≤ length (select test t)
  length-select_one test k r [] h passes = absurd (ground arith)
  length-select_one test k r ((i, s) ∷ t) h passes =
      ground (arith, length-select_one test k r t, ==_iff i k)

  -- Two rows that pass are selected both.
  pub length-select_two :
      (test : ℕ → R → Bool) (k j : ℕ) (r s : R) (t : Table R)
      → j ≢ k
      → lookup k t ≡ some r
      → test k r ≡ true
      → lookup j t ≡ some s
      → test j s ≡ true
      → 2 ≤ length (select test t)
  length-select_two test k j r s [] differ h passes h' passes' = absurd (ground arith)
  length-select_two test k j r s ((i, x) ∷ t) differ h passes h' passes' = ground (
    arith,
    length-select_two test k j r s t,
    length-select_one test k r t,
    length-select_one test j s t,
    ==_iff i k,
    ==_iff i j,
  )

  -- The first row of a key is selected under that key where it passes.
  pub lookup-select :
      (test : ℕ → R → Bool) (k : ℕ) (r : R) (t : Table R)
      → lookup k t ≡ some r
      → test k r ≡ true
      → lookup k (select test t) ≡ some r
  lookup-select test k r [] h passes = absurd (ground arith)
  lookup-select test k r ((i, s) ∷ t) h passes =
      ground (arith, lookup-select test k r t, ==_iff i k)

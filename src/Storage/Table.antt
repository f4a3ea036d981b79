-- ===== src/Storage/Table.antt =====
-- The statements of SQL that the adapters of db/postgres/ use, on a table with a primary key: rows
-- in order of insertion, each beside its key. Keys are texts that the code only compares; a number
-- codes a text. All functions but `insert` keep the keys, and `insert` is called on a fresh one.
use parts_bin.Prelude.{
  ℕ, ◌≡◌, ◌≢◌, refl, Bool, false, ◌||◌, Option, none, some, List, [], ◌∷◌, ◌++◌, arith, ◌==◌,
  if◌then◌else◌, is_some,
}

abbrev pub Table {ℓ} : Type ℓ → Type ℓ
Table R = List (ℕ × R)

module _ {ℓ} {R : Type ℓ} where
  -- `SELECT * FROM t WHERE key = k`, `fetchone()`
  abbrev pub lookup : ℕ → Table R → Option R
  lookup k [] = none
  lookup k ((j, r) ∷ t) = if j == k then some r else lookup k t

  -- `UPDATE t SET … WHERE key = k`
  abbrev pub update : ℕ → (R → R) → Table R → Table R
  update k f [] = []
  update k f ((j, r) ∷ t) = (j, if j == k then f r else r) ∷ update k f t

  -- `UPDATE t SET … WHERE test`
  abbrev pub update_where : (R → Bool) → (R → R) → Table R → Table R
  update_where test f [] = []
  update_where test f ((j, r) ∷ t) = (j, if test r then f r else r) ∷ update_where test f t

  -- `INSERT INTO t`, where no row has the key
  abbrev pub insert : ℕ → R → Table R → Table R
  insert k r t = t ++ (k, r) ∷ []

  -- `INSERT INTO t … ON CONFLICT(key) DO NOTHING`
  abbrev pub insert_if_absent : ℕ → R → Table R → Table R
  insert_if_absent k r t = if is_some (lookup k t) then t else insert k r t

  -- `DELETE FROM t WHERE key = k`
  abbrev pub delete : ℕ → Table R → Table R
  delete k [] = []
  delete k ((j, r) ∷ t) = let rest = delete k t in if j == k then rest else (j, r) ∷ rest

  -- `SELECT 1 FROM t WHERE test`, `fetchone() is not None`; the test sees the key
  abbrev pub exists : (ℕ → R → Bool) → Table R → Bool
  exists test [] = false
  exists test ((j, r) ∷ t) = test j r || exists test t

  -- `SELECT * FROM t WHERE test`
  abbrev pub select : (ℕ → R → Bool) → Table R → Table R
  select test [] = []
  select test ((j, r) ∷ t) = let rest = select test t in if test j r then (j, r) ∷ rest else rest

module _ {ℓ} {R : Type ℓ} where
  pub lookup-update :
      (k j : ℕ) (f : R → R) (t : Table R)
      → lookup j (update k f t)
        ≡ elim (lookup j t) [ none ↦ none | some r ↦ some (if j == k then f r else r) ]
  lookup-update k j f [] = refl
  lookup-update k j f ((i, r) ∷ t) = ground (arith, lookup-update k j f t)

  pub lookup-update_self :
      (k : ℕ) (f : R → R) (t : Table R) (r : R)
      → lookup k t ≡ some r
      → lookup k (update k f t) ≡ some (f r)
  lookup-update_self k f t r h = ground (arith, lookup-update k k f t)

  pub lookup-update_ne :
      (k j : ℕ) (f : R → R) (t : Table R) → j ≢ k → lookup j (update k f t) ≡ lookup j t
  lookup-update_ne k j f t h = ground (arith, lookup-update k j f t)

  pub lookup-update_where :
      (j : ℕ) (test : R → Bool) (f : R → R) (t : Table R)
      → lookup j (update_where test f t)
        ≡ elim (lookup j t) [ none ↦ none | some r ↦ some (if test r then f r else r) ]
  lookup-update_where j test f [] = refl
  lookup-update_where j test f ((i, r) ∷ t) = ground (arith, lookup-update_where j test f t)

  pub lookup-insert :
      (k j : ℕ) (r : R) (t : Table R)
      → lookup j (insert k r t)
        ≡ elim (lookup j t) [ none ↦ (if k == j then some r else none) | some s ↦ some s ]
  lookup-insert k j r [] = ground arith
  lookup-insert k j r ((i, s) ∷ t) = ground (arith, lookup-insert k j r t)

  pub lookup-insert_if_absent :
      (k j : ℕ) (r : R) (t : Table R)
      → lookup j (insert_if_absent k r t)
        ≡ elim (lookup j t) [ none ↦ (if k == j then some r else none) | some s ↦ some s ]
  lookup-insert_if_absent k j r t = ground (arith, lookup-insert k j r t)

-- `DELETE FROM t WHERE test`, of a table with a key of two columns
abbrev pub delete_where {ℓ} : {R : Type ℓ} → (R → Bool) → List R → List R
delete_where test [] = []
delete_where test (x ∷ xs) = let rest = delete_where test xs in if test x then rest else x ∷ rest

module _ {ℓ} {R : Type ℓ} where
  pub lookup-delete_self : (k : ℕ) (t : Table R) → lookup k (delete k t) ≡ none
  lookup-delete_self k [] = refl
  lookup-delete_self k ((j, r) ∷ t) = ground (arith, lookup-delete_self k t)

  pub lookup-delete_ne : (k j : ℕ) (t : Table R) → j ≢ k → lookup j (delete k t) ≡ lookup j t
  lookup-delete_ne k j [] h = refl
  lookup-delete_ne k j ((i, r) ∷ t) h = ground (arith, lookup-delete_ne k j t h)

-- ===== src/Storage/Keys.antt =====
-- Tables whose primary keys differ, and tests that every row of a table passes.
use parts_bin.Prelude.{
  ℕ, ◌≡◌, refl, sym, ap, ◌∙◌, Bool, Bool-cases, ◌==◌, ==_iff, true, inl, inr, none, some, [], ◌∷◌,
  arith, Option-cases, ==_refl,
}
use parts_bin.Storage.Table.{
  Table, lookup, update, delete, lookup-delete_self, lookup-delete_ne, update_where, insert,
  insert_if_absent, exists, lookup-update, lookup-update_where, lookup-insert,
  lookup-insert_if_absent,
}

module _ {ℓ} {R : Type ℓ} where
  -- No key stands twice.
  abbrev pub IsKeyed : Table R → Type ℓ
  IsKeyed [] = Unit
  IsKeyed ((k, r) ∷ t) = (lookup k t ≡ none) × IsKeyed t

  -- Every row passes a test.
  abbrev pub AllRows : (R → Bool) → Table R → Type ℓ
  AllRows test t = (j : ℕ) (r : R) → lookup j t ≡ some r → test r ≡ true

module _ {ℓ} {R : Type ℓ} where
  pub update-IsKeyed : (k : ℕ) (f : R → R) (t : Table R) → IsKeyed t → IsKeyed (update k f t)
  update-IsKeyed k f [] h = tt
  update-IsKeyed k f ((j, r) ∷ t) h =
      (ground (arith, lookup-update k j f t, h.0), update-IsKeyed k f t h.1)

  pub insert-IsKeyed :
      (k : ℕ) (r : R) (t : Table R) → lookup k t ≡ none → IsKeyed t → IsKeyed (insert k r t)
  insert-IsKeyed k r [] e h = (refl, tt)
  insert-IsKeyed k r ((j, s) ∷ t) e h = (
    ground (arith, lookup-insert k j r t, h.0, ==_refl k),
    insert-IsKeyed k r t (ground arith) h.1,
  )

  pub insert_if_absent-IsKeyed :
      (k : ℕ) (r : R) (t : Table R) → IsKeyed t → IsKeyed (insert_if_absent k r t)
  insert_if_absent-IsKeyed k r t h = elim (Option-cases (lookup k t)) [
    | inl absent ↦ rw absent (insert-IsKeyed k r t absent h)
    | inr (s, present) ↦ rw present h
  ]

  pub update-AllRows :
      (test : R → Bool) (k : ℕ) (f : R → R) (t : Table R)
      → AllRows test t
      → ((r : R) → lookup k t ≡ some r → test (f r) ≡ true)
      → AllRows test (update k f t)
  update-AllRows test k f t h kept j r e = elim (Option-cases (lookup j t)) [
    | inl missing ↦ absurd (ground (arith, lookup-update k j f t))
    | inr (s, found) ↦ ground (arith, lookup-update k j f t, h j s, kept s)
  ]

  pub delete-AllRows :
      (test : R → Bool) (k : ℕ) (t : Table R) → AllRows test t → AllRows test (delete k t)
  delete-AllRows test k t h j r e = elim (Bool-cases (j == k)) [
    | inl own ↦
        let is_own : j ≡ k = (==_iff j k).0 own in
        absurd (ground (arith, lookup-delete_self k t, ap (λ i. lookup i (delete k t)) is_own))
    | inr other ↦ h j r (sym (lookup-delete_ne k j t (λ i. ground (arith, ==_iff j k))) ∙ e)
  ]

  pub update_where-AllRows :
      (test : R → Bool) (chosen : R → Bool) (f : R → R) (t : Table R)
      → AllRows test t
      → ((r : R) → test r ≡ true → test (f r) ≡ true)
      → AllRows test (update_where chosen f t)
  update_where-AllRows test chosen f t h kept j r e = elim (Option-cases (lookup j t)) [
    | inl missing ↦ absurd (ground (arith, lookup-update_where j chosen f t))
    | inr (s, found) ↦ ground (arith, lookup-update_where j chosen f t, h j s, kept s)
  ]

  pub insert-AllRows :
      (test : R → Bool) (k : ℕ) (r : R) (t : Table R)
      → AllRows test t
      → test r ≡ true
      → AllRows test (insert k r t)
  insert-AllRows test k r t h passes j s e = ground (arith, lookup-insert k j r t, h j s)

  pub insert_if_absent-AllRows :
      (test : R → Bool) (k : ℕ) (r : R) (t : Table R)
      → AllRows test t
      → test r ≡ true
      → AllRows test (insert_if_absent k r t)
  insert_if_absent-AllRows test k r t h passes j s e =
      ground (arith, lookup-insert_if_absent k j r t, h j s)

  pub exists-insert :
      (test : ℕ → R → Bool) (k : ℕ) (r : R) (t : Table R)
      → test k r ≡ true
      → exists test (insert k r t) ≡ true
  exists-insert test k r [] h = ground arith
  exists-insert test k r ((j, s) ∷ t) h = ground (arith, exists-insert test k r t h)

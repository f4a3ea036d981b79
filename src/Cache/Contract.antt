-- ===== src/Cache/Contract.antt =====
-- What the cache promises to those who look up: ingestion/cache.py.
use parts_bin.Prelude.{
  ℕ, ◌≡◌, ◌<◌, sym, ap, ◌∙◌, Bool, true, false, Option, none, some, arith, Bool-cases, Option-cases,
  inl, inr, ==_refl,
}
use parts_bin.Storage.Table.{Table, lookup, lookup-insert, lookup-update_self}
use parts_bin.Cache.{
  CacheRow, previous, result_of, Acquired, cache_busy, hit, claimed, claimed_row, claim_key,
  is_leased, fresh_result, acquire_found, acquire, save_result,
}

lookup-claim_key :
    (key lease_until : ℕ) (t : Table CacheRow)
    → lookup key (claim_key key lease_until t) ≡ some (claimed_row lease_until)
lookup-claim_key key lease_until t = elim (Option-cases (lookup key t)) [
  | inl missing ↦ ground (arith, lookup-insert key key (claimed_row lease_until) t, ==_refl key)
  | inr (row, found) ↦
      ground (arith, lookup-update_self key (λ (r : CacheRow). claimed_row lease_until) t row found)
]

-- Work that is claimed has its row, whatever was there.
acquire_found-claimed :
    (key lease_until : ℕ) (refresh : Bool) (o : Option ℕ) (t t' : Table CacheRow)
    → acquire_found key lease_until refresh o t ≡ (claimed, t')
    → lookup key t' ≡ some (claimed_row lease_until)
acquire_found-claimed key lease_until refresh none t t' h =
    ap (λ (r : Acquired × Table CacheRow). lookup key r.1) (sym h)
    ∙ lookup-claim_key key lease_until t
acquire_found-claimed key lease_until true (some r) t t' h =
    ap (λ (r : Acquired × Table CacheRow). lookup key r.1) (sym h)
    ∙ lookup-claim_key key lease_until t
acquire_found-claimed key lease_until false (some r) t t' h = absurd (ground arith)

acquire-claimed :
    (key now lease_until : ℕ) (refresh : Bool) (t t' : Table CacheRow)
    → acquire key now lease_until refresh t ≡ (claimed, t')
    → lookup key t' ≡ some (claimed_row lease_until)
unfolding acquire
acquire-claimed key now lease_until refresh t t' h =
    elim (Bool-cases (is_leased now (lookup key t))) [
      | inl leased ↦ absurd (ground arith)
      | inr free ↦
          acquire_found-claimed key lease_until refresh (fresh_result now (lookup key t)) t t'
            (ground arith)
    ]

abbrev row_with : ℕ → ℕ → CacheRow
row_with result expires = record { expires = expires; lease_until = 0; result = some result }

acquire-fresh :
    (key later until result expires : ℕ) (t : Table CacheRow)
    → lookup key t ≡ some (row_with result expires)
    → later < expires
    → acquire key later until false t ≡ (hit result, t)
unfolding acquire
acquire-fresh key later until result expires t found early = ground (arith, found)

-- Work that was claimed is nobody else's until its lease is over, a refresh included, and no old result is
-- read meanwhile. Once its result is saved, the lease is over, and who asks before the result expires gets
-- it without a claim.
pub acquire_then_save :
    (key now lease_until : ℕ) (refresh : Bool) (t t' : Table CacheRow)
    → acquire key now lease_until refresh t ≡ (claimed, t')
    → ((later until : ℕ) (again : Bool)
        → later < lease_until
        → acquire key later until again t' ≡ (cache_busy, t'))
      × (previous key t' ≡ none)
      × ((result expires later until : ℕ)
          → later < expires
          → acquire key later until false (save_result key result expires t')
            ≡ (hit result, save_result key result expires t'))
      × ((result expires : ℕ) → previous key (save_result key result expires t') ≡ some result)
unfolding acquire save_result
acquire_then_save key now lease_until refresh t t' h =
    let found = acquire-claimed key now lease_until refresh t t' h in
    let saved = λ (result expires : ℕ).
      lookup-update_self key (λ (row : CacheRow). row_with result expires) t'
        (claimed_row lease_until) found in
    (
      λ later until again early. ground (arith, found),
      ap result_of found,
      λ result expires later until early.
          acquire-fresh key later until result expires (save_result key result expires t')
            (saved result expires) early,
      λ result expires. ap result_of (saved result expires),
    )

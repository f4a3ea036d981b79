-- ===== src/Cache.antt =====
-- db/postgres/cache.py: results of enrichment with their leases, on a table of their own. A result is a
-- number that codes its JSON text; times are microseconds.
pub mod Contract
mod Tests
use parts_bin.Prelude.{
  ℕ, Bool, true, false, not, ◌&&◌, Option, none, some, if◌then◌else◌, ltb, is_some,
}
use parts_bin.Storage.Table.{Table, lookup, update, insert}

-- A row of `supplied_enrichment_cache`
pub record CacheRow : Type 0 where
  pub expires : ℕ
  pub lease_until : ℕ
  pub result : Option ℕ

abbrev pub result_of : Option CacheRow → Option ℕ
result_of none = none
result_of (some row) = row.result

-- `previous`
abbrev pub previous : ℕ → Table CacheRow → Option ℕ
previous key t = result_of (lookup key t)

-- What `acquire` does: `CacheBusyError`, a result that is fresh, or `None` for work that is claimed.
pub data Acquired : Type 0 where
  cache_busy : Acquired
  hit : ℕ → Acquired
  claimed : Acquired

abbrev pub claimed_row : ℕ → CacheRow
claimed_row lease_until = record { expires = 0; lease_until = lease_until; result = none }

-- `INSERT … ON CONFLICT(key) DO UPDATE`
abbrev pub claim_key : ℕ → ℕ → Table CacheRow → Table CacheRow
claim_key key lease_until t =
    if is_some (lookup key t)
    then update key (λ row. claimed_row lease_until) t
    else insert key (claimed_row lease_until) t

-- `row['lease_until'] > now`
abbrev pub is_leased : ℕ → Option CacheRow → Bool
is_leased now none = false
is_leased now (some row) = ltb now row.lease_until

-- The result, where it is fresh
abbrev pub fresh_result : ℕ → Option CacheRow → Option ℕ
fresh_result now none = none
fresh_result now (some row) = if ltb now row.expires then row.result else none

abbrev pub acquire_found : ℕ → ℕ → Bool → Option ℕ → Table CacheRow → Acquired × Table CacheRow
acquire_found key lease_until refresh none t = (claimed, claim_key key lease_until t)
acquire_found key lease_until true (some r) t = (claimed, claim_key key lease_until t)
acquire_found key lease_until false (some r) t = (hit r, t)

-- `acquire`
unfoldable pub acquire : ℕ → ℕ → ℕ → Bool → Table CacheRow → Acquired × Table CacheRow
acquire key now lease_until refresh t =
    if is_leased now (lookup key t)
    then (cache_busy, t)
    else acquire_found key lease_until refresh (fresh_result now (lookup key t)) t

-- `save`
unfoldable pub save_result : ℕ → ℕ → ℕ → Table CacheRow → Table CacheRow
save_result key result expires t =
    update key (λ row. record { expires = expires; lease_until = 0; result = some result }) t

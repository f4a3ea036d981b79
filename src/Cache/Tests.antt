-- ===== src/Cache/Tests.antt =====
-- A lookup that is claimed, and its result.
use parts_bin.Prelude.{ℕ, ◌≡◌, ◌<◌, refl, Bool, false, none, some, [], ◌∷◌}
use parts_bin.Storage.Table.{Table}
use parts_bin.Cache.{
  CacheRow, previous, cache_busy, hit, claimed, claimed_row, acquire, save_result,
}
use parts_bin.Cache.Contract.{acquire_then_save}

abbrev leased : Table CacheRow
leased = (7, claimed_row 60) ∷ []

first_claim : acquire 7 10 60 false [] ≡ (claimed, leased)
unfolding acquire
first_claim = refl

acquire_then_save_example :
    ((later until : ℕ) (again : Bool)
      → later < 60
      → acquire 7 later until again leased ≡ (cache_busy, leased))
    × (previous 7 leased ≡ none)
    × ((result expires later until : ℕ)
        → later < expires
        → acquire 7 later until false (save_result 7 result expires leased)
          ≡ (hit result, save_result 7 result expires leased))
    × ((result expires : ℕ) → previous 7 (save_result 7 result expires leased) ≡ some result)
acquire_then_save_example = acquire_then_save 7 10 60 false [] leased first_claim

-- A lease that is over is claimed again, and a result that expired is not handed out.
second_claim :
    acquire 7 61 90 false (save_result 7 5 50 leased) ≡ (claimed, (7, claimed_row 90) ∷ [])
unfolding acquire save_result
second_claim = refl

-- ===== src/Pages.antt =====
-- domain/pagination.py, and the pages of domain/service.py over rows that a search returned in order.
pub mod Following
mod Tests
use parts_bin.Prelude.{
  ℕ, ◌+◌, Bool, true, false, ◌&&◌, Option, none, some, List, length, take, drop, ltb, leb,
  if◌then◌else◌, is_some, ℤ, pos, negsuc,
}

-- `validate_page`: the limit and the offset, or `INVALID_INPUT`
unfoldable pub validate_page : ℤ → ℤ → Option (ℕ × ℕ)
validate_page (negsuc l) offset = none
validate_page (pos limit) (negsuc o) = none
validate_page (pos limit) (pos offset) =
    if leb 1 limit && leb limit 100 then some (limit, offset) else none

unfoldable pub next_offset : ℕ → ℕ → ℕ → Option ℕ
next_offset count limit offset = if ltb (offset + limit) count then some (offset + limit) else none

-- What `exact_search_page` answers, and `candidate_page` with candidates.
pub record Page {ℓ} (A : Type ℓ) : Type ℓ where
  pub parts : List A
  pub count : ℕ
  pub truncated : Bool
  pub next_offset : Option ℕ

module _ {ℓ} {A : Type ℓ} where
  abbrev pub slice : List A → ℕ → ℕ → Page A
  slice rows limit offset =
      let following = next_offset (length rows) limit offset in
      record {
        parts = take limit (drop offset rows);
        count = length rows;
        truncated = is_some following;
        next_offset = following;
      }

  abbrev pub page_of : List A → Option (ℕ × ℕ) → Option (Page A)
  page_of rows none = none
  page_of rows (some (limit, offset)) = some (slice rows limit offset)

  unfoldable pub exact_search_page : List A → ℤ → ℤ → Option (Page A)
  exact_search_page rows limit offset = page_of rows (validate_page limit offset)

-- ===== src/Pages/Tests.antt =====
-- Pages of three rows: domain/pagination.py.
use parts_bin.Prelude.{
  ℕ, ◌+◌, ◌≡◌, refl, arith, none, some, List, [], ◌∷◌, length, true, pos, negsuc,
}
use parts_bin.Pages.{exact_search_page, validate_page, next_offset}
use parts_bin.Pages.Following.{read_from, read_from_start}

abbrev rows : List ℕ
rows = 7 ∷ 8 ∷ 9 ∷ []

first_page :
    exact_search_page rows (pos 2) (pos 0)
    ≡ some (record { parts = 7 ∷ 8 ∷ []; count = 3; truncated = true; next_offset = some 2 })
unfolding exact_search_page validate_page next_offset
first_page = refl

no_negative_offset : exact_search_page rows (pos 2) (negsuc 0) ≡ none
unfolding exact_search_page validate_page
no_negative_offset = refl

read_from_start_example : read_from (length rows + 1) rows 2 0 ≡ rows
read_from_start_example = read_from_start rows 2 (omega arith) (omega arith)

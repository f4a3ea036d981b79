-- ===== src/Pages/Following.antt =====
-- A client that follows `next_offset` reads every row once, in order.
use parts_bin.Prelude.{
  ℕ, zero, suc, ◌+◌, ◌≤◌, ◌≡◌, sym, ap, ◌∙◌, Option, none, some, List, [], ◌++◌, length, take, drop,
  ltb, arith, Bool-cases, inl, inr, ltb→lt, ltb→ge, ++-nil, take-append-drop, take-eq_of_le,
  length-drop, drop-drop, pos,
}
use parts_bin.Pages.{Page, slice, exact_search_page, validate_page, next_offset}

module _ {ℓ} {A : Type ℓ} where
  abbrev parts_of : Option (Page A) → List A
  parts_of none = []
  parts_of (some p) = p.parts

  abbrev next_of : Option (Page A) → Option ℕ
  next_of none = none
  next_of (some p) = p.next_offset

  -- The parts of the page at an offset, and of those that it leads to, n at most.
  abbrev pub read_from : ℕ → List A → ℕ → ℕ → List A
  read_from zero rows limit offset = []
  read_from (suc n) rows limit offset =
      let page = exact_search_page rows (pos limit) (pos offset) in
      parts_of page ++ elim (next_of page) [ none ↦ [] | some o ↦ read_from n rows limit o ]

  valid_page :
      (rows : List A) (limit offset : ℕ)
      → 1 ≤ limit
      → limit ≤ 100
      → exact_search_page rows (pos limit) (pos offset) ≡ some (slice rows limit offset)
  unfolding exact_search_page validate_page
  valid_page rows limit offset least most = ground arith

  -- From any offset, following the pages reads exactly the rows from there on; as many pages as rows
  -- are left are enough.
  read_from-drop :
      (n : ℕ) (rows : List A) (limit offset : ℕ)
      → 1 ≤ limit
      → limit ≤ 100
      → length rows ≤ offset + n
      → 1 ≤ n
      → read_from n rows limit offset ≡ drop offset rows
  unfolding next_offset
  read_from-drop zero rows limit offset least most enough h = absurd (omega arith)
  read_from-drop (suc n) rows limit offset least most enough h =
      ap (λ p. parts_of p ++ elim (next_of p) [ none ↦ [] | some o ↦ read_from n rows limit o ])
        (valid_page rows limit offset least most)
      ∙ elim (Bool-cases (ltb (offset + limit) (length rows))) [
        | inl more ↦
            let inside = ltb→lt (offset + limit) (length rows) more in
            rw
              (
                more,
                read_from-drop n rows limit (offset + limit) least most (omega arith) (omega arith),
                sym (drop-drop limit offset rows),
              )
              (take-append-drop limit (drop offset rows))
        | inr last ↦
            let reached = ltb→ge (offset + limit) (length rows) last in
            rw last (
              ++-nil (take limit (drop offset rows))
              ∙ take-eq_of_le limit (drop offset rows) (omega (arith, length-drop offset rows)))
      ]

  -- A client that starts at 0 and follows `next_offset`, with a limit from 1 to 100, reads exactly the
  -- rows, in order, while they do not change; one page more than there are rows is always enough.
  pub read_from_start :
      (rows : List A) (limit : ℕ)
      → 1 ≤ limit
      → limit ≤ 100
      → read_from (length rows + 1) rows limit 0 ≡ rows
  read_from_start rows limit least most =
      read_from-drop (length rows + 1) rows limit 0 least most (omega arith) (omega arith)

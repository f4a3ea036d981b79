-- ===== src/Service/Checked.antt =====
-- What the check of a bill of materials answers: `check_inventory` of domain/service.py.
use parts_bin.Prelude.{
  ℕ, zero, suc, ◌+◌, ◌≡◌, ◌≤◌, refl, sym, ap, ◌∙◌, subst, true, not, ◌&&◌, ◌||◌, Option, none, some,
  List, [], ◌∷◌, map, length, any, arith, Bool-cases, inl, inr, leb, max, length-append, ◌==◌,
  leb→le, ltb, pos,
}
use parts_bin.Storage.Table.{Table}
use parts_bin.Storage.Parts.{PartRow}
use parts_bin.Storage.Rows.{Db}
use parts_bin.Storage.Tx.{
  ok, domain_error, invalid_input, raise_if_then-eq-ok, ok-injective, ok_value-injective,
}
use parts_bin.Normalization.{Readers}
use parts_bin.Service.Search.{search_filters}
use parts_bin.Service.Expressions.{filters_of}
use parts_bin.Service.Inversion.{lift_then-eq-ok}
use parts_bin.Service.Placed.{item_at, is_grouped, group_items_lists, group_items-AreOwn}
use parts_bin.Service.Lines.{
  LinesOwn, LinesApart, is_named, add_line-eq-ok, check_groups-AreLinesOf,
}
use parts_bin.Service.Checking.{
  CheckItem, Group, known_quantity, same_filters, add_item, group_items, is_bad_item, sufficient,
  CheckLine, pieces, most_pieces, better, best_part, availability, requested_of, line_of,
  check_groups, CheckAnswer, check_inventory,
}

-- What the items ask for, and what the lines count of it.
abbrev pub asked : List CheckItem → ℕ
asked [] = 0
asked (item ∷ items) = known_quantity item.quantity + asked items

abbrev in_groups : List Group → ℕ
in_groups [] = 0
in_groups (g ∷ groups) = g.quantity + in_groups groups

abbrev indices_in : List Group → ℕ
indices_in [] = 0
indices_in (g ∷ groups) = length g.input_indices + indices_in groups

abbrev pub known_in : List CheckLine → ℕ
known_in [] = 0
known_in (line ∷ lines) = line.known_requested_quantity + known_in lines

abbrev pub indices_of : List CheckLine → ℕ
indices_of [] = 0
indices_of (line ∷ lines) = length line.input_indices + indices_of lines

add_item-in_groups :
    (index : ℕ) (item : CheckItem) (groups : List Group)
    → (in_groups (add_item index item groups) ≡ known_quantity item.quantity + in_groups groups)
      × (indices_in (add_item index item groups) ≡ suc (indices_in groups))
add_item-in_groups index item [] = (omega arith, omega arith)
add_item-in_groups index item (g ∷ groups) =
    let rest = add_item-in_groups index item groups in
    elim (Bool-cases (same_filters g.filters (filters_of item.filters))) [
      | inl joined ↦ (ground arith, ground (arith, length-append g.input_indices (index ∷ [])))
      | inr apart ↦ (ground (arith, rest.0), ground (arith, rest.1))
    ]

group_items-in_groups :
    (items : List CheckItem) (index : ℕ) (groups : List Group)
    → (in_groups (group_items items index groups) ≡ asked items + in_groups groups)
      × (indices_in (group_items items index groups) ≡ length items + indices_in groups)
group_items-in_groups [] index groups = (omega arith, omega arith)
group_items-in_groups (item ∷ items) index groups =
    let rest = group_items-in_groups items (index + 1) (add_item index item groups) in
    let first = add_item-in_groups index item groups in
    (omega (arith, rest.0, first.0), omega (arith, rest.1, first.1))

abbrev held : Option (ℕ × PartRow) → ℕ
held none = 0
held (some p) = pieces p.1.fields.quantity

held-better :
    (p : ℕ × PartRow) (o : Option (ℕ × PartRow))
    → held (better p o) ≡ max (pieces p.1.fields.quantity) (held o)
held-better p none = omega arith
held-better p (some q) = ground arith

-- The best part has the most pieces.
held-best_part : (rows : Table PartRow) → held (best_part rows) ≡ most_pieces rows
held-best_part [] = refl
held-best_part (r ∷ rows) =
    held-better r (best_part rows) ∙ ap (max (pieces r.1.fields.quantity)) (held-best_part rows)

better-eq-some :
    (p : ℕ × PartRow) (o : Option (ℕ × PartRow)) → (q : ℕ × PartRow) × (better p o ≡ some q)
better-eq-some p none = (p, refl)
better-eq-some p (some q) =
    elim (Bool-cases (
      ltb (pieces q.1.fields.quantity) (pieces p.1.fields.quantity)
      || ((pieces q.1.fields.quantity == pieces p.1.fields.quantity) && ltb p.0 q.0))) [
        | inl first ↦ (p, ground arith)
        | inr second ↦ (q, ground arith)
      ]

-- A line that says that stock is sufficient names one part that holds what is requested.
abbrev pub IsHeld : CheckLine → Type 0
IsHeld line =
    line.status ≡ sufficient
    → (p : ℕ × PartRow) × (requested : ℕ) × (line.best ≡ some p)
      × (line.requested_quantity ≡ some requested)
      × (requested ≤ pieces p.1.fields.quantity)

abbrev pub AllHeld : List CheckLine → Type 0
AllHeld [] = Unit
AllHeld (line ∷ lines) = IsHeld line × AllHeld lines

availability-sufficient :
    (rows : Table PartRow) (available : ℕ) (requested : Option ℕ)
    → availability rows available requested ≡ sufficient
    → (n : ℕ) × (requested ≡ some n) × (n ≤ available)
availability-sufficient [] available requested h = absurd (ground arith)
availability-sufficient (r ∷ rows) zero requested h = absurd (ground arith)
availability-sufficient (r ∷ rows) (suc k) none h = absurd (ground arith)
availability-sufficient (r ∷ rows) (suc k) (some n) h = elim (Bool-cases (leb n (suc k))) [
  | inl enough ↦ (n, refl, leb→le n (suc k) enough)
  | inr short ↦ absurd (ground arith)
]

line_of-IsHeld : (g : Group) (rows : Table PartRow) → IsHeld (line_of g rows)
line_of-IsHeld g [] h = absurd (ground arith)
line_of-IsHeld g (r ∷ rows) h =
    let (n, requested, enough) =
      availability-sufficient (r ∷ rows) (most_pieces (r ∷ rows)) (requested_of g) h in
    let (q, best) = better-eq-some r (best_part rows) in
    let most : pieces q.1.fields.quantity ≡ most_pieces (r ∷ rows) =
      ap held (sym best) ∙ held-best_part (r ∷ rows) in
    (q, n, best, requested, subst (λ k. n ≤ k) (sym most) enough)

check_groups_holds :
    (readers : Readers) (groups : List Group) (stock : Table PartRow)
    (lines : List (CheckLine × Table PartRow))
    → check_groups readers groups stock ≡ ok lines
    → (known_in (map (λ l. l.0) lines) ≡ in_groups groups)
      × (indices_of (map (λ l. l.0) lines) ≡ indices_in groups)
      × AllHeld (map (λ l. l.0) lines)
check_groups_holds readers [] stock lines h =
    let same : [] ≡ lines = ok_value-injective h in
    subst
      (λ (ls : List (CheckLine × Table PartRow)).
        (known_in (map (λ l. l.0) ls) ≡ 0)
        × (indices_of (map (λ l. l.0) ls) ≡ 0)
        × AllHeld (map (λ l. l.0) ls))
      same (refl, refl, tt)
check_groups_holds readers (g ∷ groups) stock lines h =
    let (rows, later, is_rest, same) =
      add_line-eq-ok g (search_filters readers g.filters (pos 0) stock)
        (check_groups readers groups stock) lines h in
    let (sum, indices, held) = check_groups_holds readers groups stock later is_rest in
    subst
      (λ (ls : List (CheckLine × Table PartRow)).
        (known_in (map (λ l. l.0) ls) ≡ in_groups (g ∷ groups))
        × (indices_of (map (λ l. l.0) ls) ≡ indices_in (g ∷ groups))
        × AllHeld (map (λ l. l.0) ls))
      same
      (
        ap (λ n. g.quantity + n) sum,
        ap (λ n. length g.input_indices + n) indices,
        (line_of-IsHeld g rows, held),
      )

-- A check that is accepted changes nothing. Each of its lines names rows of the request whose filters are
-- the line's and counts what they ask for, no two lines have the same filters, every row of the request
-- is named, as many indices are named as there are rows, and the lines count all that the rows ask for.
-- Wherever a line says that stock is sufficient it names one part that holds enough.
pub check_inventory_accounts :
    (readers : Readers) (items : List CheckItem) (db : Db) (answer : CheckAnswer) (db' : Db)
    → check_inventory readers items db ≡ ok (answer, db')
    → (db ≡ db')
      × LinesOwn items answer.items
      × LinesApart answer.items
      × ((i : ℕ) (item : CheckItem) → item_at i items ≡ some item → is_named i answer.items ≡ true)
      × (indices_of answer.items ≡ length items)
      × (known_in answer.items ≡ asked items)
      × AllHeld answer.items
unfolding check_inventory
check_inventory_accounts readers items db answer db' h =
    let (sized, h0) =
      raise_if_then-eq-ok (not (leb 1 (length items) && leb (length items) 100))
        (domain_error invalid_input) _ db h in
    let (good, h1) =
      raise_if_then-eq-ok (any is_bad_item items) (domain_error invalid_input) _ db h0 in
    let groups = group_items items 0 [] in
    let (lines, checked, h2) = lift_then-eq-ok (check_groups readers groups db.parts) _ db h1 in
    let (is_answer, same) = ok-injective h2 in
    let items_of = ap (λ (a : CheckAnswer). a.items) is_answer in
    let (sum, indices, held) = check_groups_holds readers groups db.parts lines checked in
    let grouped = group_items-in_groups items 0 [] in
    let (own, none_of, apart, named) =
      check_groups-AreLinesOf readers groups db.parts lines checked in
    let placed =
      group_items-AreOwn items items 0 [] (λ k. ap (λ i. item_at i items) (omega arith)) (tt, tt) in
    (
      same,
      subst (LinesOwn items) items_of (own items placed.0),
      subst LinesApart items_of (apart placed.1),
      λ i item found.
          let start : 0 + i ≡ i = omega arith in
          ap (is_named i) (sym items_of)
          ∙ named i (
              ap (λ k. is_grouped k groups) (sym start)
              ∙ group_items_lists items 0 [] i item found),
      ap indices_of (sym items_of) ∙ indices ∙ grouped.1 ∙ omega arith,
      ap known_in (sym items_of) ∙ sum ∙ grouped.0 ∙ omega arith,
      subst AllHeld items_of held,
    )

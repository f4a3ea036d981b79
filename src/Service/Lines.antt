-- ===== src/Service/Lines.antt =====
-- The lines of an answer beside the groups that they come from: `check_inventory` of domain/service.py.
use parts_bin.Prelude.{
  ℕ, ◌≡◌, ◌≢◌, refl, Bool, true, List, [], ◌∷◌, map, any, arith, Bool-cases, inl, inr, ◌==◌, subst,
  pos,
}
use parts_bin.Storage.Table.{Table}
use parts_bin.Storage.Parts.{PartRow}
use parts_bin.Storage.Tx.{Result, ok, err, ok_value-injective}
use parts_bin.Normalization.{Readers}
use parts_bin.Service.Search.{Filters, search_filters}
use parts_bin.Service.Checking.{CheckItem, Group, CheckLine, line_of, add_line, check_groups}
use parts_bin.Service.Placed.{AreRowsOf, asked_by, AreOwn, IsApart, AreApart, is_grouped}

-- Each line names rows of the request that have its filters, and counts what they ask for.
abbrev pub LinesOwn : List CheckItem → List CheckLine → Type 0
LinesOwn all [] = Unit
LinesOwn all (line ∷ lines) =
    AreRowsOf all line.filters line.input_indices
    × (line.known_requested_quantity ≡ asked_by all line.input_indices)
    × LinesOwn all lines

abbrev pub NoLineOf : Filters → List CheckLine → Type 0
NoLineOf f [] = Unit
NoLineOf f (line ∷ lines) = (f ≢ line.filters) × NoLineOf f lines

-- No filters stand in two lines.
abbrev pub LinesApart : List CheckLine → Type 0
LinesApart [] = Unit
LinesApart (line ∷ lines) = NoLineOf line.filters lines × LinesApart lines

-- A line names the row.
abbrev pub is_named : ℕ → List CheckLine → Bool
is_named i lines = any (λ (line : CheckLine). any (λ j. j == i) line.input_indices) lines

pub add_line-eq-ok :
    (g : Group) (r : Result (Table PartRow)) (rest : Result (List (CheckLine × Table PartRow)))
    (lines : List (CheckLine × Table PartRow))
    → add_line g r rest ≡ ok lines
    → (rows : Table PartRow) × (later : List (CheckLine × Table PartRow)) × (rest ≡ ok later)
      × ((line_of g rows, rows) ∷ later ≡ lines)
add_line-eq-ok g (err e) rest lines h = absurd (ground arith)
add_line-eq-ok g (ok rows) (err e) lines h = absurd (ground arith)
add_line-eq-ok g (ok rows) (ok later) lines h = (rows, later, refl, ok_value-injective h)

-- Lines that are the groups, in their order
abbrev AreLinesOf : List Group → List CheckLine → Type 0
AreLinesOf groups lines =
    ((all : List CheckItem) → AreOwn all groups → LinesOwn all lines)
    × ((f : Filters) → IsApart f groups → NoLineOf f lines)
    × (AreApart groups → LinesApart lines)
    × ((i : ℕ) → is_grouped i groups ≡ true → is_named i lines ≡ true)

line_of-AreLinesOf :
    (g : Group) (rows : Table PartRow) (groups : List Group) (lines : List CheckLine)
    → AreLinesOf groups lines
    → AreLinesOf (g ∷ groups) (line_of g rows ∷ lines)
line_of-AreLinesOf g rows groups lines (own, none_of, apart, named) = (
  λ all h. (h.0, h.1, own all h.2),
  λ f h. (h.0, none_of f h.1),
  λ h. (none_of g.filters h.0, apart h.1),
  λ i h. elim (Bool-cases (any (λ j. j == i) g.input_indices)) [
    | inl first ↦ ground arith
    | inr later ↦ ground (arith, named i)
  ],
)

pub check_groups-AreLinesOf :
    (readers : Readers) (groups : List Group) (stock : Table PartRow)
    (lines : List (CheckLine × Table PartRow))
    → check_groups readers groups stock ≡ ok lines
    → AreLinesOf groups (map (λ l. l.0) lines)
check_groups-AreLinesOf readers [] stock lines h =
    subst (λ (ls : List (CheckLine × Table PartRow)). AreLinesOf [] (map (λ l. l.0) ls))
      (ok_value-injective h) (λ all own. tt, λ f apart. tt, λ apart. tt, λ i listed. listed)
check_groups-AreLinesOf readers (g ∷ groups) stock lines h =
    let (rows, later, is_rest, same) =
      add_line-eq-ok g (search_filters readers g.filters (pos 0) stock)
        (check_groups readers groups stock) lines h in
    subst (λ (ls : List (CheckLine × Table PartRow)). AreLinesOf (g ∷ groups) (map (λ l. l.0) ls))
      same
      (line_of-AreLinesOf g rows groups (map (λ l. l.0) later)
        (check_groups-AreLinesOf readers groups stock later is_rest))

-- ===== src/Service/Expressions.antt =====
-- Search expressions: `_search_expression` and `search` of domain/service.py.
use parts_bin.Prelude.{
  ℕ, suc, ◌+◌, Bool, true, false, not, ◌&&◌, ◌||◌, Option, none, some, List, [], ◌∷◌, if◌then◌else◌,
  ltb, leb, any, ℤ, pos,
}
use parts_bin.Storage.Table.{Table, select}
use parts_bin.Storage.Parts.{Text, FieldName, unknown, PartRow}
use parts_bin.Storage.Parts
use parts_bin.Storage.Tx.{Result, ok, err, domain_error, invalid_input}
use parts_bin.Normalization.{Readers, FieldValue, null, text}
use parts_bin.Service.Search.{Filters, no_filters, search_filters}
use parts_bin.Service.Updating.{Updates, is_empty}

-- `set(filters) - {…}`, of one name
abbrev pub is_filter : FieldName → Bool
is_filter Parts.part_category = true
is_filter Parts.profile = true
is_filter Parts.value = true
is_filter Parts.part_package = true
is_filter Parts.part_number = true
is_filter Parts.value_unit = true
is_filter _ = false

-- `value is not None and not isinstance(value, str)`
abbrev pub is_no_text : FieldValue → Bool
is_no_text (text s) = false
is_no_text null = false
is_no_text _ = true

abbrev pub filter_text : FieldValue → Option Text
filter_text (text s) = some s
filter_text _ = none

abbrev pub set_filter : FieldName → Option Text → Filters → Filters
set_filter Parts.part_category v f = record f { part_category = v }
set_filter Parts.profile v f = record f { profile = v }
set_filter Parts.value v f = record f { value = v }
set_filter Parts.part_package v f = record f { «package» = v }
set_filter Parts.part_number v f = record f { part_number = v }
set_filter Parts.value_unit v f = record f { value_unit = v }
set_filter _ v f = f

abbrev pub filters_of : Updates → Filters
filters_of [] = no_filters
filters_of ((name, v) ∷ filters) = set_filter name (filter_text v) (filters_of filters)

-- The names and values that a search takes
abbrev pub are_filters : Updates → Bool
are_filters filters =
    not (any (λ f. not (is_filter f.0)) filters) && not (any (λ f. is_no_text f.1) filters)

-- A node of an expression: a dictionary with one key, `filters`, `all` or `any`, or anything else.
mutual
  pub data Node : Type 0 where
    leaf : Updates → Node
    all_of any_of : Nodes → Node
    malformed : Node

  pub data Nodes : Type 0 where
    end : Nodes
    next_child : Node → Nodes → Nodes

abbrev pub count : Nodes → ℕ
count end = 0
count (next_child node nodes) = suc (count nodes)

-- What a node compiles to, and `nodes`, which has counted it and what stands in it.
abbrev pub Compiled : Type 0
Compiled = Result ((ℕ → PartRow → Bool) × ℕ)

abbrev pub CompiledAll : Type 0
CompiledAll = Result (List (ℕ → PartRow → Bool) × ℕ)

abbrev pub every : List (ℕ → PartRow → Bool) → ℕ → PartRow → Bool
every [] j p = true
every (q ∷ qs) j p = q j p && every qs j p

abbrev pub some_one : List (ℕ → PartRow → Bool) → ℕ → PartRow → Bool
some_one [] j p = false
some_one (q ∷ qs) j p = q j p || some_one qs j p

abbrev pub combine : (List (ℕ → PartRow → Bool) → ℕ → PartRow → Bool) → CompiledAll → Compiled
combine how (ok (qs, nodes)) = ok (how qs, nodes)
combine how (err e) = err e

-- `depth > 4 or nodes > 100`
abbrev pub is_beyond : ℕ → ℕ → Bool
is_beyond depth nodes = ltb 4 depth || ltb 100 nodes

-- `1 <= len(node[operator]) <= 100`
abbrev pub is_group : Nodes → Bool
is_group nodes = leb 1 (count nodes) && leb (count nodes) 100

-- The first child, and then the others with what it left in `nodes`.
abbrev pub add_child : (ℕ → PartRow → Bool) → CompiledAll → CompiledAll
add_child q (ok (qs, nodes)) = ok (q ∷ qs, nodes)
add_child q (err e) = err e

abbrev pub then_each : Compiled → (ℕ → CompiledAll) → CompiledAll
then_each (err e) rest = err e
then_each (ok (q, nodes)) rest = add_child q (rest nodes)

module _ (readers : Readers) where
  -- `bool(self._search_filters(request, candidates=[part]))`
  abbrev pub is_found : Result (Table PartRow) → Bool
  is_found (ok []) = false
  is_found (ok (p ∷ rows)) = true
  is_found (err e) = false

  abbrev pub admits_leaf : Updates → ℕ → PartRow → Bool
  admits_leaf filters j p =
      is_found (search_filters readers (filters_of filters) (pos 0) ((j, p) ∷ []))

  abbrev pub compile_leaf : Updates → ℕ → Compiled
  compile_leaf filters nodes =
      if is_empty filters || not (are_filters filters)
      then err (domain_error invalid_input)
      else ok (admits_leaf filters, nodes)

  abbrev pub compile_group :
      (List (ℕ → PartRow → Bool) → ℕ → PartRow → Bool) → Bool → CompiledAll → Compiled
  compile_group how sized children =
      if sized then combine how children else err (domain_error invalid_input)

  unfoldable mutual
    -- `compile_node`
    pub compile_node : Node → ℕ → ℕ → Compiled
    compile_node (leaf filters) depth nodes =
        if is_beyond depth (nodes + 1)
        then err (domain_error invalid_input)
        else compile_leaf filters (nodes + 1)
    compile_node (all_of group) depth nodes =
        let children = compile_each group (depth + 1) (nodes + 1) in
        if is_beyond depth (nodes + 1)
        then err (domain_error invalid_input)
        else compile_group every (is_group group) children
    compile_node (any_of group) depth nodes =
        let children = compile_each group (depth + 1) (nodes + 1) in
        if is_beyond depth (nodes + 1)
        then err (domain_error invalid_input)
        else compile_group some_one (is_group group) children
    compile_node malformed depth nodes = err (domain_error invalid_input)

    pub compile_each : Nodes → ℕ → ℕ → CompiledAll
    compile_each end depth nodes = ok ([], nodes)
    compile_each (next_child node group) depth nodes =
        then_each (compile_node node depth nodes) (λ n. compile_each group depth n)

  -- `_search_expression`
  abbrev pub search_expression : Node → Result (ℕ → PartRow → Bool)
  search_expression node = elim (compile_node node 0 0) [ ok r ↦ ok r.0 | err e ↦ err e ]

  abbrev pub search_with :
      Result (ℕ → PartRow → Bool) → Result (Table PartRow) → Result (Table PartRow)
  search_with (err e) rows = err e
  search_with (ok predicate) (err e) = err e
  search_with (ok predicate) (ok rows) = ok (select predicate rows)

  -- `search`, with an expression or without one
  unfoldable pub search_parts : Option Node → Updates → ℤ → Table PartRow → Result (Table PartRow)
  search_parts none filters minimum rows =
      if are_filters filters
      then search_filters readers (filters_of filters) minimum rows
      else err (domain_error invalid_input)
  search_parts (some node) filters minimum rows = search_with (search_expression node) (
      if are_filters filters
      then search_filters readers (filters_of filters) minimum rows
      else err (domain_error invalid_input))

-- ===== src/Service/Compiled.antt =====
-- What a compiled search expression finds, and which expressions are compiled: `_search_expression` of
-- domain/service.py.
use parts_bin.Prelude.{
  ℕ, suc, ◌+◌, ◌≡◌, ◌≤◌, max, refl, sym, ap, ◌∙◌, Bool, true, false, not, ◌&&◌, ◌||◌, List, ◌∷◌,
  if◌then◌else◌, arith,
}
use parts_bin.Storage.Parts.{PartRow}
use parts_bin.Storage.Tx.{Result, ok, err, domain_error, invalid_input, ok_value-injective}
use parts_bin.Normalization.{Readers}
use parts_bin.Service.Updating.{is_empty}
use parts_bin.Service.Expressions.{
  Node, leaf, all_of, any_of, malformed, Nodes, end, next_child, Compiled, CompiledAll, every,
  some_one, combine, is_beyond, is_group, add_child, then_each, admits_leaf, are_filters,
  compile_node, compile_each, search_expression,
}

-- The nodes of an expression, and how far it is nested.
mutual
  pub size : Node → ℕ
  size (leaf filters) = 1
  size (all_of group) = suc (size_each group)
  size (any_of group) = suc (size_each group)
  size malformed = 1

  pub size_each : Nodes → ℕ
  size_each end = 0
  size_each (next_child node group) = size node + size_each group

mutual
  pub nesting : Node → ℕ
  nesting (leaf filters) = 0
  nesting (all_of group) = nesting_each group
  nesting (any_of group) = nesting_each group
  nesting malformed = 0

  pub nesting_each : Nodes → ℕ
  nesting_each end = 0
  nesting_each (next_child node group) = max (suc (nesting node)) (nesting_each group)

-- What an expression means of a part: all of its children hold, or any of them, or its filters do.
module _ (readers : Readers) where
  mutual
    pub means : Node → ℕ → PartRow → Bool
    means (leaf filters) j p = admits_leaf readers filters j p
    means (all_of group) j p = means_all group j p
    means (any_of group) j p = means_any group j p
    means malformed j p = false

    pub means_all : Nodes → ℕ → PartRow → Bool
    means_all end j p = true
    means_all (next_child node group) j p = means node j p && means_all group j p

    pub means_any : Nodes → ℕ → PartRow → Bool
    means_any end j p = false
    means_any (next_child node group) j p = means node j p || means_any group j p

guarded-eq-ok :
    {A : Type 0} (test : Bool) (r : Result A) (a : A)
    → (if test then err (domain_error invalid_input) else r) ≡ ok a
    → (test ≡ false) × (r ≡ ok a)
guarded-eq-ok true r a h = absurd (ground arith)
guarded-eq-ok false r a h = (refl, h)

allowed-eq-ok :
    {A : Type 0} (test : Bool) (r : Result A) (a : A)
    → (if test then r else err (domain_error invalid_input)) ≡ ok a
    → (test ≡ true) × (r ≡ ok a)
allowed-eq-ok false r a h = absurd (ground arith)
allowed-eq-ok true r a h = (refl, h)

within : (depth nodes : ℕ) → is_beyond depth nodes ≡ false → (depth ≤ 4) × (nodes ≤ 100)
within depth nodes h = ground arith

ok_pair-injective :
    {A : Type 0} {a b : A} {n m : ℕ}
    → ◌≡◌ {A = Result (A × ℕ)} (ok (a, n)) (ok (b, m))
    → (a ≡ b) × (n ≡ m)
ok_pair-injective h = ground arith

combine-eq-ok :
    (how : List (ℕ → PartRow → Bool) → ℕ → PartRow → Bool) (r : CompiledAll)
    (q : ℕ → PartRow → Bool) (n : ℕ)
    → combine how r ≡ ok (q, n)
    → (qs : List (ℕ → PartRow → Bool)) × (r ≡ ok (qs, n)) × (how qs ≡ q)
combine-eq-ok how (err e) q n h = absurd (ground arith)
combine-eq-ok how (ok (qs, m)) q n h =
    let (same, number) = ok_pair-injective h in (qs, ap (λ (k : ℕ). ok (qs, k)) number, same)

then_each-eq-ok :
    (c : Compiled) (rest : ℕ → CompiledAll) (qs : List (ℕ → PartRow → Bool)) (n : ℕ)
    → then_each c rest ≡ ok (qs, n)
    → (q : ℕ → PartRow → Bool) × (m : ℕ) × (later : List (ℕ → PartRow → Bool)) × (c ≡ ok (q, m))
      × (rest m ≡ ok (later, n))
      × (q ∷ later ≡ qs)
then_each-eq-ok (err e) rest qs n h = absurd (ground arith)
then_each-eq-ok (ok (q, m)) rest qs n h = add (rest m) refl h
  where
    add :
        (r : CompiledAll)
        → rest m ≡ r
        → add_child q r ≡ ok (qs, n)
        → (q' : ℕ → PartRow → Bool) × (m' : ℕ) × (later : List (ℕ → PartRow → Bool)) × (◌≡◌
            {A = Compiled}
            (ok (q, m))
            (ok (q', m')))
          × (rest m' ≡ ok (later, n))
          × (q' ∷ later ≡ qs)
    add (err e) is_r h = absurd (ground arith)
    add (ok (later, k)) is_r h =
        let (same, number) = ok_pair-injective h in
        (q, m, later, refl, is_r ∙ ap (λ (i : ℕ). ok (later, i)) number, same)

-- A predicate is what a node means, `nodes` counts it, and it stands within the bounds.
abbrev Means : Readers → Node → ℕ → ℕ → (ℕ → PartRow → Bool) → ℕ → Type 0
Means readers node depth nodes q n =
    ((j : ℕ) (p : PartRow) → q j p ≡ means readers node j p)
    × (n ≡ nodes + size node)
    × (n ≤ 100)
    × (depth + nesting node ≤ 4)

-- The same of children, which stand one deeper than their parent.
abbrev MeansEach : Readers → Nodes → ℕ → ℕ → List (ℕ → PartRow → Bool) → ℕ → Type 0
MeansEach readers group depth nodes qs n =
    ((j : ℕ) (p : PartRow) → every qs j p ≡ means_all readers group j p)
    × ((j : ℕ) (p : PartRow) → some_one qs j p ≡ means_any readers group j p)
    × (n ≡ nodes + size_each group)
    × (n ≤ 100)
    × (depth + nesting_each group ≤ 4)

mutual
  unfolding compile_node size nesting means

  compile_node-Means :
      (readers : Readers) (node : Node) (depth nodes : ℕ) (q : ℕ → PartRow → Bool) (n : ℕ)
      → compile_node readers node depth nodes ≡ ok (q, n)
      → Means readers node depth nodes q n
  compile_node-Means readers (leaf filters) depth nodes q n h =
      let (free, h0) = guarded-eq-ok (is_beyond depth (nodes + 1)) _ _ h in
      let (deep, few) = within depth (nodes + 1) free in
      let (good, h1) = guarded-eq-ok (is_empty filters || not (are_filters filters)) _ _ h0 in
      let (same, number) = ok_pair-injective h1 in
      (
        (λ j p. ap (λ (f : ℕ → PartRow → Bool). f j p) (sym same)),
        omega (arith, number),
        omega (arith, number, few),
        omega (arith, deep),
      )
  compile_node-Means readers (all_of group) depth nodes q n h =
      let (free, h0) = guarded-eq-ok (is_beyond depth (nodes + 1)) _ _ h in
      let (deep, few) = within depth (nodes + 1) free in
      let (sized, h1) = allowed-eq-ok (is_group group) _ _ h0 in
      let (qs, h2, same) = combine-eq-ok every _ q n h1 in
      let (all, one, number, bound, low) =
        compile_each-MeansEach readers group depth (nodes + 1) qs n deep few h2 in
      (
        (λ j p. ap (λ (f : ℕ → PartRow → Bool). f j p) (sym same) ∙ all j p),
        omega (arith, number),
        bound,
        low,
      )
  compile_node-Means readers (any_of group) depth nodes q n h =
      let (free, h0) = guarded-eq-ok (is_beyond depth (nodes + 1)) _ _ h in
      let (deep, few) = within depth (nodes + 1) free in
      let (sized, h1) = allowed-eq-ok (is_group group) _ _ h0 in
      let (qs, h2, same) = combine-eq-ok some_one _ q n h1 in
      let (all, one, number, bound, low) =
        compile_each-MeansEach readers group depth (nodes + 1) qs n deep few h2 in
      (
        (λ j p. ap (λ (f : ℕ → PartRow → Bool). f j p) (sym same) ∙ one j p),
        omega (arith, number),
        bound,
        low,
      )
  compile_node-Means readers malformed depth nodes q n h = absurd (ground arith)

  compile_each-MeansEach :
      (readers : Readers) (group : Nodes) (depth nodes : ℕ) (qs : List (ℕ → PartRow → Bool)) (n : ℕ)
      → depth ≤ 4
      → nodes ≤ 100
      → compile_each readers group (depth + 1) nodes ≡ ok (qs, n)
      → MeansEach readers group depth nodes qs n
  compile_each-MeansEach readers end depth nodes qs n deep few h =
      let (same, number) = ok_pair-injective h in
      (
        (λ j p. ap (λ (fs : List (ℕ → PartRow → Bool)). every fs j p) (sym same)),
        (λ j p. ap (λ (fs : List (ℕ → PartRow → Bool)). some_one fs j p) (sym same)),
        omega (arith, number),
        omega (arith, number, few),
        omega (arith, deep),
      )
  compile_each-MeansEach readers (next_child node group) depth nodes qs n deep few h =
      let (q, m, later, is_one, is_rest, same) =
        then_each-eq-ok (compile_node readers node (depth + 1) nodes)
          (λ k. compile_each readers group (depth + 1) k) qs n h in
      let (meant, counted, below, low) =
        compile_node-Means readers node (depth + 1) nodes q m is_one in
      let (all, one, number, bound, low_rest) =
        compile_each-MeansEach readers group depth m later n deep below is_rest in
      (
        (λ j p.
            ap (λ (fs : List (ℕ → PartRow → Bool)). every fs j p) (sym same)
            ∙ (λ i. meant j p i && all j p i)),
        (λ j p.
            ap (λ (fs : List (ℕ → PartRow → Bool)). some_one fs j p) (sym same)
            ∙ (λ i. meant j p i || one j p i)),
        omega (arith, counted, number),
        bound,
        omega (arith, low, low_rest),
      )

-- A search expression that is accepted has at most one hundred nodes and is nested at most four deep, and
-- the parts that it finds are those for which all or any of its children hold, down to its filters.
pub search_expression-means :
    (readers : Readers) (node : Node) (q : ℕ → PartRow → Bool)
    → search_expression readers node ≡ ok q
    → ((j : ℕ) (p : PartRow) → q j p ≡ means readers node j p)
      × (size node ≤ 100)
      × (nesting node ≤ 4)
search_expression-means readers node q h = by_result (compile_node readers node 0 0) refl h
  where
    by_result :
        (r : Compiled)
        → compile_node readers node 0 0 ≡ r
        → (elim r [ ok s ↦ ok s.0 | err e ↦ err e ]) ≡ ok q
        → ((j : ℕ) (p : PartRow) → q j p ≡ means readers node j p)
          × (size node ≤ 100)
          × (nesting node ≤ 4)
    by_result (err e) is_r h = absurd (ground arith)
    by_result (ok (f, n)) is_r h =
        let same = ok_value-injective h in
        let (meant, counted, bound, low) = compile_node-Means readers node 0 0 f n is_r in
        (
          (λ j p. ap (λ (g : ℕ → PartRow → Bool). g j p) (sym same) ∙ meant j p),
          omega (arith, counted, bound),
          omega (arith, low),
        )

-- ===== src/Budgets/Complete.antt =====
-- A history that fits is sent whole: `bounded_history` of agent_runtime/budgets.py.
use parts_bin.Prelude.{
  ℕ, ◌≤◌, ◌≡◌, refl, sym, ap, ◌∙◌, subst, Bool, false, List, [], ◌∷◌, ◌++◌, ltb, arith, Bool-cases,
  inl, inr, ++-nil, ++-assoc, ltb→lt,
}
use parts_bin.Budgets.{
  Item, Role, developer, user, assistant, size, history_notice, max_history_bytes, keep,
  with_notice, collect, bounded_history, Turns, add_by_role, is_developer, any_developer,
}
use parts_bin.Budgets.History.{concat_turns}

size_insert : (a b : Item) (items : List Item) → size (a ∷ items) ≤ size (a ∷ b ∷ items)
unfolding size
size_insert a b [] = omega arith
size_insert a b (c ∷ items) = omega arith

size_before :
    (a : Item) (before items : List Item) → size (a ∷ items) ≤ size (a ∷ (before ++ items))
unfolding size
size_before a [] items = omega arith
size_before a (b ∷ before) items = omega (arith, size_before b before items, size_insert a b items)

keep_all :
    (notice : Item) (turns : List (List Item)) (kept : List Item) (omitted : Bool)
    → size (notice ∷ (concat_turns turns ++ kept)) ≤ max_history_bytes
    → keep notice turns kept omitted ≡ (concat_turns turns ++ kept, omitted)
keep_all notice [] kept omitted h = refl
keep_all notice (turn ∷ turns) kept omitted h =
    let same = ++-assoc (concat_turns turns) turn kept in
    let fits : size (notice ∷ (concat_turns turns ++ (turn ++ kept))) ≤ max_history_bytes =
      subst (λ x. size (notice ∷ x) ≤ max_history_bytes) same h in
    elim (Bool-cases (ltb max_history_bytes (size (notice ∷ turn ++ kept)))) [
      | inl large ↦ absurd (
          omega (
            arith,
            size_before notice (concat_turns turns) (turn ++ kept),
            ltb→lt max_history_bytes (size (notice ∷ (turn ++ kept))) large,
          ))
      | inr small ↦
          rw small
            (keep_all notice turns (turn ++ kept) omitted fits ∙ ap (λ x. (x, omitted)) (sym same))
    ]

abbrev state : Bool → List Item → List (List Item) → Turns
state omitted t turns = record { omitted = omitted; turns = t ∷ turns }

-- After the first message of the user, every text lands at the end of the turns.
add_later :
    (role : Role) (item : Item) (omitted : Bool) (t : List Item) (turns : List (List Item))
    → is_developer role ≡ false
    → (t' : List Item) × (turns' : List (List Item)) × (add_by_role role item
          (state omitted t turns)
        ≡ state omitted t' turns')
      × (concat_turns (t' ∷ turns') ≡ concat_turns (t ∷ turns) ++ item ∷ [])
add_later developer item omitted t turns h = absurd (ground arith)
add_later user item omitted t turns h = (item ∷ [], t ∷ turns, refl, refl)
add_later assistant item omitted t turns h =
    (t ++ item ∷ [], turns, refl, sym (++-assoc (concat_turns turns) t (item ∷ [])))

collect_all :
    (history : List Item) (omitted : Bool) (t : List Item) (turns : List (List Item))
    → any_developer history ≡ false
    → (concat_turns (collect history (state omitted t turns)).turns
        ≡ concat_turns (t ∷ turns) ++ history)
      × ((collect history (state omitted t turns)).omitted ≡ omitted)
collect_all [] omitted t turns h = (sym (++-nil (concat_turns (t ∷ turns))), refl)
collect_all (item ∷ history) omitted t turns h =
    let spoken : is_developer item.role ≡ false = ground arith in
    let others : any_developer history ≡ false = ground arith in
    let (t', turns', is_next, is_end) = add_later item.role item omitted t turns spoken in
    let (all, kept) = collect_all history omitted t' turns' others in
    subst
      (λ x.
        (concat_turns (collect history x).turns ≡ concat_turns (t ∷ turns) ++ (item ∷ history))
        × ((collect history x).omitted ≡ omitted))
      (sym is_next)
      (
        all
            ∙ ap (λ x. x ++ history) is_end
            ∙ ++-assoc (concat_turns (t ∷ turns)) (item ∷ []) history,
        kept,
      )

whole :
    (notice : Item) (s : Turns) (history : List Item)
    → concat_turns s.turns ≡ history
    → s.omitted ≡ false
    → size (notice ∷ history) ≤ max_history_bytes
    → with_notice notice (keep notice s.turns [] s.omitted) ≡ history
whole notice s history all complete fits =
    let same = ++-nil (concat_turns s.turns) ∙ all in
    let kept =
      keep_all notice s.turns [] s.omitted
        (subst (λ x. size (notice ∷ x) ≤ max_history_bytes) (sym same) fits) in
    ap (with_notice notice) kept
    ∙ ap (λ o. with_notice notice (concat_turns s.turns ++ [], o)) complete
    ∙ same

-- A conversation that opens with a message of the user, and that fits together with the notice, is
-- sent whole and without the notice.
pub bounded_history_whole :
    (text : List ℕ) (history : List Item)
    → any_developer history ≡ false
    → size (history_notice ∷ record { role = user; text = text } ∷ history) ≤ max_history_bytes
    → bounded_history (record { role = user; text = text } ∷ history)
      ≡ record { role = user; text = text } ∷ history
unfolding bounded_history
bounded_history_whole text history h fits =
    let first : Item = record { role = user; text = text } in
    let (all, kept) = collect_all history (any_developer history) (first ∷ []) [] h in
    whole history_notice (collect history (state (any_developer history) (first ∷ []) []))
      (first ∷ history) all (kept ∙ h) fits

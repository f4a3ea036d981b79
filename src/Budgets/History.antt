-- ===== src/Budgets/History.antt =====
-- What `bounded_history` of agent_runtime/budgets.py keeps.
use parts_bin.Prelude.{
  ◌≤◌, ◌≡◌, refl, subst, sym, ap, ◌∙◌, Bool, true, false, List, [], ◌∷◌, ◌++◌, ltb, leb→le, ltb→ge,
  arith, if◌then◌else◌, Bool-cases, ◌⊎◌, inl, inr, ++-nil, ++-assoc,
}
use parts_bin.Budgets.{
  Item, Role, developer, user, assistant, size, history_notice, max_history_bytes, keep,
  with_notice, turns_of, collect, bounded_history, Turns, add_by_role, add_reply, is_developer,
  any_developer,
}

notice_fits : size (history_notice ∷ []) ≤ max_history_bytes
unfolding size
notice_fits = leb→le (size (history_notice ∷ [])) max_history_bytes refl

keep_fits :
    (notice : Item) (turns : List (List Item)) (kept : List Item) (omitted : Bool)
    → size (notice ∷ kept) ≤ max_history_bytes
    → size (notice ∷ (keep notice turns kept omitted).0) ≤ max_history_bytes
keep_fits notice [] kept omitted h = h
keep_fits notice (turn ∷ turns) kept omitted h =
    elim (Bool-cases (ltb max_history_bytes (size (notice ∷ turn ++ kept)))) [
      | inl large ↦ rw large h
      | inr fits ↦ rw fits (
          keep_fits notice turns (turn ++ kept) omitted
            (ltb→ge max_history_bytes (size (notice ∷ turn ++ kept)) fits))
    ]

pub size_smaller : (a : Item) (items : List Item) → size items ≤ size (a ∷ items)
unfolding size
size_smaller a [] = omega arith
size_smaller a (b ∷ items) = omega arith

with_notice_fits :
    (notice : Item) (r : List Item × Bool)
    → size (notice ∷ r.0) ≤ max_history_bytes
    → size (with_notice notice r) ≤ max_history_bytes
with_notice_fits notice (kept, true) h = h
with_notice_fits notice (kept, false) h = omega (arith, size_smaller notice kept)

-- The history that is sent to the model takes at most 12,000 bytes, whatever the conversation.
pub bounded_history_fits :
    (history : List Item) → size (bounded_history history) ≤ max_history_bytes
unfolding bounded_history
bounded_history_fits history =
    let s = turns_of history in
    with_notice_fits history_notice (keep history_notice s.turns [] s.omitted)
      (keep_fits history_notice s.turns [] s.omitted notice_fits)

-- The texts of users and of the assistant, without the developer's.
abbrev pub spoken : List Item → List Item
spoken [] = []
spoken (item ∷ history) =
    let rest = spoken history in if is_developer item.role then rest else item ∷ rest

-- The turns in order of time, one after the other.
abbrev pub concat_turns : List (List Item) → List Item
concat_turns [] = []
concat_turns (turn ∷ turns) = concat_turns turns ++ turn

abbrev pub IsSuffix : List Item → List Item → Type 0
IsSuffix s t = (before : List Item) × (t ≡ before ++ s)

IsSuffix-trans : (s t u : List Item) → IsSuffix s t → IsSuffix t u → IsSuffix s u
IsSuffix-trans s t u (a, p) (b, q) = (b ++ a, q ∙ ap (λ x. b ++ x) p ∙ sym (++-assoc b a s))

-- What is kept ends the turns.
keep-IsSuffix :
    (notice : Item) (turns : List (List Item)) (kept : List Item) (omitted : Bool)
    → IsSuffix (keep notice turns kept omitted).0 (concat_turns turns ++ kept)
keep-IsSuffix notice [] kept omitted = ([], refl)
keep-IsSuffix notice (turn ∷ turns) kept omitted =
    elim (Bool-cases (ltb max_history_bytes (size (notice ∷ turn ++ kept)))) [
      | inl large ↦ rw large (concat_turns turns ++ turn, refl)
      | inr fits ↦
          let (before, is_before) = keep-IsSuffix notice turns (turn ++ kept) omitted in
          rw fits (before, ++-assoc (concat_turns turns) turn kept ∙ is_before)
    ]

-- One step of the loop neither reorders nor drops what was spoken after the first turn began.
add_by_role-IsSuffix :
    (role : Role) (item : Item) (s : Turns) (rest : List Item)
    → IsSuffix
        (concat_turns (add_by_role role item s).turns ++ rest)
        (concat_turns s.turns ++ (if is_developer role then rest else item ∷ rest))
add_by_role-IsSuffix developer item s rest = ([], refl)
add_by_role-IsSuffix user item s rest = ([], sym (++-assoc (concat_turns s.turns) (item ∷ []) rest))
add_by_role-IsSuffix assistant item s rest = add_reply-IsSuffix item s.omitted s.turns rest
  where
    add_reply-IsSuffix :
        (item : Item) (omitted : Bool) (turns : List (List Item)) (rest : List Item)
        → IsSuffix
            (concat_turns (add_reply item omitted turns).turns ++ rest)
            (concat_turns turns ++ item ∷ rest)
    add_reply-IsSuffix item omitted [] rest = (item ∷ [], refl)
    add_reply-IsSuffix item omitted (t ∷ turns) rest =
        let older = concat_turns turns in
        (
          [],
          ++-assoc older t (item ∷ rest)
              ∙ ap (λ x. older ++ x) (sym (++-assoc t (item ∷ []) rest))
              ∙ sym (++-assoc older (t ++ item ∷ []) rest),
        )

-- The turns are all that is spoken since the first message of the user.
collect-IsSuffix :
    (history : List Item) (s : Turns)
    → IsSuffix (concat_turns (collect history s).turns) (concat_turns s.turns ++ spoken history)
collect-IsSuffix [] s = ([], ++-nil (concat_turns s.turns))
collect-IsSuffix (item ∷ history) s =
    let next = add_by_role item.role item s in
    IsSuffix-trans (concat_turns (collect history next).turns)
      (concat_turns next.turns ++ spoken history) (concat_turns s.turns ++ spoken (item ∷ history))
      (collect-IsSuffix history next) (add_by_role-IsSuffix item.role item s (spoken history))

-- After the notice, if there is one, stands the end of what the user and the assistant said, in
-- order and unchanged.
pub bounded_history-IsSuffix :
    (history : List Item)
    → (kept : List Item) × ((bounded_history history ≡ kept)
        ⊎ (bounded_history history ≡ history_notice ∷ kept))
      × IsSuffix kept (spoken history)
unfolding bounded_history
bounded_history-IsSuffix history =
    let s = turns_of history in
    let r = keep history_notice s.turns [] s.omitted in
    (
      r.0,
      with_notice-cases history_notice r,
      IsSuffix-trans r.0 (concat_turns s.turns) (spoken history)
          (subst (IsSuffix r.0) (++-nil (concat_turns s.turns))
            (keep-IsSuffix history_notice s.turns [] s.omitted))
          (collect-IsSuffix history (record { omitted = any_developer history; turns = [] })),
    )
  where
    with_notice-cases :
        (notice : Item) (r : List Item × Bool)
        → (with_notice notice r ≡ r.0) ⊎ (with_notice notice r ≡ notice ∷ r.0)
    with_notice-cases notice (kept, true) = inr refl
    with_notice-cases notice (kept, false) = inl refl

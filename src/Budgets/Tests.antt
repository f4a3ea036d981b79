-- ===== src/Budgets/Tests.antt =====
-- Histories that are cut and that are sent whole: agent_runtime/budgets.py.
use parts_bin.Prelude.{◌≤◌, ◌≡◌, refl, leb→le, List, [], ◌∷◌}
use parts_bin.Budgets.{
  Item, user, assistant, size, history_notice, max_history_bytes, bounded_history,
}
use parts_bin.Budgets.History.{bounded_history_fits}

abbrev question : Item
question = record { role = user; text = 104 ∷ 105 ∷ [] }

abbrev answer : Item
answer = record { role = assistant; text = 34 ∷ 956 ∷ [] }

abbrev orphaned : List Item
orphaned = answer ∷ question ∷ answer ∷ []

cut : bounded_history orphaned ≡ history_notice ∷ question ∷ answer ∷ []
unfolding bounded_history size
cut = refl

-- `[{"role":"user","text":"hi"},{"role":"assistant","text":"\\"μ"}]`
measured : size (question ∷ answer ∷ []) ≡ 64
unfolding size
measured = refl

bounded_history_fits_example : size (bounded_history orphaned) ≤ max_history_bytes
bounded_history_fits_example = bounded_history_fits orphaned

small : size (history_notice ∷ question ∷ answer ∷ []) ≤ max_history_bytes
unfolding size
small = leb→le (size (history_notice ∷ question ∷ answer ∷ [])) max_history_bytes refl

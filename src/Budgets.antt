-- ===== src/Budgets.antt =====
-- agent_runtime/budgets.py: the part of a conversation that is sent to the model.
pub mod History
pub mod Complete
mod Tests
use parts_bin.Prelude.{
  ℕ, ◌+◌, Bool, true, false, ◌||◌, List, [], ◌∷◌, ◌++◌, ltb, ◌==◌, if◌then◌else◌,
}
use parts_bin.Storage.Parts.{Text}

pub data Role : Type 0 where
  developer user assistant : Role

-- One entry of a history, `{"role": …, "text": …}`
pub record Item : Type 0 where
  pub role : Role
  pub text : Text

abbrev pub max_history_bytes : ℕ
max_history_bytes = 12_000

-- The bytes of a code point in UTF-8
abbrev pub utf8_size : ℕ → ℕ
utf8_size c = if ltb c 128 then 1 else if ltb c 2048 then 2 else if ltb c 65536 then 3 else 4

-- The characters with an escape of two bytes: backspace, tab, newline, form feed, return
abbrev pub is_short_escape : ℕ → Bool
is_short_escape c = (c == 8) || (c == 9) || (c == 10) || (c == 12) || (c == 13)

-- The bytes of a code point inside a text that `json.dumps(…, ensure_ascii=False)` encodes: a quote
-- and a backslash are escaped, and control characters as `\\u` with four digits
abbrev pub char_size : ℕ → ℕ
char_size c =
    if (c == 34) || (c == 92) || is_short_escape c then 2 else if ltb c 32 then 6 else utf8_size c

abbrev pub text_size : Text → ℕ
text_size [] = 0
text_size (c ∷ s) = char_size c + text_size s

abbrev pub role_size : Role → ℕ
role_size developer = 9
role_size user = 4
role_size assistant = 9

-- `{"role":"` and `","text":"` and `"}` around the two texts
abbrev pub item_size : Item → ℕ
item_size item = 9 + role_size item.role + 10 + text_size item.text + 2

-- The items with a comma between each two
abbrev pub items_size : List Item → ℕ
items_size [] = 0
items_size (a ∷ []) = item_size a
items_size (a ∷ b ∷ items) = item_size a + 1 + items_size (b ∷ items)

-- `size`, on a list of items
unfoldable pub size : List Item → ℕ
size items = 2 + items_size items

-- `HISTORY_NOTICE`
abbrev pub history_notice : Item
history_notice = record {
  role = developer;
  text =
      69 ∷ 97 ∷ 114 ∷ 108 ∷ 105 ∷ 101 ∷ 114 ∷ 32 ∷ 99 ∷ 111 ∷ 110 ∷ 118 ∷ 101 ∷ 114 ∷ 115 ∷ 97 ∷ 116
      ∷ 105 ∷ 111 ∷ 110 ∷ 32 ∷ 116 ∷ 117 ∷ 114 ∷ 110 ∷ 115 ∷ 32 ∷ 119 ∷ 101 ∷ 114 ∷ 101 ∷ 32 ∷ 111
      ∷ 109 ∷ 105 ∷ 116 ∷ 116 ∷ 101 ∷ 100 ∷ 32 ∷ 116 ∷ 111 ∷ 32 ∷ 102 ∷ 105 ∷ 116 ∷ 32 ∷ 116 ∷ 104
      ∷ 101 ∷ 32 ∷ 99 ∷ 111 ∷ 110 ∷ 116 ∷ 101 ∷ 120 ∷ 116 ∷ 32 ∷ 98 ∷ 117 ∷ 100 ∷ 103 ∷ 101 ∷ 116
      ∷ 46 ∷ 32 ∷ 65 ∷ 115 ∷ 107 ∷ 32 ∷ 102 ∷ 111 ∷ 114 ∷ 32 ∷ 99 ∷ 108 ∷ 97 ∷ 114 ∷ 105 ∷ 102 ∷ 105
      ∷ 99 ∷ 97 ∷ 116 ∷ 105 ∷ 111 ∷ 110 ∷ 32 ∷ 119 ∷ 104 ∷ 101 ∷ 110 ∷ 32 ∷ 97 ∷ 32 ∷ 114 ∷ 101
      ∷ 102 ∷ 101 ∷ 114 ∷ 101 ∷ 110 ∷ 99 ∷ 101 ∷ 32 ∷ 110 ∷ 101 ∷ 101 ∷ 100 ∷ 115 ∷ 32 ∷ 111 ∷ 109
      ∷ 105 ∷ 116 ∷ 116 ∷ 101 ∷ 100 ∷ 32 ∷ 99 ∷ 111 ∷ 110 ∷ 116 ∷ 101 ∷ 120 ∷ 116 ∷ 59 ∷ 32 ∷ 100
      ∷ 111 ∷ 32 ∷ 110 ∷ 111 ∷ 116 ∷ 32 ∷ 105 ∷ 110 ∷ 118 ∷ 101 ∷ 110 ∷ 116 ∷ 32 ∷ 105 ∷ 116 ∷ 46
      ∷ [];
}

-- The loop's state. The turns stand newest first, so that `turns[-1]` is the head.
pub record Turns : Type 0 where
  pub omitted : Bool
  pub turns : List (List Item)

abbrev pub add_reply : Item → Bool → List (List Item) → Turns
add_reply item omitted [] = record { omitted = true; turns = [] }
add_reply item omitted (t ∷ turns) = record { omitted = omitted; turns = (t ++ item ∷ []) ∷ turns }

abbrev pub add_by_role : Role → Item → Turns → Turns
add_by_role developer item s = s
add_by_role user item s = record s { turns = (item ∷ []) ∷ s.turns }
add_by_role assistant item s = add_reply item s.omitted s.turns

-- `for item in history`
abbrev pub collect : List Item → Turns → Turns
collect [] s = s
collect (item ∷ history) s = collect history (add_by_role item.role item s)

abbrev pub is_developer : Role → Bool
is_developer developer = true
is_developer _ = false

-- `any(item.get("role") == "developer" for item in history)`
abbrev pub any_developer : List Item → Bool
any_developer [] = false
any_developer (item ∷ history) = is_developer item.role || any_developer history

-- `for turn in reversed(turns)`: what is kept, and whether something was omitted
abbrev pub keep : Item → List (List Item) → List Item → Bool → List Item × Bool
keep notice [] kept omitted = (kept, omitted)
keep notice (turn ∷ turns) kept omitted =
    let rest = keep notice turns (turn ++ kept) omitted in
    if ltb max_history_bytes (size (notice ∷ turn ++ kept)) then (kept, true) else rest

abbrev pub with_notice : Item → List Item × Bool → List Item
with_notice notice (kept, omitted) = (if omitted then notice ∷ [] else []) ++ kept

abbrev pub turns_of : List Item → Turns
turns_of history = collect history (record { omitted = any_developer history; turns = [] })

unfoldable pub bounded_history : List Item → List Item
bounded_history history =
    let s = turns_of history in
    with_notice history_notice (keep history_notice s.turns [] s.omitted)

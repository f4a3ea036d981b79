-- ===== src/Additions/Once.antt =====
-- An addition takes effect once under its identity: `_execute_addition` of tools/registry.py.
use parts_bin.Prelude.{
  ℕ, ◌≡◌, refl, ap, sym, ◌∙◌, true, false, Option, none, some, List, [], ◌∷◌, arith, Bool-cases,
  inl, inr, ==_refl, is_some,
}
use parts_bin.Storage.Table.{lookup, lookup-insert}
use parts_bin.Storage.Rows.{
  Db, ToolName, update_part, update_parts, bulk_update_parts, delete_part, apply_review,
  reject_review, apply_specification_review, reject_specification_review, other_tool, Arguments,
  ToolResult, OperationRow,
}
use parts_bin.Storage.Tx.{
  ok, conflict, gets, modify, ◌>>=◌, raise_if, raise_if-eq-ok, >>=-eq-ok, >>=-run,
}
use parts_bin.Approvals.Execution.{Caller, assert_caller, same_tool, same_ids, same_arguments}
use parts_bin.Additions.{
  Adder, add_operation, insert_operation, is_same_operation, add_fresh, add_unless,
  execute_addition,
}

same_tool_refl : (name : ToolName) → same_tool name name ≡ true
same_tool_refl update_part = refl
same_tool_refl update_parts = refl
same_tool_refl bulk_update_parts = refl
same_tool_refl delete_part = refl
same_tool_refl apply_review = refl
same_tool_refl reject_review = refl
same_tool_refl apply_specification_review = refl
same_tool_refl reject_specification_review = refl
same_tool_refl (other_tool a) = ==_refl a

same_ids_refl : (ids : List ℕ) → same_ids ids ids ≡ true
same_ids_refl [] = refl
same_ids_refl (i ∷ ids) = rw (==_refl i) (same_ids_refl ids)

same_arguments_refl : (args : Arguments) → same_arguments args args ≡ true
same_arguments_refl args = ground (
  arith,
  ==_refl args.part_id,
  ==_refl args.fields,
  ==_refl args.rest,
  same_ids_refl args.part_ids,
  same_ids_refl args.item_ids,
)

-- The operation is stored with its result.
abbrev pub IsDone : ℕ → ToolName → Arguments → ToolResult → Db → Type 0
IsDone id name args r db =
    (row : OperationRow) × (lookup id db.operations ≡ some row)
    × (is_same_operation name args row ≡ true)
    × (row.result ≡ r)

insert_operation-eq-ok :
    (id : ℕ) (row : OperationRow) (db : Db) (u : Unit) (db' : Db)
    → insert_operation id row db ≡ ok (u, db')
    → (lookup id db.operations ≡ none) × (add_operation id row db ≡ db')
unfolding insert_operation
insert_operation-eq-ok id row db u db' h =
    let taken = is_some (lookup id db.operations) in
    let (v, mid, is_free, rest) =
      >>=-eq-ok (raise_if taken conflict) (λ _. modify (add_operation id row)) db h in
    let (free, same) = raise_if-eq-ok taken conflict db v mid is_free in
    let added : add_operation id row mid ≡ db' = ground arith in
    (none_of_not_some (lookup id db.operations) free, ap (add_operation id row) same ∙ added)
  where
    none_of_not_some : (o : Option OperationRow) → is_some o ≡ false → o ≡ none
    none_of_not_some none k = refl
    none_of_not_some (some a) k = absurd (ground arith)

add_fresh-IsDone :
    (adder : Adder) (id : ℕ) (name : ToolName) (args : Arguments) (r : ToolResult) (db db' : Db)
    → add_fresh adder id name args db ≡ ok (r, db')
    → IsDone id name args r db'
add_fresh-IsDone adder id name args r db db' h =
    let (s, mid, is_run, h1) = >>=-eq-ok (adder.dispatch name args) _ db h in
    let row : OperationRow = record {
      tool_name = name;
      arguments = args;
      result = adder.mark name args s;
    } in
    let (u, last, is_kept, h2) = >>=-eq-ok (insert_operation id row) _ mid h1 in
    let (free, added) = insert_operation-eq-ok id row mid u last is_kept in
    let same : last ≡ db' = ground arith in
    let is_r : adder.mark name args s ≡ r = ground arith in
    (
      row,
      ap (λ d. lookup id d.operations) (sym (added ∙ same))
          ∙ ground (arith, lookup-insert id id row mid.operations, ==_refl id),
      ground (arith, same_tool_refl name, same_arguments_refl args),
      is_r,
    )

add_unless-IsDone :
    (adder : Adder) (id : ℕ) (name : ToolName) (args : Arguments) (previous : Option OperationRow)
    (r : ToolResult) (db db' : Db)
    → lookup id db.operations ≡ previous
    → add_unless adder id name args previous db ≡ ok (r, db')
    → IsDone id name args r db'
add_unless-IsDone adder id name args none r db db' found h =
    add_fresh-IsDone adder id name args r db db' h
add_unless-IsDone adder id name args (some row) r db db' found h =
    elim (Bool-cases (is_same_operation name args row)) [
      | inr other ↦ absurd (ground arith)
      | inl same ↦
          let is_after : db ≡ db' = ground arith in
          (row, ap (λ d. lookup id d.operations) (sym is_after) ∙ found, same, ground arith)
    ]

execute_addition-IsDone :
    (adder : Adder) (caller : Caller) (now id : ℕ) (name : ToolName) (args : Arguments)
    (r : ToolResult) (db db' : Db)
    → execute_addition adder caller now id name args db ≡ ok (r, db')
    → IsDone id name args r db'
unfolding execute_addition
execute_addition-IsDone adder caller now id name args r db db' h =
    let (u, mid, is_owned, rest) =
      >>=-eq-ok (assert_caller caller.execution_id caller.worker_id now)
        (λ _. gets (λ d. lookup id d.operations) >>= add_unless adder id name args) db h in
    add_unless-IsDone adder id name args (lookup id mid.operations) r mid db' refl rest

-- An addition that returned a result is not carried out again: the same operation, by a worker whose
-- lease holds, returns the same result and changes nothing.
pub execute_addition_again :
    (adder : Adder) (caller : Caller) (now id : ℕ) (name : ToolName) (args : Arguments)
    (r : ToolResult) (db db' : Db)
    → execute_addition adder caller now id name args db ≡ ok (r, db')
    → (caller' : Caller) (now' : ℕ)
    → assert_caller caller'.execution_id caller'.worker_id now' db' ≡ ok (tt, db')
    → execute_addition adder caller' now' id name args db' ≡ ok (r, db')
unfolding execute_addition
execute_addition_again adder caller now id name args r db db' h caller' now' owned =
    let (row, found, same, is_r) =
      execute_addition-IsDone adder caller now id name args r db db' h in
    >>=-run (assert_caller caller'.execution_id caller'.worker_id now')
      (λ _. gets (λ d. lookup id d.operations) >>= add_unless adder id name args) db' tt db' owned
    ∙ ap (λ o. add_unless adder id name args o db') found
    ∙ ground (arith, same, is_r)

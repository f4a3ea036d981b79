-- ===== src/Executions/Unfinished.antt =====
-- Intake and claims leave at most one unfinished execution in a conversation.
use parts_bin.Prelude.{
  ℕ, suc, ◌+◌, ◌*◌, ◌≤◌, ◌≡◌, ◌⊎◌, refl, ap, Bool, false, ◌&&◌, Option, none, some, [], ◌∷◌, arith,
  ◌==◌, if◌then◌else◌, Option-cases, Bool-cases, inl, inr,
}
use parts_bin.Storage.Table.{Table, lookup, update, insert, exists}
use parts_bin.Storage.Rows.{second, Db, Context, ExecutionRow, StoredExecution, is_unfinished}
use parts_bin.Storage.Tx.{ok}
use parts_bin.Outbox.{execution_in}
use parts_bin.Executions.{
  prepare, claim, has_unfinished, ready_row, begin_execution, lease_seconds, claim_row,
}

abbrev counts : ℕ → ExecutionRow → Bool
counts thread_id x = x.thread_id == thread_id && is_unfinished x.status

-- How many unfinished executions a conversation has.
abbrev pub unfinished_count : ℕ → Table ExecutionRow → ℕ
unfinished_count thread_id [] = 0
unfinished_count thread_id ((e, x) ∷ t) =
    let n = unfinished_count thread_id t in if counts thread_id x then suc n else n

count_of_none :
    (thread_id : ℕ) (t : Table ExecutionRow)
    → exists (λ e x. counts thread_id x) t ≡ false
    → unfinished_count thread_id t ≡ 0
count_of_none thread_id [] h = refl
count_of_none thread_id ((e, x) ∷ t) h = ground (arith, count_of_none thread_id t)

count-insert :
    (thread_id e : ℕ) (x : ExecutionRow) (t : Table ExecutionRow)
    → unfinished_count thread_id (insert e x t)
      ≡ unfinished_count thread_id t + (if counts thread_id x then 1 else 0)
count-insert thread_id e x [] = ground arith
count-insert thread_id e x ((j, y) ∷ t) = ground (arith, count-insert thread_id e x t)

count-update :
    (thread_id e : ℕ) (f : ExecutionRow → ExecutionRow) (t : Table ExecutionRow)
    → ((x : ExecutionRow) → counts thread_id (f x) ≡ counts thread_id x)
    → unfinished_count thread_id (update e f t) ≡ unfinished_count thread_id t
count-update thread_id e f [] h = refl
count-update thread_id e f ((j, x) ∷ t) h = ground (arith, count-update thread_id e f t h, h x)

count-begin_execution :
    (thread_id e : ℕ) (row : ExecutionRow) (db : Db) {r : StoredExecution} {db' : Db}
    → begin_execution e row db ≡ ok (r, db')
    → unfinished_count thread_id db.executions ≤ 1
    → unfinished_count thread_id db'.executions ≤ 1
count-begin_execution thread_id e row db h few = elim (Bool-cases (row.thread_id == thread_id)) [
  | inr other ↦ ground (arith, count-insert thread_id e row db.executions)
  | inl same ↦
      let same_thread : row.thread_id ≡ thread_id = ground arith in
      ground (
        arith,
        count-insert thread_id e row db.executions,
        count_of_none thread_id db.executions,
        ap (λ (t : ℕ). has_unfinished t db) same_thread,
      )
]

count-claim_row :
    (other e worker_id : ℕ) (x : ExecutionRow) (now : ℕ) (db : Db) {r : StoredExecution} {db' : Db}
    → claim_row e worker_id x now db ≡ ok (r, db')
    → unfinished_count other db'.executions ≡ unfinished_count other db.executions
count-claim_row other e worker_id x now db h = ground (
  arith,
  count-update other e
      (λ (y : ExecutionRow). record y {
        worker_id = some worker_id;
        lease_until = now + lease_seconds * second;
      })
      db.executions (λ y. refl),
)

one-prepare :
    (thread_id e other : ℕ) (context : Context) (db : Db) {r : StoredExecution} {db' : Db}
    → unfinished_count other db.executions ≤ 1
    → prepare thread_id e context db ≡ ok (r, db')
    → unfinished_count other db'.executions ≤ 1
unfolding prepare
one-prepare thread_id e other context db {r} {db'} few h =
    elim (Option-cases (lookup e db.executions)) [
      | inr (x, found) ↦ ground arith
      | inl absent ↦
          let row = ready_row thread_id context none 0 in
          let began : begin_execution e row db ≡ ok (r, db') = ground arith in
          count-begin_execution other e row db began few
    ]

one-claim :
    (thread_id e worker_id other : ℕ) (context : Option Context) (now : ℕ) (db : Db)
    {r : StoredExecution} {db' : Db}
    → unfinished_count other db.executions ≤ 1
    → claim thread_id e worker_id context now db ≡ ok (r, db')
    → unfinished_count other db'.executions ≤ 1
unfolding claim
one-claim thread_id e worker_id other context now db {r} {db'} few h =
    elim (Option-cases (execution_in thread_id e db)) [
      | inr (x, found) ↦
          let claimed : claim_row e worker_id x now db ≡ ok (r, db') = ground arith in
          let same = count-claim_row other e worker_id x now db claimed in omega (arith, same)
      | inl absent ↦ elim (Option-cases context) [
        | inl missing ↦ absurd (ground arith)
        | inr (c, given) ↦
            let row = ready_row thread_id c (some worker_id) (now + lease_seconds * second) in
            let began : begin_execution e row db ≡ ok (r, db') = ground arith in
            count-begin_execution other e row db began few
      ]
    ]

-- Neither intake nor a claim, when it succeeds, gives a conversation a second unfinished execution.
pub one_unfinished :
    (thread_id e worker_id other : ℕ) (context : Context) (requested : Option Context) (now : ℕ)
    (db : Db) {r : StoredExecution} {db' : Db}
    → unfinished_count other db.executions ≤ 1
    → (prepare thread_id e context db ≡ ok (r, db'))
      ⊎ (claim thread_id e worker_id requested now db ≡ ok (r, db'))
    → unfinished_count other db'.executions ≤ 1
one_unfinished thread_id e worker_id other context requested now db few (inl prepared) =
    one-prepare thread_id e other context db few prepared
one_unfinished thread_id e worker_id other context requested now db few (inr claimed) =
    one-claim thread_id e worker_id other requested now db few claimed

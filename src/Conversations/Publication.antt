-- ===== src/Conversations/Publication.antt =====
-- Publication under an identity happens once, and a conversation keeps its runtime.
use parts_bin.Prelude.{
  ℕ, ◌<◌, ◌≡◌, ◌≢◌, refl, ◌∙◌, true, none, some, List, [], ◌∷◌, ◌++◌, arith, Option-cases, inl, inr,
}
use parts_bin.Storage.Table.{lookup, lookup-insert}
use parts_bin.Storage.Rows.{
  Db, Runtime, openai, local, codex, ConversationEvent, EventId, cancel_request, blocked_error,
  blocked_completed, named, EventRow, EventKeyRow, ThreadRow, Revision,
}
use parts_bin.Storage.Tx.{ok, err, runtime_selection, >>=-eq-ok}
use parts_bin.Conversations.{
  same_runtime, same_id, find_key, find_event, last_sequence, event_of_row, published,
  create_thread, append_once, append_keyed, next_row, append_row, append_key, runtime_for,
  new_thread,
}

same_id_refl : (i : EventId) → same_id i i ≡ true
same_id_refl (cancel_request e) = ground arith
same_id_refl (blocked_error e v) = ground arith
same_id_refl (blocked_completed e v) = ground arith
same_id_refl (named a) = ground arith

same_runtime_refl : (r : Runtime) → same_runtime r r ≡ true
same_runtime_refl openai = refl
same_runtime_refl local = refl
same_runtime_refl codex = refl

find_key-snoc :
    (i : EventId) (keys : List EventKeyRow) (k : EventKeyRow)
    → find_key i keys ≡ none
    → k.event_id ≡ i
    → find_key i (keys ++ k ∷ []) ≡ some k
find_key-snoc i [] k h e = rw (e, same_id_refl i)
find_key-snoc i (j ∷ keys) k h e = ground (arith, find_key-snoc i keys k)

-- No row has a number above the last one.
find_event_above :
    (t n : ℕ) (rows : List EventRow) → last_sequence t rows < n → find_event t n rows ≡ none
find_event_above t n [] h = refl
find_event_above t n (e ∷ rows) h = ground (arith, find_event_above t n rows)

find_event-snoc :
    (t n : ℕ) (rows : List EventRow) (e : EventRow)
    → find_event t n rows ≡ none
    → e.thread_id ≡ t
    → e.sequence ≡ n
    → find_event t n (rows ++ e ∷ []) ≡ some e
find_event-snoc t n [] e h p q = ground arith
find_event-snoc t n (f ∷ rows) e h p q = ground (arith, find_event-snoc t n rows e)

-- What a fresh publication leaves behind is found under its identity.
published_fresh :
    (event : ConversationEvent) (i : EventId) (db : Db)
    → find_key i db.event_keys ≡ none
    → published i (append_key i (next_row event db) (append_row event db))
      ≡ some (next_row event db)
published_fresh event i db h =
    let row = next_row event db in
    let key : EventKeyRow = record {
      event_id = i;
      thread_id = row.thread_id;
      sequence = row.sequence;
    } in
    ground (
      arith,
      find_key-snoc i db.event_keys key h refl,
      find_event_above row.thread_id row.sequence db.events,
      find_event-snoc row.thread_id row.sequence db.events row,
    )

find_event_sound :
    (t n : ℕ) (rows : List EventRow) (e : EventRow)
    → find_event t n rows ≡ some e
    → (e.thread_id ≡ t) × (e.sequence ≡ n)
find_event_sound t n [] e h = cc
find_event_sound t n (f ∷ rows) e h = ground (arith, find_event_sound t n rows e)

-- A conversation that exists is bound to its runtime.
create_thread_again :
    (t : ℕ) (r : Runtime) (db : Db) (row : ThreadRow)
    → lookup t db.threads ≡ some row
    → row.runtime ≡ r
    → create_thread t r db ≡ ok (tt, db)
unfolding create_thread
create_thread_again t r db row h e = ground (arith, same_runtime_refl r)

same_runtime_eq : (r s : Runtime) → same_runtime r s ≡ true → r ≡ s
same_runtime_eq openai r h = ground arith
same_runtime_eq local r h = ground arith
same_runtime_eq codex r h = ground arith

runtime_for-new_thread :
    (t : ℕ) (r : Runtime) (v : Revision) (db : Db)
    → lookup t db.threads ≡ none
    → runtime_for t (new_thread t r v db) ≡ some r
unfolding runtime_for
runtime_for-new_thread t r v db h =
    let row : ThreadRow = record { runtime = r; thread_order = v.next_thread_order } in
    ground (arith, lookup-insert t t row db.threads)

-- A new conversation gets the runtime, and an old one has it.
create_thread_binds :
    (t : ℕ) (r : Runtime) (db : Db) {db' : Db}
    → create_thread t r db ≡ ok (tt, db')
    → runtime_for t db' ≡ some r
create_thread_binds t r db h = elim (Option-cases (lookup t db.threads)) [
  | inr (row, old) ↦
      unfold create_thread runtime_for in ground (arith, same_runtime_eq row.runtime r)
  | inl new ↦ elim (Option-cases db.pb_revision) [
    | inl missing ↦ unfold create_thread in ground arith
    | inr (v, found) ↦ unfold create_thread in ground (arith, runtime_for-new_thread t r v db new)
  ]
]

runtime_for-append_keyed :
    (event : ConversationEvent) (i : EventId) (db : Db) {r : ConversationEvent} {db' : Db}
    → append_keyed event i db ≡ ok (r, db')
    → runtime_for event.thread_id db' ≡ runtime_for event.thread_id db
unfolding append_keyed runtime_for
runtime_for-append_keyed event i db h = ground arith

-- A publication that succeeds leaves its conversation bound to the event's runtime.
pub append_once_binds :
    (event : ConversationEvent) (i : EventId) (db : Db) {r : ConversationEvent} {db' : Db}
    → append_once event i db ≡ ok (r, db')
    → runtime_for event.thread_id db' ≡ some event.runtime
unfolding append_once
append_once_binds event i db h =
    let (u, mid, made, kept) =
      >>=-eq-ok (create_thread event.thread_id event.runtime) (λ _. append_keyed event i) db h in
    runtime_for-append_keyed event i mid kept
    ∙ create_thread_binds event.thread_id event.runtime db made

-- What `append_keyed` returned is found under the identity afterwards.
append_keyed-published :
    (event : ConversationEvent) (i : EventId) (db : Db) {r : ConversationEvent} {db' : Db}
    → append_keyed event i db ≡ ok (r, db')
    → (row : EventRow) × (published i db' ≡ some row)
      × (row.thread_id ≡ event.thread_id)
      × (event_of_row row ≡ r)
unfolding append_keyed
append_keyed-published event i db h = elim (Option-cases (published i db)) [
  | inr (row, old) ↦ (row, ground arith, ground arith, ground arith)
  | inl new ↦ elim (Option-cases (find_key i db.event_keys)) [
    | inr (key, dangling) ↦ absurd (ground arith)
    | inl free ↦
        (next_row event db, ground (arith, published_fresh event i db free), refl, ground arith)
  ]
]

append_keyed_again :
    (event : ConversationEvent) (i : EventId) (db : Db) (row : EventRow)
    → published i db ≡ some row
    → row.thread_id ≡ event.thread_id
    → append_keyed event i db ≡ ok (event_of_row row, db)
unfolding append_keyed
append_keyed_again event i db row h e = ground arith

create_thread_bound :
    (t : ℕ) (r : Runtime) (db : Db) → runtime_for t db ≡ some r → create_thread t r db ≡ ok (tt, db)
unfolding runtime_for create_thread
create_thread_bound t r db h = elim (Option-cases (lookup t db.threads)) [
  | inl missing ↦ ground arith
  | inr (row, found) ↦ ground (arith, same_runtime_refl r)
]

-- Once an event is published under an identity, every later publication under it in the same
-- conversation, whatever its content, returns the first event and changes nothing.
pub append_once_again :
    (event later : ConversationEvent) (i : EventId) (db : Db) {r : ConversationEvent} {db' : Db}
    → append_once event i db ≡ ok (r, db')
    → later.thread_id ≡ event.thread_id
    → later.runtime ≡ event.runtime
    → append_once later i db' ≡ ok (r, db')
unfolding append_once
append_once_again event later i db {db' = db'} h same_thread same_binding =
    let (u, mid, made, kept) =
      >>=-eq-ok (create_thread event.thread_id event.runtime) (λ _. append_keyed event i) db h in
    let (row, found, in_thread, is_r) = append_keyed-published event i mid kept in
    let bound : runtime_for later.thread_id db' ≡ some later.runtime =
      cc (append_once_binds event i db h) in
    ground (
      arith,
      create_thread_bound later.thread_id later.runtime db' bound,
      append_keyed_again later i db' row found,
    )

-- A publication under another runtime than the one that a conversation is bound to is refused.
pub append_once_other_runtime :
    (event : ConversationEvent) (i : EventId) (db : Db) (r : Runtime)
    → runtime_for event.thread_id db ≡ some r
    → r ≢ event.runtime
    → append_once event i db ≡ err runtime_selection
unfolding append_once create_thread runtime_for
append_once_other_runtime event i db r h ne =
    elim (Option-cases (lookup event.thread_id db.threads)) [
      | inl missing ↦ ground arith
      | inr (row, found) ↦ ground (arith, same_runtime_eq row.runtime event.runtime)
    ]
